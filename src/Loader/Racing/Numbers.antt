-- ===== src/Loader/Racing/Numbers.antt =====
-- The numbers of each source in the map after any packets.
use native.Mathlib.Decide.{ℕ_discrete}
use mathlib.Core.Path.{subst}
use fide.Base.{
  ℕ, ◌+◌, ◌^◌, ◌<◌, ◌≤◌, ◌≡◌, sym, ap, arith, List, [], ◌∷◌, Option, none, some, length, ◌==◌,
  if◌then◌else◌, Option-cases, inl, inr, add32,
}
use fide.HashMap.{lookup, length-store}
use fide.HashMap.Walk.{Distinct}
use fide.HashMap.Laws.{lookup-store, upsert-missing}
use fide.Split.{LoggerValue, new_value, record_source, logger_max_entries}
use fide.Split.Sources.{record_source-upsert, record_source-Distinct}
use fide.Split.Interleaving.Sequential.{occurs}
use fide.Loader.Between.{record_all, record_source-found, lookup-record_source-other}

-- The packets of a source in the interval before and in this one, none where it has no entry.
unfoldable pub numbers : Option LoggerValue → ℕ × ℕ
numbers none = (0, 0)
numbers (some v) = (v.prev, v.cur)

own_source :
    (k : ℕ) (m : List (ℕ × LoggerValue))
    → (numbers (lookup k m)).1 + 1 < 2 ^ 32
    → length m < logger_max_entries
    → numbers (lookup k (record_source k m))
      ≡ ((numbers (lookup k m)).0, (numbers (lookup k m)).1 + 1)
unfolding numbers
own_source k m room slot = elim (Option-cases (lookup k m)) [
  | inl e ↦
      rw (record_source-upsert k m, upsert-missing _ new_value logger_max_entries k m e)
        (unfold lookup in ground (arith, e))
  | inr (v, e) ↦
      let u = record v { cur = add32 v.cur 1 } in
      rw (record_source-found k v m e) (ground (arith, e, lookup-store k u v m e))
]

record_source-numbers :
    (j k : ℕ) (m : List (ℕ × LoggerValue))
    → (numbers (lookup j m)).1 + 1 < 2 ^ 32
    → length m < logger_max_entries
    → numbers (lookup j (record_source k m))
      ≡ ((numbers (lookup j m)).0, (numbers (lookup j m)).1 + (if k == j then 1 else 0))
record_source-numbers j k m room slot = elim (ℕ_discrete k j) [
  | no n ↦ rw (lookup-record_source-other k j m n) (ground arith)
  | yes y ↦
      let own : numbers (lookup k (record_source k m))
          ≡ ((numbers (lookup k m)).0, (numbers (lookup k m)).1 + 1) =
        own_source k m (subst (λ i. (numbers (lookup i m)).1 + 1 < 2 ^ 32) (sym y) room) slot in
      let here : numbers (lookup j (record_source k m))
          ≡ ((numbers (lookup j m)).0, (numbers (lookup j m)).1 + 1) =
        subst
          (λ i.
            numbers (lookup i (record_source k m))
            ≡ ((numbers (lookup i m)).0, (numbers (lookup i m)).1 + 1))
          y own in
      ground (arith, here, y)
]

length-record_source :
    (k : ℕ) (m : List (ℕ × LoggerValue)) → length (record_source k m) ≤ length m + 1
length-record_source k m = elim (Option-cases (lookup k m)) [
  | inl e ↦
      rw (record_source-upsert k m, upsert-missing _ new_value logger_max_entries k m e)
        (ground arith)
  | inr (v, e) ↦
      let u = record v { cur = add32 v.cur 1 } in
      rw (record_source-found k v m e) (omega (arith, length-store k u m))
]

pub record_all-numbers :
    (js : List ℕ) (m : List (ℕ × LoggerValue)) (j : ℕ)
    → (numbers (lookup j m)).1 + length js < 2 ^ 32
    → length m + length js ≤ logger_max_entries
    → numbers (lookup j (record_all js m))
      ≡ ((numbers (lookup j m)).0, (numbers (lookup j m)).1 + occurs j js)
unfolding record_all occurs
record_all-numbers [] m j room slot = ground arith
record_all-numbers (k ∷ js) m j room slot =
    let one = record_source-numbers j k m (omega arith) (omega arith) in
    let now = ap (λ (r : ℕ × ℕ). r.1) one in
    ground (
      arith,
      one,
      record_all-numbers js (record_source k m) j (ground (arith, now))
          (omega (arith, length-record_source k m)),
    )

pub record_all-Distinct :
    (js : List ℕ) (m : List (ℕ × LoggerValue)) → Distinct m → Distinct (record_all js m)
unfolding record_all
record_all-Distinct [] m u = u
record_all-Distinct (k ∷ js) m u =
    record_all-Distinct js (record_source k m) (record_source-Distinct k m u)

pub length-record_all :
    (js : List ℕ) (m : List (ℕ × LoggerValue)) → length (record_all js m) ≤ length m + length js
unfolding record_all
length-record_all [] m = omega arith
length-record_all (k ∷ js) m =
    omega (arith, length-record_source k m, length-record_all js (record_source k m))
