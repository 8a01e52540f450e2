-- ===== src/Loader/Racing/Turns.antt =====
-- What one round does to each source.
use native.Mathlib.Decide.{ℕ_discrete}
use mathlib.Core.Path.{subst}
use fide.Base.{
  ℕ, ◌+◌, ◌^◌, ◌<◌, ◌≤◌, ◌≡◌, ◌≢◌, ap, ◌∙◌, arith, List, [], ◌∷◌, some, length, ◌==◌, if◌then◌else◌,
}
use fide.HashMap.{lookup, store, length-store}
use fide.HashMap.Walk.{erase, Distinct}
use fide.HashMap.Laws.{
  lookup-erase-other, lookup-erase, erase-Distinct, length-erase, lookup-store, lookup-store-other,
  store-Distinct,
}
use fide.Split.{LoggerValue, logger_max_entries}
use fide.Split.Interleaving.{insert_any}
use fide.Split.Interleaving.Sequential.{occurs}
use fide.Loader.{reset_one}
use fide.Loader.Memory.{table_calls}
use fide.Loader.Between.{record_all, all_present}
use fide.Loader.Racing.{Turn, turn}
use fide.Loader.Racing.Numbers.{numbers, record_all-numbers, record_all-Distinct, length-record_all}

-- What the write or deletion of a source leaves.
record Reset (k : ℕ) (v : LoggerValue) (m m' : List (ℕ × LoggerValue)) : Type 0 where
  own : numbers (lookup k m') ≡ (v.cur, 0)
  other : (j : ℕ) → j ≢ k → lookup j m' ≡ lookup j m
  distinct : Distinct m'
  size : length m' ≤ length m

reset_one-Reset :
    (k : ℕ) (v x : LoggerValue) (m : List (ℕ × LoggerValue))
    → Distinct m
    → lookup k m ≡ some x
    → Reset k v m (reset_one table_calls k v m).0
unfolding numbers
reset_one-Reset k v x m u e = elim (ℕ_discrete v.cur 0) [
  | yes z ↦
      let gone : erase k m ≡ (reset_one table_calls k v m).0 =
        unfold reset_one in ground (arith, z) in
      subst (Reset k v m) gone record {
        own = ap numbers (lookup-erase k m u) ∙ (unfold numbers in ground (arith, z));
        other = λ j n. lookup-erase-other j k m n;
        distinct = erase-Distinct k m u;
        size = length-erase k m;
      }
  | no z ↦
      let w = record v { prev = v.cur; cur = 0 } in
      let written : store k w m ≡ (reset_one table_calls k v m).0 =
        unfold reset_one insert_any in ground (arith, z, e) in
      subst (Reset k v m) written record {
        own = ap numbers (lookup-store k w x m e);
        other = λ j n. lookup-store-other j k w m n;
        distinct = store-Distinct k w m u;
        size = omega (arith, length-store k w m);
      }
]

abbrev pub arrivals : Turn → ℕ
arrivals w = length w.early + length w.between

-- What a round does to the numbers of a source: those of its own source that come before the
-- read are moved, those between the read and the write are lost; those of another are counted.
unfoldable pub turned : ℕ → Turn → ℕ × ℕ → ℕ × ℕ
turned j w r =
    if j == w.key
    then (r.1 + occurs j w.early, 0)
    else (r.0, r.1 + occurs j w.early + occurs j w.between)

pub record Turned (w : Turn) (m m' : List (ℕ × LoggerValue)) : Type 0 where
  pub each :
      (j : ℕ)
      → (numbers (lookup j m)).1 + arrivals w < 2 ^ 32
      → numbers (lookup j m') ≡ turned j w (numbers (lookup j m))
  pub still :
      (j : ℕ) (v : LoggerValue)
      → j ≢ w.key
      → lookup j m ≡ some v
      → (x : LoggerValue) × (lookup j m' ≡ some x)
  pub distinct : Distinct m'
  pub size : length m' ≤ length m + arrivals w

turn-found :
    (w : Turn) (v : LoggerValue) (m : List (ℕ × LoggerValue))
    → lookup w.key (record_all w.early m) ≡ some v
    → turn w m
      ≡ some (reset_one table_calls w.key v (record_all w.between (record_all w.early m))).0
unfolding turn
turn-found w v m e = ground (arith, e)

pub occurs-le : (j : ℕ) (js : List ℕ) → occurs j js ≤ length js
unfolding occurs
occurs-le j [] = omega arith
occurs-le j (k ∷ js) = ground (arith, occurs-le j js)

-- The numbers of a source after a round, where the read gave `v`.
turned_lem :
    (w : Turn) (v : LoggerValue) (m m' : List (ℕ × LoggerValue)) (j : ℕ)
    → lookup w.key (record_all w.early m) ≡ some v
    → Reset w.key v (record_all w.between (record_all w.early m)) m'
    → length m + arrivals w ≤ logger_max_entries
    → (numbers (lookup j m)).1 + arrivals w < 2 ^ 32
    → numbers (lookup j m') ≡ turned j w (numbers (lookup j m))
unfolding turned numbers
turned_lem w v m m' j f r slot room =
    let m1 = record_all w.early m in
    let one = record_all-numbers w.early m j (omega arith) (omega arith) in
    let now = ap (λ (x : ℕ × ℕ). x.1) one in
    let size1 = length-record_all w.early m in
    let two =
      record_all-numbers w.between m1 j (omega (arith, now, occurs-le j w.early))
        (omega (arith, size1)) in
    elim (ℕ_discrete j w.key) [
      | yes y ↦
          let here : numbers (lookup j m') ≡ (v.cur, 0) =
            ap (λ i. numbers (lookup i m')) y ∙ r.own in
          let read : numbers (lookup j m1) ≡ (v.prev, v.cur) =
            ap (λ i. numbers (lookup i m1)) y ∙ ap numbers f in
          ground (arith, here, read, one, y)
      | no n ↦ ap numbers (r.other j n) ∙ two ∙ ground (arith, one, n)
    ]

pub turn-Turned :
    (w : Turn) (v : LoggerValue) (m : List (ℕ × LoggerValue))
    → lookup w.key m ≡ some v
    → Distinct m
    → length m + arrivals w ≤ logger_max_entries
    → (m' : List (ℕ × LoggerValue)) × (turn w m ≡ some m') × Turned w m m'
turn-Turned w v m e u slot =
    let m1 = record_all w.early m in
    let m2 = record_all w.between m1 in
    let (v1, f) = all_present w.early w.key v m e in
    let (v2, g) = all_present w.between w.key v1 m1 f in
    let u2 = record_all-Distinct w.between m1 (record_all-Distinct w.early m u) in
    let r = reset_one-Reset w.key v1 v2 m2 u2 g in
    let size1 = length-record_all w.early m in
    let size2 = length-record_all w.between m1 in
    (
      (reset_one table_calls w.key v1 m2).0,
      turn-found w v1 m f,
      record {
        each = λ j. turned_lem w v1 m (reset_one table_calls w.key v1 m2).0 j f r slot;
        still = λ j x n h.
            let (x1, h1) = all_present w.early j x m h in
            let (x2, h2) = all_present w.between j x1 m1 h1 in (x2, r.other j n ∙ h2);
        distinct = r.distinct;
        size = omega (arith, r.size, size1, size2);
      },
    )
