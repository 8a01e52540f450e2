-- ===== src/Split/Sources.antt =====
-- What counting a packet does to the sources in user+ebpf/main/xdp_prog_kern.c.
use fide.Base.{ℕ, ◌≤◌, ◌≡◌, refl, ◌≢◌, arith, List, none, length, Option-cases, inl, inr, add32}
use fide.HashMap.{lookup, add_entry, total, total-store, total-add_entry, length-store}
use fide.HashMap.Walk.{Distinct}
use fide.HashMap.Laws.{lookup-store-none, upsert, upsert-Distinct}
use fide.Split.{LoggerValue, record_source, new_value, logger_max_entries}

abbrev pub prev_of : LoggerValue → ℕ
prev_of v = v.prev

pub record_source-prev :
    (k : ℕ) (m : List (ℕ × LoggerValue)) → total prev_of (record_source k m) ≡ total prev_of m
unfolding record_source
record_source-prev k m = elim (Option-cases (lookup k m)) [
  | inl e ↦ ground (arith, total-add_entry prev_of logger_max_entries k new_value m)
  | inr (v, e) ↦ ground (arith, total-store prev_of k v (record v { cur = add32 v.cur 1 }) m e)
]

-- The source is counted in its entry, or in a new one.
pub record_source-upsert :
    (k : ℕ) (m : List (ℕ × LoggerValue))
    → record_source k m
      ≡ upsert
          (λ (v : LoggerValue). record v { cur = add32 v.cur 1 })
          new_value
          logger_max_entries
          k
          m
unfolding record_source upsert
record_source-upsert k m = refl

pub record_source-Distinct :
    (k : ℕ) (m : List (ℕ × LoggerValue)) → Distinct m → Distinct (record_source k m)
record_source-Distinct k m u =
    rw (record_source-upsert k m) (upsert-Distinct _ new_value logger_max_entries k m u)

pub lookup-record_source :
    (j k : ℕ) (m : List (ℕ × LoggerValue))
    → j ≢ k
    → lookup j m ≡ none
    → lookup j (record_source k m) ≡ none
unfolding record_source add_entry lookup
lookup-record_source j k m n h = elim (Option-cases (lookup k m)) [
  | inl e ↦ ground arith
  | inr (v, e) ↦ ground (arith, lookup-store-none j k (record v { cur = add32 v.cur 1 }) m h)
]

pub length-record_source :
    (k : ℕ) (m : List (ℕ × LoggerValue))
    → length m ≤ logger_max_entries
    → length (record_source k m) ≤ logger_max_entries
unfolding record_source add_entry
length-record_source k m h = elim (Option-cases (lookup k m)) [
  | inl e ↦ ground arith
  | inr (v, e) ↦ ground (arith, length-store k (record v { cur = add32 v.cur 1 }) m)
]
