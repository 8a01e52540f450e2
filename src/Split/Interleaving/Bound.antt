-- ===== src/Split/Interleaving/Bound.antt =====
-- No order of the steps counts a packet of a source twice.
use native.Mathlib.Decide.{ℕ_discrete}
use fide.Base.{
  or_done, ℕ, ◌+◌, ◌≤◌, ◌≡◌, ◌≢◌, refl, sym, ap, [], arith, List, ◌∷◌, none, some, add32, length,
  length-append, Option-cases, inl, inr,
}
use fide.HashMap.{lookup, store, total, total-store, total-add_entry}
use fide.Split.{LoggerValue, DataValue, new_value, record_source, logger_max_entries}
use fide.Split.Counting.{cur_of}
use fide.Split.Interleaving.{
  Task, Places, Apart, to_look, to_add, to_insert, insert_any, add_one, act, Machine, Moves, arrive,
  advance, Runs, begin, continue,
}

-- Through the pointer of a lookup just before, the packet is added to the entry of its source,
-- where no two entries stand in one element.
pub add_one-store :
    (place : Places) (k : ℕ) (w : LoggerValue) (m : List (ℕ × LoggerValue))
    → Apart place m
    → lookup k m ≡ some w
    → add_one place (place k) m ≡ store k (record w { cur = add32 w.cur 1 }) m
unfolding add_one store lookup
add_one-store place k w [] apart e = absurd (ground (arith, e))
add_one-store place k w ((j, v) ∷ m) apart e = elim (ℕ_discrete k j) [
  | yes y ↦ ground (arith, e, y, ap place y)
  | no n ↦
      let apart_rest : Apart place m =
        λ i l h x p. apart i l (later_present i h) (later_present l x) p in
      let there : lookup k m ≡ some w = ground (arith, e, n) in
      let here_apart : place j ≢ place k = λ z. n (
        sym (apart j k (λ x. absurd (ground (arith, x))) (λ x. absurd (ground (arith, x, e))) z)) in
      ground (arith, n, here_apart, add_one-store place k w m apart_rest there)
]
  where
    later_present : (i : ℕ) → lookup i m ≢ none → lookup i ((j, v) ∷ m) ≢ none
    later_present i h x = h (ground (arith, x))

-- Without a step of another packet in between, the steps are the handler's.
pub steps_alone :
    (place : Places) (k : ℕ) (m : List (ℕ × LoggerValue))
    → Apart place m
    → elim (act (to_look k) place m).0 as (λ o. List (ℕ × LoggerValue)) [
      | some t ↦ (act t place m).1
      | none ↦ m
    ]
      ≡ record_source k m
unfolding act insert_any record_source
steps_alone place k m apart = elim (Option-cases (lookup k m)) [
  | inl e ↦ ground arith
  | inr (w, e) ↦ ground (arith, e, add_one-store place k w m apart e)
]

add_one-total :
    (place : Places) (element : ℕ) (m : List (ℕ × LoggerValue))
    → total cur_of (add_one place element m) ≤ total cur_of m + 1
unfolding add_one total
add_one-total place element [] = omega arith
add_one-total place element ((k, v) ∷ m) = ground (arith, add_one-total place element m)

insert_any-total :
    (k : ℕ) (m : List (ℕ × LoggerValue))
    → total cur_of (insert_any k new_value m) ≤ total cur_of m + 1
unfolding insert_any
insert_any-total k m = elim (Option-cases (lookup k m)) [
  | inl e ↦ ground (arith, total-add_entry cur_of logger_max_entries k new_value m)
  | inr (w, e) ↦ ground (arith, total-store cur_of k w new_value m)
]

-- A step does not raise the packets of the sources and of those who wait together.
act-total :
    (t : Task) (place : Places) (m : List (ℕ × LoggerValue)) (b : List Task)
    → total cur_of (act t place m).1 + length (or_done (act t place m).0 b)
      ≤ total cur_of m + 1 + length b
unfolding act
act-total (to_look k) place m b = elim (Option-cases (lookup k m)) [
  | inl e ↦ ground arith
  | inr (w, e) ↦ ground arith
]
act-total (to_add k element) place m b = omega (arith, add_one-total place element m)
act-total (to_insert k) place m b = omega (arith, insert_any-total k m)

-- The sources' packets and those that wait are no more than the interval has.
pub record Within (s : Machine) : Type 0 where
  pub entry : DataValue
  pub is_entry : s.kernel.data_entry ≡ some entry
  pub bound : total cur_of s.kernel.logger + length s.tasks ≤ entry.cur_interval_pkt

Moves-Within : {P : ℕ → Type 0} (s t : Machine) → Moves P s t → Within s → Within t
Moves-Within s t (arrive _ k d p e room) w =
    let same : w.entry ≡ d = ground (arith, w.is_entry) in
    record {
      entry = record d { cur_interval_pkt = add32 d.cur_interval_pkt 1 };
      is_entry = refl;
      bound = omega (arith, w.bound, ap (λ (x : DataValue). x.cur_interval_pkt) same);
    }
Moves-Within s t (advance _ a b x free e unused) w = record {
  entry = w.entry;
  is_entry = w.is_entry;
  bound = omega (
    arith,
    act-total x s.place s.kernel.logger b,
    w.bound,
    ap length e,
    length-append a (x ∷ b),
    length-append a (or_done (act x s.place s.kernel.logger).0 b),
  );
}

-- In whatever order several processors take the steps for the packets that come: the packets
-- of all sources and those being counted are never more than the interval has, if they were not
-- before; where the interval's count does not overflow.
pub Runs-Within : {P : ℕ → Type 0} (s t : Machine) → Runs P s t → Within s → Within t
Runs-Within s t (begin _) w = w
Runs-Within s t (continue _ u _ r m) w = Moves-Within u t m (Runs-Within s u r w)
