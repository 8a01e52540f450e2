-- ===== src/Split/Interleaving/Listed.antt =====
-- Where every source has its entry already: what a packet does to the sources.
use fide.Base.{ℕ, ◌≤◌, ◌≡◌, ◌≢◌, sym, ap, ◌∙◌, arith, List, none, some, add32, Every}
use fide.HashMap.{lookup, store, total, total-store}
use fide.HashMap.Laws.{lookup-store-kept, lookup-store-none}
use fide.Split.{LoggerValue}
use fide.Split.Counting.{cur_of}
use fide.Split.Interleaving.{Places, Apart, Task, to_look, to_add, to_insert, add_one, act}
use fide.Split.Interleaving.Bound.{add_one-store}

-- One source has no more packets than all.
pub cur-total :
    (k : ℕ) (v : LoggerValue) (m : List (ℕ × LoggerValue))
    → lookup k m ≡ some v
    → v.cur ≤ total cur_of m
cur-total k v m h = omega (arith, total-store cur_of k v (record v { cur = 0 }) m h)

-- The sources with one more packet of a source that has its entry.
unfoldable pub one_more : ℕ → List (ℕ × LoggerValue) → List (ℕ × LoggerValue)
one_more k m = elim (lookup k m) [
  | some w ↦ store k (record w { cur = add32 w.cur 1 }) m
  | none ↦ m
]

one_more-found :
    (k : ℕ) (w : LoggerValue) (m : List (ℕ × LoggerValue))
    → lookup k m ≡ some w
    → one_more k m ≡ store k (record w { cur = add32 w.cur 1 }) m
unfolding one_more
one_more-found k w m e = ground (arith, e)

-- The step that adds finds the entry of the source, where the pointer is to its element.
pub add_one-one_more :
    (place : Places) (k : ℕ) (w : LoggerValue) (m : List (ℕ × LoggerValue))
    → Apart place m
    → lookup k m ≡ some w
    → add_one place (place k) m ≡ one_more k m
add_one-one_more place k w m apart e =
    add_one-store place k w m apart e ∙ sym (one_more-found k w m e)

pub act-found :
    (place : Places) (k : ℕ) (w : LoggerValue) (m : List (ℕ × LoggerValue))
    → lookup k m ≡ some w
    → act (to_look k) place m ≡ (some (to_add k (place k)), m)
unfolding act
act-found place k w m e = ground (arith, e)

pub one_more-kept :
    (j k : ℕ) (w : LoggerValue) (m : List (ℕ × LoggerValue))
    → lookup k m ≡ some w
    → lookup j m ≢ none
    → lookup j (one_more k m) ≢ none
one_more-kept j k w m e h =
    rw (one_more-found k w m e) (lookup-store-kept j k (record w { cur = add32 w.cur 1 }) m h)

pub one_more-Apart :
    (place : Places) (k : ℕ) (w : LoggerValue) (m : List (ℕ × LoggerValue))
    → lookup k m ≡ some w
    → Apart place m
    → Apart place (one_more k m)
one_more-Apart place k w m e apart i j h l = apart i j (before i h) (before j l)
  where
    before : (i : ℕ) → lookup i (one_more k m) ≢ none → lookup i m ≢ none
    before i h x = h (
        ap (lookup i) (one_more-found k w m e)
        ∙ lookup-store-none i k (record w { cur = add32 w.cur 1 }) m x)

module _ (P : ℕ → Type 0) (place : Places) where
  -- The packet's source is of the kind `P`, and it is about to be looked up or to be added to its
  -- entry.
  abbrev pub Ready : Task → Type 0
  Ready (to_look k) = P k
  Ready (to_add k element) = P k × (element ≡ place k)
  Ready (to_insert k) = ⊥

  abbrev pub AllReady : List Task → Type 0
  AllReady ts = Every Ready ts
