-- ===== src/HashMap.antt =====
-- A BPF hash table with keys of one word, as its entries in the order in which a walk visits them;
-- the maps `logger` of both versions of main/xdp_prog_kern.c.
pub mod Walk
pub mod Laws
use fide.Base.{
  ℕ, ◌+◌, ◌≡◌, refl, arith, Option, none, some, List, [], ◌∷◌, ltb, ◌==◌, if◌then◌else◌, length,
}

module _ {V : Type 0} where
  unfoldable pub lookup : ℕ → List (ℕ × V) → Option V
  lookup k [] = none
  lookup k ((j, v) ∷ m) = if k == j then some v else lookup k m

  -- A write through the pointer that `lookup` returned.
  unfoldable pub store : ℕ → V → List (ℕ × V) → List (ℕ × V)
  store k v [] = []
  store k v ((j, w) ∷ m) = if k == j then (j, v) ∷ m else (j, w) ∷ store k v m

  -- `bpf_map_update_elem` with a key that is not there: refused when the map is full.
  unfoldable pub add_entry : ℕ → ℕ → V → List (ℕ × V) → List (ℕ × V)
  add_entry max_entries k v m = if ltb (length m) max_entries then (k, v) ∷ m else m

  module _ (f : V → ℕ) where
    unfoldable pub total : List (ℕ × V) → ℕ
    total [] = 0
    total ((k, v) ∷ m) = f v + total m

    pub total-store :
        (k : ℕ) (v w : V) (m : List (ℕ × V))
        → lookup k m ≡ some v
        → total (store k w m) + f v ≡ total m + f w
    unfolding total lookup store
    total-store k v w [] h = ground arith
    total-store k v w ((j, u) ∷ m) h = ground (arith, total-store k v w m)

    pub total-add_entry :
        (max_entries k : ℕ) (v : V) (m : List (ℕ × V))
        → total (add_entry max_entries k v m)
          ≡ (if ltb (length m) max_entries then f v + total m else total m)
    unfolding add_entry total
    total-add_entry max_entries k v m = ground arith

  pub length-store : (k : ℕ) (v : V) (m : List (ℕ × V)) → length (store k v m) ≡ length m
  unfolding store
  length-store k v [] = refl
  length-store k v ((j, w) ∷ m) = ground (arith, length-store k v m)
