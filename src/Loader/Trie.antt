-- ===== src/Loader/Trie.antt =====
-- check_trie of user+ebpf/main/xdp_loader.c, and the loop over a map that it shares with
-- calculate_entropy. Both are for a map whose keys are `struct lpm_v4_key` and whose values are
-- one `int`.
pub mod Drain
pub mod Memory
use fide.Base.{ℕ, zero, suc, ◌+◌, List, [], ◌∷◌, Option, none, some, ◌>>=◌}

-- `struct lpm_v4_key`.
pub record LpmKey : Type 0 where
  pub prefixlen : ℕ
  pub address : ℕ

-- `bpf_map_lookup_elem`, `bpf_map_get_next_key` from a key or from NULL, and
-- `bpf_map_delete_elem`.
pub record TrieCalls (M : Type 0) : Type 0 where
  pub lookup_elem : M → LpmKey → Option ℕ
  pub get_next_key : M → Option LpmKey → Option LpmKey
  pub delete_elem : LpmKey → M → M

-- The addresses and values in the order in which they were written, the counter `num` after the
-- loop, and the map.
pub record Drained (M : Type 0) : Type 0 where
  pub rows : List (ℕ × ℕ)
  pub num : ℕ
  pub left : M

-- What is in a buffer after a call that fills it or leaves it.
abbrev pub or_kept : {A : Type 0} → Option A → A → A
or_kept none old = old
or_kept (some new) old = new

-- A flow that `*next` and the value in the buffer make up.
abbrev pub row : LpmKey → ℕ → ℕ × ℕ
row next value = (next.address, value)

abbrev pub max_flows : ℕ
max_flows = 10000

-- The rows that are printed: `n` of the two arrays, which have `room` cells, the first ones
-- written and the others zero. `none` is a read past their end.
unfoldable pub print_rows : ℕ → ℕ → List (ℕ × ℕ) → Option (List (ℕ × ℕ))
print_rows zero room rows = some []
print_rows (suc n) zero rows = none
print_rows (suc n) (suc room) [] = do rest ← print_rows n room []; some ((0, 0) ∷ rest)
print_rows (suc n) (suc room) (r ∷ rows) = do rest ← print_rows n room rows; some (r ∷ rest)

module _ {M : Type 0} (calls : TrieCalls M) where
  -- The loop that reads and deletes; the first argument is how many rounds are left.
  unfoldable pub drain : ℕ → M → LpmKey → ℕ → ℕ → Drained M
  drain zero m next buffer num = record { rows = []; num = num; left = m }
  drain (suc n) m next buffer num =
      let value = or_kept (calls.lookup_elem m next) buffer in
      let m' = calls.delete_elem next m in
      elim (calls.get_next_key m' (some next)) [
        | none ↦ record { rows = row next value ∷ []; num = num; left = m' }
        | some key ↦
            let d = drain n m' key value (num + 1) in record d { rows = row next value ∷ d.rows }
      ]

  -- From the first key on; `memory` is what `*next` holds where the map has no key.
  unfoldable pub drain_all : LpmKey → M → Drained M
  drain_all memory m = drain max_flows m (or_kept (calls.get_next_key m none) memory) 0 0

  unfoldable pub check_trie : LpmKey → M → Option (List (ℕ × ℕ)) × M
  check_trie memory m =
      let d = drain_all memory m in (print_rows (suc d.num) max_flows d.rows, d.left)
