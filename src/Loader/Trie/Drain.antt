-- ===== src/Loader/Trie/Drain.antt =====
-- What the loop over a map of xdp_loader.c reads, and what is left of the map.
use mathlib.Core.Path.{subst}
use native.Mathlib.Decide.{dec_le}
use fide.Base.{
  ℕ, zero, suc, ◌+◌, ◌≤◌, ◌<◌, ◌≡◌, ◌≢◌, ◌⊎◌, inl, inr, refl, sym, ap, ◌∙◌, arith, List, [], ◌∷◌,
  Option, none, some, length, List-cases,
}
use fide.Loader.Trie.{
  LpmKey, TrieCalls, Drained, row, or_kept, max_flows, drain, drain_all, print_rows, check_trie,
}

unfoldable pub Unlisted : LpmKey → List (LpmKey × ℕ) → Type 0
Unlisted k [] = Unit
Unlisted k ((j, v) ∷ es) = (k ≢ j) × Unlisted k es

-- No key stands twice.
unfoldable pub Once : List (LpmKey × ℕ) → Type 0
Once [] = Unit
Once ((k, v) ∷ es) = Unlisted k es × Once es

unfoldable pub head_key : List (LpmKey × ℕ) → Option LpmKey
head_key [] = none
head_key ((k, v) ∷ es) = some k

-- The documented behaviour of the calls on a hash table, for one whose entries, in the order of
-- a walk, are `entries`: the key after NULL, or after one that is not there, is the first.
pub record TrieLaws {M : Type 0} (calls : TrieCalls M) (entries : M → List (LpmKey × ℕ))
    : Type 0 where
  pub first_law : (m : M) → calls.get_next_key m none ≡ head_key (entries m)
  pub missing_law :
      (m : M) (k : LpmKey)
      → Unlisted k (entries m)
      → calls.get_next_key m (some k) ≡ head_key (entries m)
  pub lookup_law :
      (m : M) (k : LpmKey) (v : ℕ) (es : List (LpmKey × ℕ))
      → entries m ≡ (k, v) ∷ es
      → calls.lookup_elem m k ≡ some v
  pub delete_law :
      (m : M) (k : LpmKey) (v : ℕ) (es : List (LpmKey × ℕ))
      → entries m ≡ (k, v) ∷ es
      → entries (calls.delete_elem k m) ≡ es

-- The entries as rows.
unfoldable pub rows_of : List (LpmKey × ℕ) → List (ℕ × ℕ)
rows_of [] = []
rows_of ((k, v) ∷ es) = row k v ∷ rows_of es

length-rows_of : (es : List (LpmKey × ℕ)) → length (rows_of es) ≡ length es
unfolding rows_of
length-rows_of [] = refl
length-rows_of ((k, v) ∷ es) = ap suc (length-rows_of es)

module _ {M : Type 0} (calls : TrieCalls M) (entries : M → List (LpmKey × ℕ))
    (laws : TrieLaws calls entries) where
  next_after :
      (m : M) (k : LpmKey) (v : ℕ) (es : List (LpmKey × ℕ))
      → entries m ≡ (k, v) ∷ es
      → Unlisted k es
      → calls.get_next_key (calls.delete_elem k m) (some k) ≡ head_key es
  next_after m k v es e u =
      let left = laws.delete_law m k v es e in
      laws.missing_law (calls.delete_elem k m) k (subst (Unlisted k) (sym left) u)
      ∙ ap head_key left

  drain-last :
      (n : ℕ) (m : M) (k : LpmKey) (v buffer num : ℕ)
      → calls.lookup_elem m k ≡ some v
      → calls.get_next_key (calls.delete_elem k m) (some k) ≡ none
      → drain calls (suc n) m k buffer num
        ≡ record { rows = row k v ∷ []; num = num; left = calls.delete_elem k m }
  unfolding drain
  drain-last n m k v buffer num hit end = ground arith

  drain-more :
      (n : ℕ) (m : M) (k key : LpmKey) (v buffer num : ℕ)
      → calls.lookup_elem m k ≡ some v
      → calls.get_next_key (calls.delete_elem k m) (some k) ≡ some key
      → let d = drain calls n (calls.delete_elem k m) key v (num + 1) in
        drain calls (suc n) m k buffer num
        ≡ record { rows = row k v ∷ d.rows; num = d.num; left = d.left }
  unfolding drain
  drain-more n m k key v buffer num hit next = ground arith

  -- The loop reads the entries in order, as many as it has rounds, and deletes them.
  pub drain-rows :
      (n : ℕ) (m : M) (k : LpmKey) (v : ℕ) (es : List (LpmKey × ℕ)) (buffer num : ℕ)
      → entries m ≡ (k, v) ∷ es
      → Once ((k, v) ∷ es)
      → length es < n
      → (m' : M) × (drain calls n m k buffer num
          ≡ record { rows = rows_of ((k, v) ∷ es); num = num + length es; left = m' })
        × (entries m' ≡ [])
  unfolding drain rows_of Once head_key
  drain-rows zero m k v es buffer num e o h = absurd (omega arith)
  drain-rows (suc n) m k v [] buffer num e (u, o) h =
      let m' = calls.delete_elem k m in
      let hit = laws.lookup_law m k v [] e in
      let end = next_after m k v [] e u in
      (
        m',
        drain-last n m k v buffer num hit end
            ∙ ap (λ t. record { rows = row k v ∷ []; num = t; left = m' }) {y = num + 0}
                (omega arith),
        laws.delete_law m k v [] e,
      )
  drain-rows (suc n) m k v ((k2, v2) ∷ es) buffer num e (u, o) h =
      let hit = laws.lookup_law m k v ((k2, v2) ∷ es) e in
      let next = next_after m k v ((k2, v2) ∷ es) e u in
      let (m', ran, empty) =
        drain-rows n (calls.delete_elem k m) k2 v2 es v (num + 1)
          (laws.delete_law m k v ((k2, v2) ∷ es) e) o (omega arith) in
      (
        m',
        drain-more n m k k2 v buffer num hit next
            ∙ ap (λ (d : Drained M). record { rows = row k v ∷ d.rows; num = d.num; left = d.left })
                ran
            ∙ ap (λ t. record { rows = rows_of ((k, v) ∷ (k2, v2) ∷ es); num = t; left = m' })
                {x = num + 1 + length es} (omega arith),
        empty,
      )

  -- On a map with more entries the loop runs through all its rounds.
  pub drain-num :
      (n : ℕ) (m : M) (k : LpmKey) (v : ℕ) (es : List (LpmKey × ℕ)) (buffer num : ℕ)
      → entries m ≡ (k, v) ∷ es
      → Once ((k, v) ∷ es)
      → n ≤ length es
      → (drain calls n m k buffer num).num ≡ num + n
  unfolding drain Once head_key
  drain-num zero m k v es buffer num e o h = omega arith
  drain-num (suc n) m k v [] buffer num e o h = absurd (omega arith)
  drain-num (suc n) m k v ((k2, v2) ∷ es) buffer num e (u, o) h =
      let hit = laws.lookup_law m k v ((k2, v2) ∷ es) e in
      let next = next_after m k v ((k2, v2) ∷ es) e u in
      let ih =
        drain-num n (calls.delete_elem k m) k2 v2 es v (num + 1)
          (laws.delete_law m k v ((k2, v2) ∷ es) e) o (omega arith) in
      ap (λ (d : Drained M). d.num) (drain-more n m k k2 v buffer num hit next) ∙ omega (arith, ih)

  first_drained :
      (memory : LpmKey) (m : M) (k : LpmKey) (v : ℕ) (es : List (LpmKey × ℕ))
      → entries m ≡ (k, v) ∷ es
      → drain_all calls memory m ≡ drain calls max_flows m k 0 0
  unfolding drain_all head_key
  first_drained memory m k v es e =
      ap (λ o. drain calls max_flows m (or_kept o memory) 0 0) (laws.first_law m ∙ ap head_key e)

  -- The loop over a map that has entries, none twice and no more than the loop has rounds, reads
  -- them in order, leaves `num` one below their number and the map empty.
  pub drain_all-rows :
      (memory : LpmKey) (m : M)
      → entries m ≢ []
      → Once (entries m)
      → length (entries m) ≤ max_flows
      → (m' : M) × (num : ℕ) × (drain_all calls memory m
          ≡ record { rows = rows_of (entries m); num = num; left = m' })
        × (num + 1 ≡ length (entries m))
        × (entries m' ≡ [])
  drain_all-rows memory m full o h = elim (List-cases (entries m)) [
    | inl nil ↦ absurd (full nil)
    | inr ((k, v), es, e) ↦
        let (m', ran, empty) =
          drain-rows max_flows m k v es 0 0 e (subst Once (e) o) (omega (arith, ap length e)) in
        (
          m',
          0 + length es,
          first_drained memory m k v es e
              ∙ ran
              ∙ ap (λ xs. record { rows = rows_of xs; num = 0 + length es; left = m' }) (sym e),
          omega (arith, ap length e),
          empty,
        )
  ]

print_rows-all :
    (room : ℕ) (rows : List (ℕ × ℕ))
    → length rows ≤ room
    → print_rows (length rows) room rows ≡ some rows
unfolding print_rows
print_rows-all room [] h = refl
print_rows-all zero (r ∷ rows) h = absurd (omega arith)
print_rows-all (suc room) (r ∷ rows) h = rw (print_rows-all room rows (omega arith)) refl

print_rows-none : (n room : ℕ) (rows : List (ℕ × ℕ)) → room < n → print_rows n room rows ≡ none
unfolding print_rows
print_rows-none zero room rows h = absurd (omega arith)
print_rows-none (suc n) zero rows h = refl
print_rows-none (suc n) (suc room) [] h = rw (print_rows-none n room [] (omega arith)) refl
print_rows-none (suc n) (suc room) (r ∷ rows) h =
    rw (print_rows-none n room rows (omega arith)) refl

module _ {M : Type 0} (calls : TrieCalls M) (entries : M → List (LpmKey × ℕ))
    (laws : TrieLaws calls entries) where
  check_trie-long :
      (memory : LpmKey) (m : M) (k : LpmKey) (v : ℕ) (es : List (LpmKey × ℕ))
      → entries m ≡ (k, v) ∷ es
      → Once ((k, v) ∷ es)
      → max_flows ≤ length es
      → (check_trie calls memory m).0 ≡ none
  unfolding check_trie
  check_trie-long memory m k v es e o h =
      let all =
        ap (λ (d : Drained M). d.num) (first_drained calls entries laws memory m k v es e)
        ∙ drain-num calls entries laws max_flows m k v es 0 0 e o h in
      print_rows-none (suc (drain_all calls memory m).num) max_flows (drain_all calls memory m).rows
        (omega (arith, all))

  -- check_trie on a map that has entries, none twice: it prints each one in order and leaves the
  -- map empty where there are at most 10000, and reads past the end of its arrays where there are
  -- more.
  pub check_trie_lem :
      (memory : LpmKey) (m : M)
      → entries m ≢ []
      → Once (entries m)
      → ((length (entries m) ≤ max_flows)
          × ((m' : M) × (check_trie calls memory m ≡ (some (rows_of (entries m)), m'))
              × (entries m' ≡ [])))
        ⊎ ((max_flows < length (entries m)) × ((check_trie calls memory m).0 ≡ none))
  unfolding check_trie
  check_trie_lem memory m full o = elim (dec_le (length (entries m)) max_flows) [
    | yes h ↦
        let (m', num, ran, all, empty) = drain_all-rows calls entries laws memory m full o h in
        let size = length-rows_of (entries m) in
        let rows = rows_of (entries m) in
        inl (
          h,
          (
            m',
            ap (λ (d : Drained M). (print_rows (suc d.num) max_flows d.rows, d.left)) ran
                ∙ ap (λ n. (print_rows n max_flows rows, m')) {x = suc num} {y = length rows}
                    (omega (arith, all, size))
                ∙ ap (λ o. (o, m')) (print_rows-all max_flows rows (omega (arith, size))),
            empty,
          ),
        )
    | no h ↦ elim (List-cases (entries m)) [
      | inl nil ↦ absurd (full nil)
      | inr ((k, v), es, e) ↦ inr (
        omega (arith, h),
        check_trie-long memory m k v es e (subst Once (e) o) (omega (arith, h, ap length e)),
      )
    ]
  ]
