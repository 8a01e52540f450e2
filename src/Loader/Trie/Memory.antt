-- ===== src/Loader/Trie/Memory.antt =====
-- A table with keys `struct lpm_v4_key` that meets what the loops of xdp_loader.c rely on.
use fide.Base.{
  ℕ, ◌≡◌, refl, ap, ◌∙◌, arith, List, [], ◌∷◌, Bool, true, ◌&&◌, Option, none, some, ◌==◌,
  if◌then◌else◌, Bool-cases, inl, inr,
}
use fide.Loader.Trie.{LpmKey, TrieCalls}
use fide.Loader.Trie.Drain.{Unlisted, head_key, TrieLaws}

unfoldable pub same_key : LpmKey → LpmKey → Bool
same_key a b = a.prefixlen == b.prefixlen && a.address == b.address

unfoldable pub find : LpmKey → List (LpmKey × ℕ) → Option ℕ
find k [] = none
find k ((j, v) ∷ es) = if same_key k j then some v else find k es

unfoldable pub remove : LpmKey → List (LpmKey × ℕ) → List (LpmKey × ℕ)
remove k [] = []
remove k ((j, v) ∷ es) = if same_key k j then es else (j, v) ∷ remove k es

-- The key after `k`, if `k` is there.
unfoldable pub after : LpmKey → List (LpmKey × ℕ) → Option LpmKey
after k [] = none
after k ((j, v) ∷ es) = if same_key k j then head_key es else after k es

unfoldable pub next_key : List (LpmKey × ℕ) → Option LpmKey → Option LpmKey
next_key es none = head_key es
next_key es (some k) = elim (find k es) [ none ↦ head_key es | some v ↦ after k es ]

abbrev pub list_calls : TrieCalls (List (LpmKey × ℕ))
list_calls = record {
  lookup_elem = λ es k. find k es;
  get_next_key = next_key;
  delete_elem = remove;
}

abbrev pub itself : List (LpmKey × ℕ) → List (LpmKey × ℕ)
itself es = es

same_key_refl : (k : LpmKey) → same_key k k ≡ true
unfolding same_key
same_key_refl k = ground arith

same_key-eq : (a b : LpmKey) → same_key a b ≡ true → a ≡ b
unfolding same_key
same_key-eq a b h = ground arith

find-none : (k : LpmKey) (es : List (LpmKey × ℕ)) → Unlisted k es → find k es ≡ none
unfolding find Unlisted
find-none k [] u = refl
find-none k ((j, v) ∷ es) (n, u) = elim (Bool-cases (same_key k j)) [
  | inl e ↦ absurd (n (same_key-eq k j e))
  | inr e ↦ rw e (find-none k es u)
]

next_key-missing :
    (es : List (LpmKey × ℕ)) (k : LpmKey) → Unlisted k es → next_key es (some k) ≡ head_key es
unfolding next_key
next_key-missing es k u = ground (arith, find-none k es u)

find-head :
    (m : List (LpmKey × ℕ)) (k : LpmKey) (v : ℕ) (es : List (LpmKey × ℕ))
    → m ≡ (k, v) ∷ es
    → find k m ≡ some v
unfolding find
find-head m k v es e = ap (find k) e ∙ rw (same_key_refl k) refl

remove-head :
    (m : List (LpmKey × ℕ)) (k : LpmKey) (v : ℕ) (es : List (LpmKey × ℕ))
    → m ≡ (k, v) ∷ es
    → remove k m ≡ es
unfolding remove
remove-head m k v es e = ap (remove k) e ∙ rw (same_key_refl k) refl

next_key-first : (es : List (LpmKey × ℕ)) → next_key es none ≡ head_key es
unfolding next_key
next_key-first es = refl

pub list_calls-TrieLaws : TrieLaws list_calls itself
list_calls-TrieLaws = record {
  first_law = next_key-first;
  missing_law = next_key-missing;
  lookup_law = find-head;
  delete_law = remove-head;
}
