-- ===== src/HashMap/Walk.antt =====
-- The keys of a hash table in the order of `bpf_map_get_next_key`, and changes of one entry.
use fide.Base.{ℕ, ◌≡◌, refl, arith, Option, none, some, List, [], ◌∷◌, ◌++◌, ◌==◌, if◌then◌else◌}
use fide.HashMap.{lookup, store}

module _ {V : Type 0} where
  unfoldable pub first_key : List (ℕ × V) → Option ℕ
  first_key [] = none
  first_key ((k, v) ∷ m) = some k

  -- The key after `k`, which is in the table.
  unfoldable pub following : ℕ → List (ℕ × V) → Option ℕ
  following k [] = none
  following k ((j, v) ∷ m) = if k == j then first_key m else following k m

  -- After a key that is not in the table comes the first one.
  unfoldable pub key_after : ℕ → List (ℕ × V) → Option ℕ
  key_after k m = elim (lookup k m) [ none ↦ first_key m | some v ↦ following k m ]

  unfoldable pub erase : ℕ → List (ℕ × V) → List (ℕ × V)
  erase k [] = []
  erase k ((j, v) ∷ m) = if k == j then m else (j, v) ∷ erase k m

  -- No key stands twice.
  unfoldable pub Distinct : List (ℕ × V) → Type 0
  Distinct [] = Unit
  Distinct ((k, v) ∷ m) = (lookup k m ≡ none) × Distinct m

  -- No key of the second is in the first.
  unfoldable pub Apart : List (ℕ × V) → List (ℕ × V) → Type 0
  Apart before [] = Unit
  Apart before ((k, v) ∷ m) = (lookup k before ≡ none) × Apart before m

  pub nil-Apart : (m : List (ℕ × V)) → Apart [] m
  unfolding Apart lookup
  nil-Apart [] = tt
  nil-Apart ((k, v) ∷ m) = (refl, nil-Apart m)

  pub lookup-at :
      (before : List (ℕ × V)) (k : ℕ) (v : V) (m : List (ℕ × V))
      → lookup k before ≡ none
      → lookup k (before ++ (k, v) ∷ m) ≡ some v
  unfolding lookup
  lookup-at [] k v m h = ground arith
  lookup-at ((j, w) ∷ before) k v m h = ground (arith, lookup-at before k v m)

  following-at :
      (before : List (ℕ × V)) (k : ℕ) (v : V) (m : List (ℕ × V))
      → lookup k before ≡ none
      → following k (before ++ (k, v) ∷ m) ≡ first_key m
  unfolding lookup following
  following-at [] k v m h = ground arith
  following-at ((j, w) ∷ before) k v m h = ground (arith, following-at before k v m)

  pub key_after-at :
      (before : List (ℕ × V)) (k : ℕ) (v : V) (m : List (ℕ × V))
      → lookup k before ≡ none
      → key_after k (before ++ (k, v) ∷ m) ≡ first_key m
  unfolding key_after
  key_after-at before k v m h =
      ground (arith, lookup-at before k v m h, following-at before k v m h)

  pub store-at :
      (before : List (ℕ × V)) (k : ℕ) (v w : V) (m : List (ℕ × V))
      → lookup k before ≡ none
      → store k w (before ++ (k, v) ∷ m) ≡ before ++ (k, w) ∷ m
  unfolding lookup store
  store-at [] k v w m h = ground arith
  store-at ((j, u) ∷ before) k v w m h = ground (arith, store-at before k v w m)

  pub erase-at :
      (before : List (ℕ × V)) (k : ℕ) (v : V) (m : List (ℕ × V))
      → lookup k before ≡ none
      → erase k (before ++ (k, v) ∷ m) ≡ before ++ m
  unfolding lookup erase
  erase-at [] k v m h = ground arith
  erase-at ((j, u) ∷ before) k v m h = ground (arith, erase-at before k v m)

  lookup-snoc :
      (before : List (ℕ × V)) (j k : ℕ) (v : V)
      → lookup k (before ++ (j, v) ∷ [])
        ≡ elim (lookup k before) [ some w ↦ some w | none ↦ if k == j then some v else none ]
  unfolding lookup
  lookup-snoc [] j k v = refl
  lookup-snoc ((i, w) ∷ before) j k v = ground (arith, lookup-snoc before j k v)

  -- One more entry before: its key is not among the others.
  pub snoc-Apart :
      (before : List (ℕ × V)) (k : ℕ) (v : V) (m : List (ℕ × V))
      → Apart before m
      → lookup k m ≡ none
      → Apart (before ++ (k, v) ∷ []) m
  unfolding Apart lookup
  snoc-Apart before k v [] h f = tt
  snoc-Apart before k v ((j, w) ∷ m) (g, h) f =
      (ground (arith, lookup-snoc before k j v), snoc-Apart before k v m h (ground arith))
