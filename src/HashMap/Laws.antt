-- ===== src/HashMap/Laws.antt =====
-- Lookups of one key of a hash table after a change of another entry, or of the same.
use mathlib.Core.Path.{subst}
use fide.Base.{
  ℕ, ◌≤◌, ◌≡◌, ◌≢◌, refl, sym, arith, List, [], ◌∷◌, Bool, true, false, none, some, length, ltb,
  if◌then◌else◌, Option-cases, inl, inr,
}
use fide.HashMap.{lookup, store, add_entry}
use fide.HashMap.Walk.{erase, Distinct}

module _ {V : Type 0} where
  pub store-store : (k : ℕ) (u v : V) (m : List (ℕ × V)) → store k v (store k u m) ≡ store k v m
  unfolding store
  store-store k u v [] = refl
  store-store k u v ((j, w) ∷ m) = ground (arith, store-store k u v m)

  pub store-store-other :
      (j k : ℕ) (u w : V) (m : List (ℕ × V))
      → j ≢ k
      → store k u (store j w m) ≡ store j w (store k u m)
  unfolding store
  store-store-other j k u w [] h = refl
  store-store-other j k u w ((i, x) ∷ m) h = ground (arith, store-store-other j k u w m h)

  pub erase-store : (k : ℕ) (u : V) (m : List (ℕ × V)) → erase k (store k u m) ≡ erase k m
  unfolding store erase
  erase-store k u [] = refl
  erase-store k u ((j, w) ∷ m) = ground (arith, erase-store k u m)

  pub lookup-store :
      (k : ℕ) (u v : V) (m : List (ℕ × V)) → lookup k m ≡ some v → lookup k (store k u m) ≡ some u
  unfolding store lookup
  lookup-store k u v [] h = ground arith
  lookup-store k u v ((j, w) ∷ m) h = ground (arith, lookup-store k u v m)

  pub lookup-store-other :
      (j k : ℕ) (u : V) (m : List (ℕ × V)) → j ≢ k → lookup j (store k u m) ≡ lookup j m
  unfolding lookup store
  lookup-store-other j k u [] h = refl
  lookup-store-other j k u ((i, w) ∷ m) h = ground (arith, lookup-store-other j k u m h)

  -- A write adds no key.
  pub lookup-store-none :
      (j k : ℕ) (v : V) (m : List (ℕ × V)) → lookup j m ≡ none → lookup j (store k v m) ≡ none
  unfolding lookup store
  lookup-store-none j k v [] h = h
  lookup-store-none j k v ((i, w) ∷ m) h = ground (arith, lookup-store-none j k v m)

  pub lookup-store-kept :
      (j k : ℕ) (v : V) (m : List (ℕ × V)) → lookup j m ≢ none → lookup j (store k v m) ≢ none
  unfolding lookup store
  lookup-store-kept j k v [] h = h
  lookup-store-kept j k v ((i, w) ∷ m) h = ground (arith, h, lookup-store-kept j k v m)

  pub store-Distinct : (k : ℕ) (v : V) (m : List (ℕ × V)) → Distinct m → Distinct (store k v m)
  unfolding Distinct store
  store-Distinct k v [] h = h
  store-Distinct k v ((j, w) ∷ m) (once, u) =
      ground (arith, store-Distinct k v m u, lookup-store-none j k v m)

  pub cons-Distinct :
      (b : Bool) (k : ℕ) (v : V) (m : List (ℕ × V))
      → lookup k m ≡ none
      → Distinct m
      → Distinct (if b then (k, v) ∷ m else m)
  unfolding Distinct
  cons-Distinct true k v m e u = (e, u)
  cons-Distinct false k v m e u = u

  pub lookup-erase-other : (j k : ℕ) (m : List (ℕ × V)) → j ≢ k → lookup j (erase k m) ≡ lookup j m
  unfolding lookup erase
  lookup-erase-other j k [] h = refl
  lookup-erase-other j k ((i, v) ∷ m) h = ground (arith, lookup-erase-other j k m h)

  pub lookup-erase : (k : ℕ) (m : List (ℕ × V)) → Distinct m → lookup k (erase k m) ≡ none
  unfolding lookup erase Distinct
  lookup-erase k [] u = refl
  lookup-erase k ((i, v) ∷ m) (once, u) = ground (arith, lookup-erase k m u, once)

  pub lookup-erase-none :
      (j k : ℕ) (m : List (ℕ × V)) → lookup j m ≡ none → lookup j (erase k m) ≡ none
  unfolding lookup erase
  lookup-erase-none j k [] h = refl
  lookup-erase-none j k ((i, v) ∷ m) h = ground (arith, lookup-erase-none j k m)

  pub erase-Distinct : (k : ℕ) (m : List (ℕ × V)) → Distinct m → Distinct (erase k m)
  unfolding erase Distinct
  erase-Distinct k [] u = u
  erase-Distinct k ((i, v) ∷ m) (once, u) =
      ground (arith, erase-Distinct k m u, u, lookup-erase-none i k m once)

  pub length-erase : (k : ℕ) (m : List (ℕ × V)) → length (erase k m) ≤ length m
  unfolding erase
  length-erase k [] = omega arith
  length-erase k ((i, v) ∷ m) = ground (arith, length-erase k m)

-- What both versions do for a source: change its entry, or add a new one.
module _ {V : Type 0} (change : V → V) (new : V) (max_entries : ℕ) where
  unfoldable pub upsert : ℕ → List (ℕ × V) → List (ℕ × V)
  upsert k m = elim (lookup k m) [
    | some v ↦ store k (change v) m
    | none ↦ add_entry max_entries k new m
  ]

  pub upsert-found :
      (k : ℕ) (v : V) (m : List (ℕ × V)) → lookup k m ≡ some v → upsert k m ≡ store k (change v) m
  unfolding upsert
  upsert-found k v m e = ground arith

  pub upsert-missing :
      (k : ℕ) (m : List (ℕ × V))
      → lookup k m ≡ none
      → upsert k m ≡ (if ltb (length m) max_entries then (k, new) ∷ m else m)
  unfolding upsert add_entry
  upsert-missing k m e = ground arith

  pub lookup-upsert-other :
      (j k : ℕ) (m : List (ℕ × V)) → j ≢ k → lookup k (upsert j m) ≡ lookup k m
  lookup-upsert-other j k m h = elim (Option-cases (lookup j m)) [
    | inl e ↦ rw (upsert-missing j m e) (unfold lookup in ground arith)
    | inr (v, e) ↦ rw (upsert-found j v m e) (lookup-store-other k j (change v) m (λ z. h (sym z)))
  ]

  pub upsert-Distinct : (k : ℕ) (m : List (ℕ × V)) → Distinct m → Distinct (upsert k m)
  upsert-Distinct k m u = elim (Option-cases (lookup k m)) [
    | inl e ↦
        subst Distinct (sym (upsert-missing k m e))
          (cons-Distinct (ltb (length m) max_entries) k new m e u)
    | inr (v, e) ↦ subst Distinct (sym (upsert-found k v m e)) (store-Distinct k (change v) m u)
  ]
