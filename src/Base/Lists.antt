-- ===== src/Base/Lists.antt =====
-- C arrays as lists over the native numbers.
use Prim.Native.Nat.{ℕ, zero, suc, ◌+◌, ◌<◌}
use mathlib.Core.Path.{◌≡◌, refl}
use mathlib.Core.Logic.{◌⊎◌, inl, inr}
use mathlib.Core.List.{List, [], ◌∷◌, ◌++◌}
use mathlib.Core.Option.{Option, none, some}
use native.Mathlib.Omega.{arith}

-- An index past the end has no value.
module _ {ℓ} {A : Type ℓ} where
  abbrev pub length : List A → ℕ
  length [] = 0
  length (head ∷ tail) = suc (length tail)

  abbrev pub get_elem? : List A → ℕ → Option A
  get_elem? [] n = none
  get_elem? (head ∷ tail) zero = some head
  get_elem? (head ∷ tail) (suc n) = get_elem? tail n

  -- The value that stands for one past the end comes last.
  abbrev pub get_or : List A → ℕ → A → A
  get_or [] n other = other
  get_or (head ∷ tail) zero other = head
  get_or (head ∷ tail) (suc n) other = get_or tail n other

  pub length-append : (a b : List A) → length (a ++ b) ≡ length a + length b
  length-append [] b = omega arith
  length-append (x ∷ a) b = omega (arith, length-append a b)

  pub List-cases : (l : List A) → (l ≡ []) ⊎ ((x : A) × (rest : List A) × (l ≡ x ∷ rest))
  List-cases [] = inl refl
  List-cases (x ∷ l) = inr (x, l, refl)

  pub get_elem?-eq-get_or :
      (l : List A) (n : ℕ) (other : A) → n < length l → get_elem? l n ≡ some (get_or l n other)
  get_elem?-eq-get_or [] n other inside = absurd (omega arith)
  get_elem?-eq-get_or (head ∷ tail) zero other inside = refl
  get_elem?-eq-get_or (head ∷ tail) (suc n) other inside =
      get_elem?-eq-get_or tail n other (omega arith)

-- The predicate holds of each element.
unfoldable pub Every : {A : Type 0} → (A → Type 0) → List A → Type 0
Every P [] = Unit
Every P (x ∷ xs) = P x × Every P xs

module _ {A : Type 0} where
  pub Every-split :
      (P : A → Type 0) (a : List A) (x : A) (b : List A)
      → Every P (a ++ x ∷ b)
      → Every P a × P x × Every P b
  unfolding Every
  Every-split P [] x b (h, hs) = (tt, h, hs)
  Every-split P (y ∷ a) x b (h, hs) =
      let (before, here, later) = Every-split P a x b hs in ((h, before), here, later)

  pub Every-join : (P : A → Type 0) (a b : List A) → Every P a → Every P b → Every P (a ++ b)
  unfolding Every
  Every-join P [] b h k = k
  Every-join P (x ∷ a) b (h, hs) k = (h, Every-join P a b hs k)

  -- The next step of a task, if it has one, in its place.
  abbrev pub or_done : Option A → List A → List A
  or_done none ts = ts
  or_done (some t) ts = t ∷ ts
