-- ===== src/Prelude/Seq.antt =====
-- Predicates and small searches over lists.
use Prim.Native.Nat.{ℕ}
use mathlib.Core.Path.{◌≡◌, refl, sym, subst}
use mathlib.Core.Logic.{◌⊎◌, inl, inr}
use mathlib.Core.Option.{Option, none, some, some-injective, none-ne-some}
use mathlib.Core.Bool.{Bool, true, false, ◌||◌, ◌&&◌}
use native.Mathlib.Omega.{arith}
use mathlib.Core.List.{List, [], ◌∷◌, ◌++◌}
use y700_linux.Prelude.Tests.{Bool-cases, ◌==◌, if◌then◌else◌}

-- A predicate of every item, as a tuple that the tactics read and build.
abbrev pub All {ℓ κ} : {A : Type ℓ} → (A → Type κ) → List A → Type κ
All P [] = Unit
All P (x ∷ xs) = P x × All P xs

-- Python's `x in xs` on numbers.
abbrev pub elem : ℕ → List ℕ → Bool
elem a [] = false
elem a (x ∷ xs) = if x == a then true else elem a xs

pub All-append {ℓ κ} :
    {A : Type ℓ} (P : A → Type κ) (xs ys : List A) → All P xs → All P ys → All P (xs ++ ys)
All-append P [] ys hx hy = hy
All-append P (x ∷ xs) ys hx hy = (hx.0, All-append P xs ys hx.1 hy)

module _ {ℓ} {A : Type ℓ} where
  -- [x for x in xs if p(x)]
  abbrev pub select : (A → Bool) → List A → List A
  select p [] = []
  select p (x ∷ xs) = let rest = select p xs in if p x then x ∷ rest else rest

  abbrev pub any : (A → Bool) → List A → Bool
  any p [] = false
  any p (x ∷ xs) = if p x then true else any p xs

  -- The first item with a property, and xs[-1], where there is one.
  abbrev pub first : (A → Bool) → List A → Option A
  first p [] = none
  first p (x ∷ xs) = if p x then some x else first p xs

  abbrev pub last : List A → Option A
  last [] = none
  last (x ∷ []) = some x
  last (x ∷ y ∷ r) = last (y ∷ r)

  abbrev pub backwards : List A → List A
  backwards [] = []
  backwards (x ∷ xs) = backwards xs ++ x ∷ []

  pub any-append : (p : A → Bool) (xs ys : List A) → any p (xs ++ ys) ≡ (any p xs || any p ys)
  any-append p [] ys = refl
  any-append p (x ∷ xs) ys = ground (arith, any-append p xs ys)

  pub any-select : (p q : A → Bool) (xs : List A) → any p (select q xs) ≡ any (λ x. q x && p x) xs
  any-select p q [] = refl
  any-select p q (x ∷ xs) = ground (arith, any-select p q xs)

  -- A selection that keeps every item with p.
  pub any-kept :
      (p q : A → Bool) (xs : List A)
      → ((x : A) → p x ≡ true → q x ≡ true)
      → any p (select q xs) ≡ any p xs
  any-kept p q [] h = refl
  any-kept p q (x ∷ xs) h = ground (arith, any-kept p q xs h, h x)

  pub select-nil : (p : A → Bool) (xs : List A) → any p xs ≡ false → select p xs ≡ []
  select-nil p [] h = refl
  select-nil p (x ∷ xs) h = ground (arith, select-nil p xs)

  pub last-none : (xs : List A) → last xs ≡ none → xs ≡ []
  last-none [] h = refl
  last-none (x ∷ []) h = ground (arith)
  last-none (x ∷ y ∷ r) h = ground (arith, last-none (y ∷ r) h)

  pub All-select : (p : A → Bool) (xs : List A) → All (λ x. p x ≡ true) (select p xs)
  All-select p [] = tt
  All-select p (x ∷ xs) = elim (Bool-cases (p x)) [
    | inl h ↦ rw h (h, All-select p xs)
    | inr h ↦ rw h (All-select p xs)
  ]

  pub first-All :
      (P : A → Type 0) (p : A → Bool) (xs : List A) (x : A)
      → All P xs
      → first p xs ≡ some x
      → P x × (p x ≡ true)
  first-All P p [] x h e = absurd (none-ne-some x e)
  first-All P p (y ∷ ys) x h e = elim (Bool-cases (p y)) [
    | inl py ↦ let same = some-injective _ _ (rw py at e) in (subst P same h.0, rw (sym same) py)
    | inr py ↦ first-All P p ys x h.1 (rw py at e)
  ]

  pub All-backwards : (P : A → Type 0) (xs : List A) → All P xs → All P (backwards xs)
  All-backwards P [] h = tt
  All-backwards P (x ∷ xs) h =
      All-append P (backwards xs) (x ∷ []) (All-backwards P xs h.1) (h.0, tt)

  -- The selection has a last item, or nothing has the property.
  pub last-select-cases :
      (p : A → Bool) (xs : List A) (r : Option A)
      → last (select p xs) ≡ r
      → ((x : A) × (r ≡ some x) × (any p xs ≡ true)) ⊎ ((r ≡ none) × (any p xs ≡ false))
  last-select-cases p xs none e = inr (refl, empty xs (last-none _ e))
    where
      empty : (ys : List A) → select p ys ≡ [] → any p ys ≡ false
      empty [] h = refl
      empty (y ∷ ys) h = ground (arith, empty ys)
  last-select-cases p xs (some x) e = elim (Bool-cases (any p xs)) [
    | inl h ↦ inl (x, refl, h)
    | inr h ↦ absurd (none-ne-some x (rw (select-nil p xs h) at e))
  ]
