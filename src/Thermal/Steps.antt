-- ===== src/Thermal/Steps.antt =====
-- The frequency table of Domain: what `sorted` and `_index` compute.
use y700_linux.Prelude.{
  ℕ, zero, suc, ◌+◌, ◌-◌, ◌≤◌, ◌<◌, ◌≡◌, refl, inl, inr, some, List, [], ◌∷◌, leb, ◌==◌, Bool-cases,
  leb→le, length, get_elem?, if◌then◌else◌, All, arith,
}
use y700_linux.Thermal.{sort_steps, insert_step, indices_le, max_or_zero, index}

abbrev pub IsSorted : List ℕ → Type 0
IsSorted [] = Unit
IsSorted (x ∷ xs) = All (λ y. x ≤ y) xs × IsSorted xs

-- How many steps are at most `f`.
abbrev pub count_le : ℕ → List ℕ → ℕ
count_le f [] = 0
count_le f (s ∷ ss) = (if leb s f then 1 else 0) + count_le f ss

All-le_trans : (a b : ℕ) (xs : List ℕ) → a ≤ b → All (λ y. b ≤ y) xs → All (λ y. a ≤ y) xs
All-le_trans a b [] h all = tt
All-le_trans a b (x ∷ xs) h all = (omega arith, All-le_trans a b xs h all.1)

All-insert_step :
    (a x : ℕ) (xs : List ℕ) → a ≤ x → All (λ y. a ≤ y) xs → All (λ y. a ≤ y) (insert_step x xs)
unfolding insert_step
All-insert_step a x [] h all = (h, tt)
All-insert_step a x (y ∷ ys) h all = ground (arith, All-insert_step a x ys h all.1)

insert_step-IsSorted : (x : ℕ) (xs : List ℕ) → IsSorted xs → IsSorted (insert_step x xs)
unfolding insert_step
insert_step-IsSorted x [] s = (tt, tt)
insert_step-IsSorted x (y ∷ ys) s = elim (Bool-cases (leb x y)) [
  | inl e ↦ rw e ((leb→le x y e, All-le_trans x y ys (leb→le x y e) s.0), s)
  | inr e ↦ rw e (All-insert_step y x ys (ground arith) s.0, insert_step-IsSorted x ys s.1)
]

pub sort_steps-IsSorted : (xs : List ℕ) → IsSorted (sort_steps xs)
unfolding sort_steps
sort_steps-IsSorted [] = tt
sort_steps-IsSorted (x ∷ xs) = insert_step-IsSorted x (sort_steps xs) (sort_steps-IsSorted xs)

count_le-insert_step : (f x : ℕ) (xs : List ℕ) → count_le f (insert_step x xs) ≡ count_le f (x ∷ xs)
unfolding insert_step
count_le-insert_step f x [] = refl
count_le-insert_step f x (y ∷ ys) = ground (arith, count_le-insert_step f x ys)

pub count_le-sort_steps : (f : ℕ) (xs : List ℕ) → count_le f (sort_steps xs) ≡ count_le f xs
unfolding sort_steps
count_le-sort_steps f [] = refl
count_le-sort_steps f (x ∷ xs) =
    ground (arith, count_le-insert_step f x (sort_steps xs), count_le-sort_steps f xs)

count_le_above : (f x : ℕ) (xs : List ℕ) → f < x → All (λ y. x ≤ y) xs → count_le f xs ≡ 0
count_le_above f x [] h all = refl
count_le_above f x (y ∷ ys) h all = ground (arith, count_le_above f x ys h all.1)

max_or_zero-indices_le :
    (k f : ℕ) (ss : List ℕ)
    → IsSorted ss
    → max_or_zero (indices_le k ss f) ≡ (if count_le f ss == 0 then 0 else k + count_le f ss - 1)
unfolding max_or_zero indices_le
max_or_zero-indices_le k f [] s = refl
max_or_zero-indices_le k f (x ∷ xs) s = elim (Bool-cases (leb x f)) [
  | inl e ↦ ground (arith, max_or_zero-indices_le (k + 1) f xs s.1)
  | inr e ↦
      ground
        (arith, max_or_zero-indices_le (k + 1) f xs s.1, count_le_above f x xs (ground arith) s.0)
]

-- On a sorted table `_index` is one less than the number of steps that are at most `f`.
pub index-eq-count_le : (f : ℕ) (ss : List ℕ) → IsSorted ss → index ss f ≡ count_le f ss - 1
unfolding index
index-eq-count_le f ss s = ground (arith, max_or_zero-indices_le 0 f ss s)

pub count_le-le-length : (f : ℕ) (ss : List ℕ) → count_le f ss ≤ length ss
count_le-le-length f [] = omega arith
count_le-le-length f (x ∷ xs) = ground (arith, count_le-le-length f xs)

pub count_le_mono : (f g : ℕ) (ss : List ℕ) → f ≤ g → count_le f ss ≤ count_le g ss
count_le_mono f g [] h = omega arith
count_le_mono f g (x ∷ xs) h = ground (arith, count_le_mono f g xs h)

-- A sorted table splits at `count_le f`: the steps before it are at most `f`, the others above.
pub get_elem?-below :
    (f : ℕ) (ss : List ℕ) (i v : ℕ)
    → IsSorted ss
    → get_elem? ss i ≡ some v
    → i < count_le f ss
    → v ≤ f
get_elem?-below f [] i v s e h = elim h [ ]
get_elem?-below f (x ∷ xs) zero v s e h = ground (arith, λ (p : f < x). count_le_above f x xs p s.0)
get_elem?-below f (x ∷ xs) (suc i) v s e h = get_elem?-below f xs i v s.1 e (ground arith)

pub get_elem?-total :
    {A : Type 0} (xs : List A) (i : ℕ) → i < length xs → (v : A) × (get_elem? xs i ≡ some v)
get_elem?-total [] i h = elim h [ ]
get_elem?-total (x ∷ xs) zero h = (x, refl)
get_elem?-total (x ∷ xs) (suc i) h = get_elem?-total xs i (omega arith)

pub get_elem?-counted :
    (f : ℕ) (ss : List ℕ) (i v : ℕ)
    → IsSorted ss
    → get_elem? ss i ≡ some v
    → v ≤ f
    → i < count_le f ss
get_elem?-counted f [] i v s e h = ground arith
get_elem?-counted f (x ∷ xs) zero v s e h = ground arith
get_elem?-counted f (x ∷ xs) (suc i) v s e h =
    ground (arith, get_elem?-counted f xs i v s.1 e h, λ (p : f < x). count_le_above f x xs p s.0)

All-get_elem? :
    (a : ℕ) (xs : List ℕ) (i v : ℕ) → All (λ y. a ≤ y) xs → get_elem? xs i ≡ some v → a ≤ v
All-get_elem? a [] i v all e = ground arith
All-get_elem? a (x ∷ xs) zero v all e = ground arith
All-get_elem? a (x ∷ xs) (suc i) v all e = All-get_elem? a xs i v all.1 e

pub get_elem?-mono :
    (ss : List ℕ) (i j v w : ℕ)
    → IsSorted ss
    → i ≤ j
    → get_elem? ss i ≡ some v
    → get_elem? ss j ≡ some w
    → v ≤ w
get_elem?-mono [] i j v w s h e e' = ground arith
get_elem?-mono (x ∷ xs) zero zero v w s h e e' = ground arith
get_elem?-mono (x ∷ xs) zero (suc j) v w s h e e' = ground (arith, All-get_elem? x xs j w s.0 e')
get_elem?-mono (x ∷ xs) (suc i) zero v w s h e e' = absurd (omega arith)
get_elem?-mono (x ∷ xs) (suc i) (suc j) v w s h e e' =
    get_elem?-mono xs i j v w s.1 (omega arith) e e'

pub index-lt-length : (f : ℕ) (ss : List ℕ) → IsSorted ss → 0 < length ss → index ss f < length ss
index-lt-length f ss s h = omega (arith, index-eq-count_le f ss s, count_le-le-length f ss)

length-insert_step : (x : ℕ) (xs : List ℕ) → length (insert_step x xs) ≡ suc (length xs)
unfolding insert_step
length-insert_step x [] = refl
length-insert_step x (y ∷ ys) = ground (arith, length-insert_step x ys)

pub length-sort_steps : (xs : List ℕ) → length (sort_steps xs) ≡ length xs
unfolding sort_steps
length-sort_steps [] = refl
length-sort_steps (x ∷ xs) =
    omega (arith, length-insert_step x (sort_steps xs), length-sort_steps xs)
