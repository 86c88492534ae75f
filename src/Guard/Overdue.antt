-- ===== src/Guard/Overdue.antt =====
-- A task that stays blocked and unknown for ten seconds makes a check raise.
use Prim.Native.String.{String}
use y700_linux.Prelude.{
  ℕ, ◌+◌, ◌-◌, ◌≤◌, ◌≡◌, ◌⊎◌, refl, sym, ◌∙◌, subst, Bool, true, false, not, Option, none, some,
  List, [], ◌∷◌, leb, any, arith, Bool-cases, false-ne-true, leb→le, inl, inr, All,
}
use y700_linux.Guard.Binding.{
  Template, Tasks, Waits, is_same, task_of, unknown_keys, same_key, since_of, aged, check,
}

abbrev then_check : Option Waits → (Waits → Option Waits) → Option Waits
then_check none k = none
then_check (some w) k = k w

-- A check at each time of a list, with the tasks at that time.
unfoldable pub checks : (String → Template) → List (ℕ × Tasks) → Waits → Option Waits
checks t [] w = some w
checks t ((now, tasks) ∷ rest) w = then_check (check t tasks now w) (checks t rest)

-- The table knows the key since this time.
Known : ℕ × ℕ → ℕ → List ((ℕ × ℕ) × ℕ) → Type 0
Known k since table = (d : ℕ) → since_of k table d ≡ since

since_of_same :
    (j k : ℕ × ℕ) (table : List ((ℕ × ℕ) × ℕ)) (now : ℕ)
    → same_key j k ≡ true
    → since_of j table now ≡ since_of k table now
since_of_same (a, b) (c, d) table now h =
    let e : a ≡ c = ground (arith, h) in let e2 : b ≡ d = ground (arith, h) in rw (e, e2) refl

aged-Known :
    (k : ℕ × ℕ) (table : List ((ℕ × ℕ) × ℕ)) (now : ℕ) (keys : List (ℕ × ℕ))
    → any (λ j. same_key j k) keys ≡ true
    → Known k (since_of k table now) (aged table now keys)
unfolding Known
aged-Known k table now [] h d = absurd (false-ne-true h)
aged-Known k table now (j ∷ js) h d = elim (Bool-cases (same_key j k)) [
  | inl e ↦ rw e (since_of_same j k table now e)
  | inr e ↦ rw e (aged-Known k table now js (rw e at h) d)
]

aged_overdue :
    (k : ℕ × ℕ) (table : List ((ℕ × ℕ) × ℕ)) (now : ℕ) (keys : List (ℕ × ℕ))
    → any (λ j. same_key j k) keys ≡ true
    → since_of k table now + 10000 ≤ now
    → any (λ e. leb 10000 (now - e.1)) (aged table now keys) ≡ true
aged_overdue k table now [] h late = h
aged_overdue k table now (j ∷ js) h late = elim (Bool-cases (same_key j k)) [
  | inl e ↦ ground (arith, since_of_same j k table now e, late)
  | inr e ↦ ground (arith, aged_overdue k table now js (rw e at h) late)
]

-- What a check that returns leaves.
check_cases :
    (t : String → Template) (tasks : Tasks) (now : ℕ) (w : Waits)
    → (check t tasks now w ≡ none)
      ⊎ ((check t tasks now w
            ≡ some (record w { unknown = aged w.unknown now (unknown_keys w.bound tasks) }))
          × (any (λ e. leb 10000 (now - e.1)) (aged w.unknown now (unknown_keys w.bound tasks))
              ≡ false))
unfolding check
check_cases t tasks now w =
    elim (Bool-cases (any (λ e. not (is_same t e.1 (task_of e.0 tasks))) w.bound)) [
      | inl h ↦ inl (rw h refl)
      | inr h ↦
          elim (Bool-cases
            (any (λ e. leb 10000 (now - e.1)) (aged w.unknown now (unknown_keys w.bound tasks)))) [
              | inl k ↦ inl (rw (h, k) refl)
              | inr k ↦ inr (rw (h, k) refl, k)
            ]
    ]

-- The key is one of the unknown tasks of a time.
abbrev pub Blocked : ℕ × ℕ → Waits → ℕ × Tasks → Type 0
Blocked k w r = any (λ j. same_key j k) (unknown_keys w.bound r.1) ≡ true

-- Some time is ten seconds behind.
abbrev pub late : ℕ → List (ℕ × Tasks) → Bool
late since rounds = any (λ r. leb (since + 10000) r.0) rounds

module _ (t : String → Template) (k : ℕ × ℕ) (since : ℕ) where
  overdue :
      (rounds : List (ℕ × Tasks)) (w : Waits)
      → Known k since w.unknown
      → All (Blocked k w) rounds
      → late since rounds ≡ true
      → checks t rounds w ≡ none
  unfolding checks Known
  overdue [] w known blocked h = absurd (false-ne-true h)
  overdue ((now, tasks) ∷ rest) w known (here, blocked) h = elim (check_cases t tasks now w) [
    | inl e ↦ rw e refl
    | inr (e, quiet) ↦ rw e (
        overdue rest _
          (subst (λ (n : ℕ). Known k n (aged w.unknown now (unknown_keys w.bound tasks)))
            (known now) (aged-Known k w.unknown now (unknown_keys w.bound tasks) here))
          blocked (still_late e quiet))
  ]
    where
      still_late :
          check t tasks now w
            ≡ some (record w { unknown = aged w.unknown now (unknown_keys w.bound tasks) })
          → any (λ e. leb 10000 (now - e.1)) (aged w.unknown now (unknown_keys w.bound tasks))
            ≡ false
          → late since rest ≡ true
      still_late e quiet = elim (Bool-cases (leb (since + 10000) now)) [
        | inl over ↦ absurd (
            false-ne-true (
              sym quiet
              ∙ aged_overdue k w.unknown now (unknown_keys w.bound tasks) here
                  (rw (known now) (leb→le (since + 10000) now over))))
        | inr under ↦ rw under at h
      ]

later_late :
    (m n : ℕ) (rounds : List (ℕ × Tasks)) → m ≤ n → late n rounds ≡ true → late m rounds ≡ true
later_late m n [] le h = h
later_late m n (r ∷ rs) le h = ground (arith, later_late m n rs le)

-- A run of checks raises, where some task is blocked and unknown in each of them, some check is ten
-- seconds or more behind the first one, and the table does not say that the task is seen later than at
-- the first check.
pub checks-overdue :
    (t : String → Template) (k : ℕ × ℕ) (w : Waits) (now : ℕ) (tasks : Tasks)
    (rest : List (ℕ × Tasks))
    → since_of k w.unknown now ≤ now
    → All (Blocked k w) ((now, tasks) ∷ rest)
    → late now rest ≡ true
    → checks t ((now, tasks) ∷ rest) w ≡ none
unfolding checks
checks-overdue t k w now tasks rest seen (here, blocked) h = elim (check_cases t tasks now w) [
  | inl e ↦ rw e refl
  | inr (e, quiet) ↦ rw e (
      overdue t k (since_of k w.unknown now) rest _
        (aged-Known k w.unknown now (unknown_keys w.bound tasks) here) blocked
        (later_late (since_of k w.unknown now) now rest seen h))
]
