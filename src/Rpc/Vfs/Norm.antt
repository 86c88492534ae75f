-- ===== src/Rpc/Vfs/Norm.antt =====
-- What `norm` of class VFS returns: a path with no empty, `.` or `..` component.
use y700_linux.Prelude.{
  ℕ, ◌≡◌, ◌∙◌, ap, sym, refl, ◌||◌, Bool, false, List, [], ◌∷◌, ◌++◌, arith, Bool-cases, inl, inr,
  All, All-append,
}
use mathlib.Core.List.{append_assoc, append-nil}
use y700_linux.Rpc.Vfs.{slash, dot, dotdot, text_eq, split, join, pop, walk, walk_all, norm}
use y700_linux.Rpc.Vfs.Text.{NoSlash, split-NoSlash, split-join}

-- A component that leads down: not empty, not `.`, not `..`, and with no slash in it.
pub record IsPlain (s : List ℕ) : Type 0 where
  pub no_slash : NoSlash s
  pub not_empty : text_eq s [] ≡ false
  pub not_dot : text_eq s dot ≡ false
  pub not_dotdot : text_eq s dotdot ≡ false

pop-IsPlain : (parts : List (List ℕ)) → All IsPlain parts → All IsPlain (pop parts)
unfolding pop
pop-IsPlain [] all = tt
pop-IsPlain (s ∷ []) all = tt
pop-IsPlain (s ∷ t ∷ r) all = (all.0, pop-IsPlain (t ∷ r) all.1)

walk-IsPlain :
    (parts : List (List ℕ)) (s : List ℕ)
    → NoSlash s
    → All IsPlain parts
    → All IsPlain (walk parts s)
unfolding walk
walk-IsPlain parts s h all = elim (Bool-cases (text_eq s [] || text_eq s dot)) [
  | inl e ↦ rw e all
  | inr e ↦ elim (Bool-cases (text_eq s dotdot)) [
    | inl d ↦ rw (e, d) (pop-IsPlain parts all)
    | inr d ↦
        rw (e, d)
          (All-append IsPlain parts (s ∷ []) all (
            record {
              no_slash = h;
              not_empty = left (text_eq s []) (text_eq s dot) e;
              not_dot = right (text_eq s []) (text_eq s dot) e;
              not_dotdot = d;
            },
            tt,
          ))
  ]
]
  where
    left : (p q : Bool) → (p || q) ≡ false → p ≡ false
    left p q e = ground arith

    right : (p q : Bool) → (p || q) ≡ false → q ≡ false
    right p q e = ground arith

walk_all-IsPlain :
    (parts ss : List (List ℕ))
    → All NoSlash ss
    → All IsPlain parts
    → All IsPlain (walk_all parts ss)
unfolding walk_all
walk_all-IsPlain parts [] h all = all
walk_all-IsPlain parts (s ∷ ss) h all =
    walk_all-IsPlain (walk parts s) ss h.1 (walk-IsPlain parts s h.0 all)

-- The components that `norm` joins.
abbrev pub parts_of : List ℕ → List (List ℕ)
parts_of p = walk_all [] (split p)

pub parts_of-IsPlain : (p : List ℕ) → All IsPlain (parts_of p)
parts_of-IsPlain p = walk_all-IsPlain [] (split p) (split-NoSlash p) tt

-- Plain components are walked down one by one.
walk_all-plain : (parts ss : List (List ℕ)) → All IsPlain ss → walk_all parts ss ≡ parts ++ ss
unfolding walk_all walk
walk_all-plain parts [] all = sym (append-nil parts)
walk_all-plain parts (s ∷ ss) all =
    rw (all.0.not_empty, all.0.not_dot, all.0.not_dotdot)
      (walk_all-plain (parts ++ s ∷ []) ss all.1 ∙ append_assoc parts (s ∷ []) ss)

pub plain-NoSlash : (ss : List (List ℕ)) → All IsPlain ss → All NoSlash ss
plain-NoSlash [] all = tt
plain-NoSlash (s ∷ ss) all = (all.0.no_slash, plain-NoSlash ss all.1)

walk_all-join : (ss : List (List ℕ)) → All IsPlain ss → walk_all [] (split (slash ∷ join ss)) ≡ ss
unfolding split join walk_all walk text_eq
walk_all-join [] all = refl
walk_all-join (s ∷ r) all =
    rw (split-join s r (plain-NoSlash (s ∷ r) all)) (walk_all-plain [] (s ∷ r) all)

-- A normalised path is left alone.
pub norm-norm : (p : List ℕ) → norm (norm p) ≡ norm p
unfolding norm
norm-norm p = ap (λ ss. slash ∷ join ss) (walk_all-join (parts_of p) (parts_of-IsPlain p))
