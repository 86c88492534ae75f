-- ===== src/Rpc/Vfs/Escape.antt =====
-- Where `local` of class VFS leads: below the directory of the prefix, and never out of it.
use y700_linux.Prelude.{
  ℕ, ◌≡◌, ◌≢◌, ◌∙◌, ap, sym, subst, refl, ◌==◌, true, false, Option, none, some, List, [], ◌∷◌,
  ◌++◌, arith, Bool-cases, Option-cases, inl, inr, All, drop, length,
}
use mathlib.Core.Option.{some-injective}
use mathlib.Core.List.{append_assoc}
use y700_linux.Rpc.Vfs.{
  slash, dotdot, text_eq, split, join, lstrip, norm, covers, find, rest_of, local, path_join,
  starts_with, Vfs,
}
use y700_linux.Rpc.Vfs.Text.{
  text_eq→eq, starts_with→append, starts_with-append, drop-append, split-join, split-append,
}
use y700_linux.Rpc.Vfs.Norm.{IsPlain, parts_of, parts_of-IsPlain, plain-NoSlash}

-- No component of the text is `..`.
abbrev pub NoDotdot : List ℕ → Type 0
NoDotdot t = All (λ s. text_eq s dotdot ≡ false) (split t)

All-append_right : (P : List ℕ → Type 0) (xs ys : List (List ℕ)) → All P (xs ++ ys) → All P ys
All-append_right P [] ys all = all
All-append_right P (x ∷ xs) ys all = All-append_right P xs ys all.1

split-slash : (t : List ℕ) → split (slash ∷ t) ≡ [] ∷ split t
unfolding split
split-slash t = refl

lstrip-NoDotdot : (t : List ℕ) → NoDotdot t → NoDotdot (lstrip t)
unfolding lstrip
lstrip-NoDotdot [] h = h
lstrip-NoDotdot (c ∷ cs) h = elim (Bool-cases (c == slash)) [
  | inl e ↦ rw e (lstrip-NoDotdot cs (tail e))
  | inr e ↦ rw e h
]
  where
    tail : (c == slash) ≡ true → NoDotdot cs
    tail e =
        let q : c ≡ slash = ground arith in
        (rw (split-slash cs) at (subst (λ a. NoDotdot (a ∷ cs)) q h)).1

plain-NoDotdot : (ss : List (List ℕ)) → All IsPlain ss → All (λ s. text_eq s dotdot ≡ false) ss
plain-NoDotdot [] all = tt
plain-NoDotdot (s ∷ ss) all = (all.0.not_dotdot, plain-NoDotdot ss all.1)

join-NoDotdot : (ss : List (List ℕ)) → All IsPlain ss → NoDotdot (slash ∷ join ss)
unfolding split join text_eq
join-NoDotdot [] all = (refl, (refl, tt))
join-NoDotdot (s ∷ r) all = (
  refl,
  subst (All (λ s. text_eq s dotdot ≡ false)) (sym (split-join s r (plain-NoSlash (s ∷ r) all)))
      (plain-NoDotdot (s ∷ r) all),
)

norm-NoDotdot : (p : List ℕ) → NoDotdot (norm p)
unfolding norm
norm-NoDotdot p = join-NoDotdot (parts_of p) (parts_of-IsPlain p)

drop_self : (k : List ℕ) → drop (length k) k ≡ []
drop_self [] = refl
drop_self (c ∷ k) = drop_self k

empty-NoDotdot : NoDotdot []
unfolding split text_eq
empty-NoDotdot = (refl, tt)

tail-NoDotdot : (k t v : List ℕ) → v ≡ (k ++ slash ∷ []) ++ t → NoDotdot v → NoDotdot t
tail-NoDotdot k t v e h =
    All-append_right (λ s. text_eq s dotdot ≡ false) (split k) (split t)
      (subst (All (λ s. text_eq s dotdot ≡ false))
        (ap split (e ∙ append_assoc k (slash ∷ []) t) ∙ split-append k t) h)

behind : (k t v : List ℕ) → v ≡ (k ++ slash ∷ []) ++ t → lstrip (drop (length k) v) ≡ lstrip t
unfolding lstrip
behind k t v e =
    ap (λ w. lstrip (drop (length k) w)) (e ∙ append_assoc k (slash ∷ []) t)
    ∙ ap lstrip (drop-append k (slash ∷ t))

rest_below : (k v : List ℕ) → covers k v ≡ true → NoDotdot v → NoDotdot (rest_of k v)
unfolding rest_of covers
rest_below k v h below = elim (Bool-cases (text_eq v k)) [
  | inl e ↦
      subst (λ w. NoDotdot (lstrip (drop (length k) w))) (sym (text_eq→eq v k e))
        (rw (drop_self k) (unfold lstrip in empty-NoDotdot))
  | inr e ↦
      let q = starts_with→append (k ++ slash ∷ []) v (rw e at h) in
      rw (behind k _ v q) (lstrip-NoDotdot _ (tail-NoDotdot k _ v q below))
]

-- A relative path without a `..` component: os.path.join puts it behind the directory.
abbrev pub StaysBelow : List ℕ → Type 0
StaysBelow t = (starts_with (slash ∷ []) t ≡ false) × NoDotdot t

lstrip-relative : (t : List ℕ) → starts_with (slash ∷ []) (lstrip t) ≡ false
unfolding lstrip starts_with
lstrip-relative [] = refl
lstrip-relative (c ∷ cs) = elim (Bool-cases (c == slash)) [
  | inl e ↦ rw e (lstrip-relative cs)
  | inr e ↦ rw e (ground (arith, e))
]

rest_of-relative : (k v : List ℕ) → starts_with (slash ∷ []) (rest_of k v) ≡ false
unfolding rest_of
rest_of-relative k v = lstrip-relative (drop (length k) v)

-- Where a prefix covers a normalised path, what is left of it is relative and has no `..` component:
-- joined to a directory, it leads below that directory.
pub rest_of-StaysBelow : (k p : List ℕ) → covers k (norm p) ≡ true → StaysBelow (rest_of k (norm p))
rest_of-StaysBelow k p h = (rest_of-relative k (norm p), rest_below k (norm p) h (norm-NoDotdot p))

-- A relative path is joined behind the directory.
path_join-under :
    (d t : List ℕ) → starts_with (slash ∷ []) t ≡ false → starts_with d (path_join d t) ≡ true
unfolding path_join
path_join-under d t h = ground (arith, h, starts_with-append d t, starts_with-append d (slash ∷ t))

pub find-covers :
    (m : List (List ℕ × List ℕ)) (v k d : List ℕ) → find m v ≡ some (k, d) → covers k v ≡ true
unfolding find
find-covers [] v k d h = cc
find-covers ((j, e) ∷ m) v k d h = ground (arith, find-covers m v k d)

-- Whatever path the DSP asks for, with any number of `..` in it, a path that is served starts with the
-- directory of a mapped prefix, and is that directory joined to a relative rest with no `..` component.
pub local-StaysBelow :
    (vfs : Vfs) (p q : List ℕ)
    → local vfs p ≡ some q
    → (k : List ℕ) × (d : List ℕ) × (find vfs.mapped (norm p) ≡ some (k, d))
      × (q ≡ path_join d (rest_of k (norm p)))
      × StaysBelow (rest_of k (norm p))
      × (starts_with d q ≡ true)
unfolding local
local-StaysBelow vfs p q h = elim (Option-cases (find vfs.mapped (norm p))) [
  | inl e ↦ absurd (none-ne-some q (rw (e, local) at h))
  | inr (a, e) ↦
      let same : q ≡ path_join a.1 (rest_of a.0 (norm p)) =
        sym (some-injective _ _ (rw (e, local) at h)) in
      (
        a.0,
        a.1,
        e,
        same,
        rest_of-StaysBelow a.0 p (find-covers vfs.mapped (norm p) a.0 a.1 e),
        rw same (path_join-under a.1 _ (rest_of-relative a.0 (norm p))),
      )
]
  where
    none-ne-some : (q : List ℕ) → ◌≢◌ {A = Option (List ℕ)} none (some q)
    none-ne-some q e = cc
