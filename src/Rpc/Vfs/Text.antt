-- ===== src/Rpc/Vfs/Text.antt =====
-- Laws of the texts of class VFS: equality, prefixes, and split against join.
use y700_linux.Prelude.{
  ℕ, ◌≡◌, ◌≢◌, ◌∙◌, ap, refl, ◌==◌, true, false, List, [], ◌∷◌, ◌++◌, arith, Bool-cases, inl, inr,
  if◌then◌else◌, All, drop, length,
}
use y700_linux.Rpc.Vfs.{slash, text_eq, starts_with, add_char, split, join}

pub text_eq→eq : (a b : List ℕ) → text_eq a b ≡ true → a ≡ b
unfolding text_eq
text_eq→eq [] [] h = refl
text_eq→eq [] (b ∷ bs) h = cc
text_eq→eq (a ∷ as') [] h = cc
text_eq→eq (a ∷ as') (b ∷ bs) h = ground (arith, text_eq→eq as' bs)

pub text_eq_refl : (a : List ℕ) → text_eq a a ≡ true
unfolding text_eq
text_eq_refl [] = refl
text_eq_refl (a ∷ as') = ground (arith, text_eq_refl as')

pub starts_with-append : (k t : List ℕ) → starts_with k (k ++ t) ≡ true
unfolding starts_with
starts_with-append [] t = refl
starts_with-append (a ∷ k) t = ground (arith, starts_with-append k t)

-- A text that starts with `k` is `k` and what follows it.
pub starts_with→append : (k v : List ℕ) → starts_with k v ≡ true → v ≡ k ++ drop (length k) v
unfolding starts_with
starts_with→append [] v h = refl
starts_with→append (a ∷ k) [] h = cc
starts_with→append (a ∷ k) (b ∷ v) h = ground (arith, starts_with→append k v)

pub drop-append : (k t : List ℕ) → drop (length k) (k ++ t) ≡ t
drop-append [] t = refl
drop-append (a ∷ k) t = drop-append k t

-- No code point of `s` is a slash.
abbrev pub NoSlash : List ℕ → Type 0
NoSlash s = All (λ c. (c == slash) ≡ false) s

add_char-NoSlash :
    (c : ℕ) (ss : List (List ℕ))
    → (c == slash) ≡ false
    → All NoSlash ss
    → All NoSlash (add_char c ss)
unfolding add_char
add_char-NoSlash c [] h all = ((h, tt), tt)
add_char-NoSlash c (s ∷ ss) h all = ((h, all.0), all.1)

pub split-NoSlash : (p : List ℕ) → All NoSlash (split p)
unfolding split
split-NoSlash [] = (tt, tt)
split-NoSlash (c ∷ cs) = elim (Bool-cases (c == slash)) [
  | inl e ↦ rw e (tt, split-NoSlash cs)
  | inr e ↦ rw e (add_char-NoSlash c (split cs) e (split-NoSlash cs))
]

split-cons :
    (c : ℕ) (cs : List ℕ)
    → split (c ∷ cs) ≡ (if c == slash then [] ∷ split cs else add_char c (split cs))
unfolding split
split-cons c cs = refl

add_char-ne-nil : (c : ℕ) (ss : List (List ℕ)) → add_char c ss ≢ []
unfolding add_char
add_char-ne-nil c [] h = cc
add_char-ne-nil c (s ∷ ss) h = cc

split-ne-nil : (p : List ℕ) → split p ≢ []
unfolding split
split-ne-nil [] h = cc
split-ne-nil (c ∷ cs) h = elim (Bool-cases (c == slash)) [
  | inl e ↦ nil-ne (split cs) (rw e at h)
  | inr e ↦ add_char-ne-nil c (split cs) (rw e at h)
]
  where
    nil-ne : (r : List (List ℕ)) → ([] ∷ r) ≢ []
    nil-ne r q = cc

add_char-append :
    (c : ℕ) (ss ts : List (List ℕ)) → ss ≢ [] → add_char c (ss ++ ts) ≡ add_char c ss ++ ts
unfolding add_char
add_char-append c [] ts h = absurd (h refl)
add_char-append c (s ∷ ss) ts h = refl

-- Splitting at a slash: the pieces of what stands before it, then of what stands behind it.
pub split-append : (a b : List ℕ) → split (a ++ slash ∷ b) ≡ split a ++ split b
unfolding split
split-append [] b = refl
split-append (c ∷ cs) b = elim (Bool-cases (c == slash)) [
  | inl e ↦ rw e (ap (λ r. [] ∷ r) (split-append cs b))
  | inr e ↦ rw (e, split-append cs b) (add_char-append c (split cs) (split b) (split-ne-nil cs))
]

-- A text with no slash is one piece.
pub split-single : (s : List ℕ) → NoSlash s → split s ≡ s ∷ []
unfolding split add_char
split-single [] h = refl
split-single (c ∷ cs) h = rw (h.0, split-single cs h.1) refl

pub split-join :
    (s : List ℕ) (ss : List (List ℕ)) → All NoSlash (s ∷ ss) → split (join (s ∷ ss)) ≡ s ∷ ss
unfolding join
split-join s [] all = split-single s all.0
split-join s (t ∷ r) all =
    split-append s (join (t ∷ r)) ∙ rw (split-single s all.0, split-join t r all.1) refl
