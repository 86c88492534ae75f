-- ===== src/Rpc/Vfs/Prefix.antt =====
-- Which prefix class VFS chooses, and which paths it lets the DSP write.
use y700_linux.Prelude.{
  ℕ, ◌≤◌, ◌≡◌, ◌⊎◌, ap, subst, refl, true, false, some, List, [], ◌∷◌, ◌++◌, arith, Bool-cases, inl,
  inr, leb, All, length,
}
use mathlib.Core.Option.{some-injective}
use mathlib.Core.List.{Memᴰ}
use y700_linux.Rpc.Vfs.{
  slash, text_eq, starts_with, norm, covers, any_covers, find, Vfs, Item, sort_map, insert_longest,
  key_of, writable, rw_of, new_vfs, local, path_join, rest_of,
}
use y700_linux.Rpc.Vfs.Escape.{find-covers}
use y700_linux.Rpc.Vfs.Text.{text_eq→eq, starts_with-append}

-- The longest prefix comes first.
abbrev pub Descending : List (List ℕ × List ℕ) → Type 0
Descending [] = Unit
Descending ((k, d) ∷ m) = All (λ i. length i.0 ≤ length k) m × Descending m

All-insert_longest :
    (P : List ℕ × List ℕ → Type 0) (i : List ℕ × List ℕ) (m : List (List ℕ × List ℕ))
    → P i
    → All P m
    → All P (insert_longest i m)
unfolding insert_longest
All-insert_longest P (k, d) [] h all = (h, tt)
All-insert_longest P (k, d) ((j, e) ∷ m) h all = elim (Bool-cases (leb (length j) (length k))) [
  | inl le ↦ rw le (h, all)
  | inr gt ↦ rw gt (all.0, All-insert_longest P (k, d) m h all.1)
]

All-shorter :
    (a b : ℕ) (m : List (List ℕ × List ℕ))
    → a ≤ b
    → All (λ i. length i.0 ≤ a) m
    → All (λ i. length i.0 ≤ b) m
All-shorter a b [] h all = tt
All-shorter a b (i ∷ m) h all = (omega arith, All-shorter a b m h all.1)

insert_longest-Descending :
    (i : List ℕ × List ℕ) (m : List (List ℕ × List ℕ))
    → Descending m
    → Descending (insert_longest i m)
unfolding insert_longest
insert_longest-Descending (k, d) [] h = (tt, tt)
insert_longest-Descending (k, d) ((j, e) ∷ m) h = elim (Bool-cases (leb (length j) (length k))) [
  | inl le ↦
      let q : length j ≤ length k = ground arith in
      rw le ((q, All-shorter (length j) (length k) m q h.0), h)
  | inr gt ↦ rw gt (
    All-insert_longest (λ i. length i.0 ≤ length j) (k, d) m (ground arith) h.0,
    insert_longest-Descending (k, d) m h.1,
  )
]

sort_map-Descending : (items : List Item) → Descending (sort_map items)
unfolding sort_map
sort_map-Descending [] = tt
sort_map-Descending (i ∷ is) =
    insert_longest-Descending (key_of i.prefix, i.dir) (sort_map is) (sort_map-Descending is)

-- A line of the mapping either does not cover the path or is no longer than `k`.
abbrev pub NoLonger : List ℕ → List ℕ → List (List ℕ × List ℕ) → Type 0
NoLonger v k m = All (λ i. (covers i.0 v ≡ false) ⊎ (length i.0 ≤ length k)) m

shorter-NoLonger :
    (v k : List ℕ) (m : List (List ℕ × List ℕ))
    → All (λ i. length i.0 ≤ length k) m
    → NoLonger v k m
shorter-NoLonger v k [] all = tt
shorter-NoLonger v k (i ∷ m) all = (inr all.0, shorter-NoLonger v k m all.1)

find_longest_lem :
    (m : List (List ℕ × List ℕ)) (v : List ℕ) (i : List ℕ × List ℕ)
    → Descending m
    → find m v ≡ some i
    → (covers i.0 v ≡ true) × NoLonger v i.0 m
unfolding find
find_longest_lem [] v i h e = cc
find_longest_lem ((k, d) ∷ m) v i h e = elim (Bool-cases (covers k v)) [
  | inl c ↦
      let q : (k, d) ≡ i = some-injective _ _ (rw c at e) in
      subst (λ (j : List ℕ × List ℕ). (covers j.0 v ≡ true) × NoLonger v j.0 ((k, d) ∷ m)) q
        (c, (inr (omega arith), shorter-NoLonger v k m h.0))
  | inr c ↦ let (a, b) = find_longest_lem m v i h.1 (rw c at e) in (a, (inl c, b))
]

-- The prefix that serves a path covers it, and no longer prefix of the mapping does.
pub find_longest :
    (items : List Item) (v : List ℕ) (i : List ℕ × List ℕ)
    → find (sort_map items) v ≡ some i
    → (covers i.0 v ≡ true) × NoLonger v i.0 (sort_map items)
find_longest items v i e = find_longest_lem (sort_map items) v i (sort_map-Descending items) e

any_covers→key :
    (ks : List (List ℕ)) (v : List ℕ)
    → any_covers ks v ≡ true
    → (k : List ℕ) × Memᴰ k ks × (covers k v ≡ true)
unfolding any_covers
any_covers→key [] v h = cc
any_covers→key (k ∷ ks) v h = elim (Bool-cases (covers k v)) [
  | inl c ↦ (k, Memᴰ.head refl, c)
  | inr c ↦ let (j, m, e) = any_covers→key ks v (rw c at h) in (j, Memᴰ.tail m, e)
]

key→any_covers :
    (ks : List (List ℕ)) (k v : List ℕ) → Memᴰ k ks → covers k v ≡ true → any_covers ks v ≡ true
unfolding any_covers
key→any_covers [] k v m h = elim m [ ]
key→any_covers (j ∷ ks) k v (Memᴰ.head e) h =
    let q : covers j v ≡ true = subst (λ a. covers a v ≡ true) e h in ground arith
key→any_covers (j ∷ ks) k v (Memᴰ.tail m) h =
    let q : any_covers ks v ≡ true = key→any_covers ks k v m h in ground arith

starts_with_trans :
    (a b v : List ℕ) → starts_with a b ≡ true → starts_with b v ≡ true → starts_with a v ≡ true
unfolding starts_with
starts_with_trans [] b v h k = refl
starts_with_trans (x ∷ a) [] v h k = cc
starts_with_trans (x ∷ a) (y ∷ b) [] h k = cc
starts_with_trans (x ∷ a) (y ∷ b) (z ∷ v) h k = ground (arith, starts_with_trans a b v)

covers_trans : (a b v : List ℕ) → covers a b ≡ true → covers b v ≡ true → covers a v ≡ true
unfolding covers
covers_trans a b v h k = elim (Bool-cases (text_eq v b)) [
  | inl e ↦ rw (text_eq→eq v b e) h
  | inr e ↦ elim (Bool-cases (text_eq b a)) [
    | inl f ↦ rw (← text_eq→eq b a f) k
    | inr f ↦
        let q : starts_with (a ++ slash ∷ []) v ≡ true =
          starts_with_trans (a ++ slash ∷ []) b v (rw f at h) (
            starts_with_trans b (b ++ slash ∷ []) v (starts_with-append b (slash ∷ []))
              (rw e at k)) in
        ground arith
  ]
]

rw_of-has :
    (items : List Item) (i : Item)
    → Memᴰ i items
    → i.rw_flag ≡ true
    → Memᴰ (key_of i.prefix) (rw_of items)
unfolding rw_of
rw_of-has [] i m h = elim m [ ]
rw_of-has (j ∷ is) i (Memᴰ.head e) h =
    let q : j.rw_flag ≡ true = subst (λ (a : Item). a.rw_flag ≡ true) e h in
    rw q (Memᴰ.head (ap (λ (a : Item). key_of a.prefix) e))
rw_of-has (j ∷ is) i (Memᴰ.tail m) h = elim (Bool-cases j.rw_flag) [
  | inl e ↦ rw e (Memᴰ.tail (rw_of-has is i m h))
  | inr e ↦ rw e (rw_of-has is i m h)
]

-- Where a mapping without the flag lies below one with it, a path that is served from the directory of
-- the former accepts writes all the same.
pub nested_writable :
    (items : List Item) (outer inner : Item) (p : List ℕ)
    → Memᴰ outer items
    → outer.rw_flag ≡ true
    → inner.rw_flag ≡ false
    → covers (key_of outer.prefix) (key_of inner.prefix) ≡ true
    → find (sort_map items) (norm p) ≡ some (key_of inner.prefix, inner.dir)
    → (writable (new_vfs items) p ≡ true)
      × (local (new_vfs items) p
          ≡ some (path_join inner.dir (rest_of (key_of inner.prefix) (norm p))))
unfolding writable new_vfs local
nested_writable items outer inner p m flag no_flag below e = (
  key→any_covers (rw_of items) (key_of outer.prefix) (norm p) (rw_of-has items outer m flag) (
      covers_trans (key_of outer.prefix) (key_of inner.prefix) (norm p) below
        (find-covers (sort_map items) (norm p) (key_of inner.prefix) inner.dir e)),
  rw (e, local) refl,
)

comparable_lem :
    (k j v : List ℕ)
    → starts_with (k ++ slash ∷ []) v ≡ true
    → starts_with (j ++ slash ∷ []) v ≡ true
    → (text_eq k j ≡ true)
      ⊎ ((starts_with (k ++ slash ∷ []) j ≡ true) ⊎ (starts_with (j ++ slash ∷ []) k ≡ true))
unfolding starts_with text_eq
comparable_lem [] j [] h g = cc
comparable_lem (a ∷ k) j [] h g = cc
comparable_lem [] [] (c ∷ v) h g = inl refl
comparable_lem [] (b ∷ j) (c ∷ v) h g = ground arith
comparable_lem (a ∷ k) [] (c ∷ v) h g = ground arith
comparable_lem (a ∷ k) (b ∷ j) (c ∷ v) h g = ground (arith, comparable_lem k j v)

comparable :
    (k j v : List ℕ)
    → covers k v ≡ true
    → covers j v ≡ true
    → (covers k j ≡ true) ⊎ (covers j k ≡ true)
unfolding covers
comparable k j v h g = elim (Bool-cases (text_eq v k)) [
  | inl e ↦ inr (rw (← text_eq→eq v k e) g)
  | inr e ↦ elim (Bool-cases (text_eq v j)) [
    | inl f ↦ inl (rw (← text_eq→eq v j f) h)
    | inr f ↦ elim (comparable_lem k j v (rw e at h) (rw f at g)) [
      | inl same ↦ inr (rw same refl)
      | inr (inl below) ↦ inl (ground arith)
      | inr (inr below) ↦ inr (ground arith)
    ]
  ]
]

-- Where no prefix of the mapping lies below another one, a writable path is served by an rw prefix.
pub writable_owner :
    (vfs : Vfs) (p : List ℕ) (i : List ℕ × List ℕ)
    → find vfs.mapped (norm p) ≡ some i
    → writable vfs p ≡ true
    → ((k : List ℕ) → Memᴰ k vfs.rw_keys → (covers k i.0 ≡ true) ⊎ (covers i.0 k ≡ true) → k ≡ i.0)
    → Memᴰ i.0 vfs.rw_keys
unfolding writable
writable_owner vfs p i e w flat =
    let (k, m, c) = any_covers→key vfs.rw_keys (norm p) w in
    let same : k ≡ i.0 =
      flat k m (comparable k i.0 (norm p) c (find-covers vfs.mapped (norm p) i.0 i.1 e)) in
    subst (λ j. Memᴰ j vfs.rw_keys) same m
