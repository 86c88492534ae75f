-- ===== src/Rpc/Vfs.antt =====
-- class VFS of design/nextboot-impl/hexrpcd.py: virtual path prefixes over local directories.
--
-- A text is the list of its code points. `split` and `join` are str.split and str.join at '/',
-- `path_join` is os.path.join of two paths. The values of the mapping are given as a directory with
-- the flag of {"dir": ..., "rw": ...}; listing directories reads the file system and is left out.
pub mod Text
pub mod Norm
pub mod Escape
pub mod Prefix
pub mod Listing
mod Tests
use y700_linux.Prelude.{
  ℕ, zero, suc, ◌+◌, ◌-◌, Bool, true, false, ◌&&◌, ◌||◌, not, Option, none, some, List, [], ◌∷◌,
  ◌++◌, ◌==◌, leb, length, drop, map, if◌then◌else◌,
}

abbrev pub slash : ℕ
slash = 47

abbrev pub dot : List ℕ
dot = 46 ∷ []

abbrev pub dotdot : List ℕ
dotdot = 46 ∷ 46 ∷ []

-- a == b on texts
unfoldable pub text_eq : List ℕ → List ℕ → Bool
text_eq [] [] = true
text_eq [] (b ∷ bs) = false
text_eq (a ∷ as') [] = false
text_eq (a ∷ as') (b ∷ bs) = a == b && text_eq as' bs

-- v.startswith(k)
unfoldable pub starts_with : List ℕ → List ℕ → Bool
starts_with [] v = true
starts_with (a ∷ k) [] = false
starts_with (a ∷ k) (b ∷ v) = a == b && starts_with k v

add_char : ℕ → List (List ℕ) → List (List ℕ)
add_char c [] = (c ∷ []) ∷ []
add_char c (s ∷ ss) = (c ∷ s) ∷ ss

unfoldable pub split : List ℕ → List (List ℕ)
unfolding add_char
split [] = [] ∷ []
split (c ∷ cs) = let rest = split cs in if c == slash then [] ∷ rest else add_char c rest

unfoldable pub join : List (List ℕ) → List ℕ
join [] = []
join (s ∷ []) = s
join (s ∷ t ∷ r) = s ++ slash ∷ join (t ∷ r)

-- s.lstrip('/')
unfoldable pub lstrip : List ℕ → List ℕ
lstrip [] = []
lstrip (c ∷ cs) = if c == slash then lstrip cs else c ∷ cs

-- s.rstrip('/')
unfoldable pub rstrip : List ℕ → List ℕ
rstrip [] = []
rstrip (c ∷ cs) =
    let rest = rstrip cs in
    elim rest [ [] ↦ (if c == slash then [] else c ∷ []) | d ∷ ds ↦ c ∷ d ∷ ds ]

-- parts.pop(), on a list that may be empty
unfoldable pub pop : List (List ℕ) → List (List ℕ)
pop [] = []
pop (s ∷ []) = []
pop (s ∷ t ∷ r) = s ∷ pop (t ∷ r)

-- One turn of the loop of `norm`.
unfoldable pub walk : List (List ℕ) → List ℕ → List (List ℕ)
walk parts s =
    if text_eq s [] || text_eq s dot
    then parts
    else if text_eq s dotdot
    then pop parts
    else parts ++ s ∷ []

unfoldable pub walk_all : List (List ℕ) → List (List ℕ) → List (List ℕ)
walk_all parts [] = parts
walk_all parts (s ∷ ss) = walk_all (walk parts s) ss

unfoldable pub norm : List ℕ → List ℕ
norm p = slash ∷ join (walk_all [] (split p))

-- A line of the mapping: prefix, directory, and whether it accepts writes.
pub record Item : Type 0 where
  pub prefix : List ℕ
  pub dir : List ℕ
  pub rw_flag : Bool

pub record Vfs : Type 0 where
  pub mapped : List (List ℕ × List ℕ)
  pub rw_keys : List (List ℕ)

-- k.rstrip('/') or '/'
pub key_of : List ℕ → List ℕ
key_of k = elim (rstrip k) [ [] ↦ slash ∷ [] | c ∷ cs ↦ c ∷ cs ]

-- sorted(..., key=lambda x: -len(x[0])), which is stable: the longest prefix first.
insert_longest : List ℕ × List ℕ → List (List ℕ × List ℕ) → List (List ℕ × List ℕ)
insert_longest (k, d) [] = (k, d) ∷ []
insert_longest (k, d) ((j, e) ∷ m) =
    let rest = insert_longest (k, d) m in
    if leb (length j) (length k) then (k, d) ∷ (j, e) ∷ m else (j, e) ∷ rest

unfoldable pub sort_map : List Item → List (List ℕ × List ℕ)
unfolding insert_longest key_of
sort_map [] = []
sort_map (i ∷ is) = insert_longest (key_of i.prefix, i.dir) (sort_map is)

unfoldable pub rw_of : List Item → List (List ℕ)
unfolding key_of
rw_of [] = []
rw_of (i ∷ is) = let rest = rw_of is in if i.rw_flag then key_of i.prefix ∷ rest else rest

unfoldable pub new_vfs : List Item → Vfs
new_vfs items = record { mapped = sort_map items; rw_keys = rw_of items }

-- v == k or v.startswith(k + '/')
unfoldable pub covers : List ℕ → List ℕ → Bool
covers k v = text_eq v k || starts_with (k ++ slash ∷ []) v

unfoldable pub any_covers : List (List ℕ) → List ℕ → Bool
any_covers [] v = false
any_covers (k ∷ ks) v = covers k v || any_covers ks v

unfoldable pub writable : Vfs → List ℕ → Bool
writable vfs p = any_covers vfs.rw_keys (norm p)

-- The first prefix of the sorted mapping that covers `v`, with its directory.
unfoldable pub find : List (List ℕ × List ℕ) → List ℕ → Option (List ℕ × List ℕ)
find [] v = none
find ((k, d) ∷ m) v = if covers k v then some (k, d) else find m v

ends_with_slash : List ℕ → Bool
ends_with_slash [] = false
ends_with_slash (c ∷ []) = c == slash
ends_with_slash (c ∷ d ∷ r) = ends_with_slash (d ∷ r)

unfoldable pub path_join : List ℕ → List ℕ → List ℕ
unfolding ends_with_slash
path_join a b =
    if starts_with (slash ∷ []) b
    then b
    else if text_eq a [] || ends_with_slash a
    then a ++ b
    else a ++ slash ∷ b

-- What is left of `v` behind its prefix.
unfoldable pub rest_of : List ℕ → List ℕ → List ℕ
rest_of k v = lstrip (drop (length k) v)

unfoldable pub local : Vfs → List ℕ → Option (List ℕ)
local vfs p = elim (find vfs.mapped (norm p)) [
  | none ↦ none
  | some (k, d) ↦ some (path_join d (rest_of k (norm p)))
]
