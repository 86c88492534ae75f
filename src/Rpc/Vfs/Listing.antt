-- ===== src/Rpc/Vfs/Listing.antt =====
-- VFS.listdir of design/nextboot-impl/hexrpcd.py: the names in a virtual directory.
use y700_linux.Prelude.{
  ℕ, ◌+◌, Bool, true, false, ◌&&◌, not, Option, none, some, List, [], ◌∷◌, ◌++◌, ◌==◌, ltb, length,
  drop, if◌then◌else◌,
}
use y700_linux.Rpc.Vfs.{slash, text_eq, starts_with, split, rstrip, norm, Vfs, local}

-- a < b on texts
abbrev pub text_ltb : List ℕ → List ℕ → Bool
text_ltb [] [] = false
text_ltb [] (b ∷ bs) = true
text_ltb (a ∷ as') [] = false
text_ltb (a ∷ as') (b ∷ bs) = if a == b then text_ltb as' bs else ltb a b

-- A set of names is its sorted list.
abbrev pub insert_name : List ℕ → List (List ℕ) → List (List ℕ)
insert_name n [] = n ∷ []
insert_name n (x ∷ xs) =
    let rest = insert_name n xs in
    if text_eq n x then x ∷ xs else if text_ltb n x then n ∷ x ∷ xs else x ∷ rest

abbrev pub insert_names : List (List ℕ) → List (List ℕ) → List (List ℕ)
insert_names [] acc = acc
insert_names (n ∷ ns) acc = insert_name n (insert_names ns acc)

abbrev pub head_of : List (List ℕ) → List ℕ
head_of [] = []
head_of (s ∷ ss) = s

-- The parents of mapped prefixes below `v`.
abbrev pub synthetic : List ℕ → List (List ℕ × List ℕ) → List (List ℕ) → List (List ℕ)
synthetic v [] acc = acc
synthetic v ((pre, dir) ∷ m) acc =
    let rest = synthetic v m acc in
    if not (text_eq pre v) && starts_with (rstrip v ++ slash ∷ []) pre
    then insert_name (head_of (split (drop (length (rstrip v) + 1) pre))) rest
    else rest

abbrev pub sorted_or_none : Bool → List (List ℕ) → Option (List (List ℕ))
sorted_or_none is_dir [] = if is_dir then some [] else none
sorted_or_none is_dir (n ∷ ns) = some (n ∷ ns)

-- `is_dir` and `names` are os.path.isdir and os.listdir of a local path.
module _ (is_dir : List ℕ → Bool) (names : List ℕ → List (List ℕ)) where
  abbrev pub is_local_dir : Option (List ℕ) → Bool
  is_local_dir none = false
  is_local_dir (some []) = false
  is_local_dir (some (c ∷ cs)) = is_dir (c ∷ cs)

  abbrev pub local_names : Option (List ℕ) → List (List ℕ)
  local_names none = []
  local_names (some []) = []
  local_names (some (c ∷ cs)) = if is_dir (c ∷ cs) then insert_names (names (c ∷ cs)) [] else []

  unfoldable pub listdir : Vfs → List ℕ → Option (List (List ℕ))
  listdir vfs p =
      let v = norm p in
      let loc = local vfs v in
      sorted_or_none (is_local_dir loc) (synthetic v vfs.mapped (local_names loc))
