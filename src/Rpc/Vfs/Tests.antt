-- ===== src/Rpc/Vfs/Tests.antt =====
-- class VFS on a small mapping, and instances of its theorems.
use Prim.Native.Char.{code}
use Prim.Native.String.{String}
use mathlib.Core.List.{Memᴰ}
use y700_linux.Prelude.{ℕ, ◌≡◌, refl, true, false, some, List, [], ◌∷◌}
use y700_linux.Rpc.Vfs.{
  Vfs, Item, new_vfs, sort_map, rw_of, norm, walk, walk_all, pop, split, join, find, covers,
  writable, local, path_join, rest_of, lstrip, rstrip, text_eq, starts_with,
}
use y700_linux.Rpc.Vfs.Escape.{StaysBelow, local-StaysBelow}
use y700_linux.Rpc.Vfs.Prefix.{nested_writable}

abbrev codes : String → List ℕ
codes String.[] = []
codes (String.◌∷◌ c s) = code c ∷ codes s

-- A scratch tree that the DSP may write, with a read-only tree mapped below it.
abbrev outer : Item
outer = record { prefix = codes "/p/"; dir = codes "/scratch"; rw_flag = true }

abbrev inner : Item
inner = record { prefix = codes "/p/hw"; dir = codes "/ro"; rw_flag = false }

abbrev items : List Item
items = outer ∷ inner ∷ []

abbrev vfs : Vfs
vfs = record {
  mapped = (codes "/p/hw", codes "/ro") ∷ (codes "/p", codes "/scratch") ∷ [];
  rw_keys = codes "/p" ∷ [];
}

vfs_lem : new_vfs items ≡ vfs
unfolding new_vfs sort_map rw_of rstrip
vfs_lem = refl

norm_runs : norm (codes "p//./x/../../../p/hw/a") ≡ codes "/p/hw/a"
unfolding norm walk_all walk pop split join text_eq
norm_runs = refl

local_runs : local vfs (codes "/p/hw/../a") ≡ some (codes "/scratch/a")
unfolding local find covers norm walk_all walk pop split join text_eq starts_with path_join rest_of
    lstrip
local_runs = refl

local-StaysBelow_example :
    (k : List ℕ) × (d : List ℕ) × (find vfs.mapped (norm (codes "/p/hw/../a")) ≡ some (k, d))
    × (codes "/scratch/a" ≡ path_join d (rest_of k (norm (codes "/p/hw/../a"))))
    × StaysBelow (rest_of k (norm (codes "/p/hw/../a")))
    × (starts_with d (codes "/scratch/a") ≡ true)
local-StaysBelow_example = local-StaysBelow vfs (codes "/p/hw/../a") (codes "/scratch/a") local_runs

-- The file below the read-only tree is writable.
nested_writable_example :
    (writable (new_vfs items) (codes "/p/hw/a") ≡ true)
    × (local (new_vfs items) (codes "/p/hw/a")
        ≡ some (path_join (codes "/ro") (rest_of (codes "/p/hw") (norm (codes "/p/hw/a")))))
unfolding covers text_eq starts_with norm walk_all walk pop split join sort_map rstrip find
nested_writable_example =
    nested_writable items outer inner (codes "/p/hw/a") (Memᴰ.head refl) refl refl refl refl

only_p : (k : List ℕ) → Memᴰ k (codes "/p" ∷ []) → k ≡ codes "/p"
only_p k (Memᴰ.head e) = e
only_p k (Memᴰ.tail m) = elim m [ ]
