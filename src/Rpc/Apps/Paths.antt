-- ===== src/Rpc/Apps/Paths.antt =====
-- The requests of class AppsStd (design/nextboot-impl/hexrpcd.py) on a path: opening files and
-- directories, and the changes below a prefix that accepts writes.
use y700_linux.Prelude.{
  ℕ, ◌+◌, ◌*◌, ◌^◌, Bool, true, false, ◌||◌, Option, none, some, List, [], ◌∷◌, ◌++◌, ◌==◌, length,
  take, drop, replicate, elem, if◌then◌else◌,
}
use y700_linux.Rpc.Vfs.{slash, text_eq, starts_with, Vfs, local, writable}
use y700_linux.Rpc.Vfs.Listing.{listdir}
use y700_linux.Rpc.Frames.{unpack32, le32}
use y700_linux.Rpc.Apps.{
  efailed, eunsupported, open_read, open_write, make_parent, make_dirs, remove, replace, Called,
  gives, not_found, os_error, other_error, World, Obj, file, entries, State, Answer, reply, raises,
  Served, require, perform, and_then, reply32, get_fd, pop_fd, new_fd, text_of, ljust, first_seq,
  pack64,
}

-- 'ADSP_LIBRARY_PATH', '/usr/lib/qcom/adsp', 'ADSP_AVS_CFG_PATH' and '/vendor/etc/acdbdata'
abbrev pub library_env : List ℕ
library_env =
    65 ∷ 68 ∷ 83 ∷ 80 ∷ 95 ∷ 76 ∷ 73 ∷ 66 ∷ 82 ∷ 65 ∷ 82 ∷ 89 ∷ 95 ∷ 80 ∷ 65 ∷ 84 ∷ 72 ∷ []

abbrev pub library_dir : List ℕ
library_dir =
    47 ∷ 117 ∷ 115 ∷ 114 ∷ 47 ∷ 108 ∷ 105 ∷ 98 ∷ 47 ∷ 113 ∷ 99 ∷ 111 ∷ 109 ∷ 47 ∷ 97 ∷ 100 ∷ 115
    ∷ 112 ∷ []

abbrev pub avs_env : List ℕ
avs_env = 65 ∷ 68 ∷ 83 ∷ 80 ∷ 95 ∷ 65 ∷ 86 ∷ 83 ∷ 95 ∷ 67 ∷ 70 ∷ 71 ∷ 95 ∷ 80 ∷ 65 ∷ 84 ∷ 72 ∷ []

abbrev pub avs_dir : List ℕ
avs_dir =
    47 ∷ 118 ∷ 101 ∷ 110 ∷ 100 ∷ 111 ∷ 114 ∷ 47 ∷ 101 ∷ 116 ∷ 99 ∷ 47 ∷ 97 ∷ 99 ∷ 100 ∷ 98 ∷ 100
    ∷ 97 ∷ 116 ∷ 97 ∷ []

-- Where a name that is not absolute is looked up.
abbrev pub base_of : List ℕ → Option (List ℕ)
base_of env =
    if text_eq env library_env
    then some library_dir
    else if text_eq env avs_env
    then some avs_dir
    else none

abbrev pub below : Option (List ℕ) → List ℕ → Option (List ℕ)
below none name = none
below (some base) name = some (base ++ slash ∷ name)

abbrev pub path_of : List ℕ → List ℕ → Option (List ℕ)
path_of env name = if starts_with (slash ∷ []) name then some name else below (base_of env) name

-- mode.replace('b', '')
abbrev pub without_b : List ℕ → List ℕ
without_b [] = []
without_b (c ∷ cs) = let rest = without_b cs in if c == 98 then rest else c ∷ rest

-- The mode that Python opens with, of the letters r (114), w (119), a (97), b (98) and +.
abbrev pub python_mode : List ℕ → List ℕ
python_mode mode =
    let m = without_b mode in
    if text_eq m (97 ∷ [])
    then 97 ∷ 98 ∷ []
    else if text_eq m (114 ∷ 43 ∷ [])
    then 114 ∷ 43 ∷ 98 ∷ []
    else if text_eq m (119 ∷ 43 ∷ [])
    then 119 ∷ 43 ∷ 98 ∷ []
    else if text_eq m (97 ∷ 43 ∷ [])
    then 97 ∷ 43 ∷ 98 ∷ []
    else 119 ∷ 98 ∷ []

-- mode[:1] in ('w', 'a') or '+' in mode
abbrev pub is_write : List ℕ → Bool
is_write mode = starts_with (119 ∷ []) mode || starts_with (97 ∷ []) mode || elem 43 mode

-- An empty path counts as none.
abbrev pub truthy : Option (List ℕ) → Option (List ℕ)
truthy none = none
truthy (some []) = none
truthy (some (c ∷ cs)) = some (c ∷ cs)

-- The local path of a virtual one that may be written.
abbrev pub writable_path : Vfs → Option (List ℕ) → Option (List ℕ)
writable_path vfs none = none
writable_path vfs (some v) = if writable vfs v then truthy (local vfs v) else none

abbrev pub local_of : Vfs → Option (List ℕ) → Option (List ℕ)
local_of vfs none = none
local_of vfs (some v) = truthy (local vfs v)

abbrev pub reply_fd : Obj → State → Served
reply_fd o s = reply32 s.next (new_fd o s)

abbrev pub open_rw : World → Option (List ℕ) → List ℕ → State → Served
open_rw w none mode s = (s, reply eunsupported (le32 0 ∷ []))
open_rw w (some p) mode s = and_then (perform w (make_parent p) s) λ s1 n d.
    and_then (perform w (open_write p (python_mode mode)) s1) λ s2 n' d'. reply_fd (file p false) s2

abbrev pub open_ro : World → Option (List ℕ) → State → Served
open_ro w none s = (s, reply efailed (le32 0 ∷ []))
open_ro w (some p) s =
    if w.is_file s.effects p
    then (and_then (perform w (open_read p) s) λ s' n d. reply_fd (file p true) s')
    else (s, reply efailed (le32 0 ∷ []))

-- The four sequences are the environment, the delimiter, the name and the mode.
unfoldable pub fopen_with_env : World → Vfs → List (List ℕ) → State → Served
fopen_with_env w vfs (env ∷ delim ∷ name ∷ mode ∷ []) s =
    let v = path_of (text_of w env) (text_of w name) in
    if is_write (text_of w mode)
    then open_rw w (writable_path vfs v) (text_of w mode) s
    else open_ro w (local_of vfs v) s
fopen_with_env w vfs _ s = (s, raises)

abbrev pub listing : World → Vfs → List ℕ → State → Option (List (List ℕ))
listing w vfs name s = listdir (w.is_dir s.effects) (w.names s.effects) vfs name

abbrev pub open_entries : Option (List (List ℕ)) → State → Served
open_entries none s = (s, reply efailed (replicate 8 0 ∷ []))
open_entries (some es) s =
    require (pack64 s.next) (new_fd (entries es) s) λ b. (new_fd (entries es) s, reply 0 (b ∷ []))

unfoldable pub opendir : World → Vfs → List (List ℕ) → State → Served
opendir w vfs seqs s =
    require (first_seq seqs) s λ q. open_entries (listing w vfs (text_of w q) s) s

-- struct.unpack_from('<Q', prim)
abbrev pub unpack64 : List ℕ → Option ℕ
unpack64 prim = elim (unpack32 prim) [
  | none ↦ none
  | some lo ↦ elim (unpack32 (drop 4 prim)) [ none ↦ none | some hi ↦ some (lo + 2 ^ 32 * hi) ]
]

abbrev pub found_code : Option Obj → ℕ
found_code none = efailed
found_code (some o) = 0

unfoldable pub closedir : List ℕ → State → Served
closedir prim s =
    require (unpack64 prim) s
      λ d. (record s { fds = pop_fd d s.fds }, reply (found_code (get_fd d s.fds)) [])

-- list.pop(0), in place.
unfoldable pub set_entries : ℕ → List (List ℕ) → List (ℕ × Obj) → List (ℕ × Obj)
set_entries d es [] = []
set_entries d es ((n, o) ∷ fds) =
    let rest = set_entries d es fds in if n == d then (n, entries es) ∷ fds else (n, o) ∷ rest

abbrev pub entry_reply : List ℕ → Answer
entry_reply name =
    reply 0 ((le32 0 ++ (ljust 256 name ++ le32 (if length name == 0 then 1 else 0))) ∷ [])

abbrev pub read_entry : World → ℕ → Option Obj → State → Served
read_entry w d none s = (s, reply efailed (replicate 264 0 ∷ []))
read_entry w d (some (file p is_rb)) s = (s, reply efailed (replicate 264 0 ∷ []))
read_entry w d (some (entries [])) s = (s, entry_reply [])
read_entry w d (some (entries (e ∷ es))) s =
    (record s { fds = set_entries d es s.fds }, entry_reply (take 255 (w.encode e)))

unfoldable pub readdir : World → List ℕ → State → Served
readdir w prim s = require (unpack64 prim) s λ d. read_entry w d (get_fd d s.fds) s

-- _rwpath
abbrev pub rwpath : World → Vfs → List ℕ → Option (List ℕ)
rwpath w vfs seq = writable_path vfs (some (text_of w seq))

abbrev pub removed : State × Called → Served
removed (s, gives n d) = (s, reply 0 [])
removed (s, not_found) = (s, reply efailed [])
removed (s, os_error) = (s, raises)
removed (s, other_error) = (s, raises)

abbrev pub remove_at : World → Option (List ℕ) → State → Served
remove_at w none s = (s, reply eunsupported [])
remove_at w (some p) s = removed (perform w (remove p) s)

unfoldable pub fremove : World → Vfs → List (List ℕ) → State → Served
fremove w vfs seqs s = require (first_seq seqs) s λ q. remove_at w (rwpath w vfs q) s

-- FileNotFoundError is an OSError.
abbrev pub renamed : State × Called → Served
renamed (s, gives n d) = (s, reply 0 [])
renamed (s, not_found) = (s, reply efailed [])
renamed (s, os_error) = (s, reply efailed [])
renamed (s, other_error) = (s, raises)

abbrev pub rename_at : World → Option (List ℕ) → Option (List ℕ) → State → Served
rename_at w none b s = (s, reply eunsupported [])
rename_at w (some a) none s = (s, reply eunsupported [])
rename_at w (some a) (some b) s = renamed (perform w (replace a b) s)

unfoldable pub frename : World → Vfs → List (List ℕ) → State → Served
frename w vfs (qa ∷ qb ∷ qs) s = rename_at w (rwpath w vfs qa) (rwpath w vfs qb) s
frename w vfs _ s = (s, raises)

abbrev pub mkdir_at : World → Option (List ℕ) → State → Served
mkdir_at w none s = (s, reply eunsupported [])
mkdir_at w (some p) s = and_then (perform w (make_dirs p) s) λ s' n d. (s', reply 0 [])

unfoldable pub mkdir : World → Vfs → List (List ℕ) → State → Served
mkdir w vfs seqs s = require (first_seq seqs) s λ q. mkdir_at w (rwpath w vfs q) s
