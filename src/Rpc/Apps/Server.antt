-- ===== src/Rpc/Apps/Server.antt =====
-- The table of methods of design/nextboot-impl/hexrpcd.py, APPS_STD, the rest of its handlers, and the
-- call of a handler.
use y700_linux.Prelude.{
  ℕ, Bool, true, false, ◌||◌, Option, none, some, List, [], ◌∷◌, ◌++◌, ◌==◌, drop, replicate,
  if◌then◌else◌,
}
use y700_linux.Rpc.Vfs.{slash, starts_with, Vfs, local}
use y700_linux.Rpc.Frames.{unpack32}
use y700_linux.Rpc.Apps.{
  efailed, World, State, reply, Served, require, text_of, first_seq, fread, fclose, fseek, fwrite,
  fsync, ftell, flen, ftrunc,
}
use y700_linux.Rpc.Apps.Paths.{
  truthy, library_dir, listing, unpack64, fopen_with_env, opendir, closedir, readdir, fremove,
  frename, mkdir,
}

abbrev pub is_listed : Option (List (List ℕ)) → Bool
is_listed none = false
is_listed (some es) = true

abbrev pub exists_at : World → State → Option (List ℕ) → Bool
exists_at w s none = false
exists_at w s (some p) = w.exists s.effects p

unfoldable pub file_exists : World → Vfs → List (List ℕ) → State → Served
file_exists w vfs seqs s = require (first_seq seqs) s λ q.
    let v = text_of w q in
    (
      s,
      reply 0 (
          ((if exists_at w s (truthy (local vfs v)) || is_listed (listing w vfs v s) then 1 else 0)
            ∷ [])
          ∷ []),
    )

-- os.stat('/') of a directory that exists only in the tree.
abbrev pub reply_stat : Option (List ℕ) → State → Served
reply_stat st s = require st s λ bytes. (s, reply 0 (bytes ∷ []))

unfoldable pub stat : World → Vfs → List (List ℕ) → State → Served
stat w vfs seqs s = require (first_seq seqs) s λ q.
    let name = text_of w q in
    let p =
      truthy
        (local vfs (if starts_with (slash ∷ []) name then name else library_dir ++ slash ∷ name)) in
    if exists_at w s p
    then (require p s λ path. reply_stat (w.stat_of s.effects path) s)
    else if is_listed (listing w vfs name s)
    then reply_stat (w.stat_of s.effects (slash ∷ [])) s
    else (s, reply efailed (replicate 96 0 ∷ []))

-- What stands in the primitive input buffer: W4 and W8 words, S the length of a sequence and O the
-- capacity for one.
pub data Kind : Type 0 where
  w4 w8 seq cap : Kind

-- The rows of APPS_STD.
pub data Method : Type 0 where
  fflush_m fclose_m fread_m fwrite_m ftell_m fseek_m flen_m fopen_m file_exists_m fsync_m : Method
  fremove_m opendir_m closedir_m readdir_m mkdir_m stat_m ftrunc_m frename_m : Method

abbrev pub methods : List (ℕ × Method)
methods =
    (2, fflush_m)
    ∷ (3, fclose_m)
    ∷ (4, fread_m)
    ∷ (5, fwrite_m)
    ∷ (8, ftell_m)
    ∷ (9, fseek_m)
    ∷ (10, flen_m)
    ∷ (19, fopen_m)
    ∷ (22, file_exists_m)
    ∷ (23, fsync_m)
    ∷ (24, fremove_m)
    ∷ (26, opendir_m)
    ∷ (27, closedir_m)
    ∷ (28, readdir_m)
    ∷ (29, mkdir_m)
    ∷ (31, stat_m)
    ∷ (32, ftrunc_m)
    ∷ (33, frename_m)
    ∷ []

abbrev pub method_in : List (ℕ × Method) → ℕ → Option Method
method_in [] n = none
method_in ((k, m) ∷ ms) n = if k == n then some m else method_in ms n

unfoldable pub apps_std : ℕ → Option Method
apps_std n = method_in methods n

unfoldable pub inputs : Method → List Kind
inputs fread_m = w4 ∷ cap ∷ []
inputs fwrite_m = w4 ∷ seq ∷ []
inputs fseek_m = w4 ∷ w4 ∷ w4 ∷ []
inputs fopen_m = seq ∷ seq ∷ seq ∷ seq ∷ []
inputs file_exists_m = seq ∷ []
inputs fremove_m = seq ∷ []
inputs opendir_m = seq ∷ []
inputs closedir_m = w8 ∷ []
inputs readdir_m = w8 ∷ []
inputs mkdir_m = seq ∷ w4 ∷ []
inputs stat_m = seq ∷ []
inputs ftrunc_m = w4 ∷ w4 ∷ []
inputs frename_m = seq ∷ seq ∷ []
inputs _ = w4 ∷ []

abbrev pub add_cap : ℕ → Option (List ℕ) → Option (List ℕ)
add_cap n none = none
add_cap n (some caps) = some (n ∷ caps)

-- The loop over the input spec from what is left of the buffer: the capacities.
abbrev pub caps_of : List Kind → List ℕ → Option (List ℕ)
caps_of [] prim = some []
caps_of (w8 ∷ ks) prim = elim (unpack64 prim) [ none ↦ none | some n ↦ caps_of ks (drop 8 prim) ]
caps_of (w4 ∷ ks) prim = elim (unpack32 prim) [ none ↦ none | some n ↦ caps_of ks (drop 4 prim) ]
caps_of (seq ∷ ks) prim = elim (unpack32 prim) [ none ↦ none | some n ↦ caps_of ks (drop 4 prim) ]
caps_of (cap ∷ ks) prim = elim (unpack32 prim) [
  | none ↦ none
  | some n ↦ add_cap n (caps_of ks (drop 4 prim))
]

abbrev pub first_cap : List ℕ → Option ℕ
first_cap [] = none
first_cap (n ∷ ns) = some n

unfoldable pub handle_apps : World → Vfs → Method → List ℕ → List (List ℕ) → List ℕ → State → Served
handle_apps w vfs fflush_m prim seqs caps s = (s, reply 0 [])
handle_apps w vfs fclose_m prim seqs caps s = fclose w prim s
handle_apps w vfs fread_m prim seqs caps s = require (first_cap caps) s λ n. fread w prim n s
handle_apps w vfs fwrite_m prim seqs caps s = fwrite w prim seqs s
handle_apps w vfs ftell_m prim seqs caps s = ftell w prim s
handle_apps w vfs fseek_m prim seqs caps s = fseek w prim s
handle_apps w vfs flen_m prim seqs caps s = flen w prim s
handle_apps w vfs fopen_m prim seqs caps s = fopen_with_env w vfs seqs s
handle_apps w vfs file_exists_m prim seqs caps s = file_exists w vfs seqs s
handle_apps w vfs fsync_m prim seqs caps s = fsync w prim s
handle_apps w vfs fremove_m prim seqs caps s = fremove w vfs seqs s
handle_apps w vfs opendir_m prim seqs caps s = opendir w vfs seqs s
handle_apps w vfs closedir_m prim seqs caps s = closedir prim s
handle_apps w vfs readdir_m prim seqs caps s = readdir w prim s
handle_apps w vfs mkdir_m prim seqs caps s = mkdir w vfs seqs s
handle_apps w vfs stat_m prim seqs caps s = stat w vfs seqs s
handle_apps w vfs ftrunc_m prim seqs caps s = ftrunc w prim s
handle_apps w vfs frename_m prim seqs caps s = frename w vfs seqs s
