-- ===== src/Rpc/Apps.antt =====
-- The files that hexrpcd.py (design/nextboot-impl) serves: class AppsStd, its table of open files and
-- the requests on an open file.
--
-- A text is the list of its code points, a byte a number below 256. The file system and Python's file
-- objects are an argument, `World`: each call that the code makes is an `Effect`, and the world says
-- what it returns, from all that was done before. `effects` holds them, the latest first. An open
-- file is its local path, with the flag of a file that was opened with mode rb.
pub mod Paths
pub mod Server
pub mod Dispatch
pub mod Confined
pub mod Handlers
pub mod Rounds
pub mod Sizes
mod Tests
use y700_linux.Prelude.{
  ℕ, zero, suc, ◌+◌, ◌-◌, ◌/◌, ◌%◌, ◌^◌, Bool, true, false, ◌&&◌, ◌||◌, not, Option, none, some,
  List, [], ◌∷◌, ◌++◌, ◌==◌, ltb, length, take, drop, replicate, elem, if◌then◌else◌,
}
use y700_linux.Prelude.Int.{ℤ, pos, negsuc}
use y700_linux.Rpc.Vfs.{slash, text_eq, starts_with, Vfs, local, writable}
use y700_linux.Rpc.Frames.{unpack32, pack32, le32}

abbrev pub efailed : ℕ
efailed = 1

abbrev pub eunsupported : ℕ
eunsupported = 20

-- A call on the file system, on an open file or on the device.
pub data Effect : Type 0 where
  open_read : List ℕ → Effect
  open_write : List ℕ → List ℕ → Effect
  -- os.makedirs(os.path.dirname(p), exist_ok=True)
  make_parent : List ℕ → Effect
  make_dirs : List ℕ → Effect
  remove : List ℕ → Effect
  replace : List ℕ → List ℕ → Effect
  read_file : ℕ → ℕ → Effect
  write_file : ℕ → List ℕ → List ℕ → Effect
  truncate_file : ℕ → List ℕ → ℤ → Effect
  seek_file : ℕ → ℤ → ℕ → Effect
  tell_file size_of sync_file close_file : ℕ → Effect
  map_pages : ℕ → ℕ → Effect

-- What a call returns, or the exception that it raises.
pub data Called : Type 0 where
  gives : ℕ → List ℕ → Called
  not_found os_error other_error : Called

pub record World : Type 0 where
  pub is_file : List Effect → List ℕ → Bool
  pub exists : List Effect → List ℕ → Bool
  pub is_dir : List Effect → List ℕ → Bool
  pub names : List Effect → List ℕ → List (List ℕ)
  -- os.stat, its fields packed to 96 bytes.
  pub stat_of : List Effect → List ℕ → Option (List ℕ)
  pub call : List Effect → Effect → Called
  -- bytes.decode(errors='replace') and str.encode
  pub decode : List ℕ → List ℕ
  pub encode : List ℕ → List ℕ

pub data Obj : Type 0 where
  file : List ℕ → Bool → Obj
  entries : List (List ℕ) → Obj

pub record State : Type 0 where
  pub fds : List (ℕ × Obj)
  pub next : ℕ
  pub effects : List Effect

-- A handler returns a result with its buffers, or raises.
pub data Answer : Type 0 where
  reply : ℕ → List (List ℕ) → Answer
  raises : Answer

abbrev pub Served : Type 0
Served = State × Answer

abbrev pub require : {A : Type 0} → Option A → State → (A → Served) → Served
require none s k = (s, raises)
require (some a) s k = k a

abbrev pub perform : World → Effect → State → State × Called
perform w e s = (record s { effects = e ∷ s.effects }, w.call s.effects e)

abbrev pub and_then : State × Called → (State → ℕ → List ℕ → Served) → Served
and_then (s, gives n bytes) k = k s n bytes
and_then (s, not_found) k = (s, raises)
and_then (s, os_error) k = (s, raises)
and_then (s, other_error) k = (s, raises)

-- struct.pack('<I', n) as the only buffer.
abbrev pub reply32 : ℕ → State → Served
reply32 n s = require (pack32 n) s λ b. (s, reply 0 (b ∷ []))

-- self.fds.get(fd)
unfoldable pub get_fd : ℕ → List (ℕ × Obj) → Option Obj
get_fd fd [] = none
get_fd fd ((n, o) ∷ fds) = if n == fd then some o else get_fd fd fds

unfoldable pub pop_fd : ℕ → List (ℕ × Obj) → List (ℕ × Obj)
pop_fd fd [] = []
pop_fd fd ((n, o) ∷ fds) = let rest = pop_fd fd fds in if n == fd then rest else (n, o) ∷ rest

abbrev pub new_fd : Obj → State → State
new_fd o s = record s { fds = (s.next, o) ∷ s.fds; next = s.next + 1 }

-- The handlers of an open file, where the number is that of one.
abbrev pub on_file : Option Obj → Served → (List ℕ → Bool → Served) → Served
on_file none otherwise k = otherwise
on_file (some (entries es)) otherwise k = otherwise
on_file (some (file p is_rb)) otherwise k = k p is_rb

-- bytes.rstrip(b'\0')
abbrev pub rstrip_nul : List ℕ → List ℕ
rstrip_nul [] = []
rstrip_nul (b ∷ bs) =
    let rest = rstrip_nul bs in
    elim rest [ [] ↦ (if b == 0 then [] else b ∷ []) | c ∷ cs ↦ b ∷ c ∷ cs ]

abbrev pub text_of : World → List ℕ → List ℕ
text_of w seq = w.decode (rstrip_nul seq)

-- bytes.ljust(n, b'\0')
abbrev pub ljust : ℕ → List ℕ → List ℕ
ljust n bs = bs ++ replicate (n - length bs) 0

-- The word n of 32 bits as a signed number.
abbrev pub signed32 : ℕ → ℤ
signed32 n = if ltb n (2 ^ 31) then pos n else negsuc (2 ^ 32 - 1 - n)

unfoldable pub fread : World → List ℕ → ℕ → State → Served
fread w prim cap s = require (unpack32 prim) s λ fd.
    on_file (get_fd fd s.fds) (s, reply efailed ((le32 0 ++ le32 1) ∷ replicate cap 0 ∷ []))
      λ p is_rb. and_then (perform w (read_file fd cap) s) λ s' n d.
        require (pack32 (length d)) s' λ size.
          (s', reply 0 ((size ++ le32 (if ltb (length d) cap then 1 else 0)) ∷ ljust cap d ∷ []))

-- The entry of the table is removed first.
abbrev pub close_obj : World → ℕ → Option Obj → State → Served
close_obj w fd none s = (s, reply efailed [])
close_obj w fd (some (entries es)) s = (s, reply 0 [])
close_obj w fd (some (file p is_rb)) s =
    and_then (perform w (close_file fd) s) λ s' n d. (s', reply 0 [])

unfoldable pub fclose : World → List ℕ → State → Served
fclose w prim s =
    require (unpack32 prim) s
      λ fd. close_obj w fd (get_fd fd s.fds) (record s { fds = pop_fd fd s.fds })

unfoldable pub fseek : World → List ℕ → State → Served
fseek w prim s = require (unpack32 prim) s λ fd. require (unpack32 (drop 4 prim)) s λ offset.
    require (unpack32 (drop 8 prim)) s λ whence.
      on_file (get_fd fd s.fds) (s, reply efailed [])
        λ p is_rb.
          and_then (perform w (seek_file fd (signed32 offset) whence) s) λ s' n d. (s', reply 0 [])

abbrev pub first_seq : List (List ℕ) → Option (List ℕ)
first_seq [] = none
first_seq (q ∷ qs) = some q

unfoldable pub fwrite : World → List ℕ → List (List ℕ) → State → Served
fwrite w prim seqs s = require (unpack32 prim) s λ fd.
    on_file (get_fd fd s.fds) (s, reply efailed ((le32 0 ++ le32 0) ∷ []))
      λ p is_rb.
        if is_rb
        then (s, reply efailed ((le32 0 ++ le32 0) ∷ []))
        else require (first_seq seqs) s λ bytes.
          and_then (perform w (write_file fd p bytes) s)
            λ s' n d. require (pack32 n) s' λ size. (s', reply 0 ((size ++ le32 0) ∷ []))

unfoldable pub fsync : World → List ℕ → State → Served
fsync w prim s = require (unpack32 prim) s λ fd.
    on_file (get_fd fd s.fds) (s, reply 0 [])
      λ p is_rb. and_then (perform w (sync_file fd) s) λ s' n d. (s', reply 0 [])

unfoldable pub ftell : World → List ℕ → State → Served
ftell w prim s = require (unpack32 prim) s λ fd.
    on_file (get_fd fd s.fds) (s, reply efailed (replicate 4 0 ∷ []))
      λ p is_rb. and_then (perform w (tell_file fd) s) λ s' n d. reply32 n s'

-- struct.pack('<Q', n)
abbrev pub pack64 : ℕ → Option (List ℕ)
pack64 n = if ltb n (2 ^ 64) then some (le32 (n % 2 ^ 32) ++ le32 (n / 2 ^ 32)) else none

unfoldable pub flen : World → List ℕ → State → Served
flen w prim s = require (unpack32 prim) s λ fd.
    on_file (get_fd fd s.fds) (s, reply efailed (replicate 8 0 ∷ []))
      λ p is_rb.
        and_then (perform w (size_of fd) s)
          λ s' n d. require (pack64 n) s' λ size. (s', reply 0 (size ∷ []))

unfoldable pub ftrunc : World → List ℕ → State → Served
ftrunc w prim s = require (unpack32 prim) s λ fd. require (unpack32 (drop 4 prim)) s λ size.
    on_file (get_fd fd s.fds) (s, reply efailed [])
      λ p is_rb.
        if is_rb
        then (s, reply efailed [])
        else and_then (perform w (truncate_file fd p (signed32 size)) s) λ s' n d. (s', reply 0 [])
