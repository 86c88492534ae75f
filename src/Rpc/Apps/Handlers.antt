-- ===== src/Rpc/Apps/Handlers.antt =====
-- Every request to hexrpcd.py keeps its state well formed.
use mathlib.Core.Option.{none-ne-some}
use y700_linux.Prelude.{
  ℕ, ◌≡◌, inl, inr, refl, subst, Bool, true, false, Option, none, some, List, [], ◌∷◌, if-cases,
  Bool-cases, length, drop,
}
use y700_linux.Rpc.Vfs.{Vfs, local, writable}
use y700_linux.Rpc.Frames.{unpack32, pack32}
use y700_linux.Rpc.Apps.{
  Effect, open_read, open_write, make_parent, make_dirs, remove, replace, read_file, write_file,
  truncate_file, seek_file, tell_file, size_of, sync_file, close_file, Called, gives, not_found,
  os_error, other_error, World, Obj, file, entries, State, Served, perform, and_then, reply32,
  get_fd, new_fd, fread, close_obj, fclose, fseek, first_seq, fwrite, fsync, ftell, flen, ftrunc,
  pack64, text_of, signed32,
}
use y700_linux.Rpc.Apps.Paths.{
  truthy, writable_path, reply_fd, open_rw, open_ro, fopen_with_env, open_entries, opendir,
  closedir, read_entry, readdir, rwpath, removed, remove_at, fremove, renamed, rename_at, frename,
  mkdir_at, mkdir, python_mode, is_write, listing, unpack64,
}
use y700_linux.Rpc.Apps.Confined.{
  Allowed, EffectOk, ObjOk, IsValid, Good, good, require-Good, and_then-Good, on_file-Good,
  get_fd-ObjOk, set_entries-All, new_fd-IsValid, pop_fd-IsValid,
}

module _ (vfs : Vfs) (w : World) where
  -- A call, where it is allowed, and what follows it.
  pub call-Good :
      (e : Effect) (s : State) (k : State → ℕ → List ℕ → Served)
      → EffectOk vfs e
      → IsValid vfs s
      → ((s' : State) (n : ℕ) (d : List ℕ) → IsValid vfs s' → Good vfs (k s' n d))
      → Good vfs (and_then (perform w e s) k)
  call-Good e s k h v next = and_then-Good vfs (perform w e s) k ((h, v.0), v.1, v.2) next

  reply32-Good : (n : ℕ) (s : State) → IsValid vfs s → Good vfs (reply32 n s)
  reply32-Good n s v = require-Good vfs (pack32 n) s _ v (λ _ _. good vfs _ _ v)

  pub fread-Good :
      (prim : List ℕ) (cap : ℕ) (s : State) → IsValid vfs s → Good vfs (fread w prim cap s)
  unfolding fread
  fread-Good prim cap s v = require-Good vfs (unpack32 prim) s _ v λ fd _.
      on_file-Good vfs (get_fd fd s.fds) _ _ (good vfs _ _ v) λ p is_rb _.
        call-Good (read_file fd cap) s _ tt v
          λ s' n d v'. require-Good vfs (pack32 (length d)) s' _ v' (λ _ _. good vfs _ _ v')

  pub fclose-Good : (prim : List ℕ) (s : State) → IsValid vfs s → Good vfs (fclose w prim s)
  unfolding fclose
  fclose-Good prim s v =
      require-Good vfs (unpack32 prim) s _ v
        λ fd _. closed fd (get_fd fd s.fds) _ (pop_fd-IsValid vfs fd s v)
    where
      closed :
          (fd : ℕ) (o : Option Obj) (s' : State) → IsValid vfs s' → Good vfs (close_obj w fd o s')
      closed fd none s' v' = good vfs _ _ v'
      closed fd (some (entries es)) s' v' = good vfs _ _ v'
      closed fd (some (file p is_rb)) s' v' =
          call-Good (close_file fd) s' _ tt v' (λ s2 n d v2. good vfs _ _ v2)

  pub fseek-Good : (prim : List ℕ) (s : State) → IsValid vfs s → Good vfs (fseek w prim s)
  unfolding fseek
  fseek-Good prim s v = require-Good vfs (unpack32 prim) s _ v λ fd _.
      require-Good vfs (unpack32 (drop 4 prim)) s _ v λ offset _.
        require-Good vfs (unpack32 (drop 8 prim)) s _ v λ whence _.
          on_file-Good vfs (get_fd fd s.fds) _ _ (good vfs _ _ v) λ p is_rb _.
            call-Good (seek_file fd (signed32 offset) whence) s _ tt v
              (λ s' n d v'. good vfs _ _ v')

  -- A file that is not open for reading only may be written.
  may_write :
      (fd : ℕ) (s : State) (p : List ℕ) (is_rb : Bool)
      → IsValid vfs s
      → get_fd fd s.fds ≡ some (file p is_rb)
      → is_rb ≡ false
      → Allowed vfs p
  may_write fd s p is_rb v e rw_file =
      subst (λ b. ObjOk vfs (file p b)) rw_file (get_fd-ObjOk vfs fd s.fds (file p is_rb) v.1 e)

  pub fwrite-Good :
      (prim : List ℕ) (seqs : List (List ℕ)) (s : State)
      → IsValid vfs s
      → Good vfs (fwrite w prim seqs s)
  unfolding fwrite
  fwrite-Good prim seqs s v = require-Good vfs (unpack32 prim) s _ v λ fd _.
      on_file-Good vfs (get_fd fd s.fds) _ _ (good vfs _ _ v) λ p is_rb e.
        if-cases (Good vfs) is_rb (λ _. good vfs _ _ v)
          λ rw_file. require-Good vfs (first_seq seqs) s _ v λ bytes _.
            call-Good (write_file fd p bytes) s _ (may_write fd s p is_rb v e rw_file) v
              λ s' n d v'. require-Good vfs (pack32 n) s' _ v' (λ _ _. good vfs _ _ v')

  pub ftrunc-Good : (prim : List ℕ) (s : State) → IsValid vfs s → Good vfs (ftrunc w prim s)
  unfolding ftrunc
  ftrunc-Good prim s v = require-Good vfs (unpack32 prim) s _ v λ fd _.
      require-Good vfs (unpack32 (drop 4 prim)) s _ v λ size _.
        on_file-Good vfs (get_fd fd s.fds) _ _ (good vfs _ _ v) λ p is_rb e.
          if-cases (Good vfs) is_rb (λ _. good vfs _ _ v)
            λ rw_file.
              call-Good (truncate_file fd p (signed32 size)) s _
                (may_write fd s p is_rb v e rw_file) v (λ s' n d v'. good vfs _ _ v')

  pub fsync-Good : (prim : List ℕ) (s : State) → IsValid vfs s → Good vfs (fsync w prim s)
  unfolding fsync
  fsync-Good prim s v = require-Good vfs (unpack32 prim) s _ v λ fd _.
      on_file-Good vfs (get_fd fd s.fds) _ _ (good vfs _ _ v)
        λ p is_rb _. call-Good (sync_file fd) s _ tt v (λ s' n d v'. good vfs _ _ v')

  pub ftell-Good : (prim : List ℕ) (s : State) → IsValid vfs s → Good vfs (ftell w prim s)
  unfolding ftell
  ftell-Good prim s v = require-Good vfs (unpack32 prim) s _ v λ fd _.
      on_file-Good vfs (get_fd fd s.fds) _ _ (good vfs _ _ v)
        λ p is_rb _. call-Good (tell_file fd) s _ tt v (λ s' n d v'. reply32-Good n s' v')

  pub flen-Good : (prim : List ℕ) (s : State) → IsValid vfs s → Good vfs (flen w prim s)
  unfolding flen
  flen-Good prim s v = require-Good vfs (unpack32 prim) s _ v λ fd _.
      on_file-Good vfs (get_fd fd s.fds) _ _ (good vfs _ _ v) λ p is_rb _.
        call-Good (size_of fd) s _ tt v
          λ s' n d v'. require-Good vfs (pack64 n) s' _ v' (λ _ _. good vfs _ _ v')

  writable_path-Allowed :
      (v : Option (List ℕ)) (p : List ℕ) → writable_path vfs v ≡ some p → Allowed vfs p
  writable_path-Allowed none p e = absurd (none-ne-some p e)
  writable_path-Allowed (some v) p e = elim (Bool-cases (writable vfs v)) [
    | inl h ↦ (v, h, served (local vfs v) (rw h at e))
    | inr h ↦ absurd (none-ne-some p (rw h at e))
  ]
    where
      served : (o : Option (List ℕ)) → truthy o ≡ some p → o ≡ some p
      served none k = absurd (none-ne-some p k)
      served (some []) k = absurd (none-ne-some p k)
      served (some (c ∷ cs)) k = k

  reply_fd-Good : (o : Obj) (s : State) → ObjOk vfs o → IsValid vfs s → Good vfs (reply_fd o s)
  reply_fd-Good o s h v = reply32-Good s.next (new_fd o s) (new_fd-IsValid vfs o s h v)

  open_rw-Good :
      (o : Option (List ℕ)) (mode : List ℕ) (s : State)
      → ((p : List ℕ) → o ≡ some p → Allowed vfs p)
      → IsValid vfs s
      → Good vfs (open_rw w o mode s)
  open_rw-Good none mode s h v = good vfs _ _ v
  open_rw-Good (some p) mode s h v = call-Good (make_parent p) s _ (h p refl) v λ s1 n d v1.
      call-Good (open_write p (python_mode mode)) s1 _ (h p refl) v1
        λ s2 n' d' v2. reply_fd-Good (file p false) s2 (h p refl) v2

  open_ro-Good : (o : Option (List ℕ)) (s : State) → IsValid vfs s → Good vfs (open_ro w o s)
  open_ro-Good none s v = good vfs _ _ v
  open_ro-Good (some p) s v =
      if-cases (Good vfs) (w.is_file s.effects p)
        (λ _. call-Good (open_read p) s _ tt v (λ s' n d v'. reply_fd-Good (file p true) s' tt v'))
        (λ _. good vfs _ _ v)

  pub fopen-Good :
      (seqs : List (List ℕ)) (s : State) → IsValid vfs s → Good vfs (fopen_with_env w vfs seqs s)
  unfolding fopen_with_env
  fopen-Good (env ∷ delim ∷ name ∷ mode ∷ []) s v =
      if-cases (Good vfs) (is_write (text_of w mode))
        (λ _. open_rw-Good _ (text_of w mode) s (λ p e. writable_path-Allowed _ p e) v)
        (λ _. open_ro-Good _ s v)
  fopen-Good [] s v = good vfs _ _ v
  fopen-Good (a ∷ []) s v = good vfs _ _ v
  fopen-Good (a ∷ b ∷ []) s v = good vfs _ _ v
  fopen-Good (a ∷ b ∷ c ∷ []) s v = good vfs _ _ v
  fopen-Good (a ∷ b ∷ c ∷ d ∷ e ∷ r) s v = good vfs _ _ v

  pub opendir-Good :
      (seqs : List (List ℕ)) (s : State) → IsValid vfs s → Good vfs (opendir w vfs seqs s)
  unfolding opendir
  opendir-Good seqs s v =
      require-Good vfs (first_seq seqs) s _ v λ q _. opens (listing w vfs (text_of w q) s)
    where
      opens : (o : Option (List (List ℕ))) → Good vfs (open_entries o s)
      opens none = good vfs _ _ v
      opens (some es) =
          let v' = new_fd-IsValid vfs (entries es) s tt v in
          require-Good vfs (pack64 s.next) _ _ v' (λ _ _. good vfs _ _ v')

  pub closedir-Good : (prim : List ℕ) (s : State) → IsValid vfs s → Good vfs (closedir prim s)
  unfolding closedir
  closedir-Good prim s v =
      require-Good vfs (unpack64 prim) s _ v λ d _. good vfs _ _ (pop_fd-IsValid vfs d s v)

  pub readdir-Good : (prim : List ℕ) (s : State) → IsValid vfs s → Good vfs (readdir w prim s)
  unfolding readdir
  readdir-Good prim s v = require-Good vfs (unpack64 prim) s _ v λ d _. reads d (get_fd d s.fds)
    where
      reads : (d : ℕ) (o : Option Obj) → Good vfs (read_entry w d o s)
      reads d none = good vfs _ _ v
      reads d (some (file p is_rb)) = good vfs _ _ v
      reads d (some (entries [])) = good vfs _ _ v
      reads d (some (entries (e ∷ es))) = good vfs _ _ (
        v.0,
        set_entries-All vfs _ d es s.fds (λ _ _ _. tt) v.1,
        set_entries-All vfs _ d es s.fds (λ _ _ h. h) v.2,
      )

  rwpath-Allowed : (q : List ℕ) (p : List ℕ) → rwpath w vfs q ≡ some p → Allowed vfs p
  rwpath-Allowed q p e = writable_path-Allowed (some (text_of w q)) p e

  pub fremove-Good :
      (seqs : List (List ℕ)) (s : State) → IsValid vfs s → Good vfs (fremove w vfs seqs s)
  unfolding fremove
  fremove-Good seqs s v =
      require-Good vfs (first_seq seqs) s _ v λ q _. go (rwpath w vfs q) (rwpath-Allowed q)
    where
      ends : (r : State × Called) → IsValid vfs r.0 → Good vfs (removed r)
      ends (s', gives n d) v' = good vfs _ _ v'
      ends (s', not_found) v' = good vfs _ _ v'
      ends (s', os_error) v' = good vfs _ _ v'
      ends (s', other_error) v' = good vfs _ _ v'

      go :
          (o : Option (List ℕ))
          → ((p : List ℕ) → o ≡ some p → Allowed vfs p)
          → Good vfs (remove_at w o s)
      go none h = good vfs _ _ v
      go (some p) h = ends (perform w (remove p) s) ((h p refl, v.0), v.1, v.2)

  pub frename-Good :
      (seqs : List (List ℕ)) (s : State) → IsValid vfs s → Good vfs (frename w vfs seqs s)
  unfolding frename
  frename-Good [] s v = good vfs _ _ v
  frename-Good (qa ∷ []) s v = good vfs _ _ v
  frename-Good (qa ∷ qb ∷ qs) s v =
      go (rwpath w vfs qa) (rwpath w vfs qb) (rwpath-Allowed qa) (rwpath-Allowed qb)
    where
      ends : (r : State × Called) → IsValid vfs r.0 → Good vfs (renamed r)
      ends (s', gives n d) v' = good vfs _ _ v'
      ends (s', not_found) v' = good vfs _ _ v'
      ends (s', os_error) v' = good vfs _ _ v'
      ends (s', other_error) v' = good vfs _ _ v'

      go :
          (a b : Option (List ℕ))
          → ((p : List ℕ) → a ≡ some p → Allowed vfs p)
          → ((p : List ℕ) → b ≡ some p → Allowed vfs p)
          → Good vfs (rename_at w a b s)
      go none b ha hb = good vfs _ _ v
      go (some a) none ha hb = good vfs _ _ v
      go (some a) (some b) ha hb =
          ends (perform w (replace a b) s) (((ha a refl, hb b refl), v.0), v.1, v.2)

  pub mkdir-Good :
      (seqs : List (List ℕ)) (s : State) → IsValid vfs s → Good vfs (mkdir w vfs seqs s)
  unfolding mkdir
  mkdir-Good seqs s v =
      require-Good vfs (first_seq seqs) s _ v λ q _. go (rwpath w vfs q) (rwpath-Allowed q)
    where
      go :
          (o : Option (List ℕ))
          → ((p : List ℕ) → o ≡ some p → Allowed vfs p)
          → Good vfs (mkdir_at w o s)
      go none h = good vfs _ _ v
      go (some p) h = call-Good (make_dirs p) s _ (h p refl) v (λ s' n d v'. good vfs _ _ v')
