-- ===== src/Rpc/Apps/Confined.antt =====
-- The requests to hexrpcd.py change only files below a prefix that accepts writes, and a number of an
-- open file is never given twice.
use mathlib.Core.Option.{none-ne-some, some-injective}
use y700_linux.Prelude.{
  Bool-cases, ℕ, ◌+◌, ◌<◌, ◌≡◌, inl, inr, refl, subst, Bool, true, false, Option, none, some, List,
  [], ◌∷◌, ◌==◌, arith, if-cases, All,
}
use y700_linux.Rpc.Vfs.{Vfs, local, writable}
use y700_linux.Rpc.Apps.{
  Effect, open_write, make_parent, make_dirs, remove, replace, write_file, truncate_file, Called,
  gives, not_found, os_error, other_error, Obj, file, entries, State, Answer, Served, require,
  and_then, get_fd, pop_fd, new_fd, on_file,
}
use y700_linux.Rpc.Apps.Paths.{set_entries}

module _ (vfs : Vfs) where
  -- A local path that serves a virtual path which may be written.
  abbrev pub Allowed : List ℕ → Type 0
  Allowed p = (v : List ℕ) × (writable vfs v ≡ true) × (local vfs v ≡ some p)

  abbrev pub EffectOk : Effect → Type 0
  EffectOk (open_write p mode) = Allowed p
  EffectOk (make_parent p) = Allowed p
  EffectOk (make_dirs p) = Allowed p
  EffectOk (remove p) = Allowed p
  EffectOk (replace a b) = Allowed a × Allowed b
  EffectOk (write_file fd p bytes) = Allowed p
  EffectOk (truncate_file fd p size) = Allowed p
  EffectOk _ = Unit

  abbrev pub ObjOk : Obj → Type 0
  ObjOk (file p true) = Unit
  ObjOk (file p false) = Allowed p
  ObjOk (entries es) = Unit

  -- All changes so far are allowed, and so is writing to the open files; their numbers are below
  -- the next one.
  abbrev pub IsValid : State → Type 0
  IsValid s =
      All EffectOk s.effects
      × All (λ (f : ℕ × Obj). ObjOk f.1) s.fds
      × All (λ (f : ℕ × Obj). f.0 < s.next) s.fds

  unfoldable pub Good : Served → Type 0
  Good r = IsValid r.0

  pub good : (s : State) (a : Answer) → IsValid s → Good (s, a)
  unfolding Good
  good s a v = v

  pub require-Good :
      {A : Type 0} (m : Option A) (s : State) (k : A → Served)
      → IsValid s
      → ((a : A) → m ≡ some a → Good (k a))
      → Good (require m s k)
  require-Good none s k v h = good s _ v
  require-Good (some a) s k v h = h a refl

  pub and_then-Good :
      (r : State × Called) (k : State → ℕ → List ℕ → Served)
      → IsValid r.0
      → ((s : State) (n : ℕ) (d : List ℕ) → IsValid s → Good (k s n d))
      → Good (and_then r k)
  and_then-Good (s, gives n d) k v h = h s n d v
  and_then-Good (s, not_found) k v h = good s _ v
  and_then-Good (s, os_error) k v h = good s _ v
  and_then-Good (s, other_error) k v h = good s _ v

  pub on_file-Good :
      (o : Option Obj) (otherwise : Served) (k : List ℕ → Bool → Served)
      → Good otherwise
      → ((p : List ℕ) (is_rb : Bool) → o ≡ some (file p is_rb) → Good (k p is_rb))
      → Good (on_file o otherwise k)
  on_file-Good none otherwise k v h = v
  on_file-Good (some (entries es)) otherwise k v h = v
  on_file-Good (some (file p is_rb)) otherwise k v h = h p is_rb refl

  pub get_fd-ObjOk :
      (fd : ℕ) (fds : List (ℕ × Obj)) (o : Obj)
      → All (λ (f : ℕ × Obj). ObjOk f.1) fds
      → get_fd fd fds ≡ some o
      → ObjOk o
  unfolding get_fd
  get_fd-ObjOk fd [] o h e = absurd (none-ne-some o e)
  get_fd-ObjOk fd ((n, o') ∷ fds) o h e = elim (Bool-cases (n == fd)) [
    | inl same ↦ subst ObjOk (some-injective _ _ (rw same at e)) h.0
    | inr other ↦ get_fd-ObjOk fd fds o h.1 (rw other at e)
  ]

  module _ (P : ℕ × Obj → Type 0) where
    pop_fd-All : (fd : ℕ) (fds : List (ℕ × Obj)) → All P fds → All P (pop_fd fd fds)
    unfolding pop_fd
    pop_fd-All fd [] h = tt
    pop_fd-All fd ((n, o) ∷ fds) h =
        if-cases (All P) (n == fd) (λ _. pop_fd-All fd fds h.1) (λ _. (h.0, pop_fd-All fd fds h.1))

    pub set_entries-All :
        (d : ℕ) (es : List (List ℕ)) (fds : List (ℕ × Obj))
        → ((n : ℕ) (o : Obj) → P (n, o) → P (n, entries es))
        → All P fds
        → All P (set_entries d es fds)
    unfolding set_entries
    set_entries-All d es [] k h = tt
    set_entries-All d es ((n, o) ∷ fds) k h =
        if-cases (All P) (n == d) (λ _. (k n o h.0, h.1))
          (λ _. (h.0, set_entries-All d es fds k h.1))

  -- A number that is given, and one that is taken back.
  pub new_fd-IsValid : (o : Obj) (s : State) → ObjOk o → IsValid s → IsValid (new_fd o s)
  new_fd-IsValid o s h v = (v.0, (h, v.1), (ground (arith), later s.fds v.2))
    where
      later :
          (fds : List (ℕ × Obj))
          → All (λ (f : ℕ × Obj). f.0 < s.next) fds
          → All (λ (f : ℕ × Obj). f.0 < s.next + 1) fds
      later [] k = tt
      later (f ∷ fds) k = (ground (arith, k.0), later fds k.1)

  pub pop_fd-IsValid :
      (fd : ℕ) (s : State) → IsValid s → IsValid (record s { fds = pop_fd fd s.fds })
  pop_fd-IsValid fd s v = (v.0, pop_fd-All _ fd s.fds v.1, pop_fd-All _ fd s.fds v.2)
