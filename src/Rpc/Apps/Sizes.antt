-- ===== src/Rpc/Apps/Sizes.antt =====
-- The sizes of the answers of hexrpcd.py: the buffers of fread, and those of a round.
use mathlib.Core.Option.{none-ne-some, some-injective}
use y700_linux.Prelude.{
  inl, inr, Bool-cases, ◌^◌, ℕ, ◌-◌, ◌≤◌, ◌<◌, ◌≡◌, ◌≢◌, ◌⊎◌, ◌∙◌, sym, ap, refl, subst, Bool, drop,
  Option, none, some, List, [], ◌∷◌, ◌++◌, arith, ltb, if◌then◌else◌, length, take, replicate,
  length-append, length-take, length-replicate, map,
}
use y700_linux.Rpc.Vfs.{Vfs}
use y700_linux.Rpc.Frames.{unpack32, pack32, le32, decode_inbufs, fit}
use y700_linux.Rpc.Frames.RoundTrip.{decode-encode, unpack32-le32}
use y700_linux.Rpc.Apps.{
  efailed, Effect, read_file, Called, gives, not_found, os_error, other_error, World, Obj, file,
  entries, State, Answer, reply, raises, Served, perform, get_fd, ljust, require, and_then, on_file,
  fread,
}
use y700_linux.Rpc.Apps.Dispatch.{
  nin_of, nout_of, Request, caught, sent, try_dispatch, serve, received,
}

-- file.read(n) returns at most n bytes.
abbrev pub ReadsAtMost : World → Type 0
ReadsAtMost w =
    (h : List Effect) (fd cap n : ℕ) (bytes : List ℕ)
    → w.call h (read_file fd cap) ≡ gives n bytes
    → length bytes ≤ cap

-- Two buffers that tell of the bytes `d` of a read of at most `cap`: their number, with 1 behind it where
-- they are fewer than were asked for and 0 where not, and the bytes themselves, filled up with zeros.
abbrev pub Tells : ℕ → List ℕ → List (List ℕ) → Type 0
Tells cap d bufs =
    (head : List ℕ) × (body : List ℕ) × ((bufs ≡ head ∷ body ∷ [])
      × (length head ≡ 8)
      × (unpack32 head ≡ some (length d))
      × (((length d < cap) × (unpack32 (drop 4 head) ≡ some 1))
          ⊎ ((length d ≡ cap) × (unpack32 (drop 4 head) ≡ some 0)))
      × (length body ≡ cap)
      × (body ≡ d ++ replicate (cap - length d) 0))

-- What fread may answer, by its word, the table and what the read gives.
abbrev pub Answers : World → List ℕ → ℕ → State → Answer → Type 0
Answers w prim cap s (reply code bufs) =
    (fd : ℕ) × ((unpack32 prim ≡ some fd)
      × (((code ≡ 0)
            × ((n : ℕ) × (d : List ℕ) × ((w.call s.effects (read_file fd cap) ≡ gives n d)
                  × Tells cap d bufs)))
          ⊎ ((code ≡ efailed)
              × (map length bufs ≡ 8 ∷ cap ∷ [])
              × ((p : List ℕ) (is_rb : Bool) → get_fd fd s.fds ≢ some (file p is_rb)))))
Answers w prim cap s raises =
    (fd n : ℕ) (d : List ℕ)
    → unpack32 prim ≡ some fd
    → w.call s.effects (read_file fd cap) ≡ gives n d
    → 2 ^ 32 ≤ length d

gives-injective : (n k : ℕ) (d e : List ℕ) → gives n d ≡ gives k e → d ≡ e
gives-injective n k d e h = cc

module _ (w : World) (honest : ReadsAtMost w) (prim : List ℕ) (cap : ℕ) (s : State) where
  Told : Served → Type 0
  Told r = Answers w prim cap s r.1

  abbrev answer_of : State → List ℕ → Served
  answer_of s' d = require (pack32 (length d)) s' λ size.
      (s', reply 0 ((size ++ le32 (if ltb (length d) cap then 1 else 0)) ∷ ljust cap d ∷ []))

  ljust-length : (d : List ℕ) → length d ≤ cap → length (ljust cap d) ≡ cap
  ljust-length d h = ground (
    arith,
    length-append d (replicate (cap - length d) 0),
    length-replicate {A = ℕ} (cap - length d) 0,
    h,
  )

  flag_right :
      (d : List ℕ) (n : ℕ)
      → length d ≤ cap
      → ((length d < cap)
          × (unpack32 (drop 4 (le32 n ++ le32 (if ltb (length d) cap then 1 else 0))) ≡ some 1))
        ⊎ ((length d ≡ cap)
            × (unpack32 (drop 4 (le32 n ++ le32 (if ltb (length d) cap then 1 else 0))) ≡ some 0))
  unfolding le32 unpack32
  flag_right d n h = elim (Bool-cases (ltb (length d) cap)) [
    | inl less ↦ inl (ground (arith, less), rw less refl)
    | inr full ↦ inr (ground (arith, full, h), rw full refl)
  ]

  eight : (n k : ℕ) → length (le32 n ++ le32 k) ≡ 8
  unfolding le32
  eight n k = refl

  read-Told :
      (fd n : ℕ) (d : List ℕ) (s' : State)
      → unpack32 prim ≡ some fd
      → w.call s.effects (read_file fd cap) ≡ gives n d
      → Told (answer_of s' d)
  unfolding Told pack32
  read-Told fd n d s' word e = elim (Bool-cases (ltb (length d) (2 ^ 32))) [
    | inl short ↦ rw short (
      fd,
      (
        word,
        inl (
          refl,
          (
            n,
            d,
            (
              e,
              (
                le32 (length d) ++ le32 (if ltb (length d) cap then 1 else 0),
                ljust cap d,
                (
                  refl,
                  eight (length d) (if ltb (length d) cap then 1 else 0),
                  unpack32-le32 (length d) _ (ground (arith, short)),
                  flag_right d (length d) (honest s.effects fd cap n d e),
                  ljust-length d (honest s.effects fd cap n d e),
                  refl,
                ),
              ),
            ),
          ),
        ),
      ),
    )
    | inr long ↦ rw long (λ fd' n' d' word' e'.
        let same_fd : fd ≡ fd' = some-injective _ _ (sym word ∙ word') in
        let same : d ≡ d' =
          gives-injective n n' d d'
            (sym e ∙ ap (λ (x : ℕ). w.call s.effects (read_file x cap)) same_fd ∙ e') in
        subst (λ (x : List ℕ). 2 ^ 32 ≤ length x) same (ground (arith, long)))
  ]

  lost-Told :
      (fd : ℕ) (c : Called) (s' : State)
      → unpack32 prim ≡ some fd
      → w.call s.effects (read_file fd cap) ≡ c
      → ((n : ℕ) (d : List ℕ) → c ≢ gives n d)
      → Told (s', raises)
  unfolding Told
  lost-Told fd c s' word e empty = λ fd' n d word' e'.
      let same : fd ≡ fd' = some-injective _ _ (sym word ∙ word') in
      absurd (empty n d (sym e ∙ ap (λ (x : ℕ). w.call s.effects (read_file x cap)) same ∙ e'))

  called-Told :
      (fd : ℕ) (c : Called) (s' : State)
      → unpack32 prim ≡ some fd
      → w.call s.effects (read_file fd cap) ≡ c
      → Told (and_then (s', c) λ s2 n d. answer_of s2 d)
  unfolding Told
  called-Told fd (gives n d) s' word e = read-Told fd n d s' word e
  called-Told fd not_found s' word e = lost-Told fd not_found s' word e (λ n d h. cc)
  called-Told fd os_error s' word e = lost-Told fd os_error s' word e (λ n d h. cc)
  called-Told fd other_error s' word e = lost-Told fd other_error s' word e (λ n d h. cc)

  failed-Told :
      (fd : ℕ)
      → unpack32 prim ≡ some fd
      → ((p : List ℕ) (is_rb : Bool) → get_fd fd s.fds ≢ some (file p is_rb))
      → Told (s, reply efailed ((le32 0 ++ le32 1) ∷ replicate cap 0 ∷ []))
  unfolding Told
  failed-Told fd word closed =
      (fd, (word, inr (refl, rw (eight 0 1, length-replicate {A = ℕ} cap 0) refl, closed)))

  found-Told :
      (fd : ℕ) (o : Option Obj)
      → unpack32 prim ≡ some fd
      → get_fd fd s.fds ≡ o
      → Told (
          on_file o
            (s, reply efailed ((le32 0 ++ le32 1) ∷ replicate cap 0 ∷ []))
            λ p is_rb. and_then (perform w (read_file fd cap) s) λ s' n d. answer_of s' d)
  found-Told fd none word e = failed-Told fd word (λ p is_rb h. cc)
  found-Told fd (some (entries es)) word e = failed-Told fd word (λ p is_rb h. cc)
  found-Told fd (some (file p is_rb)) word e =
      called-Told fd (w.call s.effects (read_file fd cap))
        (record s { effects = read_file fd cap ∷ s.effects }) word refl

  -- What fread answers: the number of bytes that were read, with the flag for the end behind it, which is
  -- 1 exactly where they are fewer than were asked for, and these bytes, filled up with zeros to as many as
  -- were asked for. The error for a file that is not open has buffers of the same sizes, and it raises only
  -- where its word is short, where the read raises, or where 2 ^ 32 bytes were read. file.read returns at
  -- most as many bytes as it is asked for.
  pub fread_tells : Answers w prim cap s (fread w prim cap s).1
  unfolding fread Told
  fread_tells = by_word (unpack32 prim) refl
    where
      by_word :
          (m : Option ℕ)
          → unpack32 prim ≡ m
          → Answers w prim cap s
              (require m s λ fd.
                on_file
                  (get_fd fd s.fds)
                  (s, reply efailed ((le32 0 ++ le32 1) ∷ replicate cap 0 ∷ []))
                  λ p is_rb. and_then (perform w (read_file fd cap) s) λ s' n d. answer_of s' d).1
      by_word none e = λ fd n d word h. absurd (none-ne-some fd (sym e ∙ word))
      by_word (some fd) e = found-Told fd (get_fd fd s.fds) e refl

length-fit : (n : ℕ) (bufs : List (List ℕ)) → length (fit n bufs) ≡ n
unfolding fit
length-fit n bufs = ground (
  arith,
  length-take n (bufs ++ replicate n []),
  length-append bufs (replicate n []),
  length-replicate {A = List ℕ} n [],
)

-- Where a round fetches its request, what it sends decodes to as many buffers as the caller has
-- room for, whatever the handler did, an exception included.
pub serve-decodes :
    (vfs : Vfs) (w : World) (r : Request) (s : State) (request bytes : List ℕ)
    → received r ≡ some request
    → (serve w vfs r s).1.1 ≡ some bytes
    → (bufs : List (List ℕ)) × (decode_inbufs bytes (nout_of r.sc) ≡ some bufs)
      × (length bufs ≡ nout_of r.sc)
unfolding serve
serve-decodes vfs w r s request bytes got e =
    decoded (caught (try_dispatch w vfs r (decode_inbufs (take r.inlen request) (nin_of r.sc)) s))
      (rw got at e)
  where
    decoded :
        (q : State × (ℕ × List (List ℕ)))
        → (sent (nout_of r.sc) q).1.1 ≡ some bytes
        → (bufs : List (List ℕ)) × (decode_inbufs bytes (nout_of r.sc) ≡ some bufs)
          × (length bufs ≡ nout_of r.sc)
    decoded (s', (result, bufs)) h =
        let whole = fit (nout_of r.sc) bufs in
        let size = length-fit (nout_of r.sc) bufs in
        (
          whole,
          subst (λ n. decode_inbufs bytes n ≡ some whole) size (decode-encode whole bytes h),
          size,
        )
