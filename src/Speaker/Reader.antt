-- ===== src/Speaker/Reader.antt =====
-- The reader of speakerd.py's FIFO gives whole frames, in order, and loses no byte but those it drops.
use mathlib.Core.List.{append_assoc, append-nil}
use y700_linux.Prelude.{
  ℕ, zero, suc, ◌+◌, ◌-◌, ◌*◌, ◌/◌, ◌%◌, ◌≤◌, ◌<◌, ◌≡◌, ◌∙◌, ◌⊎◌, sym, subst, ap, refl, inl, inr,
  min, Bool, false, List, [], ◌∷◌, ◌++◌, arith, ltb, leb, length, take, drop, if◌then◌else◌,
  if-cases, Bool-cases, length-append, length-take, length-drop, take-append-drop,
}
use y700_linux.Speaker.{
  Fifo, pending, os_count, aligned, split_frames, read, got_more, trim_loop, trim, Wait, arrive,
  append_out, fill_loop, fill,
}

-- All bytes that the reader holds or can read, the oldest first.
abbrev pub stream : Fifo → List ℕ
stream f = f.odd ++ f.pipe

abbrev pub IsAligned : Fifo → Type 0
IsAligned f = length f.odd < 4

-- The bytes are whole frames, and with the stream that is left they make up a stream.
abbrev pub Gives : List ℕ → Fifo × List ℕ → Type 0
Gives whole r = (r.1 ++ stream r.0 ≡ whole) × (length r.1 % 4 ≡ 0) × IsAligned r.0

ltb-false : (a b : ℕ) → b ≤ a → ltb a b ≡ false
ltb-false a b h = ground (arith, h)

split_frames-Gives : (d rest : List ℕ) → Gives (d ++ rest) (split_frames d rest)
split_frames-Gives d rest = (
  sym (append_assoc (take (aligned (length d)) d) (drop (aligned (length d)) d) rest)
      ∙ ap (λ (x : List ℕ). x ++ rest) (take-append-drop (aligned (length d)) d),
  ground (arith, length-take (aligned (length d)) d),
  ground (arith, length-drop (aligned (length d)) d),
)

-- What trim drops: whole frames, the oldest, and no more than it wants.
abbrev pub Drops : List ℕ → ℕ → ℕ → Fifo × ℕ → Type 0
Drops whole goal before r =
    (dropped : List ℕ) × (dropped ++ stream r.0 ≡ whole)
    × (before + length dropped ≡ r.1)
    × (length dropped % 4 ≡ 0)
    × (before + length dropped ≤ goal)

abbrev pub arrivals : List Wait → List ℕ
arrivals [] = []
arrivals ((wakes, bytes) ∷ ws) = bytes ++ arrivals ws

-- What fill gives of a stream over some turns: whole frames, the oldest, at most n bytes. What it does
-- not give is in the reader or arrives in the turns that are left; some are left only where it is full.
abbrev pub Fills : List ℕ → List Wait → ℕ → Fifo × List ℕ → Type 0
Fills whole ws n r =
    (done : List Wait) × (later : List Wait) × (done ++ later ≡ ws)
    × (r.1 ++ stream r.0 ≡ whole ++ arrivals done)
    × ((later ≡ []) ⊎ (length r.1 ≡ n))
    × (length r.1 % 4 ≡ 0)
    × (length r.1 ≤ n)
    × IsAligned r.0

-- The loop of trim has dropped all that it wants to, or ends behind a read that gives nothing.
abbrev pub Stops : (ℕ → List ℕ → ℕ) → ℕ → Fifo × ℕ → Type 0
Stops given goal r =
    (r.1 ≡ goal)
    ⊎ ((last : Fifo) × (IsAligned last × (read given (min 65536 (goal - r.1)) last ≡ (r.0, []))))

module _ (given : ℕ → List ℕ → ℕ) where
  -- One read gives whole frames, the oldest bytes, and keeps the rest.
  pub read-Gives : (n : ℕ) (f : Fifo) → Gives (stream f) (read given n f)
  unfolding read
  read-Gives n f =
      subst (λ (whole : List ℕ). Gives whole (read given n f))
        (together (os_count given (n - length f.odd) f.pipe)) (split_frames-Gives _ _)
    where
      together : (k : ℕ) → (f.odd ++ take k f.pipe) ++ drop k f.pipe ≡ stream f
      together k =
          append_assoc f.odd (take k f.pipe) (drop k f.pipe)
          ∙ ap (λ (x : List ℕ). f.odd ++ x) (take-append-drop k f.pipe)

  pub length-read : (n : ℕ) (f : Fifo) → IsAligned f → 4 ≤ n → length (read given n f).1 ≤ n
  unfolding read
  length-read n f h four = short (os_count given (n - length f.odd) f.pipe) (ground (arith))
    where
      short :
          (k : ℕ)
          → k ≤ n - length f.odd
          → length (split_frames (f.odd ++ take k f.pipe) (drop k f.pipe)).1 ≤ n
      short k le =
          let d = f.odd ++ take k f.pipe in
          ground (
            arith,
            length-take (aligned (length d)) d,
            length-append f.odd (take k f.pipe),
            length-take k f.pipe,
          )

  trim_loop-Drops :
      (fuel goal : ℕ) (f : Fifo) (got : ℕ)
      → IsAligned f
      → goal % 4 ≡ 0
      → got % 4 ≡ 0
      → got ≤ goal
      → Drops (stream f) goal got (trim_loop given fuel goal f got)
  unfolding trim_loop
  trim_loop-Drops zero goal f got h hg h4 le = ([], refl, ground (arith), refl, ground (arith))
  trim_loop-Drops (suc fuel) goal f got h hg h4 le = elim (Bool-cases (ltb got goal)) [
    | inl lt ↦ rw lt (
        next (read given (min 65536 (goal - got)) f) (read-Gives (min 65536 (goal - got)) f)
          (length-read (min 65536 (goal - got)) f h (ground (arith, lt, hg, h4)))
          (ground (arith, lt)) (trim_loop-Drops fuel goal))
    | inr ge ↦ rw ge ([], refl, ground (arith), refl, ground (arith))
  ]
    where
      next :
          (r : Fifo × List ℕ)
          → Gives (stream f) r
          → length r.1 ≤ min 65536 (goal - got)
          → got < goal
          → ((f' : Fifo) (g : ℕ)
              → IsAligned f'
              → goal % 4 ≡ 0
              → g % 4 ≡ 0
              → g ≤ goal
              → Drops (stream f') goal g (trim_loop given fuel goal f' g))
          → Drops (stream f) goal got (got_more r (trim_loop given fuel goal) got)
      next (f', []) gives short lt rest = ([], gives.0, ground (arith), refl, ground (arith))
      next (f', b ∷ bs) gives short lt rest =
          let (dropped, e, n, m, l) =
            rest f' (got + length (b ∷ bs)) gives.2 hg (ground (arith, gives.1, h4))
              (ground (arith, short, lt)) in
          (
            (b ∷ bs) ++ dropped,
            append_assoc (b ∷ bs) dropped _ ∙ ap (λ (x : List ℕ). (b ∷ bs) ++ x) e ∙ gives.0,
            ground (arith, n, length-append (b ∷ bs) dropped),
            ground (arith, m, gives.1, length-append (b ∷ bs) dropped),
            ground (arith, l, length-append (b ∷ bs) dropped),
          )

  -- Trimming drops whole frames from the start of the stream and nothing else, as many bytes as it
  -- says, and no more than the backlog over the limit calls for. The reader holds less than a frame.
  pub trim-Drops :
      (keep limit : ℕ) (f : Fifo)
      → IsAligned f
      → Drops (stream f) ((pending f - keep) / 4 * 4) 0 (trim given keep limit f)
  unfolding trim
  trim-Drops keep limit f h =
      if-cases (Drops (stream f) ((pending f - keep) / 4 * 4) 0) (leb (pending f) limit)
        (λ _. ([], refl, refl, refl, ground (arith)))
        (λ _. trim_loop-Drops _ _ f 0 h (ground (arith)) refl (ground (arith)))

  trim_loop-Stops :
      (fuel goal : ℕ) (f : Fifo) (got : ℕ)
      → IsAligned f
      → goal % 4 ≡ 0
      → got % 4 ≡ 0
      → got ≤ goal
      → goal - got ≤ fuel
      → Stops given goal (trim_loop given fuel goal f got)
  unfolding trim_loop
  trim_loop-Stops zero goal f got h hg h4 le few = inl (omega arith)
  trim_loop-Stops (suc fuel) goal f got h hg h4 le few = elim (Bool-cases (ltb got goal)) [
    | inr ge ↦ rw ge (inl (ground (arith, ge)))
    | inl lt ↦ rw lt (
        next (read given (min 65536 (goal - got)) f) refl (read-Gives (min 65536 (goal - got)) f)
          (length-read (min 65536 (goal - got)) f h (ground (arith, lt, hg, h4)))
          (ground (arith, lt)) (trim_loop-Stops fuel goal))
  ]
    where
      next :
          (r : Fifo × List ℕ)
          → read given (min 65536 (goal - got)) f ≡ r
          → Gives (stream f) r
          → length r.1 ≤ min 65536 (goal - got)
          → got < goal
          → ((f' : Fifo) (g : ℕ)
              → IsAligned f'
              → goal % 4 ≡ 0
              → g % 4 ≡ 0
              → g ≤ goal
              → goal - g ≤ fuel
              → Stops given goal (trim_loop given fuel goal f' g))
          → Stops given goal (got_more r (trim_loop given fuel goal) got)
      next (f', []) e gives short lt rest = inr (f, (h, e))
      next (f', b ∷ bs) e gives short lt rest =
          rest f' (got + length (b ∷ bs)) gives.2 hg (ground (arith, gives.1, h4))
            (ground (arith, short, lt)) (ground (arith, few))

  -- Trimming drops whole frames from the start of the stream and nothing else, as many bytes as it
  -- says, and no more than the backlog over the limit calls for; over the limit it ends only when it has
  -- dropped as many, or when a read gives no frame. The reader holds less than a frame.
  pub trim-Stops :
      (keep limit : ℕ) (f : Fifo)
      → IsAligned f
      → Drops (stream f) ((pending f - keep) / 4 * 4) 0 (trim given keep limit f)
        × ((limit < pending f) → Stops given ((pending f - keep) / 4 * 4) (trim given keep limit f))
  unfolding trim
  trim-Stops keep limit f h = (
    trim-Drops keep limit f h,
    λ over.
        let busy : leb (pending f) limit ≡ false = ground (arith, over) in
        rw busy (trim_loop-Stops _ _ f 0 h (ground (arith)) refl (ground (arith)) (ground (arith))),
  )

  -- What the loop has, in the middle of a turn.
  abbrev Holds : List ℕ → ℕ → Fifo × List ℕ → Type 0
  Holds whole n r =
      (r.1 ++ stream r.0 ≡ whole) × (length r.1 % 4 ≡ 0) × (length r.1 ≤ n) × IsAligned r.0

  wait-Holds :
      (n : ℕ) (wakes : Bool) (bytes : List ℕ) (f : Fifo) (out : List ℕ)
      → n % 4 ≡ 0
      → length out % 4 ≡ 0
      → length out < n
      → IsAligned f
      → Holds (out ++ (stream f ++ bytes)) n (
          if wakes
          then append_out out (read given (n - length out) (arrive bytes f))
          else (arrive bytes f, out))
  wait-Holds n wakes bytes f out hn ho lt h =
      if-cases (Holds (out ++ (stream f ++ bytes)) n) wakes
        (λ _.
          woken (read given (n - length out) (arrive bytes f))
            (read-Gives (n - length out) (arrive bytes f))
            (length-read (n - length out) (arrive bytes f) h (ground (arith, hn, ho, lt))))
        (λ _. (
          ap (λ (x : List ℕ). out ++ x) (sym (append_assoc f.odd f.pipe bytes)),
          ho,
          ground (arith, lt),
          h,
        ))
    where
      woken :
          (r : Fifo × List ℕ)
          → Gives (stream (arrive bytes f)) r
          → length r.1 ≤ n - length out
          → Holds (out ++ (stream f ++ bytes)) n (append_out out r)
      woken (f', d) gives short = (
        append_assoc out d (stream f')
            ∙ ap (λ (x : List ℕ). out ++ x) (gives.0 ∙ sym (append_assoc f.odd f.pipe bytes)),
        ground (arith, length-append out d, ho, gives.1),
        ground (arith, length-append out d, short, lt),
        gives.2,
      )

  fill_loop-Fills :
      (n : ℕ) (ws : List Wait) (f : Fifo) (out : List ℕ)
      → n % 4 ≡ 0
      → length out % 4 ≡ 0
      → length out ≤ n
      → IsAligned f
      → Fills (out ++ stream f) ws n (fill_loop given n ws (f, out))
  unfolding fill_loop
  fill_loop-Fills n [] f out hn ho le h =
      ([], [], refl, sym (append-nil (out ++ stream f)), inl refl, ho, le, h)
  fill_loop-Fills n ((wakes, bytes) ∷ ws) f out hn ho le h =
      if-cases (Fills (out ++ stream f) ((wakes, bytes) ∷ ws) n) (ltb (length out) n)
        (λ lt.
          next _ (wait-Holds n wakes bytes f out hn ho (ground (arith, lt)) h)
            (fill_loop-Fills n ws))
        (λ full. (
          [],
          (wakes, bytes) ∷ ws,
          refl,
          sym (append-nil (out ++ stream f)),
          inr (ground (arith, full)),
          ho,
          le,
          h,
        ))
    where
      next :
          (r : Fifo × List ℕ)
          → Holds (out ++ (stream f ++ bytes)) n r
          → ((f' : Fifo) (o : List ℕ)
              → n % 4 ≡ 0
              → length o % 4 ≡ 0
              → length o ≤ n
              → IsAligned f'
              → Fills (o ++ stream f') ws n (fill_loop given n ws (f', o)))
          → Fills (out ++ stream f) ((wakes, bytes) ∷ ws) n (fill_loop given n ws r)
      next (f', o) held k =
          let (done, later, split, whole, full, r4, r5, r6) = k f' o hn held.1 held.2 held.3 in
          (
            (wakes, bytes) ∷ done,
            later,
            ap (λ (l : List Wait). (wakes, bytes) ∷ l) split,
            whole
                ∙ ap (λ (x : List ℕ). x ++ arrivals done) held.0
                ∙ append_assoc out (stream f ++ bytes) (arrivals done)
                ∙ ap (λ (x : List ℕ). out ++ x) (append_assoc (stream f) bytes (arrivals done))
                ∙ sym (append_assoc out (stream f) (bytes ++ arrivals done)),
            full,
            r4,
            r5,
            r6,
          )

  -- Filling gives whole frames from the start of the stream, at most as many bytes as were asked
  -- for. Every byte that it does not give is still there, in order, with what arrived in the turns that
  -- it waited for; turns are left only where it gives as many bytes as were asked for. The reader holds
  -- less than a frame, and whole frames are asked for.
  pub fill-Fills :
      (n : ℕ) (ws : List Wait) (f : Fifo)
      → n % 4 ≡ 0
      → 4 ≤ n
      → IsAligned f
      → Fills (stream f) ws n (fill given n ws f)
  unfolding fill
  fill-Fills n ws f hn four h =
      first_read (read given n f) (read-Gives n f) (length-read n f h four)
    where
      first_read :
          (r : Fifo × List ℕ)
          → Gives (stream f) r
          → length r.1 ≤ n
          → Fills (stream f) ws n (fill_loop given n ws r)
      first_read (f', d) gives le =
          subst (λ (whole : List ℕ). Fills whole ws n (fill_loop given n ws (f', d))) gives.0
            (fill_loop-Fills n ws f' d hn gives.1 le gives.2)
