-- ===== src/Speaker.antt =====
-- The speaker daemon, design/nextboot-impl/speakerd.py: the samples, the reader of the FIFO, and the
-- buffers that the DSP plays.
--
-- Bytes are numbers below 256. The pipe is the bytes that were written and not yet read. How many of
-- them a read of the kernel returns is an argument, `given`, of the size and of what is there. Time and
-- the writer stand as the turns of a wait: whether select wakes, and the bytes that arrived before it.
pub mod Reader
pub mod Player
pub mod Slots
pub mod Volume
mod Tests
use y700_linux.Prelude.{
  ℕ, zero, suc, ◌+◌, ◌-◌, ◌*◌, ◌/◌, ◌%◌, min, Bool, true, false, not, ◌&&◌, Option, none, some,
  List, [], ◌∷◌, ◌++◌, ◌==◌, ltb, leb, length, take, drop, elem, if◌then◌else◌,
}

abbrev pub inflight : ℕ
inflight = 4

-- x * g >> 15 of a sample in two's complement of 16 bits; the shift rounds down.
unfoldable pub scale_sample : ℕ → ℕ → ℕ
scale_sample g u =
    if ltb u 32768 then u * g / 32768 else (65536 - ((65536 - u) * g + 32767) / 32768) % 65536

-- The samples of a chunk, the low byte first. An odd length is ValueError.
unfoldable pub scale_from : ℕ → List ℕ → Option (List ℕ)
scale_from g [] = some []
scale_from g (a ∷ []) = none
scale_from g (a ∷ b ∷ rest) = elim (scale_from g rest) [
  | none ↦ none
  | some out ↦ let u = scale_sample g (a + 256 * b) in some (u % 256 ∷ u / 256 ∷ out)
]

-- `g` is int(gain * 32768), and `is_full` is gain >= 1.0.
unfoldable pub scale : Bool → ℕ → List ℕ → Option (List ℕ)
scale is_full g chunk = if is_full then some chunk else scale_from g chunk

pub record Fifo : Type 0 where
  pub pipe : List ℕ
  -- The start of a frame that is not complete.
  pub odd : List ℕ

unfoldable pub pending : Fifo → ℕ
pending f = length f.pipe + length f.odd

abbrev pub aligned : ℕ → ℕ
aligned n = n - n % 4

-- The bytes of whole frames, and the rest of the FIFO. Every caller asks for four bytes or more.
abbrev pub split_frames : List ℕ → List ℕ → Fifo × List ℕ
split_frames d rest =
    (record { pipe = rest; odd = drop (aligned (length d)) d }, take (aligned (length d)) d)

abbrev pub got_more : Fifo × List ℕ → (Fifo → ℕ → Fifo × ℕ) → ℕ → Fifo × ℕ
got_more (f, []) next got = (f, got)
got_more (f, b ∷ bs) next got = next f (got + length (b ∷ bs))

-- A turn of the loop of fill: whether select wakes, behind the bytes that arrive.
abbrev pub Wait : Type 0
Wait = Bool × List ℕ

abbrev pub arrive : List ℕ → Fifo → Fifo
arrive bytes f = record f { pipe = f.pipe ++ bytes }

abbrev pub append_out : List ℕ → Fifo × List ℕ → Fifo × List ℕ
append_out out (f, d) = (f, out ++ d)

module _ (given : ℕ → List ℕ → ℕ) where
  -- What os.read returns of n bytes; none where nothing is there (BlockingIOError).
  abbrev pub os_count : ℕ → List ℕ → ℕ
  os_count n pipe = min (given n pipe) (min n (length pipe))

  unfoldable pub read : ℕ → Fifo → Fifo × List ℕ
  read n f =
      let k = os_count (n - length f.odd) f.pipe in
      split_frames (f.odd ++ take k f.pipe) (drop k f.pipe)

  -- The loop of trim, on fuel.
  unfoldable pub trim_loop : ℕ → ℕ → Fifo → ℕ → Fifo × ℕ
  trim_loop zero goal f got = (f, got)
  trim_loop (suc fuel) goal f got =
      if ltb got goal
      then got_more (read (min 65536 (goal - got)) f) (trim_loop fuel goal) got
      else (f, got)

  unfoldable pub trim : ℕ → ℕ → Fifo → Fifo × ℕ
  trim keep limit f =
      let goal = (pending f - keep) / 4 * 4 in
      if leb (pending f) limit then (f, 0) else trim_loop goal goal f 0

  -- The loop of fill from what it has; the list of turns ends at the deadline.
  unfoldable pub fill_loop : ℕ → List Wait → Fifo × List ℕ → Fifo × List ℕ
  fill_loop n [] (f, out) = (f, out)
  fill_loop n ((wakes, bytes) ∷ ws) (f, out) =
      if ltb (length out) n
      then fill_loop n ws (
          if wakes
          then append_out out (read (n - length out) (arrive bytes f))
          else (arrive bytes f, out))
      else (f, out)

  unfoldable pub fill : ℕ → List Wait → Fifo → Fifo × List ℕ
  fill n ws f = fill_loop n ws (read n f)
