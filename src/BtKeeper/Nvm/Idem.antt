-- ===== src/BtKeeper/Nvm/Idem.antt =====
-- nvm_for_h4 leaves what it leaves alone: a second pass changes nothing.
use y700_linux.Prelude.{
  ℕ, ◌+◌, ◌%◌, ◌<◌, ◌≡◌, Bool, true, ◌&&◌, Option, some, List, ◌==◌, ltb, length, All, get_or,
  if◌then◌else◌,
}
use y700_linux.BtKeeper.Nvm.{Change, walk}

-- What the host must find at a tag: deep sleep is off in tag 17, and the low bit of tag 27 is clear.
abbrev pub is_off : Change → Bool
is_off c =
    if c.tag == 17
    then ltb (get_or c.old 0 0) 128 && get_or c.old 1 0 == 0
    else (if c.tag == 27 then get_or c.old 0 0 % 2 == 0 else true)

-- The rest of the walk keeps what stands before it, and is a walk of its own result.
WalkKept : ℕ → ℕ → List ℕ → List ℕ → Type 0
WalkKept turns idx b t =
    (length t ≡ length b)
    × ((j : ℕ) → j < 12 + idx → get_or t j 0 ≡ get_or b j 0)
    × ((cs : List Change) × ((walk turns idx t ≡ some (t, cs))
          × All (λ (c : Change). is_off c ≡ true) cs))
