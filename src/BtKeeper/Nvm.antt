-- ===== src/BtKeeper/Nvm.antt =====
-- nvm_for_h4 of design/nextboot-impl/bt-keeper.py: the NVM file as a host that runs H4 sends it.
--
-- `none` is an assertion that fails, or IndexError.
pub mod Idem
use y700_linux.Prelude.{
  ℕ, zero, suc, ◌+◌, ◌-◌, ◌*◌, ◌%◌, Bool, true, false, ◌&&◌, Option, none, some, List, [], ◌∷◌,
  ◌==◌, ltb, leb, length, take, drop, get_or, set, if◌then◌else◌,
}
use y700_linux.BtKeeper.{word16}

-- A tag, with its bytes before and after.
pub record Change : Type 0 where
  pub tag : ℕ
  pub old : List ℕ
  pub new : List ℕ

-- b[d] &= 0x7f; b[d + 1] = 0x00 of a tag 17, b[d] &= 0xfe of a tag 27.
unfoldable pub patched : ℕ → ℕ → List ℕ → List ℕ
patched tag d b =
    let x = get_or b d 0 in
    if tag == 17
    then set (set b d (x % 128)) (suc d) 0
    else (if tag == 27 then set b d (x - x % 2) else b)

-- The last byte that a tag needs is there.
abbrev pub has_room : ℕ → ℕ → List ℕ → Bool
has_room tag d b =
    if tag == 17 then ltb (suc d) (length b) else (if tag == 27 then ltb d (length b) else true)

abbrev pub bytes_of : ℕ → ℕ → List ℕ → List ℕ
bytes_of tag d b = if tag == 17 then take 2 (drop d b) else take 1 (drop d b)

abbrev pub is_patched : ℕ → Bool
is_patched tag = if tag == 17 then true else tag == 27

abbrev pub noted : Bool → Change → Option (List ℕ × List Change) → Option (List ℕ × List Change)
noted is_noted c none = none
noted is_noted c (some (b, cs)) = some (b, if is_noted then c ∷ cs else cs)

-- The loop over the tags from `idx`, of at most so many turns.
unfoldable pub walk : ℕ → ℕ → List ℕ → Option (List ℕ × List Change)
walk zero idx b = none
walk (suc turns) idx b =
    let tag = word16 idx b in
    let d = idx + 12 in
    let out = patched tag d b in
    let rest = walk turns (d + word16 (2 + idx) b) out in
    if leb d (length b)
    then (if has_room tag d b
        then noted (is_patched tag)
            (record { tag = tag; old = bytes_of tag d b; new = bytes_of tag d out }) rest
        else none)
    else (if idx == length b then some (b, []) else none)

-- int.from_bytes(b[1:4], 'little') + 4 == len(b)
abbrev pub has_length : List ℕ → Bool
has_length b = get_or b 1 0 + 256 * get_or b 2 0 + 65536 * get_or b 3 0 + 4 == length b

-- Every turn but the last takes twelve bytes or more.
unfoldable pub nvm_for_h4 : List ℕ → Option (List ℕ × List Change)
nvm_for_h4 b = if (get_or b 0 0 == 2) && has_length b then walk (suc (length b)) 4 b else none
