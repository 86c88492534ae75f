-- ===== src/Servreg.antt =====
-- The answers of the domain locator, design/nextboot-impl/pdmapper.py: tlvs, tlv and answer.
--
-- Bytes are numbers below 256; `none` is an exception (struct.error, or ValueError of a byte above
-- 255). The look-up in the table, with the decoding of the name before it, is an argument.
pub mod Paging
mod Tests
use y700_linux.Prelude.{
  ℕ, zero, suc, ◌+◌, ◌-◌, ◌*◌, ◌/◌, ◌%◌, Bool, true, false, ◌&&◌, Option, none, some, List, [], ◌∷◌,
  ◌++◌, ◌==◌, ltb, leb, length, take, drop, if◌then◌else◌,
}
use y700_linux.Rpc.Frames.{unpack32, pack32}
use y700_linux.Gpr.{and_also}

-- A domain of the table: its name encoded with the number of its characters, instance, valid flag
-- and data.
pub record Domain : Type 0 where
  pub name : List ℕ
  pub name_length : ℕ
  pub instance_id : ℕ
  pub valid : ℕ
  pub service_data : ℕ

abbrev pub pack16 : ℕ → Option (List ℕ)
pack16 n = if ltb n 65536 then some (n % 256 ∷ n / 256 ∷ []) else none

abbrev pub pack8 : ℕ → Option (List ℕ)
pack8 n = if ltb n 256 then some (n ∷ []) else none

-- out_[t] = v, and its look-up.
abbrev pub Fields : Type 0
Fields = List (ℕ × List ℕ)

abbrev pub set_field : ℕ → List ℕ → Fields → Fields
set_field t v [] = (t, v) ∷ []
set_field t v ((u, x) ∷ fs) =
    let rest = set_field t v fs in if u == t then (t, v) ∷ fs else (u, x) ∷ rest

abbrev pub get_field : ℕ → Fields → Option (List ℕ)
get_field t [] = none
get_field t ((u, x) ∷ fs) = if u == t then some x else get_field t fs

-- The loop of tlvs over what is left of the buffer, on fuel: each turn takes three bytes or more.
unfoldable pub tlvs_from : ℕ → Fields → List ℕ → Fields
tlvs_from zero out buf = out
tlvs_from (suc fuel) out (t ∷ lo ∷ hi ∷ rest) =
    tlvs_from fuel (set_field t (take (lo + 256 * hi) rest) out) (drop (lo + 256 * hi) rest)
tlvs_from (suc fuel) out _ = out

unfoldable pub tlvs : List ℕ → Fields
tlvs buf = tlvs_from (length buf) [] buf

unfoldable pub tlv : ℕ → List ℕ → Option (List ℕ)
tlv t v = and_also (pack8 t) λ a. and_also (pack16 (length v)) λ n. some (a ++ n ++ v)

abbrev pub add_all : Option (List ℕ) → Option (List ℕ) → Option (List ℕ)
add_all a b = and_also a λ x. and_also b λ y. some (x ++ y)

-- bytes([len(dn)]) + dn.encode() + struct.pack('<IBI', inst, valid, data)
abbrev pub encode_domain : Domain → Option (List ℕ)
encode_domain d = add_all (pack8 d.name_length) (
    add_all (some d.name)
      (add_all (pack32 d.instance_id) (add_all (pack8 d.valid) (pack32 d.service_data))))

unfoldable pub encode_domains : List Domain → Option (List ℕ)
encode_domains [] = some []
encode_domains (d ∷ ds) = add_all (encode_domain d) (encode_domains ds)

-- What stands before the first zero.
abbrev pub until_nul : List ℕ → List ℕ
until_nul [] = []
until_nul (b ∷ bs) = let rest = until_nul bs in if b == 0 then [] else b ∷ rest

abbrev pub or_empty : {A : Type 0} → Option (List A) → List A
or_empty none = []
or_empty (some xs) = xs

abbrev pub or_zero : Option ℕ → ℕ
or_zero none = 0
or_zero (some n) = n

-- The offset, if its field has four bytes.
abbrev pub offset_of : Option (List ℕ) → ℕ
offset_of none = 0
offset_of (some v) = if length v == 4 then or_zero (unpack32 v) else 0

-- doms[offset:offset + 32]
abbrev pub page : ℕ → List Domain → List Domain
page offset doms = take 32 (drop offset doms)

-- The result with its body: no error, the number of all domains, the revision, and the page.
abbrev pub body_of : List Domain → List Domain → Option (List ℕ)
body_of doms part = and_also (pack16 (length doms)) λ total. and_also (pack8 (length part)) λ n.
    and_also (encode_domains part) λ es.
      add_all (tlv 2 (0 ∷ 0 ∷ 0 ∷ 0 ∷ []))
        (add_all (tlv 16 total) (add_all (tlv 17 (1 ∷ 0 ∷ [])) (tlv 18 (n ++ es))))

pub record Answer : Type 0 where
  pub offset : ℕ
  pub part : List Domain
  pub body : Option (List ℕ)

-- `table` looks a name up, behind its decoding.
unfoldable pub answer : (List ℕ → Option (List Domain)) → List ℕ → Answer
answer table req =
    let t = tlvs req in
    let doms = or_empty (table (until_nul (or_empty (get_field 1 t)))) in
    let offset = offset_of (get_field 16 t) in
    record { offset = offset; part = page offset doms; body = body_of doms (page offset doms) }
