-- ===== src/Gpr.antt =====
-- The packets of the audio DSP, design/nextboot-impl/gprclient.py: pack, unpack and Client.call.
--
-- Bytes are numbers below 256; `none` is struct.error.
pub mod Laws
mod Tests
use y700_linux.Prelude.{
  ℕ, ◌+◌, ◌-◌, ◌*◌, ◌/◌, ◌%◌, Option, none, some, List, [], ◌∷◌, ◌++◌, ◌==◌, length, take, drop,
  get_elem?, if◌then◌else◌,
}
use y700_linux.Rpc.Frames.{unpack32, pack32, le32}

-- HDR.size
abbrev pub header_size : ℕ
header_size = 24

abbrev pub src_port : ℕ
src_port = 8193

pub record Packet : Type 0 where
  pub size : ℕ
  pub hdr_bytes : ℕ
  pub dst_domain : ℕ
  pub src_domain : ℕ
  pub from_port : ℕ
  pub dst_port : ℕ
  pub token : ℕ
  pub opcode : ℕ
  pub payload : List ℕ

abbrev pub and_also : {A B : Type 0} → Option A → (A → Option B) → Option B
and_also none k = none
and_also (some a) k = k a

-- Version 0, the words of the header and the bytes of the packet, then the domains of the DSP (2)
-- and of the applications (3).
unfoldable pub pack : ℕ → List ℕ → ℕ → ℕ → Option (List ℕ)
pack opcode payload token dst_port =
    and_also (pack32 (header_size / 4 * 16 + 256 * (header_size + length payload))) λ word.
      and_also (pack32 dst_port) λ dst. and_also (pack32 token) λ tok.
        and_also (pack32 opcode)
          λ op. some (word ++ (2 ∷ 3 ∷ 0 ∷ 0 ∷ []) ++ le32 src_port ++ dst ++ tok ++ op ++ payload)

-- pkt[from:to]
abbrev pub slice : ℕ → ℕ → List ℕ → List ℕ
slice from to pkt = take (to - from) (drop from pkt)

unfoldable pub unpack : List ℕ → Option Packet
unpack pkt = and_also (unpack32 pkt) λ word. and_also (get_elem? pkt 4) λ dst_domain.
    and_also (get_elem? pkt 5) λ src_domain. and_also (unpack32 (drop 8 pkt)) λ from_port.
      and_also (unpack32 (drop 12 pkt)) λ dst_port. and_also (unpack32 (drop 16 pkt)) λ token.
        and_also (unpack32 (drop 20 pkt)) λ opcode.
          let hdr = word / 16 % 16 * 4 in
          some (record {
            size = word / 256;
            hdr_bytes = hdr;
            dst_domain = dst_domain;
            src_domain = src_domain;
            from_port = from_port;
            dst_port = dst_port;
            token = token;
            opcode = opcode;
            payload = slice hdr (word / 256) pkt;
          })

abbrev pub seen_too : Packet → Option Packet × List Packet → Option Packet × List Packet
seen_too m r = (r.0, m ∷ r.1)

-- The loop of Client.call over what recv returns before the deadline; nothing ends it.
unfoldable pub call : ℕ → List (Option Packet) → Option Packet × List Packet
call token [] = (none, [])
call token (none ∷ ms) = (none, [])
call token (some m ∷ ms) =
    let rest = call token ms in if m.token == token then (some m, m ∷ []) else seen_too m rest
