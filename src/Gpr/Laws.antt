-- ===== src/Gpr/Laws.antt =====
-- What gprclient.py packs is what it unpacks, and a call returns the reply to its token.
use mathlib.Core.Option.{none-ne-some, some-injective}
use y700_linux.Prelude.{
  ℕ, zero, suc, ◌+◌, ◌-◌, ◌*◌, ◌/◌, ◌%◌, ◌^◌, ◌<◌, ◌≡◌, ◌≢◌, ◌∙◌, sym, ap, subst, refl, inl, inr,
  true, false, Option, none, some, List, [], ◌∷◌, ◌++◌, arith, ◌==◌, ltb, length, take, drop,
  get_elem?, Bool-cases, All,
}
use y700_linux.Rpc.Frames.{unpack32, pack32, le32}
use y700_linux.Rpc.Frames.RoundTrip.{unpack32-le32}
use y700_linux.Gpr.{src_port, Packet, and_also, pack, slice, unpack, call}

packed : (n : ℕ) (b : List ℕ) → pack32 n ≡ some b → (n < 2 ^ 32) × (le32 n ≡ b)
unfolding pack32
packed n b e = elim (Bool-cases (ltb n (2 ^ 32))) [
  | inl h ↦ (ground (arith, h), some-injective _ _ (rw h at e))
  | inr h ↦ absurd (none-ne-some b (rw h at e))
]

pub also-some :
    {A B : Type 0} (m : Option A) (k : A → Option B) (b : B)
    → and_also m k ≡ some b
    → (a : A) × (m ≡ some a) × (k a ≡ some b)
also-some none k b e = absurd (none-ne-some b e)
also-some (some a) k b e = (a, refl, e)

unpack_fields :
    (pkt : List ℕ) (word from dst token opcode : ℕ)
    → unpack32 pkt ≡ some word
    → get_elem? pkt 4 ≡ some 2
    → get_elem? pkt 5 ≡ some 3
    → unpack32 (drop 8 pkt) ≡ some from
    → unpack32 (drop 12 pkt) ≡ some dst
    → unpack32 (drop 16 pkt) ≡ some token
    → unpack32 (drop 20 pkt) ≡ some opcode
    → unpack pkt
      ≡ some (record {
        size = word / 256;
        hdr_bytes = word / 16 % 16 * 4;
        dst_domain = 2;
        src_domain = 3;
        from_port = from;
        dst_port = dst;
        token = token;
        opcode = opcode;
        payload = slice (word / 16 % 16 * 4) (word / 256) pkt;
      })
unfolding unpack
unpack_fields pkt word from dst token opcode h0 h4 h5 h8 h12 h16 h20 =
    rw (h0, h4, h5, h8, h12, h16, h20) refl

abbrev pub packet_of : ℕ → List ℕ → ℕ → ℕ → Packet
packet_of opcode payload token dst = record {
  size = 24 + length payload;
  hdr_bytes = 24;
  dst_domain = 2;
  src_domain = 3;
  from_port = src_port;
  dst_port = dst;
  token = token;
  opcode = opcode;
  payload = payload;
}

take_whole : (n : ℕ) (xs : List ℕ) → n ≡ length xs → take n xs ≡ xs
take_whole n [] h = ground (arith, h)
take_whole zero (x ∷ xs) h = ground (arith, h)
take_whole (suc n) (x ∷ xs) h = ap (λ (r : List ℕ). x ∷ r) (take_whole n xs (ground (arith, h)))

-- The bytes of a packet, with its first word.
abbrev bytes_of : ℕ → ℕ → List ℕ → ℕ → ℕ → List ℕ
bytes_of word opcode payload token dst =
    le32 word
    ++ (2 ∷ 3 ∷ 0 ∷ 0 ∷ [])
    ++ le32 src_port
    ++ le32 dst
    ++ le32 token
    ++ le32 opcode
    ++ payload

unpack_bytes :
    (word opcode : ℕ) (payload : List ℕ) (token dst : ℕ)
    → word ≡ 96 + 256 * (24 + length payload)
    → word < 2 ^ 32
    → dst < 2 ^ 32
    → token < 2 ^ 32
    → opcode < 2 ^ 32
    → unpack (bytes_of word opcode payload token dst) ≡ some (packet_of opcode payload token dst)
unfolding le32
unpack_bytes word opcode payload token dst e hw hd ht ho =
    unpack_fields (bytes_of word opcode payload token dst) word src_port dst token opcode
      (unpack32-le32 word _ hw) refl refl (unpack32-le32 src_port _ (ground (arith)))
      (unpack32-le32 dst _ hd) (unpack32-le32 token _ ht) (unpack32-le32 opcode _ ho)
    ∙ fields (word / 256) (word / 16 % 16 * 4) (ground (arith, e)) (ground (arith, e))
  where
    with_payload : List ℕ → Packet
    with_payload x = record {
      size = 24 + length payload;
      hdr_bytes = 24;
      dst_domain = 2;
      src_domain = 3;
      from_port = src_port;
      dst_port = dst;
      token = token;
      opcode = opcode;
      payload = x;
    }

    fields :
        (size hdr : ℕ)
        → size ≡ 24 + length payload
        → hdr ≡ 24
        → some (record {
          size = size;
          hdr_bytes = hdr;
          dst_domain = 2;
          src_domain = 3;
          from_port = src_port;
          dst_port = dst;
          token = token;
          opcode = opcode;
          payload = slice hdr size (bytes_of word opcode payload token dst);
        })
          ≡ some (packet_of opcode payload token dst)
    fields size hdr hs hh =
        rw (hs, hh)
          (ap (λ (x : List ℕ). some (with_payload x))
            (take_whole (24 + length payload - 24) payload (ground (arith))))

unpack_packed :
    (word opcode : ℕ) (payload : List ℕ) (token dst : ℕ) (w o t d bytes : List ℕ)
    → word ≡ 96 + 256 * (24 + length payload)
    → pack32 word ≡ some w
    → pack32 opcode ≡ some o
    → pack32 token ≡ some t
    → pack32 dst ≡ some d
    → some (w ++ (2 ∷ 3 ∷ 0 ∷ 0 ∷ []) ++ le32 src_port ++ d ++ t ++ o ++ payload) ≡ some bytes
    → unpack bytes ≡ some (packet_of opcode payload token dst)
unpack_packed word opcode payload token dst w o t d bytes e hw ho ht hd whole =
    subst (λ (b : List ℕ). unpack b ≡ some (packet_of opcode payload token dst))
      (some-injective _ _ whole)
      (rw
        (
          sym (packed word w hw).1,
          sym (packed opcode o ho).1,
          sym (packed token t ht).1,
          sym (packed dst d hd).1,
        )
        (unpack_bytes word opcode payload token dst e (packed word w hw).0 (packed dst d hd).0
          (packed token t ht).0 (packed opcode o ho).0))

-- Whenever a packet can be packed, unpacking it gives its opcode, payload, token and ports, with
-- the size of the header and of the whole.
pub unpack-pack :
    (opcode : ℕ) (payload : List ℕ) (token dst : ℕ) (bytes : List ℕ)
    → pack opcode payload token dst ≡ some bytes
    → unpack bytes ≡ some (packet_of opcode payload token dst)
unfolding pack
unpack-pack opcode payload token dst bytes e =
    let (w, hw, e1) = also-some (pack32 _) _ bytes e in
    let (d, hd, e2) = also-some (pack32 dst) _ bytes e1 in
    let (t, ht, e3) = also-some (pack32 token) _ bytes e2 in
    let (o, ho, e4) = also-some (pack32 opcode) _ bytes e3 in
    unpack_packed _ opcode payload token dst w o t d bytes (ground (arith)) hw ho ht hd e4

-- The answer to a call has its token, and what was seen before it has other ones.
pub call_first :
    (token : ℕ) (ms : List (Option Packet)) (m : Packet)
    → (call token ms).0 ≡ some m
    → (m.token ≡ token)
      × ((before : List Packet) × ((call token ms).1 ≡ before ++ m ∷ [])
          × All (λ (x : Packet). x.token ≢ token) before)
unfolding call
call_first token [] m e = absurd (none-ne-some m e)
call_first token (none ∷ ms) m e = absurd (none-ne-some m e)
call_first token (some x ∷ ms) m e = elim (Bool-cases (x.token == token)) [
  | inl h ↦ rw h (here (some-injective _ _ (rw h at e)) h)
  | inr h ↦ rw h (later h (call_first token ms m (rw h at e)))
]
  where
    here :
        x ≡ m
        → (x.token == token) ≡ true
        → (m.token ≡ token)
          × ((before : List Packet) × (x ∷ [] ≡ before ++ m ∷ [])
              × All (λ (y : Packet). y.token ≢ token) before)
    here same h = (
      ground (arith, ap (λ (y : Packet). y.token) same, h),
      ([], ap (λ (y : Packet). y ∷ []) same, tt),
    )

    later :
        (x.token == token) ≡ false
        → (m.token ≡ token)
          × ((before : List Packet) × ((call token ms).1 ≡ before ++ m ∷ [])
              × All (λ (y : Packet). y.token ≢ token) before)
        → (m.token ≡ token)
          × ((before : List Packet) × (x ∷ (call token ms).1 ≡ before ++ m ∷ [])
              × All (λ (y : Packet). y.token ≢ token) before)
    later h (same, (before, seen, others)) = (
      same,
      (x ∷ before, ap (λ (r : List Packet). x ∷ r) seen, ((λ eq. ground (arith, eq, h)), others)),
    )
