-- ===== src/Gpr/Tests.antt =====
-- Packets of gprclient.py on concrete bytes.
use y700_linux.Prelude.{ℕ, ◌≡◌, some, List, [], ◌∷◌, refl}
use y700_linux.Rpc.Frames.{pack32, le32}
use y700_linux.Gpr.{Packet, pack, unpack, call}
use y700_linux.Gpr.Laws.{packet_of, unpack-pack}

-- A packet of two bytes of payload.
abbrev sent : List ℕ
sent =
    96 ∷ 26 ∷ 0 ∷ 0 ∷ 2 ∷ 3 ∷ 0 ∷ 0 ∷ 1 ∷ 32 ∷ 0 ∷ 0 ∷ 1 ∷ 0 ∷ 0 ∷ 0 ∷ 9 ∷ 0 ∷ 0 ∷ 0 ∷ 5 ∷ 16 ∷ 0
    ∷ 1 ∷ 7 ∷ 8 ∷ []

packs : pack 16781317 (7 ∷ 8 ∷ []) 9 1 ≡ some sent
unfolding pack pack32 le32
packs = refl

unpack-pack_example : unpack sent ≡ some (packet_of 16781317 (7 ∷ 8 ∷ []) 9 1)
unpack-pack_example = unpack-pack 16781317 (7 ∷ 8 ∷ []) 9 1 sent packs

abbrev other : Packet
other = packet_of 5 [] 8 1

abbrev wanted : Packet
wanted = packet_of 5 [] 9 1

replies : (call 9 (some other ∷ some wanted ∷ [])).0 ≡ some wanted
unfolding call
replies = refl
