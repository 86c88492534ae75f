-- ===== src/Servreg/Tests.antt =====
-- Requests and pages of pdmapper.py on a concrete table.
use y700_linux.Prelude.{ℕ, ◌≡◌, Option, some, List, [], ◌∷◌, refl}
use y700_linux.Rpc.Frames.{unpack32, pack32, le32}
use y700_linux.Servreg.{Domain, tlv, tlvs, tlvs_from, encode_domains, body_of, answer}
use y700_linux.Servreg.Paging.{tlvs-body_of}

abbrev audio_pd : Domain
audio_pd = record {
  name = 97 ∷ 98 ∷ [];
  name_length = 2;
  instance_id = 74;
  valid = 1;
  service_data = 5;
}

abbrev table : List ℕ → Option (List Domain)
table name = some (audio_pd ∷ [])

abbrev sent : List ℕ
sent =
    2 ∷ 4 ∷ 0 ∷ 0 ∷ 0 ∷ 0 ∷ 0 ∷ 16 ∷ 2 ∷ 0 ∷ 1 ∷ 0 ∷ 17 ∷ 2 ∷ 0 ∷ 1 ∷ 0 ∷ 18 ∷ 13 ∷ 0 ∷ 1 ∷ 2 ∷ 97
    ∷ 98 ∷ 74 ∷ 0 ∷ 0 ∷ 0 ∷ 1 ∷ 5 ∷ 0 ∷ 0 ∷ 0 ∷ []

-- A request with the name "x" and no offset.
answers : (answer table (1 ∷ 2 ∷ 0 ∷ 120 ∷ 0 ∷ [])).body ≡ some sent
unfolding answer tlvs tlvs_from tlv encode_domains pack32 le32 unpack32
answers = refl

body : body_of (audio_pd ∷ []) (audio_pd ∷ []) ≡ some sent
unfolding tlv encode_domains pack32 le32
body = refl

tlvs-body_of_example :
    (es : List ℕ) × (encode_domains (audio_pd ∷ []) ≡ some es)
    × (tlvs sent
        ≡ ((2, 0 ∷ 0 ∷ 0 ∷ 0 ∷ []) ∷ (16, 1 ∷ 0 ∷ []) ∷ (17, 1 ∷ 0 ∷ []) ∷ (18, 1 ∷ es) ∷ []))
tlvs-body_of_example = tlvs-body_of (audio_pd ∷ []) (audio_pd ∷ []) sent body
