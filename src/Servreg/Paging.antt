-- ===== src/Servreg/Paging.antt =====
-- What pdmapper.py answers can be read back, and its pages make up the whole table.
use mathlib.Core.List.{append-nil}
use mathlib.Core.Option.{none-ne-some, some-injective}
use y700_linux.Prelude.{
  ℕ, zero, suc, ◌+◌, ◌*◌, ◌/◌, ◌%◌, ◌≤◌, ◌≡◌, ◌∙◌, sym, ap, subst, refl, inl, inr, Option, none,
  some, List, [], ◌∷◌, ◌++◌, arith, ltb, length, drop, take-append, drop-append, length-append,
  take-append-drop, Bool-cases,
}
use y700_linux.Gpr.Laws.{also-some}
use y700_linux.Servreg.{
  Domain, pack16, pack8, Fields, set_field, tlvs_from, tlvs, tlv, add_all, encode_domains, page,
  body_of,
}

pack16-bytes : (n : ℕ) (b : List ℕ) → pack16 n ≡ some b → (n % 256 ∷ n / 256 ∷ []) ≡ b
pack16-bytes n b e = elim (Bool-cases (ltb n 65536)) [
  | inl h ↦ some-injective _ _ (rw h at e)
  | inr h ↦ absurd (none-ne-some b (rw h at e))
]

pack8-bytes : (n : ℕ) (b : List ℕ) → pack8 n ≡ some b → (n ∷ []) ≡ b
pack8-bytes n b e = elim (Bool-cases (ltb n 256)) [
  | inl h ↦ some-injective _ _ (rw h at e)
  | inr h ↦ absurd (none-ne-some b (rw h at e))
]

add_all-bytes :
    (a b : Option (List ℕ)) (bytes : List ℕ)
    → add_all a b ≡ some bytes
    → (x : List ℕ) × (y : List ℕ) × (a ≡ some x) × (b ≡ some y) × (x ++ y ≡ bytes)
add_all-bytes none b bytes e = absurd (none-ne-some bytes e)
add_all-bytes (some x) none bytes e = absurd (none-ne-some bytes e)
add_all-bytes (some x) (some y) bytes e = (x, y, refl, refl, some-injective _ _ e)

-- One turn of the loop of tlvs on a field that was packed.
tlvs_from-tlv :
    (fuel t : ℕ) (v b rest : List ℕ) (out : Fields)
    → tlv t v ≡ some b
    → tlvs_from (suc fuel) out (b ++ rest) ≡ tlvs_from fuel (set_field t v out) rest
unfolding tlv tlvs_from
tlvs_from-tlv fuel t v b rest out e =
    let (a, ha, e1) = also-some (pack8 t) _ b e in
    let (n, hn, e2) = also-some (pack16 (length v)) _ b e1 in
    rw (sym (some-injective _ _ e2), sym (pack8-bytes t a ha), sym (pack16-bytes (length v) n hn))
      (rw (exact (length v), take-append v rest, drop-append v rest) refl)
  where
    exact : (n : ℕ) → n % 256 + 256 * (n / 256) ≡ n
    exact n = ground (arith)

tlv-length : (t : ℕ) (v b : List ℕ) → tlv t v ≡ some b → 3 ≤ length b
unfolding tlv
tlv-length t v b e =
    let (a, ha, e1) = also-some (pack8 t) _ b e in
    let (n, hn, e2) = also-some (pack16 (length v)) _ b e1 in
    rw (sym (some-injective _ _ e2), sym (pack8-bytes t a ha), sym (pack16-bytes (length v) n hn))
      (ground (arith))

-- Four fields in a row, on enough fuel.
four_fields :
    (fuel : ℕ) (t1 t2 t3 t4 : ℕ) (v1 v2 v3 v4 b1 b2 b3 b4 : List ℕ)
    → 4 ≤ fuel
    → tlv t1 v1 ≡ some b1
    → tlv t2 v2 ≡ some b2
    → tlv t3 v3 ≡ some b3
    → tlv t4 v4 ≡ some b4
    → tlvs_from fuel [] (b1 ++ (b2 ++ (b3 ++ b4)))
      ≡ set_field t4 v4 (set_field t3 v3 (set_field t2 v2 (set_field t1 v1 [])))
unfolding tlvs_from
four_fields (suc (suc (suc (suc g)))) t1 t2 t3 t4 v1 v2 v3 v4 b1 b2 b3 b4 h e1 e2 e3 e4 =
    tlvs_from-tlv (suc (suc (suc g))) t1 v1 b1 (b2 ++ (b3 ++ b4)) [] e1
    ∙ tlvs_from-tlv (suc (suc g)) t2 v2 b2 (b3 ++ b4) _ e2
    ∙ tlvs_from-tlv (suc g) t3 v3 b3 b4 _ e3
    ∙ ap
        (λ (b : List ℕ).
          tlvs_from (suc g) (set_field t3 v3 (set_field t2 v2 (set_field t1 v1 []))) b)
        (sym (append-nil b4))
    ∙ tlvs_from-tlv g t4 v4 b4 [] _ e4
    ∙ ends g _
  where
    ends : (n : ℕ) (out : Fields) → tlvs_from n out [] ≡ out
    ends zero out = refl
    ends (suc n) out = refl
four_fields zero t1 t2 t3 t4 v1 v2 v3 v4 b1 b2 b3 b4 h e1 e2 e3 e4 = ground (arith, h)
four_fields (suc zero) t1 t2 t3 t4 v1 v2 v3 v4 b1 b2 b3 b4 h e1 e2 e3 e4 = ground (arith, h)
four_fields (suc (suc zero)) t1 t2 t3 t4 v1 v2 v3 v4 b1 b2 b3 b4 h e1 e2 e3 e4 = ground (arith, h)
four_fields (suc (suc (suc zero))) t1 t2 t3 t4 v1 v2 v3 v4 b1 b2 b3 b4 h e1 e2 e3 e4 =
    ground (arith, h)

-- Whenever an answer can be packed, the reader of requests reads its four fields back: no error, the
-- number of all domains, the revision, and the page with its length in front.
pub tlvs-body_of :
    (doms part : List Domain) (bytes : List ℕ)
    → body_of doms part ≡ some bytes
    → (es : List ℕ) × (encode_domains part ≡ some es)
      × (tlvs bytes ≡ (
          (2, 0 ∷ 0 ∷ 0 ∷ 0 ∷ [])
          ∷ (16, length doms % 256 ∷ length doms / 256 ∷ [])
          ∷ (17, 1 ∷ 0 ∷ [])
          ∷ (18, length part ∷ es)
          ∷ []))
unfolding tlvs
tlvs-body_of doms part bytes e =
    let (total, htotal, e1) = also-some (pack16 (length doms)) _ bytes e in
    let (n, hn, e2) = also-some (pack8 (length part)) _ bytes e1 in
    let (es, hes, e3) = also-some (encode_domains part) _ bytes e2 in
    let (b1, r1, h1, k1, j1) = add_all-bytes _ _ bytes e3 in
    let (b2, r2, h2, k2, j2) = add_all-bytes _ _ r1 k1 in
    let (b3, b4, h3, h4, j3) = add_all-bytes _ _ r2 k2 in
    let whole : b1 ++ (b2 ++ (b3 ++ b4)) ≡ bytes =
      ap (λ (x : List ℕ). b1 ++ (b2 ++ x)) j3 ∙ ap (λ (x : List ℕ). b1 ++ x) j2 ∙ j1 in
    (
      es,
      hes,
      subst
            (λ (b : List ℕ).
              tlvs_from (length b) [] b
              ≡ set_field 18 (n ++ es) (
                  set_field 17 (1 ∷ 0 ∷ [])
                    (set_field 16 total (set_field 2 (0 ∷ 0 ∷ 0 ∷ 0 ∷ []) []))))
            whole
            (four_fields _ 2 16 17 18 _ total _ (n ++ es) b1 b2 b3 b4
              (ground (
                arith,
                length-append b1 (b2 ++ (b3 ++ b4)),
                length-append b2 (b3 ++ b4),
                tlv-length 2 _ b1 h1,
                tlv-length 16 total b2 h2,
              ))
              h1 h2 h3 h4)
          ∙ ap
              (λ (x : List ℕ).
                (2, 0 ∷ 0 ∷ 0 ∷ 0 ∷ []) ∷ (16, x) ∷ (17, 1 ∷ 0 ∷ []) ∷ (18, n ++ es) ∷ [])
              (sym (pack16-bytes (length doms) total htotal))
          ∙ ap
              (λ (x : List ℕ).
                (2, 0 ∷ 0 ∷ 0 ∷ 0 ∷ [])
                ∷ (16, length doms % 256 ∷ length doms / 256 ∷ [])
                ∷ (17, 1 ∷ 0 ∷ [])
                ∷ (18, x ++ es)
                ∷ [])
              (sym (pack8-bytes (length part) n hn)),
    )

drop-nil : (n : ℕ) → drop {A = Domain} n [] ≡ []
drop-nil zero = refl
drop-nil (suc n) = refl

drop_all : (n : ℕ) (xs : List Domain) → length xs ≤ n → drop n xs ≡ []
drop_all n [] h = drop-nil n
drop_all zero (x ∷ xs) h = ground (arith, h)
drop_all (suc n) (x ∷ xs) h = drop_all n xs (ground (arith, h))

drop-drop : (a b : ℕ) (xs : List Domain) → drop (a + b) xs ≡ drop b (drop a xs)
drop-drop zero b xs = ap (λ (n : ℕ). drop n xs) (ground (arith))
drop-drop (suc a) b [] = drop-nil (suc a + b) ∙ sym (drop-nil b)
drop-drop (suc a) b (x ∷ xs) = ap (λ (n : ℕ). drop n (x ∷ xs)) (shift a b) ∙ drop-drop a b xs
  where
    shift : (m k : ℕ) → suc m + k ≡ suc (m + k)
    shift m k = ground (arith)

-- The domains that a client collects which asks for the next page behind the ones it has.
abbrev pub collect : ℕ → ℕ → List Domain → List Domain
collect zero offset doms = []
collect (suc n) offset doms = page offset doms ++ collect n (offset + 32) doms

-- Asking page after page gives every domain once and in order, behind the offset: as many requests
-- are enough as pages of 32 domains are left.
pub collect-all :
    (n offset : ℕ) (doms : List Domain)
    → length doms ≤ offset + 32 * n
    → collect n offset doms ≡ drop offset doms
collect-all zero offset doms h = sym (drop_all offset doms (ground (arith, h)))
collect-all (suc n) offset doms h =
    ap (λ (rest : List Domain). page offset doms ++ rest)
      (collect-all n (offset + 32) doms (ground (arith, h)) ∙ drop-drop offset 32 doms)
    ∙ take-append-drop 32 (drop offset doms)
