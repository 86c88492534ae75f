-- ===== src/BtKeeper/Sent.antt =====
-- What the writes of the keeper put on the tty: all of a buffer, and all segments of a download.
use y700_linux.Prelude.{
  ℕ, zero, suc, ◌≤◌, ◌<◌, ◌≡◌, refl, sym, ap, ◌∙◌, Bool, true, false, Option, none, some, List, [],
  ◌∷◌, ◌++◌, length, take, drop, arith, subst, ◌⊎◌, inl, inr, take-append-drop, length-take,
  length-drop, if◌then◌else◌,
}
use mathlib.Core.List.{append_assoc, append-nil, nil≢cons}
use y700_linux.BtKeeper.{
  Effect, drain, wrote, World, State, Outcome, done, raised, failed, and_then, ask, perform, cmd,
  sent_some, write_by, write_all,
}
use y700_linux.BtKeeper.Download.{seg_size, take_ready, segment, tlv_by, tlv_download}

-- All bytes written, the first ones first.
abbrev pub bytes_of : Effect → List ℕ
bytes_of (wrote bs) = bs
bytes_of _ = []

unfoldable pub sent : List Effect → List ℕ
sent [] = []
sent (e ∷ es) = sent es ++ bytes_of e

-- A run that ends well has written exactly these bytes; it cannot end otherwise than well or by an
-- exception.
pub Wrote : {A : Type 0} → State → List ℕ → State × Outcome A → Type 0
Wrote s bs (t, done a) = sent t.effects ≡ sent s.effects ++ bs
Wrote s bs (t, raised) = Unit
Wrote s bs (t, failed r) = ⊥

Wrote-from :
    {A : Type 0} (s t : State) (xs ys : List ℕ) (r : State × Outcome A)
    → sent t.effects ≡ sent s.effects ++ xs
    → Wrote t ys r
    → Wrote s (xs ++ ys) r
unfolding Wrote
Wrote-from s t xs ys (u, done a) e h =
    h ∙ ap (λ (bs : List ℕ). bs ++ ys) e ∙ append_assoc (sent s.effects) xs ys
Wrote-from s t xs ys (u, raised) e h = tt
Wrote-from s t xs ys (u, failed r) e h = h

Wrote-and_then :
    {A B : Type 0} (s : State) (xs ys : List ℕ) (r : State × Outcome A)
    (k : A → State → State × Outcome B)
    → Wrote s xs r
    → ((a : A) (t : State) → Wrote t ys (k a t))
    → Wrote s (xs ++ ys) (and_then r k)
unfolding Wrote
Wrote-and_then s xs ys (t, done a) k h next = Wrote-from s t xs ys (k a t) h (next a t)
Wrote-and_then s xs ys (t, raised) k h next = tt
Wrote-and_then s xs ys (t, failed r) k h next = absurd h

Wrote-sent_some :
    (n : Option ℕ) (view : List ℕ) (k : List ℕ → State → State × Outcome Unit) (s : State)
    → ((n : ℕ) (t : State) → Wrote t (drop (suc n) view) (k (drop (suc n) view) t))
    → Wrote s view (sent_some n view k s)
unfolding Wrote sent
Wrote-sent_some none view k s next = tt
Wrote-sent_some (some n) view k s next =
    subst (λ (bs : List ℕ). Wrote s bs (k (drop (suc n) view) t)) (take-append-drop (suc n) view)
      (Wrote-from s t (take (suc n) view) (drop (suc n) view) (k (drop (suc n) view) t) refl
        (next n t))
  where
    t : State
    t = ask (wrote (take (suc n) view)) s

-- The packets of the segments of a download, and the bytes of the segments.
abbrev pub packets : List (List ℕ) → List ℕ
packets [] = []
packets (seg ∷ segs) = cmd 0xfc00 (segment seg) ++ packets segs

abbrev pub joined : List (List ℕ) → List ℕ
joined [] = []
joined (seg ∷ segs) = seg ++ joined segs

-- Every segment has 243 bytes, but for the last one, which has at least one and at most 243.
unfoldable pub Sized : List (List ℕ) → Type 0
Sized [] = Unit
Sized (x ∷ []) = (0 < length x) × (length x ≤ 243)
Sized (x ∷ y ∷ r) = (length x ≡ 243) × Sized (y ∷ r)

cut_up : ℕ → List ℕ → List (List ℕ)
cut_up zero bs = []
cut_up (suc turns) [] = []
cut_up (suc turns) (b ∷ bs) = take seg_size (b ∷ bs) ∷ cut_up turns (drop seg_size (b ∷ bs))

joined-cut_up : (turns : ℕ) (bs : List ℕ) → length bs ≤ turns → joined (cut_up turns bs) ≡ bs
unfolding cut_up
joined-cut_up zero [] h = refl
joined-cut_up zero (b ∷ bs) h = absurd (omega (arith, h))
joined-cut_up (suc turns) [] h = refl
joined-cut_up (suc turns) (b ∷ bs) h =
    rw
      (joined-cut_up turns (drop seg_size (b ∷ bs))
        (omega (arith, h, length-drop seg_size (b ∷ bs))))
      (take-append-drop seg_size (b ∷ bs))

Sized-cons :
    (x : List ℕ) (xs : List (List ℕ))
    → 0 < length x
    → length x ≤ 243
    → (xs ≡ []) ⊎ (length x ≡ 243)
    → Sized xs
    → Sized (x ∷ xs)
unfolding Sized
Sized-cons x [] some_bytes few full h = (some_bytes, few)
Sized-cons x (y ∷ ys) some_bytes few (inl e) h = absurd (nil≢cons (sym e))
Sized-cons x (y ∷ ys) some_bytes few (inr e) h = (e, h)

cut_up_full :
    (turns : ℕ) (bs r : List ℕ)
    → drop seg_size bs ≡ r
    → (cut_up turns r ≡ []) ⊎ (length (take seg_size bs) ≡ 243)
unfolding cut_up
cut_up_full zero bs r e = inl refl
cut_up_full (suc turns) bs [] e = inl refl
cut_up_full (suc turns) bs (c ∷ cs) e = inr (
    omega
      (arith, length-take seg_size bs, length-drop seg_size bs, ap (λ (x : List ℕ). length x) e))

cut_up-Sized : (turns : ℕ) (bs : List ℕ) → Sized (cut_up turns bs)
unfolding cut_up Sized
cut_up-Sized zero bs = tt
cut_up-Sized (suc turns) [] = tt
cut_up-Sized (suc turns) (b ∷ bs) =
    Sized-cons (take seg_size (b ∷ bs)) (cut_up turns (drop seg_size (b ∷ bs))) (omega arith)
      (omega (arith, length-take seg_size (b ∷ bs))) (cut_up_full turns (b ∷ bs) _ refl)
      (cut_up-Sized turns (drop seg_size (b ∷ bs)))

module _ (w : World) where
  -- A step that writes nothing.
  Wrote-take_ready : (cs : List (Option (List ℕ))) (s : State) → Wrote s [] (take_ready cs s)
  unfolding Wrote sent
  Wrote-take_ready [] s = sym (append-nil (sent s.effects))
  Wrote-take_ready (none ∷ cs) s = tt
  Wrote-take_ready (some bs ∷ cs) s = refl

  Wrote-done : {A : Type 0} (s : State) (a : A) → Wrote s [] (s, done a)
  unfolding Wrote
  Wrote-done s a = sym (append-nil (sent s.effects))

  Wrote-drain : (s : State) (ok : Bool) → Wrote s [] (ask drain s, if ok then done tt else raised)
  unfolding Wrote sent
  Wrote-drain s true = refl
  Wrote-drain s false = tt

  write_by-Wrote :
      (turns : ℕ) (view : List ℕ) (s : State)
      → length view ≤ turns
      → Wrote s view (write_by turns w view s)
  unfolding write_by Wrote sent
  write_by-Wrote zero [] s h = sym (append-nil (sent s.effects))
  write_by-Wrote zero (b ∷ bs) s h = absurd (omega (arith, h))
  write_by-Wrote (suc turns) [] s h = sym (append-nil (sent s.effects))
  write_by-Wrote (suc turns) (b ∷ bs) s h =
      Wrote-sent_some (w.accepts s.effects (b ∷ bs)) (b ∷ bs) (write_by turns w) s
        (λ n t. write_by-Wrote turns (drop n bs) t (omega (arith, h, length-drop n bs)))

  write_all-Wrote : (view : List ℕ) (s : State) → Wrote s view (write_all w view s)
  unfolding write_all
  write_all-Wrote view s = write_by-Wrote (length view) view s (omega arith)

  -- A step whose bytes are followed by none.
  Wrote-last :
      {A B : Type 0} (s : State) (xs : List ℕ) (r : State × Outcome A)
      (k : A → State → State × Outcome B)
      → Wrote s xs r
      → ((a : A) (t : State) → Wrote t [] (k a t))
      → Wrote s xs (and_then r k)
  Wrote-last s xs r k h next =
      subst (λ (bs : List ℕ). Wrote s bs (and_then r k)) (append-nil xs)
        (Wrote-and_then s xs [] r k h next)

  tlv_by-Wrote :
      (turns : ℕ) (rest stray : List ℕ) (s : State)
      → Wrote s (packets (cut_up turns rest)) (tlv_by turns w rest stray s)
  unfolding tlv_by cut_up Wrote
  tlv_by-Wrote zero rest stray s = sym (append-nil (sent s.effects))
  tlv_by-Wrote (suc turns) [] stray s = sym (append-nil (sent s.effects))
  tlv_by-Wrote (suc turns) (b ∷ bs) stray s =
      let seg = take seg_size (b ∷ bs) in
      Wrote-and_then s (cmd 0xfc00 (segment seg)) (packets (cut_up turns (drop seg_size (b ∷ bs))))
        (write_all w (cmd 0xfc00 (segment seg)) s) _ (write_all-Wrote _ s)
        λ _ t.
          Wrote-and_then t [] (packets (cut_up turns (drop seg_size (b ∷ bs))))
            (take_ready (w.arrives t.effects 0) t) _ (Wrote-take_ready (w.arrives t.effects 0) t)
            (λ _ t. tlv_by-Wrote turns (drop seg_size (b ∷ bs)) _ t)

  -- tlv_download cuts its data into segments of 243 bytes and a last one of at most 243, which make up
  -- the data. Where it returns, it has written the commands of exactly these segments, in order; else
  -- it has raised.
  pub tlv_download-Wrote :
      (bytes : List ℕ) (s : State)
      → (segs : List (List ℕ)) × ((joined segs ≡ bytes)
          × Sized segs
          × Wrote s (packets segs) (tlv_download w bytes s))
  unfolding tlv_download
  tlv_download-Wrote bytes s = (
    cut_up (length bytes) bytes,
    (
      joined-cut_up (length bytes) bytes (omega arith),
      cut_up-Sized (length bytes) bytes,
      Wrote-last s _ (tlv_by (length bytes) w bytes [] s) _ (tlv_by-Wrote (length bytes) bytes [] s)
          (λ stray t.
            Wrote-last t [] (perform w drain t) _ (Wrote-drain t (w.works t.effects drain))
              (λ _ u. Wrote-done u stray)),
    ),
  )
