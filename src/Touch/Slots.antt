-- ===== src/Touch/Slots.antt =====
-- What the reader of the rotated touchscreen makes of its events: multitouch protocol B, where an
-- event belongs to the slot that was selected last.
use y700_linux.Prelude.{
  ℕ, ◌≡◌, ◌∙◌, ap, subst, refl, ◌==◌, ◌||◌, ◌&&◌, Bool, true, false, Option, none, some, List, [],
  ◌∷◌, ◌++◌, arith, Bool-cases, inl, inr, if◌then◌else◌,
}
use mathlib.Core.List.{append_assoc, append-nil}
use mathlib.Core.Option.{some-injective}
use y700_linux.Prelude.Int.{ℤ, pos, eqb_ℤ, eqb_ℤ→eq}
use y700_linux.Floats.{Floats}
use y700_linux.Touch.{
  Event, Rotator, ev_abs, ev_key, ev_syn, syn_report, syn_dropped, btn_touch, abs_mt_position_x,
  abs_mt_position_y, abs_mt_slot, abs_mt_touch_major, abs_mt_tracking_id, abs_mt_pressure, located,
  flush, flush_slot, slot_event, position_events, move, feed_abs, feed, report,
}

-- An axis value with the slot that it belongs to.
pub record Touched : Type 0 where
  pub slot : ℤ
  pub code : ℕ
  pub value : ℤ

abbrev pub touched : ℤ → ℕ → ℤ → Touched
touched s c v = record { slot = s; code = c; value = v }

-- The slot that is selected after some events, and the values that they carry.
abbrev pub slot_after : ℤ → List Event → ℤ
slot_after v [] = v
slot_after v (e ∷ es) =
    slot_after (if e.kind == ev_abs && e.code == abs_mt_slot then e.value else v) es

abbrev pub decode : ℤ → List Event → List Touched
decode v [] = []
decode v (e ∷ es) =
    let rest = decode (if e.kind == ev_abs && e.code == abs_mt_slot then e.value else v) es in
    if e.kind == ev_abs
    then (if e.code == abs_mt_slot then rest else touched v e.code e.value ∷ rest)
    else rest

slot_after-append :
    (v : ℤ) (a b : List Event) → slot_after v (a ++ b) ≡ slot_after (slot_after v a) b
slot_after-append v [] b = refl
slot_after-append v (e ∷ es) b =
    slot_after-append (if e.kind == ev_abs && e.code == abs_mt_slot then e.value else v) es b

decode-append :
    (v : ℤ) (a b : List Event) → decode v (a ++ b) ≡ decode v a ++ decode (slot_after v a) b
decode-append v [] b = refl
decode-append v (e ∷ es) b = elim (Bool-cases (e.kind == ev_abs)) [
  | inl p ↦ elim (Bool-cases (e.code == abs_mt_slot)) [
    | inl q ↦ rw (p, q) (decode-append e.value es b)
    | inr q ↦ rw (p, q) (ap (λ r. touched v e.code e.value ∷ r) (decode-append v es b))
  ]
  | inr p ↦ rw p (decode-append v es b)
]

module _ (x : Floats) where
  -- What SYN_REPORT has to deliver: the rotated position of each slot that moved.
  abbrev pub at : ℤ → Option (ℕ × ℕ) → List Touched
  at s none = []
  at s (some (px, py)) =
      touched s abs_mt_position_x (pos px) ∷ touched s abs_mt_position_y (pos py) ∷ []

  abbrev pub moved : Rotator x → List ℤ → List Touched
  moved r [] = []
  moved r (s ∷ ss) = at s (located x r (r.pos_of s)) ++ moved r ss

  -- What an event has to deliver, in terms of the input's own slot.
  abbrev pub delivered : Event → Rotator x → List Touched
  delivered e r =
      if e.kind == ev_abs
      then (if e.code == abs_mt_touch_major
            || e.code == abs_mt_tracking_id
            || e.code == abs_mt_pressure
          then touched r.cur e.code e.value ∷ []
          else [])
      else if e.kind == ev_syn && e.code == syn_report
      then moved r r.dirty
      else []

  slot_event_lem :
      (v s : ℤ) → (slot_after v (slot_event x v s) ≡ s) × (decode v (slot_event x v s) ≡ [])
  slot_event_lem v s = elim (Bool-cases (eqb_ℤ v s)) [
    | inl e ↦ rw e (eqb_ℤ→eq v s e, refl)
    | inr e ↦ rw e (refl, refl)
  ]

  step_lem :
      (v s : ℤ) (q : ℕ × ℕ) (rest : List Event)
      → (slot_after v (slot_event x v s ++ position_events x q ++ rest) ≡ slot_after s rest)
        × (decode v (slot_event x v s ++ position_events x q ++ rest)
            ≡ at s (some q) ++ decode s rest)
  step_lem v s q rest =
      let (a, b) = slot_event_lem v s in
      (rw (append_assoc, slot_after-append, a) refl, rw (append_assoc, decode-append, a, b) refl)

  flush_lem :
      (r : Rotator x) (v : ℤ) (ss : List ℤ) (o : ℤ × List Event)
      → flush x r v ss ≡ some o
      → (slot_after v o.1 ≡ o.0) × (decode v o.1 ≡ moved r ss)
  unfolding flush
  flush_lem r v [] o h = ground arith
  flush_lem r v (s ∷ ss) o h =
      go (located x r (r.pos_of s)) (flush x r s ss) refl h (flush_lem r s ss)
    where
      go :
          (p : Option (ℕ × ℕ)) (rest : Option (ℤ × List Event))
          → flush x r s ss ≡ rest
          → flush_slot x v s p rest ≡ some o
          → ((o' : ℤ × List Event)
              → flush x r s ss ≡ some o'
              → (slot_after s o'.1 ≡ o'.0) × (decode s o'.1 ≡ moved r ss))
          → (slot_after v o.1 ≡ o.0) × (decode v o.1 ≡ at s p ++ moved r ss)
      go none rest e h ih = cc
      go (some q) none e h ih = cc
      go (some q) (some o') e h ih =
          subst
            (λ (p : ℤ × List Event).
              (slot_after v p.1 ≡ p.0) × (decode v p.1 ≡ at s (some q) ++ moved r ss))
            (some-injective _ _ h)
            (let (a, b) = step_lem v s q o'.1 in
              let (c, d) = ih o' e in (a ∙ c, b ∙ ap (λ l. at s (some q) ++ l) d))

  -- What the reader has after one event's output: its slot is the proxy's `vslot`, and it has got
  -- exactly the values that the input device meant, each for its own slot.
  abbrev pub Delivers : Event → Rotator x → Rotator x × List Event → Type 0
  Delivers e r o = (slot_after r.vslot o.1 ≡ o.0.vslot) × (decode r.vslot o.1 ≡ delivered e r)

  abbrev passes : ℕ → Bool
  passes c = c == abs_mt_touch_major || c == abs_mt_tracking_id || c == abs_mt_pressure

  slot-passes : (c : ℕ) → (c == abs_mt_slot) ≡ true → passes c ≡ false
  slot-passes c h = ground arith

  position-passes :
      (c : ℕ) → (c == abs_mt_position_x || c == abs_mt_position_y) ≡ true → passes c ≡ false
  position-passes c h = ground arith

  feed_abs-Delivers :
      (e : Event) (r : Rotator x)
      → (e.kind == ev_abs) ≡ true
      → Delivers e r (feed_abs x e.code e.value r)
  unfolding feed_abs move
  feed_abs-Delivers e r h = elim (Bool-cases (e.code == abs_mt_slot)) [
    | inl a ↦ rw (h, a, slot-passes e.code a) (refl, refl)
    | inr a ↦ elim (Bool-cases (e.code == abs_mt_position_x || e.code == abs_mt_position_y)) [
      | inl b ↦ rw (h, a, b, position-passes e.code b) (refl, refl)
      | inr b ↦ elim (Bool-cases (passes e.code)) [
        | inl c ↦
            rw (h, a, b, c)
              (
                slot_after-append r.vslot (slot_event x r.vslot r.cur) _
                    ∙ rw (a, (slot_event_lem r.vslot r.cur).0) refl,
                decode-append r.vslot (slot_event x r.vslot r.cur) _
                    ∙ rw (a, (slot_event_lem r.vslot r.cur).0, (slot_event_lem r.vslot r.cur).1)
                        refl,
              )
        | inr c ↦ rw (h, a, b, c) (refl, refl)
      ]
    ]
  ]

  Delivers-eq :
      (e : Event) (r : Rotator x) (p o : Rotator x × List Event)
      → some p ≡ some o
      → Delivers e r p
      → Delivers e r o
  Delivers-eq e r p o h d = subst (Delivers e r) (some-injective _ _ h) d

  key-Delivers :
      (e : Event) (r : Rotator x)
      → (e.kind == ev_abs) ≡ false
      → (e.kind == ev_key) ≡ true
      → Delivers e r (r, if e.code == btn_touch then e ∷ [] else [])
  key-Delivers e r a b = elim (Bool-cases (e.code == btn_touch)) [
    | inl c ↦ rw (a, not_syn, c) (rw a refl, rw a refl)
    | inr c ↦ rw (a, not_syn, c) (refl, refl)
  ]
    where
      not_syn : (e.kind == ev_syn) ≡ false
      not_syn = ground arith

  unchanged :
      (r : Rotator x) (b : Bool) → r.vslot ≡ (if b then record r { dirty = [] } else r).vslot
  unchanged r true = refl
  unchanged r false = refl

  report-Delivers :
      (e : Event) (r : Rotator x) (f : Option (ℤ × List Event)) (o : Rotator x × List Event)
      → flush x r r.vslot r.dirty ≡ f
      → report x r f ≡ some o
      → (slot_after r.vslot o.1 ≡ o.0.vslot) × (decode r.vslot o.1 ≡ moved r r.dirty)
  report-Delivers e r none o q h = cc
  report-Delivers e r (some (v, out)) o q h =
      let (a, b) = flush_lem r r.vslot r.dirty (v, out) q in
      subst
        (λ (p : Rotator x × List Event).
          (slot_after r.vslot p.1 ≡ p.0.vslot) × (decode r.vslot p.1 ≡ moved r r.dirty))
        (some-injective _ _ h)
        (
          slot_after-append r.vslot out _ ∙ a,
          decode-append r.vslot out _ ∙ append-nil (decode r.vslot out) ∙ b,
        )

  -- Whenever an event is handled without an exception, the reader's slot afterwards is the proxy's
  -- `vslot`, and the reader has got exactly what the event means for the input's own slots: the
  -- passed value, the rotated positions of the slots that moved, or nothing.
  pub feed-Delivers :
      (e : Event) (r : Rotator x) (o : Rotator x × List Event)
      → feed x e r ≡ some o
      → Delivers e r o
  unfolding feed
  feed-Delivers e r o h = elim (Bool-cases (e.kind == ev_abs)) [
    | inl a ↦ Delivers-eq e r (feed_abs x e.code e.value r) o (rw a at h) (feed_abs-Delivers e r a)
    | inr a ↦ elim (Bool-cases (e.kind == ev_key)) [
      | inl b ↦
          Delivers-eq e r (r, if e.code == btn_touch then e ∷ [] else []) o (rw (a, b) at h)
            (key-Delivers e r a b)
      | inr b ↦ elim (Bool-cases (e.kind == ev_syn)) [
        | inl c ↦ elim (Bool-cases (e.code == syn_report)) [
          | inl d ↦ rw (a, c, d) (report-Delivers e r _ o refl (rw (a, b, c, d) at h))
          | inr d ↦
              Delivers-eq e r (if e.code == syn_dropped then record r { dirty = [] } else r, []) o
                (rw (a, b, c, d) at h) (rw (a, c, d) (unchanged r (e.code == syn_dropped), refl))
        ]
        | inr c ↦ Delivers-eq e r (r, []) o (rw (a, b, c) at h) (rw (a, c) (refl, refl))
      ]
    ]
  ]
