-- ===== src/Touch/Output.antt =====
-- Which events the rotated touchscreen emits: the positions stay on the panel, and nothing raises.
use y700_linux.Prelude.{
  ℕ, ◌-◌, ◌≤◌, ◌<◌, ◌≡◌, ◌∙◌, subst, ◌≢◌, refl, ◌==◌, ◌||◌, ◌&&◌, Bool, true, false, Option, none,
  some, List, [], ◌∷◌, ◌++◌, All, All-append, arith, Bool-cases, Option-cases, inl, inr,
  if◌then◌else◌,
}
use y700_linux.Prelude.Int.{ℤ, pos, ◌≤ℤ◌, eqb_ℤ}
use y700_linux.Floats.{Floats, fmin_nonneg, fmin-le_left, fmax-ge_left}
use y700_linux.Touch.{
  Event, event, Range, Rotator, ev_abs, ev_key, ev_syn, abs_mt_position_x, abs_mt_position_y,
  abs_mt_slot, abs_mt_touch_major, abs_mt_tracking_id, abs_mt_pressure, syn_report, syn_dropped,
  btn_touch, rot, located, denormal, clamped, normal, flush, slot_event, position_events, move,
  feed_abs, feed, feed_all, elem_ℤ,
}

-- A position event lies within its axis; other events carry no position.
abbrev pub InRange : Range → Range → Event → Type 0
InRange xr yr e =
    if e.kind == ev_abs && e.code == abs_mt_position_x
    then (pos xr.low ≤ℤ e.value) × (e.value ≤ℤ pos xr.high)
    else if e.kind == ev_abs && e.code == abs_mt_position_y
    then (pos yr.low ≤ℤ e.value) × (e.value ≤ℤ pos yr.high)
    else Unit

module _ (x : Floats) where
  le_refl : (a : x.F) → x.le a a ≡ true
  le_refl a = elim (Bool-cases (x.le a a)) [ inl e ↦ e | inr e ↦ x.le_total a a e ]

  clamped_bounds :
      (a b c u v : x.F)
      → (x.le (x.of_ℕ 0) (clamped x a b c u v) ≡ true)
        × (x.le (clamped x a b c u v) (x.of_ℕ 1) ≡ true)
  unfolding clamped
  clamped_bounds a b c u v = (
    fmin_nonneg x _ _ (x.of_nonneg 1 (omega arith))
        (fmax-ge_left x _ _ (x.of_nonneg 0 (omega arith))),
    fmin-le_left x _ _ (le_refl (x.of_ℕ 1)),
  )

  denormal_bounds :
      (r : Range) (n : x.F)
      → r.low ≤ r.high
      → x.le (x.of_ℕ 0) n ≡ true
      → x.le n (x.of_ℕ 1) ≡ true
      → (r.low ≤ denormal x r n) × (denormal x r n ≤ r.high)
  unfolding denormal
  denormal_bounds r n h lo hi = (
    x.round_add_ge r.low _ (omega (arith, r.high_bound))
        (x.mul_nonneg n _ lo (x.of_nonneg (r.high - r.low) (omega (arith, r.high_bound)))),
    omega (
      arith,
      x.round_add_le r.low (r.high - r.low) _ (omega (arith, r.high_bound))
          (x.mul_le_int (r.high - r.low) n (omega (arith, r.high_bound)) lo hi),
    ),
  )

  rot_bounds :
      (r : Rotator x) (p : ℤ × ℤ) (q : ℕ × ℕ)
      → r.xr.low ≤ r.xr.high
      → r.yr.low ≤ r.yr.high
      → rot x r p ≡ some q
      → (r.xr.low ≤ q.0) × (q.0 ≤ r.xr.high) × (r.yr.low ≤ q.1) × (q.1 ≤ r.yr.high)
  unfolding rot
  rot_bounds r (px, py) q hx hy e =
      let u = normal x r.xr px in
      let v = normal x r.yr py in
      let (a, b) = clamped_bounds r.m.a r.m.b r.m.c u v in
      let (c, d) = clamped_bounds r.m.d r.m.e r.m.f u v in
      ground (
        arith,
        denormal_bounds r.xr (clamped x r.m.a r.m.b r.m.c u v) hx a b,
        denormal_bounds r.yr (clamped x r.m.d r.m.e r.m.f u v) hy c d,
      )

  rot_total :
      (r : Rotator x) (p : ℤ × ℤ) → r.xr.low < r.xr.high → r.yr.low < r.yr.high → rot x r p ≢ none
  unfolding rot
  rot_total r (px, py) hx hy e = ground arith

  -- What holds of the rotator between two events.
  pub record IsValid (r : Rotator x) : Type 0 where
    pub x_extent : r.xr.low < r.xr.high
    pub y_extent : r.yr.low < r.yr.high
    pub placed : All (λ s. r.pos_of s ≢ none) r.dirty

  located_total :
      (r : Rotator x) (p : Option (ℤ × ℤ))
      → r.xr.low < r.xr.high
      → r.yr.low < r.yr.high
      → p ≢ none
      → (q : ℕ × ℕ) × (located x r p ≡ some q)
        × ((r.xr.low ≤ q.0) × (q.0 ≤ r.xr.high) × (r.yr.low ≤ q.1) × (q.1 ≤ r.yr.high))
  unfolding located
  located_total r none hx hy h = absurd (h refl)
  located_total r (some p) hx hy h = elim (Option-cases (rot x r p)) [
    | inl bad ↦ absurd (rot_total r p hx hy bad)
    | inr (q, ok) ↦ (q, ok, rot_bounds r p q (omega arith) (omega arith) ok)
  ]

  slot_event-InRange : (xr yr : Range) (v s : ℤ) → All (InRange xr yr) (slot_event x v s)
  slot_event-InRange xr yr v s = elim (Bool-cases (eqb_ℤ v s)) [
    | inl e ↦ rw e tt
    | inr e ↦ rw e (tt, tt)
  ]

  positions-InRange :
      (xr yr : Range) (q : ℕ × ℕ)
      → xr.low ≤ q.0
      → q.0 ≤ xr.high
      → yr.low ≤ q.1
      → q.1 ≤ yr.high
      → All (InRange xr yr) (position_events x q)
  positions-InRange xr yr q a b c d = omega arith

  flush_total :
      (r : Rotator x) (v : ℤ) (ss : List ℤ)
      → r.xr.low < r.xr.high
      → r.yr.low < r.yr.high
      → All (λ s. r.pos_of s ≢ none) ss
      → (o : ℤ × List Event) × (flush x r v ss ≡ some o) × All (InRange r.xr r.yr) o.1
  unfolding flush
  flush_total r v [] hx hy all = ((v, []), refl, tt)
  flush_total r v (s ∷ ss) hx hy all =
      let (q, at, (a, b, c, d)) = located_total r (r.pos_of s) hx hy all.0 in
      let (o, rest, in_range) = flush_total r s ss hx hy all.1 in
      (
        (o.0, slot_event x v s ++ position_events x q ++ o.1),
        rw (at, rest),
        All-append (InRange r.xr r.yr) _ o.1
            (All-append (InRange r.xr r.yr) (slot_event x v s) _ (slot_event-InRange r.xr r.yr v s)
              (positions-InRange r.xr r.yr q a b c d))
            in_range,
      )

  placed_after :
      (code : ℕ) (v : ℤ) (r : Rotator x) (ss : List ℤ)
      → All (λ s. r.pos_of s ≢ none) ss
      → All (λ s. (move x code v r).pos_of s ≢ none) ss
  unfolding move
  placed_after code v r [] all = tt
  placed_after code v r (s ∷ ss) all = (ground arith, placed_after code v r ss all.1)

  move-IsValid : (code : ℕ) (v : ℤ) (r : Rotator x) → IsValid r → IsValid (move x code v r)
  unfolding move
  move-IsValid code v r h = record {
    x_extent = h.x_extent;
    y_extent = h.y_extent;
    placed = elim (Bool-cases (elem_ℤ r.cur r.dirty)) [
      | inl old ↦ rw old (unfold move in placed_after code v r r.dirty h.placed)
      | inr new ↦ rw new (
          All-append _ r.dirty (r.cur ∷ []) (unfold move in placed_after code v r r.dirty h.placed)
            (ground arith, tt))
    ];
  }

  -- A step's result keeps the axes, is valid again, and every position in it is on its axis.
  abbrev pub Sound : Rotator x → Rotator x × List Event → Type 0
  Sound r o = (o.0.xr ≡ r.xr) × (o.0.yr ≡ r.yr) × IsValid o.0 × All (InRange r.xr r.yr) o.1

  other-InRange :
      (xr yr : Range) (code : ℕ) (v : ℤ)
      → (code == abs_mt_position_x || code == abs_mt_position_y) ≡ false
      → InRange xr yr (event ev_abs code v)
  other-InRange xr yr code v h = elim (Bool-cases (code == abs_mt_position_x)) [
    | inl a ↦ absurd (or_true (code == abs_mt_position_x) _ a h)
    | inr a ↦ elim (Bool-cases (code == abs_mt_position_y)) [
      | inl b ↦ absurd (or_true_right (code == abs_mt_position_x) _ b h)
      | inr b ↦ rw (a, b) tt
    ]
  ]
    where
      or_true : (p q : Bool) → p ≡ true → (p || q) ≡ false → ⊥
      or_true p q e h = ground arith

      or_true_right : (p q : Bool) → q ≡ true → (p || q) ≡ false → ⊥
      or_true_right p q e h = ground arith

  with_slots :
      (r : Rotator x) (cur vslot : ℤ) (dirty : List ℤ)
      → IsValid r
      → All (λ s. r.pos_of s ≢ none) dirty
      → IsValid (record r { cur = cur; vslot = vslot; dirty = dirty })
  with_slots r cur vslot dirty h all = record {
    x_extent = h.x_extent;
    y_extent = h.y_extent;
    placed = all;
  }

  feed_abs-Sound : (code : ℕ) (v : ℤ) (r : Rotator x) → IsValid r → Sound r (feed_abs x code v r)
  unfolding feed_abs
  feed_abs-Sound code v r h = elim (Bool-cases (code == abs_mt_slot)) [
    | inl a ↦ rw a (refl, refl, with_slots r v r.vslot r.dirty h h.placed, tt)
    | inr a ↦ elim (Bool-cases (code == abs_mt_position_x || code == abs_mt_position_y)) [
      | inl b ↦ rw (a, b) (unfold move in refl, unfold move in refl, move-IsValid code v r h, tt)
      | inr b ↦
          elim (Bool-cases
            (code == abs_mt_touch_major || code == abs_mt_tracking_id || code == abs_mt_pressure)) [
              | inl c ↦
                  rw (a, b, c)
                    (
                      refl,
                      refl,
                      with_slots r r.cur r.cur r.dirty h h.placed,
                      All-append (InRange r.xr r.yr) (slot_event x r.vslot r.cur) _
                          (slot_event-InRange r.xr r.yr r.vslot r.cur)
                          (other-InRange r.xr r.yr code v b, tt),
                    )
              | inr c ↦ rw (a, b, c) (refl, refl, h, tt)
            ]
    ]
  ]

  key-InRange : (xr yr : Range) (e : Event) → (e.kind == ev_abs) ≡ false → InRange xr yr e
  key-InRange xr yr e h = rw h tt

  syn-Sound :
      (e : Event) (r : Rotator x)
      → (e.kind == ev_abs) ≡ false
      → (e.kind == ev_key) ≡ false
      → (e.kind == ev_syn) ≡ true
      → IsValid r
      → (o : Rotator x × List Event) × (feed x e r ≡ some o) × Sound r o
  unfolding feed
  syn-Sound e r a b c h = elim (Bool-cases (e.code == syn_report)) [
    | inl d ↦
        let (o, eq, in_range) = flush_total r r.vslot r.dirty h.x_extent h.y_extent h.placed in
        (
          (record r { vslot = o.0; dirty = [] }, o.1 ++ event ev_syn syn_report (pos 0) ∷ []),
          rw (a, b, c, d, eq),
          (
            refl,
            refl,
            with_slots r r.cur o.0 [] h tt,
            All-append (InRange r.xr r.yr) o.1 _ in_range (tt, tt),
          ),
        )
    | inr d ↦ elim (Bool-cases (e.code == syn_dropped)) [
      | inl f ↦ (
        (record r { dirty = [] }, []),
        rw (a, b, c, d, f),
        (refl, refl, with_slots r r.cur r.vslot [] h tt, tt),
      )
      | inr f ↦ ((r, []), rw (a, b, c, d, f), (refl, refl, h, tt))
    ]
  ]

  -- Every event is handled without an exception; the result keeps the axes and is valid again, and
  -- each position that it emits lies on its axis, for every matrix.
  pub feed-Sound :
      (e : Event) (r : Rotator x)
      → IsValid r
      → (o : Rotator x × List Event) × (feed x e r ≡ some o) × Sound r o
  unfolding feed
  feed-Sound e r h = elim (Bool-cases (e.kind == ev_abs)) [
    | inl a ↦ (feed_abs x e.code e.value r, rw a, feed_abs-Sound e.code e.value r h)
    | inr a ↦ elim (Bool-cases (e.kind == ev_key)) [
      | inl b ↦ elim (Bool-cases (e.code == btn_touch)) [
        | inl c ↦ ((r, e ∷ []), rw (a, b, c), (refl, refl, h, (key-InRange r.xr r.yr e a, tt)))
        | inr c ↦ ((r, []), rw (a, b, c), (refl, refl, h, tt))
      ]
      | inr b ↦ elim (Bool-cases (e.kind == ev_syn)) [
        | inl c ↦ unfold feed in syn-Sound e r a b c h
        | inr c ↦ ((r, []), rw (a, b, c), (refl, refl, h, tt))
      ]
    ]
  ]

  -- The events of any number of reads are handled without an exception, and each position that is
  -- emitted lies on its axis.
  pub feed_all-Sound :
      (es : List Event) (r : Rotator x)
      → IsValid r
      → (o : Rotator x × List Event) × (feed_all x es r ≡ some o) × Sound r o
  unfolding feed_all
  feed_all-Sound [] r h = ((r, []), refl, (refl, refl, h, tt))
  feed_all-Sound (e ∷ es) r h =
      let (o, first, (ox, oy, valid, out)) = feed-Sound e r h in
      let (o', rest, (ox', oy', valid', out')) = feed_all-Sound es o.0 valid in
      (
        (o'.0, o.1 ++ o'.1),
        rw (first, rest),
        (
          ox' ∙ ox,
          oy' ∙ oy,
          valid',
          All-append (InRange r.xr r.yr) o.1 o'.1 out (
              subst (λ a. All (InRange a r.yr) o'.1) ox
                (subst (λ b. All (InRange o.0.xr b) o'.1) oy out')),
        ),
      )
