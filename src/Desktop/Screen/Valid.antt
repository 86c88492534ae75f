-- ===== src/Desktop/Screen/Valid.antt =====
-- Each operation of the screen of desktop-service.py keeps it well formed.
use y700_linux.Prelude.{
  ℕ, ◌≡◌, inl, inr, ◌∙◌, sym, refl, subst, Bool, true, false, not, Option, none, some, ◌==◌, elem,
  arith, if◌then◌else◌, Bool-cases,
}
use y700_linux.Desktop.Screen.{
  Kernel, Fb, Screen, Result, ok, raised, remove, rm_fb, Reply, done, refused, Switch, alloc, free,
  and_then, switched, has_old, try_new, switch_resolution, resolution,
}
use y700_linux.Desktop.Screen.Known.{
  elem-remove, elem-rm_fb, Ours, Apart, BothOurs, OldOurs, Shows, IsValid, Grows, IsNew, MakesTwo,
  alloc-MakesTwo,
}

module _ (native : ℕ) where
  Ours-Grows : (s s' : Screen) (f : ℕ) → Grows s s' → Ours native s f → Ours native s' f
  Ours-Grows s s' f g o = record {
    recorded = g.recorded f o.recorded;
    lives = g.lives f o.lives;
    foreign = o.foreign;
  }

  BothOurs-Grows :
      (s s' : Screen) (p : Fb × Fb) → Grows s s' → BothOurs native s p → BothOurs native s' p
  BothOurs-Grows s s' p g b = record {
    one = Ours-Grows s s' _ g b.one;
    two = Ours-Grows s s' _ g b.two;
  }

  OldOurs-Grows :
      (s s' : Screen) (o : Option (Fb × Fb)) → Grows s s' → OldOurs native s o → OldOurs native s' o
  OldOurs-Grows s s' none g h = tt
  OldOurs-Grows s s' (some o) g h =
      (BothOurs-Grows s s' o g h.0, subst (Apart o) (sym g.same_fbs) h.1)

  pub Grows-IsValid : (s s' : Screen) → Grows s s' → IsValid native s → IsValid native s'
  Grows-IsValid s s' g v = record {
    written = g.written v.written;
    native_lives = g.lives native v.native_lives;
    current = subst (BothOurs native s') (sym g.same_fbs) (BothOurs-Grows s s' s.fbs g v.current);
    previous = subst (OldOurs native s') (sym g.same_old) (OldOurs-Grows s s' s.old g v.previous);
    shows = rw (g.same_off, g.same_planes, g.same_fbs, g.same_old) v.shows;
    off_asleep = rw (g.same_asleep, g.same_off) v.off_asleep;
  }

  -- What stays ours when two framebuffers go.
  pub Ours-free :
      (s : Screen) (p : Fb × Fb) (gone : Bool × Bool) (f : ℕ)
      → (p.0.fb == f) ≡ false
      → (p.1.fb == f) ≡ false
      → Ours native s f
      → Ours native (free p gone s) f
  unfolding free
  Ours-free s p gone f a b o = record {
    recorded =
        elem-remove f p.1.fb (remove p.0.fb s.rec_fbs) b
        ∙ elem-remove f p.0.fb s.rec_fbs a
        ∙ o.recorded;
    lives = ground (
      arith,
      elem-rm_fb gone.1 f p.1.fb (rm_fb gone.0 p.0.fb s.existing) b,
      elem-rm_fb gone.0 f p.0.fb s.existing a,
      o.lives,
    );
    foreign = o.foreign;
  }

  -- A new framebuffer is none of those that exist already.
  new-ne : (s s' : Screen) (f g : ℕ) → IsNew s s' f → elem g s.existing ≡ true → (f == g) ≡ false
  new-ne s s' f g n e = elim (Bool-cases (f == g)) [
    | inl same ↦ ground (arith, n.unused)
    | inr ne ↦ ne
  ]

  BothOurs-free_new :
      (s s' : Screen) (p q : Fb × Fb) (gone : Bool × Bool)
      → Grows s s'
      → IsNew s s' p.0.fb
      → IsNew s s' p.1.fb
      → BothOurs native s q
      → BothOurs native (free p gone s') q
  BothOurs-free_new s s' p q gone g n m b = record {
    one =
        Ours-free s' p gone q.0.fb (new-ne s s' _ _ n b.one.lives) (new-ne s s' _ _ m b.one.lives)
          (Ours-Grows s s' _ g b.one);
    two =
        Ours-free s' p gone q.1.fb (new-ne s s' _ _ n b.two.lives) (new-ne s s' _ _ m b.two.lives)
          (Ours-Grows s s' _ g b.two);
  }

  pub native-free :
      (s : Screen) (p : Fb × Fb) (gone : Bool × Bool)
      → (p.0.fb == native) ≡ false
      → (p.1.fb == native) ≡ false
      → elem native s.existing ≡ true
      → elem native (free p gone s).existing ≡ true
  unfolding free
  native-free s p gone a b h = ground (
    arith,
    elem-rm_fb gone.1 native p.1.fb (rm_fb gone.0 p.0.fb s.existing) b,
    elem-rm_fb gone.0 native p.0.fb s.existing a,
  )

  OldOurs-free_new :
      (s s' : Screen) (p : Fb × Fb) (gone : Bool × Bool) (o : Option (Fb × Fb))
      → Grows s s'
      → IsNew s s' p.0.fb
      → IsNew s s' p.1.fb
      → OldOurs native s o
      → OldOurs native (free p gone s') o
  unfolding free
  OldOurs-free_new s s' p gone none g n m h = tt
  OldOurs-free_new s s' p gone (some o) g n m h =
      (BothOurs-free_new s s' p o gone g n m h.0, subst (Apart o) (sym g.same_fbs) h.1)

  -- New framebuffers that are rejected go without a trace.
  free_new-IsValid :
      (s s' : Screen) (p : Fb × Fb) (gone : Bool × Bool)
      → Grows s s'
      → IsNew s s' p.0.fb
      → IsNew s s' p.1.fb
      → IsValid native s
      → IsValid native (free p gone s')
  unfolding free
  free_new-IsValid s s' p gone g n m v = record {
    written = (remove p.1.handle (remove p.0.handle s'.rec_handles), refl);
    native_lives =
        native-free s' p gone (new-ne s s' _ native n v.native_lives)
          (new-ne s s' _ native m v.native_lives) (g.lives native v.native_lives);
    current =
        subst (BothOurs native (free p gone s')) (sym g.same_fbs)
          (BothOurs-free_new s s' p s.fbs gone g n m v.current);
    previous =
        subst (OldOurs native (free p gone s')) (sym g.same_old)
          (OldOurs-free_new s s' p gone s.old g n m v.previous);
    shows = rw (g.same_off, g.same_planes, g.same_fbs, g.same_old) v.shows;
    off_asleep = rw (g.same_asleep, g.same_off) v.off_asleep;
  }

  new-Ours :
      (s s' : Screen) (f : ℕ) → elem native s.existing ≡ true → IsNew s s' f → Ours native s' f
  new-Ours s s' f e n = record {
    recorded = n.recorded;
    lives = n.lives;
    foreign = new-ne s s' f native n e;
  }

  eq_sym : (a b : ℕ) → (a == b) ≡ false → (b == a) ≡ false
  eq_sym a b h = ground arith

  -- A switch keeps the framebuffers on the planes, as the old ones.
  switched-Shows :
      (s s' : Screen) (pct : ℕ) (is_revert : Bool) (i : Switch) (p : Fb × Fb)
      → Grows s s'
      → s.old ≡ none
      → Shows native s
      → Shows native (switched pct is_revert i p s')
  switched-Shows s s' pct is_revert i p g e (inl off) = inl (g.same_off ∙ off)
  switched-Shows s s' pct is_revert i p g e (inr (inl at)) = inr (inl (g.same_planes ∙ at))
  switched-Shows s s' pct is_revert i p g e (inr (inr (inl one))) =
      inr (inr (inr (rw (g.same_planes, g.same_fbs) one)))
  switched-Shows s s' pct is_revert i p g e (inr (inr (inr old))) = absurd (rw e at old)

  switched-IsValid :
      (s s' : Screen) (pct : ℕ) (is_revert : Bool) (i : Switch) (p : Fb × Fb)
      → Grows s s'
      → IsNew s s' p.0.fb
      → IsNew s s' p.1.fb
      → s.old ≡ none
      → IsValid native s
      → IsValid native (switched pct is_revert i p s')
  switched-IsValid s s' pct is_revert i p g n m e v = record {
    written = g.written v.written;
    native_lives = g.lives native v.native_lives;
    current = record {
      one = renew p.0.fb (new-Ours s s' _ v.native_lives n);
      two = renew p.1.fb (new-Ours s s' _ v.native_lives m);
    };
    previous =
        subst (λ (q : Fb × Fb). BothOurs native (switched pct is_revert i p s') q × Apart q p)
          (sym g.same_fbs)
          (
            record {
              one = renew s.fbs.0.fb (Ours-Grows s s' _ g v.current.one);
              two = renew s.fbs.1.fb (Ours-Grows s s' _ g v.current.two);
            },
            record {
              p00 = eq_sym _ _ (new-ne s s' _ _ n v.current.one.lives);
              p01 = eq_sym _ _ (new-ne s s' _ _ m v.current.one.lives);
              p10 = eq_sym _ _ (new-ne s s' _ _ n v.current.two.lives);
              p11 = eq_sym _ _ (new-ne s s' _ _ m v.current.two.lives);
            },
          );
    shows = switched-Shows s s' pct is_revert i p g e v.shows;
    off_asleep = rw (g.same_asleep, g.same_off) v.off_asleep;
  }
    where
      renew : (f : ℕ) → Ours native s' f → Ours native (switched pct is_revert i p s') f
      renew f o = record { recorded = o.recorded; lives = o.lives; foreign = o.foreign }

  abbrev Holds : Screen × Result Reply → Type 0
  Holds o = IsValid native o.0

  try_new-IsValid :
      (s s' : Screen) (pct : ℕ) (is_revert : Bool) (i : Switch) (p : Fb × Fb)
      → Grows s s'
      → IsNew s s' p.0.fb
      → IsNew s s' p.1.fb
      → s.old ≡ none
      → IsValid native s
      → IsValid native (try_new pct is_revert i p s').0
  unfolding try_new
  try_new-IsValid s s' pct is_revert i p g n m e v = go i.test_ok i.output_ok
    where
      go :
          (a b : Bool)
          → Holds (
              if not a
              then (free p i.removed s', ok refused)
              else if not b
              then (free p i.removed s', ok refused)
              else (switched pct is_revert i p s', ok (done pct)))
      go false b = free_new-IsValid s s' p i.removed g n m v
      go true false = free_new-IsValid s s' p i.removed g n m v
      go true true = switched-IsValid s s' pct is_revert i p g n m e v

  after_alloc :
      (s : Screen) (pct : ℕ) (is_revert : Bool) (i : Switch) (o : Screen × Result (Fb × Fb))
      → MakesTwo s o
      → s.old ≡ none
      → IsValid native s
      → IsValid native (and_then o (try_new pct is_revert i)).0
  after_alloc s pct is_revert i (s', raised why) m e v = Grows-IsValid s s' m v
  after_alloc s pct is_revert i (s', ok p) m e v =
      try_new-IsValid s s' pct is_revert i p m.0 m.1.0 m.1.1.0 e v

  pub switch_resolution-IsValid :
      (k : Kernel) (pct : ℕ) (is_revert : Bool) (i : Switch) (s : Screen)
      → IsValid native s
      → IsValid native (switch_resolution k pct is_revert i s).0
  unfolding switch_resolution
  switch_resolution-IsValid k pct is_revert i s v = go (pct == s.pct) (has_old s.old) refl
    where
      no_old : (o : Option (Fb × Fb)) → has_old o ≡ false → o ≡ none
      no_old none h = refl
      no_old (some o) h = cc

      go :
          (a b : Bool)
          → has_old s.old ≡ b
          → Holds (
              if a
              then (s, ok (done s.pct))
              else if b
              then (s, ok refused)
              else and_then
                  (alloc k (resolution pct).0 (resolution pct).1 i.first_fb i.second_fb s)
                  (try_new pct is_revert i))
      go true b e = v
      go false true e = v
      go false false e =
          after_alloc s pct is_revert i _
            (alloc-MakesTwo k (resolution pct).0 (resolution pct).1 i.first_fb i.second_fb s)
            (no_old s.old e) v
