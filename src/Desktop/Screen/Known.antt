-- ===== src/Desktop/Screen/Known.antt =====
-- Which framebuffers the record of desktop-service.py lists: every one that a plane can show.
use y700_linux.Prelude.{
  ℕ, ◌≡◌, ◌⊎◌, inl, inr, ◌∙◌, refl, Bool, true, false, not, ◌&&◌, ◌||◌, Option, none, some, List,
  [], ◌∷◌, ◌++◌, ◌==◌, elem, arith, if◌then◌else◌, Bool-cases,
}
use y700_linux.Desktop.Screen.{
  Kernel, Fb, Screen, Made, got, unread, half, failed, Attempt, Result, ok, raised, remove, without,
  rm_fb, Saved, alloc_dumb, alloc_heap, alloc_one, and_then, add_fb, alloc_second, alloc,
}

pub elem-append : (a : ℕ) (xs ys : List ℕ) → elem a (xs ++ ys) ≡ (elem a xs || elem a ys)
elem-append a [] ys = refl
elem-append a (x ∷ xs) ys = ground (arith, elem-append a xs ys)

pub elem-remove : (a b : ℕ) (xs : List ℕ) → (b == a) ≡ false → elem a (remove b xs) ≡ elem a xs
elem-remove a b [] h = refl
elem-remove a b (x ∷ xs) h = ground (arith, elem-remove a b xs)

pub elem-without : (a b : ℕ) (xs : List ℕ) → elem a (without b xs) ≡ (elem a xs && not (b == a))
elem-without a b [] = refl
elem-without a b (x ∷ xs) = ground (arith, elem-without a b xs)

-- A framebuffer of the service: recorded, in use by the kernel, and not the native one.
pub record Ours (native : ℕ) (s : Screen) (f : ℕ) : Type 0 where
  pub recorded : elem f s.rec_fbs ≡ true
  pub lives : elem f s.existing ≡ true
  pub foreign : (f == native) ≡ false

pub elem-rm_fb :
    (ok : Bool) (a b : ℕ) (xs : List ℕ) → (b == a) ≡ false → elem a (rm_fb ok b xs) ≡ elem a xs
elem-rm_fb true a b xs h = ground (arith, elem-without a b xs)
elem-rm_fb false a b xs h = refl

-- fbs.json is there, and holds the framebuffers of the record.
abbrev pub Written : Screen → Type 0
Written s = (handles : List ℕ) × (s.saved ≡ some (record { fbs = s.rec_fbs; handles = handles }))

-- Two pairs have no framebuffer in common.
pub record Apart (a b : Fb × Fb) : Type 0 where
  pub p00 : (a.0.fb == b.0.fb) ≡ false
  pub p01 : (a.0.fb == b.1.fb) ≡ false
  pub p10 : (a.1.fb == b.0.fb) ≡ false
  pub p11 : (a.1.fb == b.1.fb) ≡ false

pub record BothOurs (native : ℕ) (s : Screen) (p : Fb × Fb) : Type 0 where
  pub one : Ours native s p.0.fb
  pub two : Ours native s p.1.fb

abbrev pub OldOurs : ℕ → Screen → Option (Fb × Fb) → Type 0
OldOurs native s none = Unit
OldOurs native s (some o) = BothOurs native s o × Apart o s.fbs

-- The number is that of one of the two.
abbrev pub IsOne : ℕ → Fb × Fb → Type 0
IsOne f p = (f ≡ p.0.fb) ⊎ (f ≡ p.1.fb)

abbrev pub IsOld : ℕ → Option (Fb × Fb) → Type 0
IsOld f none = ⊥
IsOld f (some o) = IsOne f o

-- The planes show the native framebuffer, one of the two current ones or one of the two before a
-- switch, unless the panel is off.
abbrev pub Shows : ℕ → Screen → Type 0
Shows native s =
    (s.panel_off ≡ true) ⊎ ((s.planes ≡ native) ⊎ (IsOne s.planes s.fbs ⊎ IsOld s.planes s.old))

pub record IsValid (native : ℕ) (s : Screen) : Type 0 where
  pub written : Written s
  pub native_lives : elem native s.existing ≡ true
  pub current : BothOurs native s s.fbs
  pub previous : OldOurs native s s.old
  pub shows : Shows native s
  pub off_asleep : (s.asleep ≡ true) ⊎ (s.panel_off ≡ false)

-- What a step that only adds framebuffers leaves alone.
pub record Grows (s s' : Screen) : Type 0 where
  pub written : Written s → Written s'
  pub recorded : (f : ℕ) → elem f s.rec_fbs ≡ true → elem f s'.rec_fbs ≡ true
  pub lives : (f : ℕ) → elem f s.existing ≡ true → elem f s'.existing ≡ true
  pub same_fbs : s'.fbs ≡ s.fbs
  pub same_old : s'.old ≡ s.old
  pub same_planes : s'.planes ≡ s.planes
  pub same_off : s'.panel_off ≡ s.panel_off
  pub same_asleep : s'.asleep ≡ s.asleep

pub Grows-trans : (a b c : Screen) → Grows a b → Grows b c → Grows a c
Grows-trans a b c h g = record {
  written = λ e. g.written (h.written e);
  recorded = λ f e. g.recorded f (h.recorded f e);
  lives = λ f e. g.lives f (h.lives f e);
  same_fbs = g.same_fbs ∙ h.same_fbs;
  same_old = g.same_old ∙ h.same_old;
  same_planes = g.same_planes ∙ h.same_planes;
  same_off = g.same_off ∙ h.same_off;
  same_asleep = g.same_asleep ∙ h.same_asleep;
}

-- A step that changes nothing but what is recorded and what exists.
grow :
    (s : Screen) (zc : Bool) (recs handles all existing : List ℕ) (saved : Option Saved)
    → ((f : ℕ) → elem f s.rec_fbs ≡ true → elem f recs ≡ true)
    → ((f : ℕ) → elem f s.existing ≡ true → elem f existing ≡ true)
    → (Written s → Written (record s { rec_fbs = recs; saved = saved }))
    → Grows s (record s {
      saved = saved;
      zc_on = zc;
      rec_fbs = recs;
      rec_handles = handles;
      allfbs = all;
      existing = existing;
    })
grow s zc recs handles all existing saved p q w = record {
  written = w;
  recorded = p;
  lives = q;
  same_fbs = refl;
  same_old = refl;
  same_planes = refl;
  same_off = refl;
  same_asleep = refl;
}

-- A framebuffer that alloc has just made.
pub record IsNew (s s' : Screen) (f : ℕ) : Type 0 where
  pub unused : elem f s.existing ≡ false
  pub written : Written s'
  pub recorded : elem f s'.rec_fbs ≡ true
  pub lives : elem f s'.existing ≡ true

-- What a call of alloc gives: the old screen with more framebuffers, and a new one if it returns.
abbrev pub Makes : Screen → Screen × Result Fb → Type 0
Makes s (s', ok d) = Grows s s' × IsNew s s' d.fb
Makes s (s', raised why) = Grows s s'

grow_new : (k : Kernel) (handle : ℕ) (s : Screen) → Grows s (add_fb handle (k.new_id s.existing) s)
grow_new k handle s =
    grow s s.zc_on _ _ _ _ _
      (λ f e. ground (arith, elem-append f s.rec_fbs (k.new_id s.existing ∷ [])))
      (λ f e. ground arith) (λ w. (s.rec_handles ++ handle ∷ [], refl))

is_new :
    (k : Kernel) (handle : ℕ) (s : Screen)
    → IsNew s (add_fb handle (k.new_id s.existing) s) (k.new_id s.existing)
is_new k handle s = record {
  unused = k.new_id-fresh s.existing;
  written = (s.rec_handles ++ handle ∷ [], refl);
  recorded = ground (arith, elem-append (k.new_id s.existing) s.rec_fbs (k.new_id s.existing ∷ []));
  lives = ground arith;
}

Makes-trans : (a b : Screen) (o : Screen × Result Fb) → Grows a b → Makes b o → Makes a o
Makes-trans a b (c, ok d) g m = (
  Grows-trans a b c g m.0,
  record {
    unused = older (Bool-cases (elem d.fb a.existing));
    written = m.1.written;
    recorded = m.1.recorded;
    lives = m.1.lives;
  },
)
  where
    older :
        (elem d.fb a.existing ≡ true) ⊎ (elem d.fb a.existing ≡ false)
        → elem d.fb a.existing ≡ false
    older (inr e) = e
    older (inl e) = ground (arith, g.lives d.fb e, m.1.unused)
Makes-trans a b (c, raised why) g m = Grows-trans a b c g m

module _ (k : Kernel) (w h : ℕ) where
  alloc_dumb-Makes : (m : Made) (s : Screen) → Makes s (alloc_dumb k w h m s)
  alloc_dumb-Makes (got handle) s = (grow_new k handle s, is_new k handle s)
  alloc_dumb-Makes (unread handle why) s =
      grow s s.zc_on _ _ _ _ _ (λ f e. e) (λ f e. ground arith)
        (λ w. (s.rec_handles ++ handle ∷ [], refl))
  alloc_dumb-Makes (half handle why) s =
      grow s s.zc_on _ _ _ _ _ (λ f e. e) (λ f e. e) (λ w. (s.rec_handles ++ handle ∷ [], refl))
  alloc_dumb-Makes (failed why) s = grow s s.zc_on _ _ _ _ _ (λ f e. e) (λ f e. e) (λ w. w)

  alloc_heap-Makes : (m dumb : Made) (s : Screen) → Makes s (alloc_heap k w h m dumb s)
  alloc_heap-Makes (got handle) dumb s = (grow_new k handle s, is_new k handle s)
  alloc_heap-Makes (unread handle why) dumb s =
      Makes-trans s _ _
        (grow s false _ _ _ _ _ (λ f e. e) (λ f e. ground arith)
          (λ w. (s.rec_handles ++ handle ∷ [], refl)))
        (alloc_dumb-Makes dumb _)
  alloc_heap-Makes (half handle why) dumb s =
      Makes-trans s _ _
        (grow s false _ _ _ _ _ (λ f e. e) (λ f e. e) (λ w. (s.rec_handles ++ handle ∷ [], refl)))
        (alloc_dumb-Makes dumb _)
  alloc_heap-Makes (failed why) dumb s =
      Makes-trans s _ _ (grow s false _ _ _ _ _ (λ f e. e) (λ f e. e) (λ w. w))
        (alloc_dumb-Makes dumb _)

  pub alloc_one-Makes : (a : Attempt) (s : Screen) → Makes s (alloc_one k w h a s)
  unfolding alloc_one
  alloc_one-Makes a s = go s.zc_on
    where
      go :
          (b : Bool)
          → Makes s (if b then alloc_heap k w h a.heap a.dumb s else alloc_dumb k w h a.dumb s)
      go true = alloc_heap-Makes a.heap a.dumb s
      go false = alloc_dumb-Makes a.dumb s

-- What both turns give: two new framebuffers that differ.
abbrev pub MakesTwo : Screen → Screen × Result (Fb × Fb) → Type 0
MakesTwo s (s', ok p) =
    Grows s s' × (IsNew s s' p.0.fb × (IsNew s s' p.1.fb × ((p.0.fb == p.1.fb) ≡ false)))
MakesTwo s (s', raised why) = Grows s s'

second_lem :
    (s s1 : Screen) (d1 : Fb) (o : Screen × Result Fb)
    → Grows s s1
    → IsNew s s1 d1.fb
    → Makes s1 o
    → MakesTwo s (and_then o λ d2 s2. (s2, ok (d1, d2)))
second_lem s s1 d1 (s2, raised why) g n m = Grows-trans s s1 s2 g m
second_lem s s1 d1 (s2, ok d2) g n m = (
  Grows-trans s s1 s2 g m.0,
  (
    record {
      unused = n.unused;
      written = m.1.written;
      recorded = m.0.recorded d1.fb n.recorded;
      lives = m.0.lives d1.fb n.lives;
    },
    ((Makes-trans s s1 (s2, ok d2) g m).1, apart (Bool-cases (d1.fb == d2.fb))),
  ),
)
  where
    apart : ((d1.fb == d2.fb) ≡ true) ⊎ ((d1.fb == d2.fb) ≡ false) → (d1.fb == d2.fb) ≡ false
    apart (inr e) = e
    apart (inl e) = ground (arith, n.lives, m.1.unused)

module _ (k : Kernel) (w h : ℕ) where
  pub alloc-MakesTwo : (a1 a2 : Attempt) (s : Screen) → MakesTwo s (alloc k w h a1 a2 s)
  unfolding alloc
  alloc-MakesTwo a1 a2 s = go (alloc_one k w h a1 s) (alloc_one-Makes k w h a1 s)
    where
      go : (o : Screen × Result Fb) → Makes s o → MakesTwo s (and_then o (alloc_second k w h a2))
      go (s1, raised why) m = m
      go (s1, ok d1) m =
          second_lem s s1 d1 (alloc_one k w h a2 s1) m.0 m.1 (alloc_one-Makes k w h a2 s1)
