-- ===== src/BtKeeper/Held.antt =====
-- The tty stays open, and the power on, through every step behind the open of the tty.
use y700_linux.Prelude.{
  ℕ, zero, suc, ◌≡◌, refl, Bool, true, false, Option, none, some, List, [], ◌∷◌, ◌==◌, arith,
  if-cases, get_or, ◌+◌, ltb, length, take,
}
use y700_linux.BtKeeper.{
  Effect, open_tty, close_tty, power_on, power_off, wrote, World, State, Outcome, done, raised,
  failed, and_then, ask, perform, debugged, cut, has_acl, has_event, is_start, qca_debug_handle,
  word16, pop_by, pop_packet, or_read, read_more, read_by, read_event, sent_some, write_by,
  write_all, or_send, logged, cc, cmd, Answer,
}
use y700_linux.BtKeeper.Main.{opened, voted}

-- Whether the tty is open behind these calls: an open that worked, with no close after it.
abbrev pub after : Effect → Bool → Bool → Bool
after open_tty ok old = ok
after close_tty ok old = false
after _ ok old = old

unfoldable pub is_open : World → List Effect → Bool
is_open w [] = false
is_open w (e ∷ es) = after e (w.works es e) (is_open w es)

-- Whether the power is on: it was switched on, and no power off was asked for after it.
abbrev pub power_after : Effect → Bool → Bool → Bool
power_after power_on ok old = ok
power_after power_off ok old = false
power_after _ ok old = old

unfoldable pub is_on : World → List Effect → Bool
is_on w [] = false
is_on w (e ∷ es) = power_after e (w.works es e) (is_on w es)

-- A call that changes neither.
abbrev pub is_inner : Effect → Bool
is_inner open_tty = false
is_inner close_tty = false
is_inner power_on = false
is_inner power_off = false
is_inner _ = true

module _ (w : World) where
  pub Held : State → Type 0
  Held s = (s.has_tty ≡ true) × (is_open w s.effects ≡ true) × (is_on w s.effects ≡ true)

  pub ask-Held : (e : Effect) (s : State) → is_inner e ≡ true → Held s → Held (ask e s)
  unfolding is_open is_on Held
  ask-Held e s i h = (h.0, ground (arith, h.1, i), ground (arith, h.2, i))

  pub opened-Held :
      (s : State)
      → w.works s.effects open_tty ≡ true
      → is_on w s.effects ≡ true
      → Held (opened (ask open_tty s))
  unfolding is_open is_on Held
  opened-Held s ok on = (refl, ok, on)

  pub voted-Held : (s : State) → Held s → Held (voted s)
  unfolding Held
  voted-Held s h = h

  pub Held-facts :
      (s : State)
      → Held s
      → (s.has_tty ≡ true) × (is_open w s.effects ≡ true) × (is_on w s.effects ≡ true)
  unfolding Held
  Held-facts s h = h

  pub and_then-Held :
      {A B : Type 0} (r : State × Outcome A) (k : A → State → State × Outcome B)
      → Held r.0
      → ((a : A) (s : State) → Held s → Held (k a s).0)
      → Held (and_then r k).0
  and_then-Held (s, done a) k h next = next a s h
  and_then-Held (s, raised) k h next = h
  and_then-Held (s, failed r) k h next = h

  pub perform-Held : (e : Effect) (s : State) → is_inner e ≡ true → Held s → Held (perform w e s).0
  perform-Held e s i h = ask-Held e s i h

  -- The same of the state of an answer.
  pub Keeps : {A : Type 0} → State × Outcome A → Type 0
  Keeps r = Held r.0

  pub Keeps-Held : {A : Type 0} (r : State × Outcome A) → Keeps r → Held r.0
  unfolding Keeps
  Keeps-Held r h = h

  pub keep : {A : Type 0} (r : State × Outcome A) → Held r.0 → Keeps r
  unfolding Keeps
  keep r h = h

  debugged-Held : (n : ℕ) (s : State) → Held s → Held (debugged n s)
  unfolding Held
  debugged-Held n s h = h

  cut-Held : (n : ℕ) (s : State) → Held s → Held (cut n s)
  unfolding Held
  cut-Held n s h = h

  pop_by-Keeps : (turns : ℕ) (s : State) → Held s → Keeps (pop_by turns s)
  unfolding pop_by
  pop_by-Keeps zero s h = keep _ h
  pop_by-Keeps (suc turns) s h =
      let n = word16 3 s.rx in
      if-cases Keeps (has_acl s.rx)
        (λ _.
          if-cases Keeps (ltb (length s.rx) (5 + n)) (λ _. keep _ h)
            (λ _.
              if-cases Keeps (word16 1 s.rx == qca_debug_handle)
                (λ _. pop_by-Keeps turns (debugged n s) (debugged-Held n s h))
                (λ _. keep _ (cut-Held (5 + n) s h))))
        (λ _.
          if-cases Keeps (has_event s.rx) (λ _. keep _ (cut-Held (3 + get_or s.rx 2 0) s h))
            (λ _. if-cases Keeps (is_start s.rx) (λ _. keep _ h) (λ _. keep _ h)))

  pub pop_packet-Held : (s : State) → Held s → Held (pop_packet s).0
  unfolding pop_packet
  pop_packet-Held s h = Keeps-Held _ (pop_by-Keeps (suc (length s.rx)) s h)

  or_read-Held :
      (p : Option (List ℕ)) (k : State → State × Outcome (List ℕ)) (s : State)
      → Held s
      → ((s : State) → Held s → Held (k s).0)
      → Held (or_read p k s).0
  or_read-Held none k s h next = next s h
  or_read-Held (some p) k s h next = h

  pub read_more-Held :
      (c : Option (List ℕ)) (k : State → State × Outcome (List ℕ)) (s : State)
      → Held s
      → ((s : State) → Held s → Held (k s).0)
      → Held (read_more c k s).0
  unfolding Held is_open is_on
  read_more-Held none k s h next = h
  read_more-Held (some bs) k s h next = next _ h

  read_by-Held : (cs : List (Option (List ℕ))) (s : State) → Held s → Held (read_by cs s).0
  unfolding read_by
  read_by-Held [] s h =
      and_then-Held (pop_packet s) _ (pop_packet-Held s h) λ p s h. or_read-Held p _ s h (λ s h. h)
  read_by-Held (c ∷ cs) s h =
      and_then-Held (pop_packet s) _ (pop_packet-Held s h)
        λ p s h. or_read-Held p _ s h (λ s h. read_more-Held c _ s h (read_by-Held cs))

  pub read_event-Held : (ms : ℕ) (s : State) → Held s → Held (read_event w ms s).0
  unfolding read_event
  read_event-Held ms s h = read_by-Held (w.arrives s.effects ms) s h

  sent_some-Held :
      (n : Option ℕ) (view : List ℕ) (k : List ℕ → State → State × Outcome Unit) (s : State)
      → Held s
      → ((v : List ℕ) (s : State) → Held s → Held (k v s).0)
      → Held (sent_some n view k s).0
  sent_some-Held none view k s h next = h
  sent_some-Held (some n) view k s h next = next _ _ (ask-Held (wrote (take (suc n) view)) s refl h)

  write_by-Held :
      (turns : ℕ) (view : List ℕ) (s : State) → Held s → Held (write_by turns w view s).0
  unfolding write_by
  write_by-Held zero view s h = h
  write_by-Held (suc turns) [] s h = h
  write_by-Held (suc turns) (b ∷ bs) s h =
      sent_some-Held (w.accepts s.effects (b ∷ bs)) (b ∷ bs) _ s h (write_by-Held turns)

  pub write_all-Held : (view : List ℕ) (s : State) → Held s → Held (write_all w view s).0
  unfolding write_all
  write_all-Held view s h = write_by-Held (length view) view s h

  or_send-Held :
      (p : Option (List ℕ)) (k : State → State × Outcome Answer) (s : State)
      → Held s
      → ((s : State) → Held s → Held (k s).0)
      → Held (or_send p k s).0
  or_send-Held none k s h next = next s h
  or_send-Held (some p) k s h next = h

  logged-Held : (opcode : ℕ) (s : State) → Held s → Held (logged opcode s)
  unfolding Held
  logged-Held opcode s h = h

  pub cc-Held :
      (opcode : ℕ) (params : List ℕ) (ms : ℕ) (rtype : Option ℕ) (s : State)
      → Held s
      → Held (cc w opcode params ms rtype s).0
  unfolding cc
  cc-Held opcode params ms rtype s h = and_then-Held (pop_packet s) _ (pop_packet-Held s h) λ p s h.
      or_send-Held p _ s h λ s h.
        and_then-Held (write_all w (cmd opcode params) s) _ (write_all-Held _ s h) λ _ s h.
          and_then-Held (read_event w ms s) _ (read_event-Held ms s h)
            (λ ev s h. logged-Held opcode s h)
