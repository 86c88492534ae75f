-- ===== src/BtKeeper/Main/Steps.antt =====
-- Each step of main leaves the tty open and the power on.
use y700_linux.Prelude.{
  ℕ, zero, suc, refl, Bool, true, false, ◌&&◌, Option, List, [], ◌∷◌, ◌==◌, if-cases, ltb, leb,
  length, drop, take,
}
use y700_linux.BtKeeper.{
  raw_tty, vote_on, flush, drain, ask_lines, set_discipline, set_protocol, get_device, Reason,
  World, State, Outcome, perform, cmd, Answer, read_event, cc, write_all, is_cc, is_ok, is_empty,
}
use y700_linux.BtKeeper.Download.{
  seg_size, lines, version_request, send_if, or_again, first_version, take_ready, segment, tlv_by,
  tlv_download, if_acked, nvm_by, nvm_download,
}
use y700_linux.BtKeeper.Held.{
  Held, voted-Held, and_then-Held, perform-Held, read_more-Held, read_event-Held, write_all-Held,
  cc-Held, Keeps, Keeps-Held, keep,
}
use y700_linux.BtKeeper.Main.{
  Config, check, inside, voted, connect, duplicate_or_none, is_reviewed, identify, answered, patch,
  settings, controller, attach, session,
}

module _ (w : World) where
  lines-Held : (s : State) → Held w s → Held w (lines w s).0
  unfolding lines
  lines-Held s h =
      and_then-Held w (perform w ask_lines s) _ (perform-Held w ask_lines s refl h) (λ _ s h. h)

  send_if-Held : (b : Bool) (bs : List ℕ) (s : State) → Held w s → Held w (send_if b w bs s).0
  send_if-Held true bs s h = write_all-Held w bs s h
  send_if-Held false bs s h = h

  or_again-Held :
      (ev : List ℕ) (k : State → State × Outcome Answer) (s : State)
      → Held w s
      → ((s : State) → Held w s → Held w (k s).0)
      → Held w (or_again ev k s).0
  or_again-Held [] k s h next = next s h
  or_again-Held (b ∷ bs) k s h next = h

  first_version-Held : (tries : ℕ) (s : State) → Held w s → Held w (first_version tries w s).0
  unfolding first_version
  first_version-Held zero s h = h
  first_version-Held (suc tries) s h = and_then-Held w (lines w s) _ (lines-Held s h) λ outq s h.
      and_then-Held w (send_if (outq == 0) w (cmd 0xfc00 version_request) s) _
        (send_if-Held (outq == 0) _ s h)
        λ _ s h.
          and_then-Held w (read_event w 6000 s) _ (read_event-Held w 6000 s h)
            λ ev s h. or_again-Held ev _ s h (first_version-Held tries)

  take_ready-Held :
      (cs : List (Option (List ℕ))) (s : State) → Held w s → Held w (take_ready cs s).0
  take_ready-Held [] s h = h
  take_ready-Held (c ∷ cs) s h = read_more-Held w c _ s h (λ s h. h)

  tlv_by-Held :
      (turns : ℕ) (rest stray : List ℕ) (s : State)
      → Held w s
      → Held w (tlv_by turns w rest stray s).0
  unfolding tlv_by
  tlv_by-Held zero rest stray s h = h
  tlv_by-Held (suc turns) [] stray s h = h
  tlv_by-Held (suc turns) (b ∷ bs) stray s h =
      and_then-Held w (write_all w (cmd 0xfc00 (segment (take seg_size (b ∷ bs)))) s) _
        (write_all-Held w _ s h)
        λ _ s h.
          and_then-Held w (take_ready (w.arrives s.effects 0) s) _ (take_ready-Held _ s h)
            (λ _ s h. tlv_by-Held turns (drop seg_size (b ∷ bs)) _ s h)

  tlv_download-Held : (bytes : List ℕ) (s : State) → Held w s → Held w (tlv_download w bytes s).0
  unfolding tlv_download
  tlv_download-Held bytes s h =
      and_then-Held w (tlv_by (length bytes) w bytes [] s) _ (tlv_by-Held _ bytes [] s h)
        λ stray s h.
          and_then-Held w (perform w drain s) _ (perform-Held w drain s refl h) (λ _ s h. h)

  if_acked-Held :
      (a : Answer) (k : State → State × Outcome Bool) (s : State)
      → Held w s
      → ((s : State) → Held w s → Held w (k s).0)
      → Held w (if_acked a k s).0
  if_acked-Held (ev, true) k s h next = next s h
  if_acked-Held (ev, false) k s h next = h

  nvm_by-Held :
      (turns : ℕ) (rest : List ℕ) (s : State) → Held w s → Held w (nvm_by turns w rest s).0
  unfolding nvm_by
  nvm_by-Held zero rest s h = h
  nvm_by-Held (suc turns) [] s h = h
  nvm_by-Held (suc turns) (b ∷ bs) s h =
      and_then-Held w (cc w _ _ _ _ s) _ (cc-Held w _ _ _ _ s h)
        λ ack s h. if_acked-Held ack _ s h (nvm_by-Held turns (drop seg_size (b ∷ bs)))

  check-Held : (b : Bool) (r : Reason) (s : State) → Held w s → Held w (check b r s).0
  check-Held true r s h = h
  check-Held false r s h = h

  inside-Held : (b : Bool) (s : State) → Held w s → Held w (inside b s).0
  inside-Held true s h = h
  inside-Held false s h = h

  answered-Held : (b : Bool) (r : Reason) (s : State) → Held w s → Held w (answered b r s).0
  answered-Held b r s h =
      and_then-Held w (inside (ltb 0 (length s.lat)) s) _ (inside-Held _ s h)
        (λ _ s h. check-Held b r s h)

  connect-Held : (s : State) → Held w s → Held w (connect w s).0
  unfolding connect
  connect-Held s h =
      and_then-Held w (perform w raw_tty s) _ (perform-Held w raw_tty s refl h) λ _ s h.
        and_then-Held w (perform w vote_on s) _ (perform-Held w vote_on s refl h) λ _ s h.
          and_then-Held w (lines w (voted s)) _ (lines-Held (voted s) (voted-Held w s h))
            (λ _ s h. h)

  duplicate_or_none-Held : (ev : List ℕ) (s : State) → Held w s → Held w (duplicate_or_none ev s).0
  duplicate_or_none-Held ev s h = Keeps-Held w (duplicate_or_none ev s) (
      if-cases (Keeps w) (is_empty ev) (λ _. keep w _ h)
        (λ _.
          if-cases (Keeps w) (is_cc ev 0xfc00 && leb (length ev) 7) (λ _. keep w _ h)
            (λ _. keep w _ (check-Held _ _ s h))))

  identify-Held : (c : Config) (s : State) → Held w s → Held w (identify w c s).0
  unfolding identify
  identify-Held c s h = and_then-Held w (first_version 3 w s) _ (first_version-Held 3 s h) λ a s h.
      and_then-Held w (check a.1 _ s) _ (check-Held a.1 _ s h) λ _ s h.
        and_then-Held w (read_event w 50 s) _ (read_event-Held w 50 s h) λ stale s h.
          and_then-Held w (duplicate_or_none stale s) _ (duplicate_or_none-Held stale s h)
            (λ _ s h. check-Held (is_reviewed c a.0) _ s h)

  patch-Held : (bytes : List ℕ) (s : State) → Held w s → Held w (patch w bytes s).0
  unfolding patch
  patch-Held bytes s h = and_then-Held w (cc w _ _ _ _ s) _ (cc-Held w _ _ _ _ s h) λ a s h.
      and_then-Held w (answered a.1 _ s) _ (answered-Held a.1 _ s h) λ _ s h.
        and_then-Held w (tlv_download w bytes s) _ (tlv_download-Held bytes s h) λ stray s h.
          and_then-Held w (check (is_empty stray) _ s) _ (check-Held _ _ s h) λ _ s h.
            and_then-Held w (read_event w 5000 s) _ (read_event-Held w 5000 s h) λ ev s h.
              and_then-Held w (check (is_ok ev _ _) _ s) _ (check-Held _ _ s h) λ _ s h.
                and_then-Held w (cc w _ _ _ _ s) _ (cc-Held w _ _ _ _ s h)
                  (λ a s h. check-Held a.1 _ s h)

  settings-Held : (bytes : List ℕ) (s : State) → Held w s → Held w (settings w bytes s).0
  unfolding settings nvm_download
  settings-Held bytes s h =
      and_then-Held w (nvm_download w bytes s) _ (nvm_by-Held _ bytes s h) λ ok s h.
        and_then-Held w (check ok _ s) _ (check-Held ok _ s h) λ _ s h.
          and_then-Held w (cc w _ _ _ _ s) _ (cc-Held w _ _ _ _ s h) λ a s h.
            and_then-Held w (answered a.1 _ s) _ (answered-Held a.1 _ s h) λ _ s h.
              and_then-Held w (read_event w 200 s) _ (read_event-Held w 200 s h)
                (λ extra s h. check-Held (is_empty extra) _ s h)

  controller-Held : (s : State) → Held w s → Held w (controller w s).0
  unfolding controller
  controller-Held s h = and_then-Held w (cc w _ _ _ _ s) _ (cc-Held w _ _ _ _ s h) λ a s h.
      and_then-Held w (check a.1 _ s) _ (check-Held a.1 _ s h) λ _ s h.
        and_then-Held w (cc w _ _ _ _ s) _ (cc-Held w _ _ _ _ s h) λ v s h.
          and_then-Held w (check v.1 _ s) _ (check-Held v.1 _ s h) λ _ s h.
            and_then-Held w (inside (leb 15 (length v.0)) s) _ (inside-Held _ s h) λ _ s h.
              and_then-Held w (cc w _ _ _ _ s) _ (cc-Held w _ _ _ _ s h) λ _ s h.
                and_then-Held w (cc w _ _ _ _ s) _ (cc-Held w _ _ _ _ s h)
                  (λ _ s h. check-Held (is_empty s.rx) _ s h)

  attach-Held : (s : State) → Held w s → Held w (attach w s).0
  unfolding attach
  attach-Held s h = and_then-Held w (perform w flush s) _ (perform-Held w flush s refl h) λ _ s h.
      and_then-Held w (perform w set_discipline s) _ (perform-Held w set_discipline s refl h)
        λ _ s h.
          and_then-Held w (perform w set_protocol s) _ (perform-Held w set_protocol s refl h)
            (λ _ s h. perform-Held w get_device s refl h)

  pub session-Held :
      (c : Config) (rampatch nvm : List ℕ) (s : State)
      → Held w s
      → Held w (session w c rampatch nvm s).0
  unfolding session
  session-Held c rampatch nvm s h = and_then-Held w (connect w s) _ (connect-Held s h) λ _ s h.
      and_then-Held w (identify w c s) _ (identify-Held c s h) λ _ s h.
        and_then-Held w (patch w rampatch s) _ (patch-Held rampatch s h) λ _ s h.
          and_then-Held w (settings w nvm s) _ (settings-Held nvm s h) λ _ s h.
            and_then-Held w (controller w s) _ (controller-Held s h) (λ _ s h. attach-Held s h)
