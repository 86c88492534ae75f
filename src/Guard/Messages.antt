-- ===== src/Guard/Messages.antt =====
-- A panel message is accepted at most once.
use Prim.Native.String.{String}
use text.Mathlib.Text.{◌==◌ as str_eq}
use text.Mathlib.TextEquality.{eq_iff}
use y700_linux.Prelude.{
  ℕ, zero, suc, ◌≡◌, refl, sym, ◌∙◌, subst, Bool, true, false, not, Option, none, some, List, [],
  ◌∷◌, ◌++◌, any, any-append, arith, if-cases, and-right, not-true,
}
use y700_linux.Guard.{Reader, among, has}
use y700_linux.Guard.Spans.{Span}
use y700_linux.Guard.Heads.{Templates, template_head, rotated_head}
use y700_linux.Guard.Review.{
  State, is_new_message, accept_message, panel, note_head, note_fragment, unexpected, line_at,
  same_event, rotated_template_head,
}

module _ (r : Reader) where
  -- No two of the lines have the same payload.
  unfoldable pub Distinct : List String → Type 0
  Distinct [] = Unit
  Distinct (x ∷ xs) = (any (λ y. str_eq (r.payload y) (r.payload x)) xs ≡ false) × Distinct xs

  str_eq_comm : (a b : String) → str_eq a b ≡ false → str_eq b a ≡ false
  str_eq_comm a b h = ground (arith, eq_iff a b, eq_iff b a, h)

  append-Distinct :
      (xs : List String) (l : String)
      → Distinct xs
      → any (λ x. str_eq (r.payload x) (r.payload l)) xs ≡ false
      → Distinct (xs ++ l ∷ [])
  unfolding Distinct
  append-Distinct [] l h new = (refl, tt)
  append-Distinct (x ∷ xs) l h new = (
    ground (
      arith,
      any-append (λ y. str_eq (r.payload y) (r.payload x)) xs (l ∷ []),
      h.0,
      new,
      str_eq_comm (r.payload x) (r.payload l),
    ),
    append-Distinct xs l h.1 (ground (arith, new)),
  )

  -- The lines that a step leaves accepted.
  Keeps : State × List Span → Type 0
  Keeps a = Distinct a.0.panel_ok

  kept : (a : State × List Span) → Distinct a.0.panel_ok → Keeps a
  unfolding Keeps
  kept a h = h

  kept_lines : (a : State × List Span) (s : Span) → Keeps a → Keeps (a.0, s ∷ a.1)
  unfolding Keeps
  kept_lines a s h = h

  of_kept : (a : State × List Span) → Keeps a → Distinct a.0.panel_ok
  unfolding Keeps
  of_kept a h = h

  accept-Distinct :
      (t : Templates) (st : State) (l : String)
      → is_new_message r t st l ≡ true
      → Distinct st.panel_ok
      → Distinct (accept_message l st).panel_ok
  unfolding is_new_message
  accept-Distinct t st l new h = append-Distinct st.panel_ok l h (not-true _ (and-right _ _ new))

  panel-Distinct :
      (t : Templates) (i : ℕ) (ls : List String) (st : State)
      → Distinct st.panel_ok
      → Keeps (panel r t i ls st)
  unfolding panel
  panel-Distinct t i [] st h = kept (st, []) h
  panel-Distinct t i (l ∷ ls) st h =
      if-cases Keeps (not (has l "[msm-dsi-error]")) (λ _. panel-Distinct t (suc i) ls st h)
        (λ _.
          if-cases Keeps (among l st.panel_ok)
            (λ _. kept_lines _ (i, i) (panel-Distinct t (suc i) ls st h))
            (λ _.
              if-cases Keeps (is_new_message r t st l)
                (λ new.
                  kept_lines _ (i, i)
                    (panel-Distinct t (suc i) ls (accept_message l st)
                      (accept-Distinct t st l new h)))
                (λ _. panel-Distinct t (suc i) ls st h)))

  head_same :
      (head : Bool × ℕ) (l : String) (st : State) → (note_head head l st).panel_ok ≡ st.panel_ok
  head_same (b, zero) l st = refl
  head_same (b, suc n) l st =
      if-cases Same (any (λ x. same_event x (rotated_template_head b (suc n) l)) st.audit)
        (λ _. refl) (λ _. refl)
    where
      Same : State → Type 0
      Same x = x.panel_ok ≡ st.panel_ok

  fragment_same :
      (frag : Option (String × ℕ)) (st : State) → (note_fragment frag st).panel_ok ≡ st.panel_ok
  fragment_same none st = refl
  fragment_same (some (k, n)) st = refl

  note-Distinct :
      (st : State) (head : Bool × ℕ) (l : String) (frag : Option (String × ℕ))
      → Distinct st.panel_ok
      → Distinct (note_fragment frag (note_head head l st)).panel_ok
  note-Distinct st head l frag h =
      subst Distinct (sym (fragment_same frag (note_head head l st) ∙ head_same head l st)) h

  -- A review accepts no two panel messages with the same payload: where the accepted lines had different
  -- payloads, they still have, whatever the log is.
  pub unexpected-Distinct :
      (t : Templates) (kinds lines : List String) (st : State)
      → Distinct st.panel_ok
      → Distinct (unexpected r t kinds lines st).0.panel_ok
  unfolding unexpected
  unexpected-Distinct t kinds lines st h = of_kept _ (
      panel-Distinct t 0 lines _ (
        note-Distinct st (template_head r t st.live lines) (line_at lines 0)
          (rotated_head r t st.live st.bound kinds lines) h))
