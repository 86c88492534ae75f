-- ===== src/Bringup/Store.antt =====
-- The bundles of bringup.py that a new or applied one leaves in the store.
use mathlib.Core.Option.{some-injective}
use y700_linux.Prelude.{
  sym, ap, ◌∙◌, ==_iff, ◌≡◌, refl, Bool, true, false, not, List, [], ◌∷◌, some, arith, any, select,
  any-append, get_elem?, any-kept,
}
use y700_linux.Bringup.{
  Stage, pstore, display, owner, governor, gpu, keeper, touch, adc, wifi_a, wifi_b, wifi_connect,
  bt_a, bt_b, btkeeper, qrtr_smd, adsp, audio_c1, audio_c, Bundle, same_stage, same_dir, put,
  stages, position,
}

pub any-put :
    (p : Bundle → Bool) (b : Bundle) (store : List Bundle) → p b ≡ true → any p (put b store) ≡ true
any-put p b store h = ground (arith, any-append p (select (λ d. not (same_dir b d)) store) (b ∷ []))

-- A bundle of another stage leaves those of a stage.
pub any-put_other :
    (p : Bundle → Bool) (st : Stage) (b : Bundle) (store : List Bundle)
    → ((x : Bundle) → p x ≡ true → same_stage x.stage st ≡ true)
    → same_stage b.stage st ≡ false
    → any p (put b store) ≡ any p store
any-put_other p st b store stays other = ground (
  arith,
  any-append p (select (λ d. not (same_dir b d)) store) (b ∷ []),
  any-kept p (λ d. not (same_dir b d)) store kept,
  stays b,
)
  where
    kept : (x : Bundle) → p x ≡ true → not (same_dir b x) ≡ true
    kept x h = ground (arith, stays x h, other)

stages-position : (st : Stage) → get_elem? stages (position st) ≡ some st
unfolding position
stages-position pstore = refl
stages-position display = refl
stages-position owner = refl
stages-position governor = refl
stages-position gpu = refl
stages-position keeper = refl
stages-position touch = refl
stages-position adc = refl
stages-position wifi_a = refl
stages-position wifi_b = refl
stages-position wifi_connect = refl
stages-position bt_a = refl
stages-position bt_b = refl
stages-position btkeeper = refl
stages-position qrtr_smd = refl
stages-position adsp = refl
stages-position audio_c1 = refl
stages-position audio_c = refl

-- The position tells the stages apart.
pub same_stage-≡ : (a b : Stage) → same_stage a b ≡ true → a ≡ b
same_stage-≡ a b h =
    some-injective _ _ (
      sym (stages-position a) ∙ ap (λ n. get_elem? stages n) ((==_iff _ _).0 h) ∙ stages-position b)
