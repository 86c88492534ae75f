-- ===== src/Thermal/Cooling.antt =====
-- Many rounds of Domain.update of thermald.py under one set of limits.
use y700_linux.Prelude.{
  ℕ, ◌+◌, ◌-◌, ◌*◌, ◌≤◌, ◌<◌, ◌≡◌, refl, ◌∙◌, List, [], ◌∷◌, length, All, arith,
}
use y700_linux.Prelude.Int.{ℤ, sub_ℕ, ◌<ℤ◌}
use y700_linux.Thermal.Control.{update-i_bounds}
use y700_linux.Thermal.{Domain, raise_after, cool_margin, degrees, emergency, top, bottom, update}

-- The rounds of the main loop while the profile and the battery leave the limits alone.
unfoldable pub updates : ℕ → ℕ → ℕ → List ℤ → Domain → Domain
updates ceiling floor target [] d = d
updates ceiling floor target (t ∷ ts) d =
    updates ceiling floor target ts (update t ceiling floor target d)

abbrev pub IsCold : ℕ → ℤ → Type 0
IsCold target t = t <ℤ sub_ℕ (target * 1000) (cool_margin * 1000)

abbrev pub IsHot : ℕ → ℤ → Type 0
IsHot target t = degrees target <ℤ t

module _ (ceiling floor target : ℕ) where
  rounds_left : Domain → ℕ
  rounds_left d = 3 * (top d ceiling - d.i) - d.cool

  cold_round :
      (t : ℤ) (d : Domain)
      → IsCold target t
      → target < emergency
      → d.cool < raise_after
      → (rounds_left (update t ceiling floor target d) ≤ rounds_left d - 1)
        × ((update t ceiling floor target d).cool < raise_after)
  unfolding rounds_left update
  cold_round t d h e c = ground arith

  hot_round :
      (t : ℤ) (d : Domain)
      → IsHot target t
      → (update t ceiling floor target d).i - bottom d ceiling floor
        ≤ d.i - bottom d ceiling floor - 1
  unfolding update
  hot_round t d h = ground arith

  top-update : (t : ℤ) (d : Domain) → top (update t ceiling floor target d) ceiling ≡ top d ceiling
  unfolding update
  top-update t d = refl

  bottom-update :
      (t : ℤ) (d : Domain)
      → bottom (update t ceiling floor target d) ceiling floor ≡ bottom d ceiling floor
  unfolding update
  bottom-update t d = refl

  -- Enough cold rounds raise the cap to the ceiling, three rounds to a step: from index `i`,
  -- 3 * (top - i) rounds suffice, less those that the domain has been cool already.
  pub cold-reaches-top :
      (ts : List ℤ) (d : Domain)
      → All (IsCold target) ts
      → target < emergency
      → d.cool < raise_after
      → d.i ≤ top d ceiling
      → 3 * (top d ceiling - d.i) ≤ length ts + d.cool
      → (updates ceiling floor target ts d).i ≡ top d ceiling
  unfolding updates rounds_left
  cold-reaches-top [] d all e c h k = omega arith
  cold-reaches-top (t ∷ ts) d all e c h k =
      cold-reaches-top ts d' all.1 e (cold_round t d all.0 e c).1
        (rw (top-update t d) (update-i_bounds t ceiling floor target d).1)
        (omega (arith, cold_round t d all.0 e c))
      ∙ top-update t d
    where
      d' : Domain
      d' = update t ceiling floor target d

  -- Hot rounds lower the cap by at least one step each, until it stands at the floor.
  pub hot-reaches-bottom :
      (ts : List ℤ) (d : Domain)
      → All (IsHot target) ts
      → bottom d ceiling floor ≤ d.i
      → d.i - bottom d ceiling floor ≤ length ts
      → (updates ceiling floor target ts d).i ≡ bottom d ceiling floor
  unfolding updates
  hot-reaches-bottom [] d all h k = omega arith
  hot-reaches-bottom (t ∷ ts) d all h k =
      hot-reaches-bottom ts (update t ceiling floor target d) all.1
        (rw (bottom-update t d) (update-i_bounds t ceiling floor target d).0)
        (rw (bottom-update t d) (omega (arith, hot_round t d all.0)))
      ∙ bottom-update t d
