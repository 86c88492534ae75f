-- ===== src/Thermal/Control.antt =====
-- One call of Domain.update of thermald.py.
use y700_linux.Prelude.{
  ℕ, ◌+◌, ◌-◌, ◌*◌, ◌≤◌, ◌<◌, ◌≡◌, refl, sym, subst, some, List, length, get_elem?, arith,
}
use y700_linux.Prelude.Int.{ℤ, sub_ℕ, ◌≤ℤ◌, ◌<ℤ◌}
use y700_linux.Thermal.{
  Domain, DomainName, raise_after, cool_margin, degrees, emergency, sort_steps, new_domain, cap,
  top, bottom, update,
}
use y700_linux.Thermal.Steps.{
  IsSorted, count_le, sort_steps-IsSorted, length-sort_steps, index-lt-length, index-eq-count_le,
  get_elem?-below, get_elem?-counted, get_elem?-mono, get_elem?-total,
}

-- What holds of a domain between two rounds.
pub record IsValid (d : Domain) : Type 0 where
  pub sorted : IsSorted d.steps
  pub in_table : d.i < length d.steps
  pub cool_small : d.cool < raise_after

-- A domain made from a table that is not empty is well formed.
pub new_domain-IsValid :
    (n : DomainName) (steps : List ℕ) (f : ℕ) → 0 < length steps → IsValid (new_domain n steps f)
unfolding new_domain
new_domain-IsValid n steps f h = record {
  sorted = sort_steps-IsSorted steps;
  in_table =
      index-lt-length f (sort_steps steps) (sort_steps-IsSorted steps)
        (omega (arith, length-sort_steps steps));
  cool_small = omega arith;
}

module _ (temp : ℤ) (ceiling floor target : ℕ) (d : Domain) where
  pub update-steps : (update temp ceiling floor target d).steps ≡ d.steps
  unfolding update
  update-steps = refl

  pub update-name : (update temp ceiling floor target d).name ≡ d.name
  unfolding update
  update-name = refl

  -- The new index lies between the index of the floor and that of the ceiling.
  pub update-i_bounds :
      (bottom d ceiling floor ≤ (update temp ceiling floor target d).i)
      × ((update temp ceiling floor target d).i ≤ top d ceiling)
  unfolding update
  update-i_bounds = ground arith

  update-cool : d.cool < raise_after → (update temp ceiling floor target d).cool < raise_after
  unfolding update
  update-cool h = ground arith

  -- One round keeps a domain well formed, whatever the temperature and the limits are.
  pub update-IsValid : IsValid d → IsValid (update temp ceiling floor target d)
  unfolding top
  update-IsValid v = record {
    sorted = subst IsSorted (sym update-steps) v.sorted;
    in_table = rw update-steps (omega (arith, update-i_bounds.1, top-lt-length));
    cool_small = update-cool v.cool_small;
  }
    where
      top-lt-length : top d ceiling < length d.steps
      top-lt-length = index-lt-length ceiling d.steps v.sorted (omega (arith, v.in_table))

  -- Where the table has a step at or below the ceiling, the new cap is a step of the table and at
  -- most the ceiling.
  pub update-cap_bounds :
      IsValid d
      → 0 < count_le ceiling d.steps
      → (v : ℕ) × (cap (update temp ceiling floor target d) ≡ some v) × (v ≤ ceiling)
  unfolding cap top bottom
  update-cap_bounds v h = (value.0, rw update-steps value.1, below)
    where
      value : (x : ℕ) × (get_elem? d.steps (update temp ceiling floor target d).i ≡ some x)
      value =
          get_elem?-total d.steps (update temp ceiling floor target d).i
            (rw update-steps at (update-IsValid v).in_table)

      below : value.0 ≤ ceiling
      below =
          get_elem?-below ceiling d.steps (update temp ceiling floor target d).i value.0 v.sorted
            value.1 (omega (arith, update-i_bounds.1, top_lem, h))
        where
          top_lem : top d ceiling ≡ count_le ceiling d.steps - 1
          top_lem = index-eq-count_le ceiling d.steps v.sorted

  -- The new cap is never below a step of the table that is at most both the floor and the ceiling.
  pub update-cap_above :
      (v j w : ℕ)
      → IsValid d
      → cap (update temp ceiling floor target d) ≡ some v
      → get_elem? d.steps j ≡ some w
      → w ≤ floor
      → w ≤ ceiling
      → w ≤ v
  unfolding cap bottom
  update-cap_above v j w valid c e hf hc =
      get_elem?-mono d.steps j (update temp ceiling floor target d).i w v valid.sorted
        (omega (
          arith,
          update-i_bounds.0,
          get_elem?-counted floor d.steps j w valid.sorted e hf,
          get_elem?-counted ceiling d.steps j w valid.sorted e hc,
          index-eq-count_le floor d.steps valid.sorted,
          index-eq-count_le ceiling d.steps valid.sorted,
        ))
        e (rw update-steps at c)

  -- At the emergency temperature the cap goes to the floor at once and the cool count is reset.
  pub update-emergency :
      degrees emergency ≤ℤ temp
      → ((update temp ceiling floor target d).i ≡ bottom d ceiling floor)
        × ((update temp ceiling floor target d).cool ≡ 0)
  unfolding update
  update-emergency h = ground arith

  -- Between two clamped states the index rises only by one step, and only in the third cool round.
  pub update-rise :
      bottom d ceiling floor ≤ d.i
      → d.i < (update temp ceiling floor target d).i
      → (temp <ℤ sub_ℕ (target * 1000) (cool_margin * 1000))
        × (raise_after ≤ d.cool + 1)
        × ((update temp ceiling floor target d).i ≡ d.i + 1)
  unfolding update
  update-rise h r = ground arith
