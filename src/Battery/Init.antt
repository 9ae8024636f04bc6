-- ===== src/Battery/Init.antt =====
-- What `battery_init` makes of the settings.
use mybmm.Base.{◌≡◌, refl, ap, true, false, arith}
use mybmm.Floats.{Floats}
use mybmm.Battery.{
  Chem, lithium, lifepo4, titanate, chem_of, Conf, is_unset, charge_stop, charge_start, chem_case,
  init_limits, battery_init,
}

module _ (fl : Floats) where
  open fl use {Number, ltb, leb, lit, single, to_int}

  charge_start-max : (c : Conf fl) → (charge_start fl c).charge_max_voltage ≡ c.charge_max_voltage
  unfolding charge_start
  charge_start-max c = ground arith

  chem_case-user :
      (k : Chem) (c : Conf fl)
      → ((chem_case fl k c).user_charge_voltage ≡ c.user_charge_voltage)
        × ((chem_case fl k c).user_charge_max_voltage ≡ c.user_charge_max_voltage)
        × ((chem_case fl k c).user_capacity ≡ c.user_capacity)
  unfolding chem_case
  chem_case-user lithium c = (refl, refl, refl)
  chem_case-user lifepo4 c = (refl, refl, refl)
  chem_case-user titanate c = (refl, refl, refl)

  -- The maximum follows from whether `charge_voltage` is set, not `charge_max_voltage`: with the
  -- first one set alone, the maximum is the mark for an unset value.
  pub battery_init_unset_max :
      (c : Conf fl)
      → is_unset fl c.user_charge_voltage ≡ false
      → is_unset fl c.user_charge_max_voltage ≡ true
      → is_unset fl (battery_init fl c).charge_max_voltage ≡ true
  unfolding battery_init init_limits charge_stop
  battery_init_unset_max c given missing =
      let (v, m, _) = chem_case-user (chem_of c.battery_chem) c in
      rw (charge_start-max, v, given, m) missing

  init_limits-capacity :
      (k : Chem) (c : Conf fl) (x : Number)
      → init_limits fl (chem_case fl k (record c { capacity = x }))
        ≡ init_limits fl (chem_case fl k c)
  unfolding init_limits chem_case
  init_limits-capacity lithium c x = refl
  init_limits-capacity lifepo4 c x = refl
  init_limits-capacity titanate c x = refl

  -- The capacity before the call makes no difference: it is the user's, or 0.
  pub battery_init-capacity :
      (c : Conf fl) (x : Number) → battery_init fl (record c { capacity = x }) ≡ battery_init fl c
  unfolding battery_init
  battery_init-capacity c x =
      ap (λ (d : Conf fl). charge_start fl (charge_stop fl d))
        (init_limits-capacity (chem_of c.battery_chem) c x)
