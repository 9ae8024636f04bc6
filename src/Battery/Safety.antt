-- ===== src/Battery/Safety.antt =====
-- When a charge goes on, when it ends, and the voltage and the current that it asks for.
use mybmm.Base.{
  ℕ, ◌+◌, ◌≤◌, ◌≡◌, ◌⊎◌, inl, inr, ◌∙◌, sym, subst, ap, ap₂, true, false, arith, check_state,
  Bool-cases,
}
use mybmm.Floats.{Floats, IsOrdered}
use mybmm.Config.{charging}
use mybmm.Battery.{
  Conf, charge_stop, cc_check, cv_check, raise_voltage, mode_check, cool_amps, charge_check, pct,
}
use mybmm.Battery.Phases.{
  idle, constant_current, constant_voltage, phase, charge_stop-idle, cool_amps-keeps, idle_of,
}

conflict {ℓ} : {A : Type ℓ} → false ≡ true → A
conflict h = cc

module _ (fl : Floats) where
  open fl use {Number, ltb, leb, lit, single, div}

  cool_amps_env :
      (c : Conf fl)
      → ((cool_amps fl c).battery_temp ≡ c.battery_temp)
        × ((cool_amps fl c).start_temp ≡ c.start_temp)
        × ((cool_amps fl c).cv_start_time ≡ c.cv_start_time)
        × ((cool_amps fl c).charge_max_voltage ≡ c.charge_max_voltage)
        × ((cool_amps fl c).charge_voltage ≡ c.charge_voltage)
  unfolding cool_amps
  cool_amps_env c = ground arith

  mode_check_hot :
      (current_time clock : ℕ) (c : Conf fl)
      → ltb (lit 5 0) (pct fl c.battery_temp c.start_temp) ≡ true
      → check_state (mode_check fl current_time clock c).state charging ≡ false
  unfolding mode_check
  mode_check_hot current_time clock c hot = rw hot (charge_stop-idle fl c)

  -- A charge that was on and is still on after a check had a battery above 0 degrees, and the rise of the
  -- temperature since its start, in percent of the present temperature (`pct`), was not above 5.
  pub charge_check_warm :
      (current_time clock : ℕ) (c : Conf fl)
      → check_state c.state charging ≡ true
      → check_state (charge_check fl current_time clock c).state charging ≡ true
      → (leb c.battery_temp (lit 0 1) ≡ false)
        × (ltb (lit 5 0) (pct fl c.battery_temp c.start_temp) ≡ false)
  unfolding charge_check
  charge_check_warm current_time clock c on after =
      elim (Bool-cases (leb c.battery_temp (lit 0 1))) [
        | inl frozen ↦ conflict (sym (charge_stop-idle fl c) ∙ rw (on, frozen) at after)
        | inr warm ↦ elim (Bool-cases (ltb (lit 5 0) (pct fl c.battery_temp c.start_temp))) [
          | inl hot ↦
              let (t, s, _, _, _) = cool_amps_env c in
              let hot' = ap₂ (λ x y. ltb (lit 5 0) (pct fl x y)) t s ∙ hot in
              conflict (
                sym (mode_check_hot current_time clock (cool_amps fl c) hot')
                ∙ rw (on, warm) at after)
          | inr fine ↦ (warm, fine)
        ]
      ]

  -- What a phase says of the state word and the mode.
  phase_inv :
      (c : Conf fl)
      → ((phase fl c ≡ constant_voltage)
          → (check_state c.state charging ≡ true) × (c.charge_mode ≡ 2))
        × ((phase fl c ≡ constant_current)
            → (check_state c.state charging ≡ true) × (c.charge_mode ≡ 1))
  unfolding phase
  phase_inv c = (λ e. ground arith, λ e. ground arith)

  mode_check_over :
      (current_time clock : ℕ) (c : Conf fl)
      → c.charge_mode ≡ 2
      → c.cv_start_time + 7200 ≤ current_time
      → mode_check fl current_time clock c ≡ charge_stop fl c
  unfolding mode_check cv_check
  mode_check_over current_time clock c two late = ground arith

  -- Constant voltage is over at the first check that comes two hours or more after its start,
  -- whatever the battery reports.
  pub charge_check_ends :
      (current_time clock : ℕ) (c : Conf fl)
      → phase fl c ≡ constant_voltage
      → c.cv_start_time + 7200 ≤ current_time
      → phase fl (charge_check fl current_time clock c) ≡ idle
  unfolding charge_check
  charge_check_ends current_time clock c e late =
      let (on, two) = (phase_inv c).0 e in
      rw on (elim (Bool-cases (leb c.battery_temp (lit 0 1))) [
        | inl frozen ↦ rw frozen (idle_of fl (charge_stop fl c) (charge_stop-idle fl c))
        | inr warm ↦
            let d = cool_amps fl c in
            let (_, m) = cool_amps-keeps fl c in
            let (_, _, t, _, _) = cool_amps_env c in
            rw (warm, mode_check_over current_time clock d (m ∙ two) (omega arith))
              (idle_of fl (charge_stop fl d) (charge_stop-idle fl d))
      ])

  raise_voltage_max :
      (c : Conf fl)
      → IsOrdered fl
      → ltb c.charge_max_voltage (raise_voltage fl c).charge_voltage ≡ false
  unfolding raise_voltage
  raise_voltage_max c order = ground (arith, order.lt_irrefl c.charge_max_voltage)

  cc_check_voltage :
      (clock : ℕ) (c : Conf fl)
      → IsOrdered fl
      → (cc_check fl clock c).charge_mode ≡ 1
      → ((cc_check fl clock c).charge_voltage ≡ c.charge_voltage)
        ⊎ (ltb c.charge_max_voltage (cc_check fl clock c).charge_voltage ≡ false)
  unfolding cc_check
  cc_check_voltage clock c order one = ground (arith, raise_voltage_max c order)

  mode_check_one :
      (current_time clock : ℕ) (c : Conf fl)
      → c.charge_mode ≡ 1
      → ltb (lit 5 0) (pct fl c.battery_temp c.start_temp) ≡ false
      → mode_check fl current_time clock c ≡ cc_check fl clock c
  unfolding mode_check
  mode_check_one current_time clock c one fine = rw fine (ground arith)

  -- A check of a charge at constant current that is still on is the check of that mode, behind the
  -- change of the current at low temperatures.
  charge_check_one :
      (current_time clock : ℕ) (c : Conf fl)
      → phase fl c ≡ constant_current
      → check_state (charge_check fl current_time clock c).state charging ≡ true
      → charge_check fl current_time clock c ≡ cc_check fl clock (cool_amps fl c)
  charge_check_one current_time clock c e after =
      let (on, one) = (phase_inv c).1 e in
      let (warm, fine) = charge_check_warm current_time clock c on after in
      let (t, s, _, _, _) = cool_amps_env c in
      let (_, m) = cool_amps-keeps fl c in
      let fine' = ap₂ (λ x y. ltb (lit 5 0) (pct fl x y)) t s ∙ fine in
      unfold charge_check in
      (rw (on, warm) (mode_check_one current_time clock (cool_amps fl c) (m ∙ one) fine'))

  -- Where the numbers are ordered, a check that finds a charge at constant current and leaves it at constant
  -- current leaves the voltage alone, or sets one that does not exceed the maximum.
  pub charge_check_voltage :
      (current_time clock : ℕ) (c : Conf fl)
      → IsOrdered fl
      → phase fl c ≡ constant_current
      → phase fl (charge_check fl current_time clock c) ≡ constant_current
      → ((charge_check fl current_time clock c).charge_voltage ≡ c.charge_voltage)
        ⊎ (ltb c.charge_max_voltage (charge_check fl current_time clock c).charge_voltage ≡ false)
  charge_check_voltage current_time clock c order e e' =
      let d = charge_check fl current_time clock c in
      let (on', one') = (phase_inv d).1 e' in
      let is = charge_check_one current_time clock c e on' in
      let (_, _, _, max, v) = cool_amps_env c in
      let r =
        cc_check_voltage clock (cool_amps fl c) order
          (ap (λ (x : Conf fl). x.charge_mode) (sym is) ∙ one') in
      rw is (elim r [
        | inl same ↦ inl (same ∙ v)
        | inr below ↦ inr (
            subst (λ m. ltb m (cc_check fl clock (cool_amps fl c)).charge_voltage ≡ false) max
              below)
      ])

  cc_check-amps : (clock : ℕ) (c : Conf fl) → (cc_check fl clock c).charge_amps ≡ c.charge_amps
  unfolding cc_check raise_voltage
  cc_check-amps clock c = ground arith

  -- Between 0 and 5 degrees every check of a charge at constant current that stays on divides the
  -- current by four again, also where a check before has done so.
  pub charge_check_quarters :
      (current_time clock : ℕ) (c : Conf fl)
      → phase fl c ≡ constant_current
      → leb c.battery_temp (lit 50 1) ≡ true
      → check_state (charge_check fl current_time clock c).state charging ≡ true
      → (charge_check fl current_time clock c).charge_amps ≡ single (div c.charge_amps (lit 40 1))
  unfolding cool_amps
  charge_check_quarters current_time clock c e cold after =
      rw (charge_check_one current_time clock c e after, cc_check-amps, cold)
