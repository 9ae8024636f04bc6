-- ===== src/Battery/Phases.antt =====
-- The phases of a charge and the steps that `charge_check` makes between them.
use mybmm.Base.{
  ℕ, ◌+◌, ◌*◌, ◌≡◌, ◌⊎◌, inl, inr, ◌∙◌, ap, is_zero, set_state, Bool, true, false, ◌||◌, arith,
  if◌then◌else◌, ◌==◌, check_state, check-set, check-clear, Bool-cases, leb as le_time,
}
use mybmm.Floats.{Floats}
use mybmm.Config.{charging, charging_bit}
use mybmm.Battery.{
  Conf, charge_stop, charge_start, start_voltage, cc_check, cv_check, mode_check, cool_amps,
  charge_check, pct,
}

-- No charge, constant current, constant voltage, and a charge in a mode that no code sets.
pub data Phase : Type 0 where
  idle : Phase
  constant_current : Phase
  constant_voltage : Phase
  lost : Phase

unfoldable pub mode_phase : ℕ → Phase
mode_phase m = if m == 1 then constant_current else if m == 2 then constant_voltage else lost

unfoldable pub phase_of : Bool → ℕ → Phase
unfolding mode_phase
phase_of on m = if on then mode_phase m else idle

-- The steps of a charge: it starts with constant current, may change to constant voltage once,
-- and may end at any time.
pub data Step : Phase → Phase → Type 0 where
  stay : {p : Phase} → Step p p
  start : Step idle constant_current
  saturate : Step constant_current constant_voltage
  stop : {p : Phase} → Step p idle

module _ (fl : Floats) where
  open fl use {Number, ltb, leb, lit}

  unfoldable pub phase : Conf fl → Phase
  unfolding phase_of
  phase c = phase_of (check_state c.state charging) c.charge_mode

  pub charge_stop-idle : (c : Conf fl) → check_state (charge_stop fl c).state charging ≡ false
  unfolding charge_stop
  charge_stop-idle c = ground (arith, check-clear charging_bit charging_bit c.state)

  start_voltage-state : (c : Conf fl) → (start_voltage fl c).state ≡ c.state
  unfolding start_voltage
  start_voltage-state c = ground arith

  pub charge_start_charges :
      (c : Conf fl)
      → is_zero (fl.to_int c.capacity) ≡ false
      → (check_state (charge_start fl c).state charging ≡ true)
        × ((charge_start fl c).charge_mode ≡ 1)
  unfolding charge_start
  charge_start_charges c has =
      let on = record c { state = set_state c.state charging } in
      let s : (charge_start fl c).state ≡ set_state c.state charging =
        rw has (start_voltage-state on) in
      (rw s (rw (check-set charging_bit charging_bit c.state)), rw has)

  -- A start does nothing without a capacity, and else begins a charge at constant current.
  charge_start-cases :
      (c : Conf fl)
      → (charge_start fl c ≡ c)
        ⊎ ((check_state (charge_start fl c).state charging ≡ true)
            × ((charge_start fl c).charge_mode ≡ 1))
  unfolding charge_start
  charge_start-cases c = elim (Bool-cases (is_zero (fl.to_int c.capacity))) [
    | inl empty ↦ inl (rw empty)
    | inr has ↦ inr (charge_start_charges c has)
  ]

  pub cc_check-cases :
      (clock : ℕ) (c : Conf fl)
      → ((cc_check fl clock c).state ≡ c.state)
        × (((cc_check fl clock c).charge_mode ≡ c.charge_mode)
            ⊎ ((cc_check fl clock c).charge_mode ≡ 2))
  unfolding cc_check
  cc_check-cases clock c = ground arith

  pub cool_amps-keeps :
      (c : Conf fl)
      → ((cool_amps fl c).state ≡ c.state) × ((cool_amps fl c).charge_mode ≡ c.charge_mode)
  unfolding cool_amps
  cool_amps-keeps c = ground arith

  pub cv_check-cases :
      (current_time : ℕ) (c : Conf fl)
      → (cv_check fl current_time c ≡ c) ⊎ (cv_check fl current_time c ≡ charge_stop fl c)
  unfolding cv_check
  cv_check-cases current_time c =
      elim (Bool-cases (le_time (c.cv_start_time + 2 * 3600) current_time)) [
        | inl over ↦ inr (rw over)
        | inr on ↦ inl (rw on)
      ]

  pub idle_of : (c : Conf fl) → check_state c.state charging ≡ false → phase c ≡ idle
  unfolding phase
  idle_of c off = rw off

  phase_same :
      (c d : Conf fl) → d.state ≡ c.state → d.charge_mode ≡ c.charge_mode → phase d ≡ phase c
  unfolding phase
  phase_same c d s m = rw (s, m)

  pub phase_cc :
      (c : Conf fl)
      → check_state c.state charging ≡ true
      → c.charge_mode ≡ 1
      → phase c ≡ constant_current
  unfolding phase
  phase_cc c on m = rw (on, m)

  pub phase_cv :
      (c : Conf fl)
      → check_state c.state charging ≡ true
      → c.charge_mode ≡ 2
      → phase c ≡ constant_voltage
  unfolding phase
  phase_cv c on m = rw (on, m)

  Step-stop : (c : Conf fl) → Step (phase c) (phase (charge_stop fl c))
  Step-stop c = rw (idle_of (charge_stop fl c) (charge_stop-idle c)) stop

  cc_check-Step :
      (clock : ℕ) (c : Conf fl)
      → check_state c.state charging ≡ true
      → c.charge_mode ≡ 1
      → Step (phase c) (phase (cc_check fl clock c))
  cc_check-Step clock c on m =
      let (s, cases) = cc_check-cases clock c in
      elim cases [
        | inl same ↦ rw (phase_same c (cc_check fl clock c) s same) stay
        | inr two ↦
            rw
              (
                phase_cc c on m,
                phase_cv (cc_check fl clock c) (ap (λ t. check_state t charging) s ∙ on) two,
              )
              saturate
      ]

  mode_check-Step :
      (current_time clock : ℕ) (c : Conf fl)
      → check_state c.state charging ≡ true
      → Step (phase c) (phase (mode_check fl current_time clock c))
  unfolding mode_check
  mode_check-Step current_time clock c on =
      elim (Bool-cases (ltb (lit 5 0) (pct fl c.battery_temp c.start_temp))) [
        | inl hot ↦ rw hot (Step-stop c)
        | inr fine ↦ rw fine (elim (Bool-cases (c.charge_mode == 1)) [
          | inl one ↦ rw one (cc_check-Step clock c on (ground arith))
          | inr other ↦ rw other (elim (Bool-cases (c.charge_mode == 2)) [
            | inl two ↦ rw two (elim (cv_check-cases current_time c) [
              | inl same ↦ rw same stay
              | inr over ↦ rw over (Step-stop c)
            ])
            | inr none ↦ rw none stay
          ])
        ])
      ]

  -- Every `charge_check` is a step of the charge: constant voltage follows constant current only,
  -- is never left for it, and a charge begins with constant current.
  pub charge_check-Step :
      (current_time clock : ℕ) (c : Conf fl)
      → Step (phase c) (phase (charge_check fl current_time clock c))
  unfolding charge_check
  charge_check-Step current_time clock c = elim (Bool-cases (check_state c.state charging)) [
    | inl on ↦ rw on (elim (Bool-cases (leb c.battery_temp (lit 0 1))) [
      | inl frozen ↦ rw frozen (Step-stop c)
      | inr warm ↦
          let (s, m) = cool_amps-keeps c in
          let same = phase_same c (cool_amps fl c) s m in
          rw (warm, ← same)
            (mode_check-Step current_time clock (cool_amps fl c)
              (ap (λ t. check_state t charging) s ∙ on))
    ])
    | inr off ↦
        rw off
          (elim (Bool-cases
            (ltb c.battery_voltage c.discharge_voltage || leb c.pack_cell_min c.cell_min)) [
              | inl low ↦ rw low (elim (charge_start-cases c) [
                | inl same ↦ rw same stay
                | inr (on, one) ↦ rw (idle_of c off, phase_cc (charge_start fl c) on one) start
              ])
              | inr full ↦ rw full stay
            ])
  ]
