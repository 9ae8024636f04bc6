-- ===== src/Tests/Charge.antt =====
-- The charge control of battery.c on a pack of 16 LiFePO4 cells.
use mybmm.Base.{◌≡◌, refl, ◌⊎◌, false, arith, ℤ, pos, negsuc, check_state}
use mybmm.Battery.{Conf, battery_init, charge_check, pct}
use mybmm.Battery.Phases.{idle, Step, phase, charge_check-Step}
use mybmm.Battery.Safety.{charge_check_warm, charge_check_ends, charge_check_voltage}
use mybmm.Tests.Fixed.{fixed, fixed-IsOrdered}

abbrev pub unset : ℤ
unset = negsuc 999

-- Settings with nothing given but the chemistry and a capacity of 100 Ah, at 25 degrees.
abbrev pub settings : Conf fixed
settings = record {
  state = 0;
  interval = 30;
  system_voltage = pos 48;
  battery_chem = pos 2;
  battery_voltage = pos 50000;
  battery_amps = pos 0;
  battery_temp = pos 25000;
  frequency = pos 61000;
  cells = pos 16;
  cell_low = unset;
  cell_min = pos 0;
  cell_crit_low = unset;
  cell_high = unset;
  cell_max = pos 0;
  cell_crit_high = unset;
  capacity = pos 0;
  c_rate = unset;
  e_rate = unset;
  kwh = pos 0;
  soc = pos 0;
  soh = pos 0;
  discharge_voltage = pos 0;
  discharge_amps = pos 0;
  charge_voltage = pos 0;
  charge_amps = pos 0;
  user_capacity = pos 100000;
  user_charge_voltage = unset;
  user_charge_amps = unset;
  user_discharge_voltage = unset;
  user_discharge_amps = unset;
  user_soc = unset;
  use_packv = false;
  charge_mode = 0;
  charge_max_voltage = pos 0;
  charge_target_voltage = pos 0;
  user_charge_max_voltage = unset;
  charge_at_max = false;
  pack_temp_max = pos 0;
  start_temp = pos 0;
  pack_cell_max = pos 3300;
  pack_cell_min = pos 3200;
  cv_start_time = 0;
  tvolt = pos 0;
}

-- A charge at constant current, at 25 and at 3 degrees, and one at constant voltage.
abbrev pub charging_now : Conf fixed
charging_now = record settings {
  state = 4;
  charge_mode = 1;
  start_temp = pos 25000;
  charge_voltage = pos 54400;
  charge_target_voltage = pos 54400;
  charge_max_voltage = pos 58400;
  charge_amps = pos 100000;
  cell_high = pos 3400;
  cell_max = pos 3650;
  cell_min = pos 2500;
}

abbrev charging_cold : Conf fixed
charging_cold = record charging_now { battery_temp = pos 3000; start_temp = pos 3000 }

abbrev saturating : Conf fixed
saturating = record charging_now { charge_mode = 2; cv_start_time = 1000 }

first_charge : (battery_init fixed settings).charge_voltage ≡ pos 54400
unfolding battery_init
first_charge = refl

one_step_up : (charge_check fixed 0 0 charging_now).charge_voltage ≡ pos 54500
unfolding charge_check
one_step_up = refl

charge_check-Step_example :
    Step (phase fixed charging_now) (phase fixed (charge_check fixed 0 0 charging_now))
charge_check-Step_example = charge_check-Step fixed 0 0 charging_now

charge_check_warm_example :
    (fixed.leb (pos 25000) (fixed.lit 0 1) ≡ false)
    × (fixed.ltb (fixed.lit 5 0) (pct fixed (pos 25000) (pos 25000)) ≡ false)
unfolding charge_check check_state
charge_check_warm_example = charge_check_warm fixed 0 0 charging_now refl refl

charge_check_ends_example : phase fixed (charge_check fixed 8200 8200 saturating) ≡ idle
unfolding phase check_state
charge_check_ends_example = charge_check_ends fixed 8200 8200 saturating refl (omega arith)

charge_check_voltage_example :
    ((charge_check fixed 0 0 charging_now).charge_voltage ≡ pos 54400)
    ⊎ (fixed.ltb (pos 58400) (charge_check fixed 0 0 charging_now).charge_voltage ≡ false)
unfolding charge_check phase check_state
charge_check_voltage_example = charge_check_voltage fixed 0 0 charging_now fixed-IsOrdered refl refl
