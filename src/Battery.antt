-- ===== src/Battery.antt =====
-- battery.c: the defaults of each chemistry and the charge control, with `pct` of main.c. Messages
-- to the log are left out.
pub mod Phases
pub mod Safety
pub mod Init
use mybmm.Base.{
  ℕ, ◌+◌, ◌-◌, ◌*◌, Bool, true, false, not, ◌&&◌, ◌||◌, if◌then◌else◌, ◌==◌, leb as le_time,
  ltb as lt_nat, ℤ, pos, negsuc, is_zero, is_neg, set_state, clear_state, check_state,
}
use mybmm.Floats.{Floats, addf, subf, mulf, divf, intf}
use mybmm.Config.{Config, charging}

-- enum BATTERY_CHEMS
pub data Chem : Type 0 where
  lithium lifepo4 titanate : Chem

-- the `switch`, whose default is the first case
chem_of : ℤ → Chem
chem_of (pos n) = if n == 2 then lifepo4 else if n == 3 then titanate else lithium
chem_of (negsuc n) = lithium

module _ (fl : Floats) where
  open fl use {Number, ltb, leb, add, sub, mul, div, single, to_int, lit}

  abbrev pub Conf : Type 0
  Conf = Config Number

  -- `x < 0.0`
  abbrev pub is_unset : Number → Bool
  is_unset x = ltb x (lit 0 0)

  -- `if (field < 0) field = value`
  abbrev default_to : Number → Number → Number
  default_to x value = if is_unset x then single value else x

  unfoldable pub charge_stop : Conf → Conf
  unfolding clear_state
  charge_stop c = record c {
    state = clear_state c.state charging;
    charge_amps = single (lit 1 1);
    charge_voltage =
        if is_unset c.user_charge_voltage
        then mulf fl c.cell_high (intf fl c.cells)
        else c.user_charge_voltage;
    discharge_voltage =
        if is_unset c.user_discharge_voltage
        then mulf fl c.cell_low (intf fl c.cells)
        else c.user_discharge_voltage;
    discharge_amps =
        if is_unset c.user_discharge_amps
        then mulf fl c.e_rate c.capacity
        else c.user_discharge_amps;
  }

  -- the two settings of the voltage in `charge_start`
  start_voltage : Conf → Conf
  start_voltage c =
      if c.charge_at_max
      then record c { charge_voltage = c.charge_max_voltage }
      else let v : Number =
          if is_unset c.user_charge_voltage
          then mulf fl c.cell_high (intf fl c.cells)
          else c.user_charge_voltage in
        record c { charge_voltage = v; charge_target_voltage = v }

  start_amps : Conf → Conf
  start_amps c = record c {
    charge_amps =
        if is_unset c.user_charge_amps then mulf fl c.c_rate c.capacity else c.user_charge_amps;
    charge_mode = 1;
    tvolt = c.battery_voltage;
    start_temp = c.battery_temp;
  }

  unfoldable pub charge_start : Conf → Conf
  unfolding start_voltage start_amps set_state
  charge_start c =
      if is_zero (to_int c.capacity)
      then c
      else start_amps (start_voltage (record c { state = set_state c.state charging }))

  -- one `case` of the `switch` in `battery_init`: the defaults, then the limits of the chemistry
  chem_defaults :
      (low crit_low high crit_high crate erate : Number) (cells : ℕ) (min max : Number)
      → Conf
      → Conf
  chem_defaults low crit_low high crit_high crate erate cells min max c = record c {
    cell_low = default_to c.cell_low low;
    cell_crit_low = default_to c.cell_crit_low crit_low;
    cell_high = default_to c.cell_high high;
    cell_crit_high = default_to c.cell_crit_high crit_high;
    c_rate = default_to c.c_rate crate;
    e_rate = default_to c.e_rate erate;
    cells = if is_neg c.cells then pos cells else c.cells;
    cell_min = single min;
    cell_max = single max;
  }

  chem_case : Chem → Conf → Conf
  unfolding chem_defaults
  chem_case lithium =
      chem_defaults (lit 30 1) (lit 295 2) (lit 42 1) (lit 425 2) (lit 7 1) (lit 1 0) 14 (lit 28 1)
        (lit 42 1)
  chem_case lifepo4 =
      chem_defaults (lit 25 1) (lit 20 1) (lit 34 1) (lit 370 2) (lit 1 0) (lit 1 0) 16 (lit 25 1)
        (lit 365 2)
  chem_case titanate =
      chem_defaults (lit 181 2) (lit 18 1) (lit 285 2) (lit 288 2) (lit 1 0) (lit 10 0) 22
        (lit 18 1) (lit 285 2)

  -- `battery_init` behind the `switch`
  init_limits : Conf → Conf
  init_limits c = record c {
    charge_max_voltage =
        if is_unset c.user_charge_voltage
        then mulf fl c.cell_max (intf fl c.cells)
        else c.user_charge_max_voltage;
    charge_target_voltage = mulf fl c.cell_high (intf fl c.cells);
    capacity = if is_unset c.user_capacity then single (lit 0 0) else c.user_capacity;
  }

  unfoldable pub battery_init : Conf → Conf
  unfolding chem_of chem_case init_limits charge_stop charge_start
  battery_init c = charge_start (charge_stop (init_limits (chem_case (chem_of c.battery_chem) c)))

  -- main.c: by how many percent of `val1` it lies above `val2`
  unfoldable pub pct : Number → Number → Number
  pct val1 val2 = single (sub (lit 100 0) (mul (divf fl val2 val1) (lit 1000 1)))

  -- a tenth of a volt more, up to the maximum
  pub raise_voltage : Conf → Conf
  raise_voltage c =
      let raised : Number = single (add c.charge_voltage (lit 1 1)) in
      record c {
        charge_voltage = if ltb c.charge_max_voltage raised then c.charge_max_voltage else raised;
      }

  -- the branch of `charge_mode == 1`; `clock` is read when saturation starts
  pub cc_check : ℕ → Conf → Conf
  unfolding raise_voltage
  cc_check clock c =
      let battery_amps : Number = mulf fl c.battery_amps (intf fl (negsuc 0)) in
      if ltb c.charge_target_voltage c.battery_voltage || leb c.cell_max c.pack_cell_max
      then record c {
        cv_start_time = clock;
        charge_mode = 2;
        charge_voltage =
            if is_unset c.user_charge_voltage
            then mulf fl c.cell_high (intf fl c.cells)
            else c.user_charge_voltage;
      }
      else if ltb battery_amps c.charge_amps
          && ltb (lit 600 1) c.frequency
          && ltb c.charge_voltage c.charge_max_voltage
      then raise_voltage c
      else c

  -- the branch of `charge_mode == 2`
  pub cv_check : ℕ → Conf → Conf
  unfolding charge_stop
  cv_check current_time c =
      if le_time (c.cv_start_time + 2 * 3600) current_time then charge_stop c else c

  -- the branch of a charge that goes on at a battery temperature above 0
  pub mode_check : ℕ → ℕ → Conf → Conf
  unfolding cc_check cv_check charge_stop pct
  mode_check current_time clock c =
      if ltb (lit 5 0) (pct c.battery_temp c.start_temp)
      then charge_stop c
      else if c.charge_mode == 1
      then cc_check clock c
      else if c.charge_mode == 2
      then cv_check current_time c
      else c

  -- "If battery temp <= 5C, reduce charge rate by 1/4"
  pub cool_amps : Conf → Conf
  cool_amps c =
      if leb c.battery_temp (lit 50 1)
      then record c { charge_amps = single (div c.charge_amps (lit 40 1)) }
      else c

  -- The clock is read on entry, and again by `cc_check`.
  unfoldable pub charge_check : ℕ → ℕ → Conf → Conf
  unfolding check_state mode_check cool_amps charge_stop charge_start
  charge_check current_time clock c =
      if check_state c.state charging
      then (if leb c.battery_temp (lit 0 1)
          then charge_stop c
          else mode_check current_time clock (cool_amps c))
      else if ltb c.battery_voltage c.discharge_voltage || leb c.pack_cell_min c.cell_min
      then charge_start c
      else c
