-- ===== src/Config.antt =====
-- config.h: the part of `struct mybmm_config` that the charge control and the main loop use, and
-- the bits of its state word (mybmm.h).
use mybmm.Base.{ℕ, Bool, ℤ, bit}

-- MYBMM_CHARGING 0x0004, MYBMM_CRIT_CELLVOLT 0x0008, MYBMM_FORCE_SOC 0x0010
abbrev pub charging_bit : ℕ
charging_bit = 2

abbrev pub crit_cellvolt_bit : ℕ
crit_cellvolt_bit = 3

abbrev pub force_soc_bit : ℕ
force_soc_bit = 4

abbrev pub charging : ℕ
charging = bit charging_bit

abbrev pub crit_cellvolt : ℕ
crit_cellvolt = bit crit_cellvolt_bit

abbrev pub force_soc : ℕ
force_soc = bit force_soc_bit

-- `Number` is the type of the `float` fields; a `time_t` counts seconds.
pub record Config (Number : Type 0) : Type 0 where
  pub state : ℕ
  pub interval : ℕ
  pub system_voltage : ℤ
  pub battery_chem : ℤ
  pub battery_voltage : Number
  pub battery_amps : Number
  pub battery_temp : Number
  pub frequency : Number
  pub cells : ℤ
  pub cell_low : Number
  pub cell_min : Number
  pub cell_crit_low : Number
  pub cell_high : Number
  pub cell_max : Number
  pub cell_crit_high : Number
  pub capacity : Number
  pub c_rate : Number
  pub e_rate : Number
  pub kwh : Number
  pub soc : Number
  pub soh : Number
  pub discharge_voltage : Number
  pub discharge_amps : Number
  pub charge_voltage : Number
  pub charge_amps : Number
  pub user_capacity : Number
  pub user_charge_voltage : Number
  pub user_charge_amps : Number
  pub user_discharge_voltage : Number
  pub user_discharge_amps : Number
  pub user_soc : Number
  pub use_packv : Bool
  pub charge_mode : ℕ
  pub charge_max_voltage : Number
  pub charge_target_voltage : Number
  pub user_charge_max_voltage : Number
  pub charge_at_max : Bool
  pub pack_temp_max : Number
  pub start_temp : Number
  pub pack_cell_max : Number
  pub pack_cell_min : Number
  pub cv_start_time : ℕ
  pub tvolt : Number
