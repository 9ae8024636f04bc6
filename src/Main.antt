-- ===== src/Main.antt =====
-- main.c: one round of the main loop, from the packs and the inverter as they were read to the
-- settings for the inverter. pack.c: `pack_update_all`.
pub mod Loop
pub mod Critical
pub mod Rounds
use mybmm.Base.{
  ℕ, zero, suc, ◌+◌, Bool, true, false, not, ◌&&◌, Option, none, some, ◌>>=◌, List, [], ◌∷◌, map,
  ◌==◌, if◌then◌else◌, ltb as lt_nat, length, ℤ, pos, is_zero, bit, set_state, clear_state,
  check_state,
}
use mybmm.Floats.{Floats, addf, subf, mulf, divf, intf}
use mybmm.Config.{Config, crit_cellvolt, force_soc}
use mybmm.Battery.{Conf, charge_stop, charge_start, charge_check, is_unset}
use mybmm.Pack.{Pack, elements, updated_bit, discharging_bit}

-- What the inverter reports: the fields that the main loop uses.
pub record Inverter (Number : Type 0) : Type 0 where
  pub state : ℕ
  pub battery_voltage : Number
  pub battery_amps : Number
  pub battery_temp : Number

module _ (fl : Floats) where
  open fl use {Number, ltb, leb, mul, div, sub, single, lit, of_int, to_int}

  -- `run` is what the worker of a pack makes of it before it is done, or killed.
  unfoldable pub pack_update_all :
      (Pack Number → Pack Number) → Conf fl → List (Pack Number) → Conf fl × List (Pack Number)
  unfolding clear_state
  pack_update_all run c packs = (
    record c { cell_crit_high = single (lit 99 1) },
    map (λ pp. run (record pp { state = clear_state pp.state (bit updated_bit) })) packs,
  )

  -- The outcome of the loop over the cells of a pack: a cell out of range, or the minimum, the
  -- maximum and the sum.
  pub data CellScan : Type 0 where
    out_of_range : Conf fl → CellScan
    in_range : Number → Number → Number → CellScan

  -- `mybmm_force_soc(conf,101)`
  unfoldable pub force_full : Conf fl → Conf fl
  unfolding set_state
  force_full c = record c { soc = intf fl (pos 101); state = set_state c.state force_soc }

  unfoldable pub crit_high : Conf fl → Conf fl
  unfolding force_full set_state charge_stop
  crit_high c = force_full (charge_stop fl (record c { state = set_state c.state crit_cellvolt }))

  unfoldable pub crit_low : Conf fl → Conf fl
  unfolding set_state
  crit_low c = record c { state = set_state c.state crit_cellvolt }

  -- `n` cells are left to look at, from the rest of the array; `none` is a read behind its end.
  unfoldable pub scan_cells : Conf fl → Number → Number → Number → ℕ → List Number → Option CellScan
  unfolding crit_high crit_low
  scan_cells c min max total zero vs = some (in_range min max total)
  scan_cells c min max total (suc n) [] = none
  scan_cells c min max total (suc n) (v ∷ vs) =
      let rest =
        scan_cells c (if ltb v min then v else min) (if ltb max v then v else max) (addf fl total v)
          n vs in
      if leb v c.cell_crit_low
      then some (out_of_range (crit_low c))
      else if leb c.cell_crit_high v
      then some (out_of_range (crit_high c))
      else rest

  -- The sums over the packs, with the settings that the loop changes.
  pub record Sums : Type 0 where
    pub conf : Conf fl
    pub all_in_range : Bool
    pub voltage_total : Number
    pub current_total : Number
    pub capacity_total : Number
    pub temp_total : Number
    pub packs_reported : ℕ

  -- the loop over the temperatures of a pack
  unfoldable pub scan_temps : Sums → List Number → Sums
  scan_temps s [] = s
  scan_temps s (t ∷ ts) =
      scan_temps
        (record s {
          temp_total = addf fl s.temp_total t;
          conf = record s.conf {
            pack_temp_max = if ltb s.conf.pack_temp_max t then t else s.conf.pack_temp_max;
          };
        })
        ts

  -- the end of the body of the loop over the packs
  unfoldable pub add_pack : Sums → Pack Number → Number → Number → Number → List Number → Sums
  unfolding scan_temps check_state
  add_pack s pp min max total temps =
      let s1 = record s {
        voltage_total = addf fl s.voltage_total total;
        current_total = addf fl s.current_total pp.current;
      } in
      let s2 = scan_temps s1 temps in
      record s2 {
        conf = record s2.conf {
          pack_cell_min = if ltb min s2.conf.pack_cell_min then min else s2.conf.pack_cell_min;
          pack_cell_max = if ltb s2.conf.pack_cell_max max then max else s2.conf.pack_cell_max;
        };
        capacity_total =
            if check_state pp.state (bit discharging_bit)
            then addf fl s2.capacity_total pp.capacity
            else s2.capacity_total;
        packs_reported = s2.packs_reported + 1;
      }

  -- the loop over the packs; a cell out of range ends it
  unfoldable pub scan_one : (Sums → Option Sums) → Sums → Pack Number → CellScan → Option Sums
  unfolding add_pack
  scan_one go s pp (out_of_range c) = some (record s { conf = c; all_in_range = false })
  scan_one go s pp (in_range min max total) = do
    temps ← elements pp.temps pp.ntemps
    go (add_pack s pp min max total temps)

  unfoldable pub scan_packs : Sums → List (Pack Number) → Option Sums
  unfolding scan_one scan_cells check_state
  scan_packs s [] = some s
  scan_packs s (pp ∷ pps) =
      let skipped = scan_packs s pps in
      if not (check_state pp.state (bit updated_bit)) then skipped else do
        r ←
            scan_cells s.conf s.conf.cell_crit_high (single (lit 0 1)) (single (lit 0 0)) pp.cells
              pp.cellvolt
        scan_one (λ s'. scan_packs s' pps) s pp r

  -- the values before the loop over the packs
  unfoldable pub start_sums : Conf fl → Sums
  start_sums c = record {
    conf = record c {
      pack_temp_max = single (sub (lit 0 0) (lit 999999 2));
      pack_cell_max = single (sub (lit 0 0) (lit 999999 2));
      pack_cell_min = single (lit 9999999999 2);
    };
    all_in_range = true;
    voltage_total = single (lit 0 1);
    current_total = single (lit 0 1);
    capacity_total = single (lit 0 1);
    temp_total = single (lit 0 1);
    packs_reported = 0;
  }

  unfoldable pub leave_force_soc : ℕ → ℕ
  unfolding check_state clear_state
  leave_force_soc s = if check_state s force_soc then clear_state s force_soc else s

  -- "Are we in a critvolt state and are all cells in range now?"
  unfoldable pub leave_critical : Bool → Conf fl → Conf fl
  unfolding check_state clear_state leave_force_soc
  leave_critical ok c =
      if check_state c.state crit_cellvolt && ok
      then record c { state = leave_force_soc (clear_state c.state crit_cellvolt) }
      else c
