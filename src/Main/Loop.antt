-- ===== src/Main/Loop.antt =====
-- main.c: the rest of a round, from the sums over the packs to the settings that are written to the
-- inverter.
use mybmm.Base.{
  ℕ, ◌+◌, Bool, true, false, not, ◌&&◌, Option, none, some, ◌>>=◌, List, ◌==◌, if◌then◌else◌,
  length, pos, is_zero,
}
use mybmm.Floats.{Floats, subf, mulf, divf, intf}
use mybmm.Battery.{Conf, charge_stop, charge_start, charge_check, is_unset}
use mybmm.Pack.{Pack}
use mybmm.Main.{Inverter, pack_update_all, Sums, start_sums, scan_packs, leave_critical}

module _ (fl : Floats) where
  open fl use {Number, ltb, mul, div, single, lit, to_int}

  unfoldable pub mean_temp : Sums fl → Option (Inverter Number) → Number
  mean_temp s none =
      if s.packs_reported == 0
      then lit 250 1
      else divf fl s.temp_total (intf fl (pos s.packs_reported))
  mean_temp s (some inv) =
      if s.packs_reported == 0
      then inv.battery_temp
      else divf fl s.temp_total (intf fl (pos s.packs_reported))

  unfoldable pub from_packs : Sums fl → Conf fl → Conf fl
  from_packs s c = record c {
    battery_voltage = divf fl s.voltage_total (intf fl (pos s.packs_reported));
    battery_amps = divf fl s.current_total (intf fl (pos s.packs_reported));
  }

  unfoldable pub readings : Sums fl → Option (Inverter Number) → Conf fl → Conf fl
  unfolding from_packs
  readings s none c = if s.packs_reported == 0 then c else from_packs s c
  readings s (some inv) c =
      if not (s.packs_reported == 0) && c.use_packv
      then from_packs s c
      else record c { battery_voltage = inv.battery_voltage; battery_amps = inv.battery_amps }

  -- What the packs, and an inverter that has reported, say of the battery.
  unfoldable pub battery_state : Sums fl → Option (Inverter Number) → Conf fl → Conf fl
  unfolding mean_temp readings
  battery_state s inv c = readings s inv (record c { battery_temp = single (mean_temp s inv) })

  -- The capacity, with whether it is to be reported.
  unfoldable pub find_capacity : ℕ → Sums fl → Conf fl → Bool → Conf fl × Bool
  find_capacity npacks s c repcap =
      if not (is_zero (to_int c.capacity))
      then (c, repcap)
      else if ltb (lit 0 1) c.user_capacity
      then (record c { capacity = c.user_capacity }, true)
      else if not (npacks == 0) && s.packs_reported == npacks
      then (record c { capacity = s.capacity_total }, true)
      else (c, repcap)

  unfoldable pub report_capacity : Conf fl × Bool → Conf fl
  report_capacity (c, repcap) =
      if repcap
      then record c {
        kwh = single (div (mulf fl c.capacity (intf fl c.system_voltage)) (lit 10000 1));
      }
      else c

  unfoldable pub state_of_charge : Conf fl → Conf fl
  state_of_charge c = record c {
    soc =
        if is_unset fl c.user_soc
        then single (
            mul
              (divf fl (subf fl c.battery_voltage c.discharge_voltage)
                (subf fl c.charge_target_voltage c.discharge_voltage))
              (lit 1000 1))
        else c.user_soc;
    soh = single (lit 1000 1);
  }

  -- The settings before an `inverter_write`: the first one ends the charge.
  unfoldable pub before_write : ℕ → Conf fl → Conf fl
  unfolding charge_stop
  before_write startup c =
      if startup == 1
      then record (charge_stop fl c) { charge_amps = single (lit 1 1); soc = single (lit 999 1) }
      else c

  -- The count of the first rounds, at whose end a charge may start.
  unfoldable pub after_write : ℕ → Conf fl → Conf fl × ℕ
  unfolding charge_start
  after_write startup c =
      if startup == 0
      then (c, 0)
      else if startup + 1 == 3
      then (if ltb c.soc (lit 950 1) then charge_start fl c else c, 0)
      else (c, startup + 1)

  -- What the loop keeps from round to round. (`repcap` is 0 at the end of each.)
  pub record LoopState : Type 0 where
    pub conf : Conf fl
    pub startup : ℕ

  -- The program ends, sleeps for `interval` and goes on, or has come to the end of the round, with
  -- the settings that were written to the inverter.
  pub data Round : Type 0 where
    quit : Round
    wait : LoopState → Round
    written : Option (Conf fl) → LoopState → Round

  unfoldable pub finish_round : Option (Conf fl) → Conf fl × ℕ → Round
  finish_round sent (c, n) = written sent (record { conf = c; startup = n })

  -- The round behind the scan, once something has been reported.
  unfoldable pub report_round : ℕ → ℕ → ℕ → Option (Inverter Number) → Sums fl → LoopState → Round
  unfolding battery_state find_capacity report_capacity state_of_charge before_write after_write
      finish_round charge_check
  report_round current_time clock npacks inv s l =
      let c1 = report_capacity (find_capacity npacks s l.conf false) in
      let c2 = charge_check fl current_time clock (state_of_charge (battery_state s inv c1)) in
      elim inv [
        | none ↦ finish_round none (after_write l.startup c2)
        | some _ ↦
            let c3 = before_write l.startup c2 in finish_round (some c3) (after_write l.startup c3)
      ]

  -- A round from the settings after `inverter_read`, with `inv` an inverter that has reported.
  -- `source` says that there is a configuration file or an inverter.
  unfoldable pub main_round :
      (Pack Number → Pack Number)
      → Bool
      → ℕ
      → ℕ
      → Option (Inverter Number)
      → List (Pack Number)
      → LoopState
      → Option Round
  unfolding report_round
  main_round run source current_time clock inv packs l =
      let zeroed = record l.conf {
        battery_voltage = single (lit 0 1);
        battery_amps = single (lit 0 1);
      } in
      let (c, pps) = pack_update_all fl run zeroed packs in
      do
        s ← scan_packs fl (start_sums fl c) pps
        let l' = record l { conf = leave_critical fl s.all_in_range s.conf }
        some (elim inv [
          | none ↦
              (if s.packs_reported == 0
                then (if source then wait l' else quit)
                else report_round current_time clock (length pps) none s l')
          | some i ↦ report_round current_time clock (length pps) (some i) s l'
        ])
