-- ===== src/Tests/Packs.antt =====
-- A pack of two cells, its monitor, and rounds of the main loop over it.
use mybmm.Base.{
  ℕ, ◌+◌, ◌==◌, if◌then◌else◌, ◌≡◌, refl, true, false, arith, ℤ, pos, [], ◌∷◌, none, some,
  check_state, is_zero, set_state,
}
use mybmm.Config.{charging}
use mybmm.Battery.{Conf}
use mybmm.Pack.{Pack, Monitor, pack_update}
use mybmm.Pack.Extremes.{IsUpdate, pack_update-IsUpdate}
use mybmm.Main.{Inverter, pack_update_all, Sums, start_sums, scan_packs, leave_critical}
use mybmm.Main.Loop.{Round, written, main_round}
use mybmm.Main.Critical.{IsDecided, scan_packs_critical}
use mybmm.Main.Rounds.{
  main_round_first, main_round_second, scanned, settled, IsUnsent, main_round_unreported,
}
use mybmm.Tests.Fixed.{fixed, fixed-IsOrdered}
use mybmm.Tests.Charge.{charging_now}

-- As it is before the first update.
abbrev pub empty_pack : Pack ℤ
empty_pack = record {
  state = 0;
  capacity = pos 0;
  voltage = pos 0;
  current = pos 0;
  ntemps = 0;
  temps = (pos 0 ∷ pos 0 ∷ pos 0 ∷ []);
  cells = 0;
  cellvolt = (pos 0 ∷ pos 0 ∷ pos 0 ∷ pos 0 ∷ []);
  cell_min = pos 0;
  cell_max = pos 0;
  cell_diff = pos 0;
  cell_avg = pos 0;
  balancebits = 0;
}

-- As its monitor reports it.
abbrev read_pack : Pack ℤ
read_pack = record empty_pack {
  capacity = pos 100000;
  ntemps = 1;
  temps = (pos 25000 ∷ pos 0 ∷ pos 0 ∷ []);
  cells = 2;
  cellvolt = (pos 3310 ∷ pos 3290 ∷ pos 0 ∷ pos 0 ∷ []);
}

-- A monitor whose handle counts the calls; it fails to open at 10 and to read at 21.
abbrev monitor : Monitor ℤ
monitor = record {
  Handle = ℕ;
  open_it = λ h. (if h == 10 then pos 1 else pos 0, h + 1);
  read = λ pp h. some (if h == 21 then pos 1 else pos 0, read_pack, h + 1);
  close = λ h. h + 1;
}

update_run :
    pack_update fixed monitor (pos 9900) empty_pack 0
    ≡ some (
      pos 0,
      record read_pack {
        state = 1;
        voltage = pos 6600;
        cell_min = pos 3290;
        cell_max = pos 3310;
        cell_diff = pos 20;
        cell_avg = pos 3300;
      },
      3,
    )
unfolding pack_update set_state
update_run = refl

pack_update-IsUpdate_example :
    (pp' : Pack ℤ) × (pack_update fixed monitor (pos 9900) empty_pack 0 ≡ some (pos 0, pp', 3))
    × IsUpdate fixed fixed-IsOrdered pp'
    × (pp'.cellvolt ≡ (pos 3310 ∷ pos 3290 ∷ pos 0 ∷ pos 0 ∷ []))
pack_update-IsUpdate_example =
    pack_update-IsUpdate fixed fixed-IsOrdered monitor (pos 9900) empty_pack read_pack 0 1 2 refl
      refl (omega arith)

-- A pack that was updated, and one with a cell that is critically low.
abbrev good_pack : Pack ℤ
good_pack = record read_pack { state = 5 }

abbrev low_pack : Pack ℤ
low_pack = record good_pack { cellvolt = (pos 3310 ∷ pos 2400 ∷ pos 0 ∷ pos 0 ∷ []) }

abbrev running : Conf fixed
running = record charging_now { cell_crit_low = pos 2500; cell_crit_high = pos 3650 }

scan_packs_critical_example :
    (s : Sums fixed) × (scan_packs fixed (start_sums fixed running) (good_pack ∷ low_pack ∷ [])
      ≡ some s)
    × IsDecided fixed running
        (good_pack ∷ low_pack ∷ [])
        (leave_critical fixed s.all_in_range s.conf)
scan_packs_critical_example =
    scan_packs_critical fixed running (good_pack ∷ low_pack ∷ [])
      ((omega arith, omega arith), ((omega arith, omega arith), tt))

-- The inverter, and the update that the monitor makes.
abbrev pub inverter : Inverter ℤ
inverter = record {
  state = 1;
  battery_voltage = pos 52000;
  battery_amps = pos 1000;
  battery_temp = pos 20000;
}

abbrev refresh : Pack ℤ → Pack ℤ
refresh pp = record good_pack { state = pp.state + 5 }

main_round_first_example :
    (c : Conf fixed) × (main_round fixed refresh true 1000 1000
        (some inverter)
        (empty_pack ∷ [])
        (record { conf = running; startup = 1 })
      ≡ some (written (some c) (record { conf = c; startup = 2 })))
    × (check_state c.state charging ≡ false)
    × (c.charge_amps ≡ pos 100)
    × (c.soc ≡ pos 99900)
unfolding pack_update_all
main_round_first_example =
    main_round_first fixed refresh true 1000 1000 inverter (empty_pack ∷ []) running
      ((omega arith, omega arith), tt)

main_round_second_example :
    (s : Sums fixed) × (c : Conf fixed) × (c' : Conf fixed) × (scanned fixed refresh running
        (empty_pack ∷ [])
      ≡ some s)
    × (c ≡ settled fixed 1000 1000 inverter (empty_pack ∷ []) refresh running s)
    × (main_round fixed refresh true 1000 1000
          (some inverter)
          (empty_pack ∷ [])
          (record { conf = running; startup = 2 })
        ≡ some (written (some c) (record { conf = c'; startup = 0 })))
    × (main_round fixed refresh true 1000 1000
          (some inverter)
          (empty_pack ∷ [])
          (record { conf = running; startup = 0 })
        ≡ some (written (some c) (record { conf = c; startup = 0 })))
    × (fixed.ltb c.soc (pos 95000) ≡ true
        → is_zero (fixed.to_int c.capacity) ≡ false
        → check_state c'.state charging ≡ true)
    × (fixed.ltb c.soc (pos 95000) ≡ false → c' ≡ c)
unfolding pack_update_all
main_round_second_example =
    main_round_second fixed refresh true 1000 1000 inverter (empty_pack ∷ []) running
      ((omega arith, omega arith), tt)

main_round_unreported_example :
    (r : Round fixed) × (main_round fixed refresh true 1000 1000 none
        (empty_pack ∷ [])
        (record { conf = running; startup = 0 })
      ≡ some r)
    × IsUnsent fixed r
unfolding pack_update_all
main_round_unreported_example =
    main_round_unreported fixed refresh true 1000 1000 (empty_pack ∷ [])
      (record { conf = running; startup = 0 }) ((omega arith, omega arith), tt)
