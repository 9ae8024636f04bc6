-- ===== src/Main/Rounds.antt =====
-- What the rounds of the main loop write to the inverter, and when a charge starts.
use mybmm.Base.{
  ℕ, none, ◌≡◌, refl, sym, ◌∙◌, ap, Bool, true, false, Option, some, ◌>>=◌, List, length, is_zero,
  if◌then◌else◌, All, check_state, check-clear, Bool-cases, inl, inr, ◌==◌,
}
use mybmm.Floats.{Floats}
use mybmm.Config.{charging, charging_bit}
use mybmm.Battery.{Conf, charge_stop, charge_start, charge_check}
use mybmm.Battery.Phases.{charge_start_charges}
use mybmm.Pack.{Pack}
use mybmm.Main.{Inverter, pack_update_all, Sums, start_sums, scan_packs, leave_critical}
use mybmm.Main.Loop.{
  battery_state, find_capacity, report_capacity, state_of_charge, before_write, after_write,
  LoopState, Round, written, finish_round, report_round, main_round, quit, wait,
}
use mybmm.Main.Critical.{Fits, scan_packs_critical}

some_lem : {A : Type 0} {a b : A} → some a ≡ some b → a ≡ b
some_lem e = cc

module _ (fl : Floats) where
  open fl use {Number, ltb, leb, single, lit}

  before_write-first :
      (c : Conf fl)
      → (check_state (before_write fl 1 c).state charging ≡ false)
        × ((before_write fl 1 c).charge_amps ≡ single (lit 1 1))
        × ((before_write fl 1 c).soc ≡ single (lit 999 1))
  unfolding before_write charge_stop
  before_write-first c = (rw (check-clear charging_bit charging_bit c.state), refl, refl)

  -- the packs as the update left them
  abbrev pub updated :
      (Pack Number → Pack Number) → Conf fl → List (Pack Number) → List (Pack Number)
  updated run c packs = (pack_update_all fl run c packs).1

  -- The settings of a round before the packs are updated,
  abbrev pub zeroed : Conf fl → Conf fl
  zeroed c = record c { battery_voltage = single (lit 0 1); battery_amps = single (lit 0 1) }

  -- the sums over the packs,
  abbrev pub scanned : (Pack Number → Pack Number) → Conf fl → List (Pack Number) → Option (Sums fl)
  scanned run c packs =
      let (c', pps) = pack_update_all fl run (zeroed c) packs in
      scan_packs fl (start_sums fl c') pps

  -- and what the round makes of them: the critical state, the capacity, the readings, the state of charge and the charge
  -- check.
  abbrev pub settled :
      ℕ
      → ℕ
      → Inverter Number
      → List (Pack Number)
      → (Pack Number → Pack Number)
      → Conf fl
      → Sums fl
      → Conf fl
  settled current_time clock i packs run c s = charge_check fl current_time clock (
      state_of_charge fl (
        battery_state fl s (some i) (
          report_capacity fl (
            find_capacity fl (length (pack_update_all fl run (zeroed c) packs).1) s
              (leave_critical fl s.all_in_range s.conf) false))))

  -- the round, from the settings before the write on
  unfoldable pub write_round : ℕ → Conf fl → Round fl
  write_round startup c =
      let c' = before_write fl startup c in finish_round fl (some c') (after_write fl startup c')

  main_round-write :
      (run : Pack Number → Pack Number) (source : Bool) (current_time clock : ℕ)
      (i : Inverter Number) (packs : List (Pack Number)) (l : LoopState fl)
      → All (Fits fl) (updated run l.conf packs)
      → (s : Sums fl) × (scanned run l.conf packs ≡ some s)
        × (main_round fl run source current_time clock (some i) packs l
            ≡ some (write_round l.startup (settled current_time clock i packs run l.conf s)))
  unfolding main_round pack_update_all report_round write_round
  main_round-write run source current_time clock i packs l fits =
      let c = (pack_update_all fl run (zeroed l.conf) packs).0 in
      let pps = (pack_update_all fl run (zeroed l.conf) packs).1 in
      let (s, e, _) = scan_packs_critical fl c pps fits in
      (
        s,
        e,
        ap
            (λ o. o >>= λ s. some (
              report_round fl current_time clock (length pps) (some i) s
                (record l { conf = leave_critical fl s.all_in_range s.conf })))
            e,
      )

  write_round_first :
      (c : Conf fl)
      → (c' : Conf fl) × (write_round 1 c ≡ written (some c') (record { conf = c'; startup = 2 }))
        × (check_state c'.state charging ≡ false)
        × (c'.charge_amps ≡ single (lit 1 1))
        × (c'.soc ≡ single (lit 999 1))
  unfolding write_round finish_round after_write
  write_round_first c = let (h, a, s) = before_write-first c in (before_write fl 1 c, refl, h, a, s)

  write_round_steady :
      (c : Conf fl) → write_round 0 c ≡ written (some c) (record { conf = c; startup = 0 })
  unfolding write_round finish_round after_write before_write
  write_round_steady c = refl

  write_round_second :
      (c : Conf fl)
      → (c' : Conf fl) × (write_round 2 c ≡ written (some c) (record { conf = c'; startup = 0 }))
        × (ltb c.soc (lit 950 1) ≡ true
            → is_zero (fl.to_int c.capacity) ≡ false
            → check_state c'.state charging ≡ true)
        × (ltb c.soc (lit 950 1) ≡ false → c' ≡ c)
  unfolding write_round finish_round after_write before_write
  write_round_second c = (
    if ltb c.soc (lit 950 1) then charge_start fl c else c,
    refl,
    λ low has. rw low ((charge_start_charges fl c has).0),
    λ high. rw high,
  )

  -- With the count of rounds at 1, as it is until a round has come to its end, a round that an inverter has
  -- reported in writes to the inverter, where no pack claims more cells or temperatures than its arrays
  -- hold. What it writes ends the charge: not charging, 0.1 A and a state of charge of 99.9,
  -- whatever the battery says. These are the settings the program goes on with, and the count becomes 2.
  pub main_round_first :
      (run : Pack Number → Pack Number) (source : Bool) (current_time clock : ℕ)
      (i : Inverter Number) (packs : List (Pack Number)) (conf : Conf fl)
      → All (Fits fl) (updated run conf packs)
      → (c : Conf fl) × (main_round fl run source current_time clock
            (some i)
            packs
            (record { conf = conf; startup = 1 })
          ≡ some (written (some c) (record { conf = c; startup = 2 })))
        × (check_state c.state charging ≡ false)
        × (c.charge_amps ≡ single (lit 1 1))
        × (c.soc ≡ single (lit 999 1))
  main_round_first run source current_time clock i packs conf fits =
      let (sums, _, e) =
        main_round-write run source current_time clock i packs (record { conf = conf; startup = 1 })
          fits in
      let (c', w, h, a, s) = write_round_first (settled current_time clock i packs run conf sums) in
      (c', e ∙ ap some w, h, a, s)

  -- With the count of rounds at 2, a round that an inverter has reported in writes what it has worked out from
  -- the sums over the packs and the inverter's report, which is what the same round writes with the count at 0,
  -- where no pack claims more cells or temperatures than its arrays hold. Behind that it starts a charge
  -- if the state of charge is below 95 and the capacity is known; with a higher one it goes on with what it has
  -- written. The count becomes 0 and stays 0.
  pub main_round_second :
      (run : Pack Number → Pack Number) (source : Bool) (current_time clock : ℕ)
      (i : Inverter Number) (packs : List (Pack Number)) (conf : Conf fl)
      → All (Fits fl) (updated run conf packs)
      → (s : Sums fl) × (c : Conf fl) × (c' : Conf fl) × (scanned run conf packs ≡ some s)
        × (c ≡ settled current_time clock i packs run conf s)
        × (main_round fl run source current_time clock
              (some i)
              packs
              (record { conf = conf; startup = 2 })
            ≡ some (written (some c) (record { conf = c'; startup = 0 })))
        × (main_round fl run source current_time clock
              (some i)
              packs
              (record { conf = conf; startup = 0 })
            ≡ some (written (some c) (record { conf = c; startup = 0 })))
        × (ltb c.soc (lit 950 1) ≡ true
            → is_zero (fl.to_int c.capacity) ≡ false
            → check_state c'.state charging ≡ true)
        × (ltb c.soc (lit 950 1) ≡ false → c' ≡ c)
  main_round_second run source current_time clock i packs conf fits =
      let (s, scan, e) =
        main_round-write run source current_time clock i packs (record { conf = conf; startup = 2 })
          fits in
      let (s0, scan0, e0) =
        main_round-write run source current_time clock i packs (record { conf = conf; startup = 0 })
          fits in
      let same : s0 ≡ s = some_lem (sym scan0 ∙ scan) in
      let c = settled current_time clock i packs run conf s in
      let (c', w, low, high) = write_round_second c in
      (
        s,
        c,
        c',
        scan,
        refl,
        e ∙ ap some w,
        e0
            ∙ ap (λ z. some (write_round 0 (settled current_time clock i packs run conf z))) same
            ∙ ap some (write_round_steady c),
        low,
        high,
      )

  -- The critically high voltage that is configured has no part in a round: whatever it is set to,
  -- the outcome is the same.
  pub main_round_crit_high :
      (run : Pack Number → Pack Number) (source : Bool) (current_time clock : ℕ)
      (inv : Option (Inverter Number)) (packs : List (Pack Number)) (l : LoopState fl) (v : Number)
      → main_round fl run source current_time clock inv packs
          (record l { conf = record l.conf { cell_crit_high = v } })
        ≡ main_round fl run source current_time clock inv packs l
  unfolding main_round pack_update_all
  main_round_crit_high run source current_time clock inv packs l v = refl

  -- Nothing was written to the inverter.
  abbrev pub IsUnsent : Round fl → Type 0
  IsUnsent quit = Unit
  IsUnsent (wait _) = Unit
  IsUnsent (written none _) = Unit
  IsUnsent (written (some _) _) = ⊥

  -- A round without a report of the inverter ends, where no pack claims more cells or temperatures
  -- than its arrays hold, and writes nothing to the inverter.
  pub main_round_unreported :
      (run : Pack Number → Pack Number) (source : Bool) (current_time clock : ℕ)
      (packs : List (Pack Number)) (l : LoopState fl)
      → All (Fits fl) (updated run l.conf packs)
      → (r : Round fl) × (main_round fl run source current_time clock none packs l ≡ some r)
        × IsUnsent r
  unfolding main_round pack_update_all report_round finish_round
  main_round_unreported run source current_time clock packs l fits =
      let zeroed = record l.conf {
        battery_voltage = single (lit 0 1);
        battery_amps = single (lit 0 1);
      } in
      let c = (pack_update_all fl run zeroed packs).0 in
      let pps = (pack_update_all fl run zeroed packs).1 in
      let (s, e, _) = scan_packs_critical fl c pps fits in
      let l' : LoopState fl = record l { conf = leave_critical fl s.all_in_range s.conf } in
      let outcome : Round fl =
        if s.packs_reported == 0
        then (if source then wait l' else quit)
        else report_round fl current_time clock (length pps) none s l' in
      (
        outcome,
        ap
            (λ o. o >>= λ s. some (
              if s.packs_reported == 0
              then (if source
                  then wait (record l { conf = leave_critical fl s.all_in_range s.conf })
                  else quit)
              else report_round fl current_time clock (length pps) none s
                  (record l { conf = leave_critical fl s.all_in_range s.conf })))
            e,
        elim (Bool-cases (s.packs_reported == 0)) [
          | inr some_packs ↦ rw some_packs tt
          | inl no_pack ↦ elim (Bool-cases source) [
            | inl file ↦ rw (no_pack, file) tt
            | inr no_file ↦ rw (no_pack, no_file) tt
          ]
        ],
      )
