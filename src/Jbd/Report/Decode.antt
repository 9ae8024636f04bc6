-- ===== src/Jbd/Report/Decode.antt =====
-- The pack after `jbd_get_pack`.
use mybmm.Base.{
  ℕ, ◌≤◌, ◌<◌, ◌≡◌, refl, ap, ◌∙◌, none, some, List, arith, length, get_elem?, ℤ, Bool, true, false,
  bit, check_state, set_state, clear_state, check-set, check-clear, if◌then◌else◌, ◌==◌,
}
use mybmm.Floats.{Floats}
use mybmm.Pack.{Pack, pack_charging_bit, discharging_bit, balancing_bit}
use mybmm.Jbd.{cmd_read}
use mybmm.Jbd.Transfer.{Transport, jbd_rw}
use mybmm.Jbd.Transfer.Length.{jbd_rw_sized}
use mybmm.Jbd.Report.{
  short_at, fill, hundredths, ctemp, thousandths, balance_word, info_state, decode_info,
  decode_cells, get_info, get_cells, jbd_get_pack, mos_charge, mos_discharge, cmd_hwinfo,
  cmd_cellinfo,
}
use mybmm.Jbd.Report.Values.{get_elem?-some, short_at-some, IsValue, fill-some, fill_out}

same_branches : {A : Type 0} (b : Bool) (x : A) → (if b then x else x) ≡ x
same_branches true x = refl
same_branches false x = refl

check_flag :
    (b : Bool) (k j s : ℕ)
    → check_state (if b then set_state s (bit k) else clear_state s (bit k)) (bit j)
      ≡ (if k == j then b else check_state s (bit j))
check_flag true k j s = check-set k j s ∙ ground arith
check_flag false k j s = check-clear k j s ∙ ground arith

module _ (fl : Floats) where
  open fl use {Number}

  -- The flags of a pack that has been read: charging is the charge MOS, balancing the setting of the
  -- session, and discharging is set in any case.
  pub info_state_flags :
      (balancing : Bool) (fetbits s : ℕ)
      → (check_state (info_state fl balancing fetbits s) (bit pack_charging_bit)
          ≡ check_state fetbits mos_charge)
        × (check_state (info_state fl balancing fetbits s) (bit discharging_bit) ≡ true)
        × (check_state (info_state fl balancing fetbits s) (bit balancing_bit) ≡ balancing)
  unfolding info_state
  info_state_flags balancing fetbits s =
      let s1 =
        if check_state fetbits mos_charge
        then set_state s (bit pack_charging_bit)
        else clear_state s (bit pack_charging_bit) in
      let same =
        same_branches (check_state fetbits mos_discharge) (set_state s1 (bit discharging_bit)) in
      (
        check_flag balancing balancing_bit pack_charging_bit _
            ∙ ap (λ s2. check_state s2 (bit pack_charging_bit)) same
            ∙ check-set discharging_bit pack_charging_bit s1
            ∙ check_flag (check_state fetbits mos_charge) pack_charging_bit pack_charging_bit s,
        check_flag balancing balancing_bit discharging_bit _
            ∙ ap (λ s2. check_state s2 (bit discharging_bit)) same
            ∙ check-set discharging_bit discharging_bit s1,
        check_flag balancing balancing_bit balancing_bit _,
      )

  -- A pack that holds what the answer to HWINFO says: the values in their places, the charge MOS, the
  -- counts, and the temperatures.
  abbrev pub IsInfo : List ℕ → Pack Number → Type 0
  IsInfo info pp =
      ((v : ℤ) × (short_at info 0 ≡ some v) × (pp.voltage ≡ hundredths fl v))
      × ((v : ℤ) × (short_at info 2 ≡ some v) × (pp.current ≡ hundredths fl v))
      × ((v : ℤ) × (short_at info 6 ≡ some v) × (pp.capacity ≡ hundredths fl v))
      × ((b : ℕ) × (get_elem? info 20 ≡ some b)
          × (check_state pp.state (bit pack_charging_bit) ≡ check_state b mos_charge))
      × (check_state pp.state (bit discharging_bit) ≡ true)
      × (get_elem? info 21 ≡ some pp.cells)
      × (get_elem? info 22 ≡ some pp.ntemps)
      × ((j : ℕ) → j < pp.ntemps → IsValue fl (ctemp fl) 23 info pp.temps j)

  decode_info-some :
      (balancing : Bool) (info : List ℕ) (pp : Pack Number) (cells ntemps : ℕ)
      → length info ≡ 128
      → get_elem? info 21 ≡ some cells
      → get_elem? info 22 ≡ some ntemps
      → ntemps ≤ length pp.temps
      → ntemps ≤ 52
      → (pp' : Pack Number) × (decode_info fl balancing info pp ≡ some pp')
        × IsInfo info pp'
        × (pp'.cellvolt ≡ pp.cellvolt)
        × (pp'.cells ≡ cells)
  unfolding decode_info
  decode_info-some balancing info pp cells ntemps long e_cells e_temps fits few =
      let (voltage, e0) = short_at-some info 0 (omega (arith, long)) in
      let (current, e2) = short_at-some info 2 (omega (arith, long)) in
      let (capacity, e6) = short_at-some info 6 (omega (arith, long)) in
      let (low, e12) = short_at-some info 12 (omega (arith, long)) in
      let (high, e14) = short_at-some info 14 (omega (arith, long)) in
      let (fet, e20) = get_elem?-some info 20 (omega (arith, long)) in
      let (temps, e, _, _, value) =
        fill-some fl (ctemp fl) 23 info 0 ntemps pp.temps (omega arith) (omega (arith, long)) in
      let (on, out, _) = info_state_flags balancing fet pp.state in
      (
        record pp {
          voltage = hundredths fl voltage;
          current = hundredths fl current;
          capacity = hundredths fl capacity;
          balancebits = balance_word low high;
          state = info_state fl balancing fet pp.state;
          cells = cells;
          ntemps = ntemps;
          temps = temps;
        },
        rw (e0, e2, e6, e12, e14, e20, e_cells, e_temps, e),
        (
          (voltage, e0, refl),
          (current, e2, refl),
          (capacity, e6, refl),
          (fet, e20, on),
          out,
          e_cells,
          e_temps,
          λ j h. value j (omega arith) (omega arith),
        ),
        refl,
        refl,
      )

  decode_info_out :
      (balancing : Bool) (info : List ℕ) (pp : Pack Number) (cells ntemps : ℕ)
      → length info ≡ 128
      → get_elem? info 21 ≡ some cells
      → get_elem? info 22 ≡ some ntemps
      → length pp.temps < ntemps
      → decode_info fl balancing info pp ≡ none
  unfolding decode_info
  decode_info_out balancing info pp cells ntemps long e_cells e_temps over =
      let (voltage, e0) = short_at-some info 0 (omega (arith, long)) in
      let (current, e2) = short_at-some info 2 (omega (arith, long)) in
      let (capacity, e6) = short_at-some info 6 (omega (arith, long)) in
      let (low, e12) = short_at-some info 12 (omega (arith, long)) in
      let (high, e14) = short_at-some info 14 (omega (arith, long)) in
      let (fet, e20) = get_elem?-some info 20 (omega (arith, long)) in
      let out = fill_out fl (ctemp fl) 23 info 0 ntemps pp.temps (omega arith) (omega arith) in
      rw (e0, e2, e6, e12, e14, e20, e_cells, e_temps, out)

  -- A pack that holds what both answers say, the voltages of the cells with it.
  abbrev pub IsReport : List ℕ → List ℕ → Pack Number → Type 0
  IsReport info volts pp =
      IsInfo info pp × ((j : ℕ) → j < pp.cells → IsValue fl (thousandths fl) 0 volts pp.cellvolt j)

  decode_cells-some :
      (info volts : List ℕ) (pp : Pack Number)
      → length volts ≡ 128
      → pp.cells ≤ length pp.cellvolt
      → pp.cells ≤ 64
      → IsInfo info pp
      → (pp' : Pack Number) × (decode_cells fl volts pp ≡ some pp') × IsReport info volts pp'
  unfolding decode_cells
  decode_cells-some info volts pp long fits few told =
      let (array, e, _, _, value) =
        fill-some fl (thousandths fl) 0 volts 0 pp.cells pp.cellvolt (omega arith)
          (omega (arith, long)) in
      (record pp { cellvolt = array }, rw e, (told, λ j h. value j (omega arith) (omega arith)))

  -- Where the monitor answers both commands (`jbd_rw` returns a length) and reports no more cells and temperatures than
  -- the arrays have places for, `jbd_get_pack` returns 0, and the pack holds what the answers say:
  -- voltage, current and capacity in hundredths, the state of the charge MOS, the counts, every temperature and every
  -- cell voltage in its place. The flag for discharging is set whatever the discharge MOS is.
  pub jbd_get_pack-IsReport :
      (t : Transport) (balancing : Bool) (bytes buf1 buf2 : List ℕ) (pp : Pack Number)
      (s s1 s2 : t.State) (info volts : List ℕ) (n1 n2 cells ntemps : ℕ)
      → length bytes ≡ 128
      → jbd_rw t cmd_read cmd_hwinfo bytes 128 buf1 s ≡ some (some n1, info, s1)
      → jbd_rw t cmd_read cmd_cellinfo info 128 buf2 s1 ≡ some (some n2, volts, s2)
      → get_elem? info 21 ≡ some cells
      → cells ≤ length pp.cellvolt
      → cells ≤ 32
      → get_elem? info 22 ≡ some ntemps
      → ntemps ≤ length pp.temps
      → ntemps ≤ 8
      → (pp' : Pack Number) × (jbd_get_pack fl t balancing bytes buf1 buf2 pp s ≡ some (0, pp', s2))
        × IsReport info volts pp'
  unfolding jbd_get_pack get_info get_cells
  jbd_get_pack-IsReport t balancing bytes buf1 buf2 pp s s1 s2 info volts n1 n2 cells ntemps long e1
        e2 e_cells fits few e_temps fits_t few_t =
      let long1 = jbd_rw_sized t cmd_read cmd_hwinfo bytes 128 buf1 s long (some n1) info s1 e1 in
      let long2 =
        jbd_rw_sized t cmd_read cmd_cellinfo info 128 buf2 s1 long1 (some n2) volts s2 e2 in
      let (pp1, d1, told, same, count) =
        decode_info-some balancing info pp cells ntemps long1 e_cells e_temps fits_t
          (omega arith) in
      let (pp2, d2, report) =
        decode_cells-some info volts pp1 long2 (omega (arith, ap length same, count))
          (omega (arith, count)) told in
      (pp2, rw (e1, d1, e2, d2), report)

  -- Where the monitor reports more temperatures than `temps` has places for, or, with temperatures
  -- that fit, more cells than `cellvolt` has, `jbd_get_pack` writes behind the array.
  pub jbd_get_pack_overflow :
      (t : Transport) (balancing : Bool) (bytes buf1 buf2 : List ℕ) (pp : Pack Number)
      (s s1 s2 : t.State) (info volts : List ℕ) (n1 n2 cells ntemps : ℕ)
      → length bytes ≡ 128
      → jbd_rw t cmd_read cmd_hwinfo bytes 128 buf1 s ≡ some (some n1, info, s1)
      → get_elem? info 21 ≡ some cells
      → get_elem? info 22 ≡ some ntemps
      → (length pp.temps < ntemps → jbd_get_pack fl t balancing bytes buf1 buf2 pp s ≡ none)
        × (ntemps ≤ length pp.temps
            → ntemps ≤ 8
            → length pp.cellvolt < cells
            → jbd_rw t cmd_read cmd_cellinfo info 128 buf2 s1 ≡ some (some n2, volts, s2)
            → jbd_get_pack fl t balancing bytes buf1 buf2 pp s ≡ none)
  unfolding jbd_get_pack get_info get_cells decode_cells
  jbd_get_pack_overflow t balancing bytes buf1 buf2 pp s s1 s2 info volts n1 n2 cells ntemps long e1
        e_cells e_temps =
      let long1 = jbd_rw_sized t cmd_read cmd_hwinfo bytes 128 buf1 s long (some n1) info s1 e1 in
      (
        λ over. rw (e1, decode_info_out balancing info pp cells ntemps long1 e_cells e_temps over),
        λ fits few over e2.
            let (pp1, d1, told, same, count) =
              decode_info-some balancing info pp cells ntemps long1 e_cells e_temps fits
                (omega arith) in
            let out : fill fl (thousandths fl) 0 0 pp1.cells volts pp1.cellvolt ≡ none =
              fill_out fl (thousandths fl) 0 volts 0 pp1.cells pp1.cellvolt (omega arith)
                (omega (arith, ap length same, count)) in
            rw (e1, d1, e2, out),
      )
