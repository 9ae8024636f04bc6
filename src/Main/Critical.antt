-- ===== src/Main/Critical.antt =====
-- Cells outside of the critical voltages.
use mybmm.Base.{
  ℕ, zero, suc, ◌≡◌, ◌≤◌, refl, ◌⊎◌, inl, inr, ◌∙◌, sym, subst, Bool, true, false, not, ◌&&◌,
  Option, some, List, [], ◌∷◌, take, length, arith, if◌then◌else◌, All, Bool-cases, bit,
  check_state, clear_state, check-set, check-clear,
}
use mybmm.Floats.{Floats, addf}
use mybmm.Config.{crit_cellvolt, crit_cellvolt_bit, force_soc, force_soc_bit, charging_bit}
use mybmm.Battery.{Conf, charge_stop}
use mybmm.Pack.{Pack, elements, updated_bit}
use mybmm.Main.{
  CellScan, out_of_range, in_range, force_full, crit_high, crit_low, scan_cells, Sums, scan_temps,
  add_pack, scan_one, scan_packs, start_sums, leave_force_soc, leave_critical,
}

module _ (fl : Floats) where
  open fl use {Number, ltb, leb, single, lit}

  -- Neither critically low nor critically high.
  abbrev pub IsInRange : Conf fl → Number → Type 0
  IsInRange c v = (leb v c.cell_crit_low ≡ false) × (leb c.cell_crit_high v ≡ false)

  crit_low_set : (c : Conf fl) → check_state (crit_low fl c).state crit_cellvolt ≡ true
  unfolding crit_low
  crit_low_set c = rw (check-set crit_cellvolt_bit crit_cellvolt_bit c.state)

  crit_high_set : (c : Conf fl) → check_state (crit_high fl c).state crit_cellvolt ≡ true
  unfolding crit_high force_full charge_stop
  crit_high_set c = rw (
    check-set force_soc_bit crit_cellvolt_bit _,
    check-clear charging_bit crit_cellvolt_bit _,
    check-set crit_cellvolt_bit crit_cellvolt_bit c.state,
  )

  -- What a scan of cells says.
  Says : Conf fl → List Number → CellScan fl → Type 0
  Says c vs (out_of_range d) = (check_state d.state crit_cellvolt ≡ true) × (¬ All (IsInRange c) vs)
  Says c vs (in_range _ _ _) = All (IsInRange c) vs

  -- The scan of `n` cells gives a result, and one that says the truth.
  Scan : Conf fl → ℕ → List Number → Option (CellScan fl) → Type 0
  Scan c n vs o = (r : CellScan fl) × (o ≡ some r) × Says c (take n vs) r

  Scan-cons :
      (c : Conf fl) (v : Number) (n : ℕ) (vs : List Number) (o : Option (CellScan fl))
      → IsInRange c v
      → Scan c n vs o
      → Scan c (suc n) (v ∷ vs) o
  unfolding Scan Says
  Scan-cons c v n vs o h (out_of_range d, e, (set, bad)) =
      (out_of_range d, e, (set, λ (_, all). bad all))
  Scan-cons c v n vs o h (in_range a b t, e, s) = (in_range a b t, e, (h, s))

  scan_cells-Scan :
      (c : Conf fl) (min max total : Number) (n : ℕ) (vs : List Number)
      → n ≤ length vs
      → Scan c n vs (scan_cells fl c min max total n vs)
  unfolding scan_cells Says Scan
  scan_cells-Scan c min max total zero vs fits = (in_range min max total, refl, tt)
  scan_cells-Scan c min max total (suc n) [] fits = absurd (omega arith)
  scan_cells-Scan c min max total (suc n) (v ∷ vs) fits =
      elim (Bool-cases (leb v c.cell_crit_low)) [
        | inl low ↦ (
          out_of_range (crit_low fl c),
          rw low,
          (crit_low_set c, λ ((fine, _), _). absurd (cc (low, fine))),
        )
        | inr fine ↦ elim (Bool-cases (leb c.cell_crit_high v)) [
          | inl high ↦ (
            out_of_range (crit_high fl c),
            rw (fine, high),
            (crit_high_set c, λ ((_, good), _). absurd (cc (high, good))),
          )
          | inr good ↦
              let rest =
                scan_cells-Scan c (if ltb v min then v else min) (if ltb max v then v else max)
                  (addf fl total v) n vs (omega arith) in
              let e : scan_cells fl c min max total (suc n) (v ∷ vs)
                  ≡ scan_cells fl c (if ltb v min then v else min) (if ltb max v then v else max)
                      (addf fl total v) n vs =
                rw (fine, good) in
              subst (Scan c (suc n) (v ∷ vs)) (sym e) (Scan-cons c v n vs _ (fine, good) rest)
        ]
      ]

  -- The array of a pack holds as many elements as it reports.
  abbrev pub Fits : Pack Number → Type 0
  Fits pp = (pp.cells ≤ length pp.cellvolt) × (pp.ntemps ≤ length pp.temps)

  -- All cells of a pack that was updated are in range.
  abbrev pub PackInRange : Conf fl → Pack Number → Type 0
  PackInRange c pp =
      check_state pp.state (bit updated_bit) ≡ true → All (IsInRange c) (take pp.cells pp.cellvolt)

  -- What does not change where all cells are in range.
  Kept : Conf fl → Conf fl → Type 0
  Kept c d =
      (d.cell_crit_low ≡ c.cell_crit_low)
      × (d.cell_crit_high ≡ c.cell_crit_high)
      × (d.state ≡ c.state)

  Kept-trans : (a b c : Conf fl) → Kept a b → Kept b c → Kept a c
  unfolding Kept
  Kept-trans a b c (l, h, s) (l', h', s') = (l' ∙ l, h' ∙ h, s' ∙ s)

  scan_temps-Kept :
      (s : Sums fl) (ts : List Number)
      → Kept s.conf (scan_temps fl s ts).conf × ((scan_temps fl s ts).all_in_range ≡ s.all_in_range)
  unfolding scan_temps Kept
  scan_temps-Kept s [] = ((refl, refl, refl), refl)
  scan_temps-Kept s (t ∷ ts) =
      scan_temps-Kept
        (record s {
          temp_total = addf fl s.temp_total t;
          conf = record s.conf {
            pack_temp_max = if ltb s.conf.pack_temp_max t then t else s.conf.pack_temp_max;
          };
        })
        ts

  add_pack-Kept :
      (s : Sums fl) (pp : Pack Number) (min max total : Number) (ts : List Number)
      → Kept s.conf (add_pack fl s pp min max total ts).conf
        × ((add_pack fl s pp min max total ts).all_in_range ≡ s.all_in_range)
  unfolding add_pack Kept
  add_pack-Kept s pp min max total ts =
      unfold Kept in
      scan_temps-Kept
        (record s {
          voltage_total = addf fl s.voltage_total total;
          current_total = addf fl s.current_total pp.current;
        })
        ts

  -- The scan of the packs gives a result, and one that says the truth.
  Decided : Conf fl → List (Pack Number) → Sums fl → Type 0
  Decided c pps s =
      ((s.all_in_range ≡ true) × (s.conf.state ≡ c.state) × All (PackInRange c) pps)
      ⊎ ((s.all_in_range ≡ false)
          × (check_state s.conf.state crit_cellvolt ≡ true)
          × (¬ All (PackInRange c) pps))

  Scanned : Conf fl → List (Pack Number) → Option (Sums fl) → Type 0
  Scanned c pps o = (s : Sums fl) × (o ≡ some s) × Decided c pps s

  IsInRange-Kept :
      (c d : Conf fl) → Kept c d → (vs : List Number) → All (IsInRange d) vs → All (IsInRange c) vs
  unfolding Kept
  IsInRange-Kept c d k [] tt = tt
  IsInRange-Kept c d (l, h, s) (v ∷ vs) ((low, high), rest) = (
    (subst (λ t. leb v t ≡ false) l low, subst (λ t. leb t v ≡ false) h high),
    IsInRange-Kept c d (l, h, s) vs rest,
  )

  Kept-sym : (c d : Conf fl) → Kept c d → Kept d c
  unfolding Kept
  Kept-sym c d (l, h, s) = (sym l, sym h, sym s)

  PackInRange-Kept :
      (c d : Conf fl)
      → Kept c d
      → (pps : List (Pack Number)) → All (PackInRange d) pps
      → All (PackInRange c) pps
  PackInRange-Kept c d k [] tt = tt
  PackInRange-Kept c d k (pp ∷ pps) (here, rest) =
      (λ u. IsInRange-Kept c d k _ (here u), PackInRange-Kept c d k pps rest)

  -- the packs behind one that was skipped, or whose cells are in range
  Scanned-cons :
      (c d : Conf fl) (pp : Pack Number) (pps : List (Pack Number)) (o : Option (Sums fl))
      → Kept c d
      → PackInRange c pp
      → Scanned d pps o
      → Scanned c (pp ∷ pps) o
  unfolding Scanned Decided
  Scanned-cons c d pp pps o k fine (s, e, inl (ok, st, all)) =
      (s, e, inl (ok, st ∙ (unfold Kept in k.2), (fine, PackInRange-Kept c d k pps all)))
  Scanned-cons c d pp pps o k fine (s, e, inr (ok, st, bad)) =
      (s, e, inr (ok, st, λ (_, all). bad (PackInRange-Kept d c (Kept-sym c d k) pps all)))

  Scanned-updated :
      (s : Sums fl) (pp : Pack Number) (pps : List (Pack Number))
      → s.all_in_range ≡ true
      → check_state pp.state (bit updated_bit) ≡ true
      → pp.ntemps ≤ length pp.temps
      → ((s' : Sums fl) → s'.all_in_range ≡ true → Scanned s'.conf pps (scan_packs fl s' pps))
      → Scan s.conf pp.cells pp.cellvolt (
          scan_cells fl s.conf s.conf.cell_crit_high
            (single (lit 0 1))
            (single (lit 0 0))
            pp.cells
            pp.cellvolt)
      → Scanned s.conf (pp ∷ pps) (scan_packs fl s (pp ∷ pps))
  unfolding scan_packs scan_one Scanned Decided Scan Says
  Scanned-updated s pp pps ok here fit go (out_of_range d, e, (set, bad)) = (
    record s { conf = d; all_in_range = false },
    rw (here, e),
    inr (refl, set, λ (h, _). bad (h here)),
  )
  Scanned-updated s pp pps ok here fit go (in_range a b t, e, all) =
      let ts = take pp.ntemps pp.temps in
      let s' = add_pack fl s pp a b t ts in
      let e_temps : elements pp.temps pp.ntemps ≡ some ts = ground arith in
      let e_scan : scan_packs fl s (pp ∷ pps) ≡ scan_packs fl s' pps = rw (here, e, e_temps) in
      let (kept, same) = add_pack-Kept s pp a b t ts in
      subst (Scanned s.conf (pp ∷ pps)) (sym e_scan)
        (Scanned-cons s.conf s'.conf pp pps _ kept (λ u. all) (go s' (same ∙ ok)))

  scan_packs-Scanned :
      (s : Sums fl) (pps : List (Pack Number))
      → s.all_in_range ≡ true
      → All Fits pps
      → Scanned s.conf pps (scan_packs fl s pps)
  unfolding scan_packs Scanned Decided
  scan_packs-Scanned s [] ok fits = (s, refl, inl (ok, refl, tt))
  scan_packs-Scanned s (pp ∷ pps) ok ((fit, fit_temps), fits) =
      let go : (s' : Sums fl)
          → s'.all_in_range ≡ true
          → Scanned s'.conf pps (scan_packs fl s' pps) =
        λ s' ok'. scan_packs-Scanned s' pps ok' fits in
      elim (Bool-cases (check_state pp.state (bit updated_bit))) [
        | inr skip ↦
            let e : scan_packs fl s (pp ∷ pps) ≡ scan_packs fl s pps = rw skip in
            subst (Scanned s.conf (pp ∷ pps)) (sym e) (
              Scanned-cons s.conf s.conf pp pps _ (unfold Kept in (refl, refl, refl))
                (λ u. absurd (cc (u, skip))) (go s ok))
        | inl here ↦
            Scanned-updated s pp pps ok here fit_temps go (scan_cells-Scan s.conf _ _ _ _ _ fit)
      ]

  leave_force_soc_keeps :
      (t : ℕ) → check_state (leave_force_soc fl t) crit_cellvolt ≡ check_state t crit_cellvolt
  unfolding leave_force_soc
  leave_force_soc_keeps t = elim (Bool-cases (check_state t force_soc)) [
    | inl set ↦ rw (set, check-clear force_soc_bit crit_cellvolt_bit t)
    | inr unset ↦ rw unset
  ]

  leave_critical-state :
      (ok : Bool) (c : Conf fl)
      → check_state (leave_critical fl ok c).state crit_cellvolt
        ≡ (check_state c.state crit_cellvolt && not ok)
  unfolding leave_critical
  leave_critical-state ok c = elim (Bool-cases (check_state c.state crit_cellvolt)) [
    | inr unset ↦ rw (unset, unset)
    | inl set ↦ elim (Bool-cases ok) [
      | inl all ↦ rw (
        set,
        all,
        leave_force_soc_keeps (clear_state c.state crit_cellvolt),
        check-clear crit_cellvolt_bit crit_cellvolt_bit c.state,
      )
      | inr not_all ↦ rw (set, not_all, set)
    ]
  ]

  abbrev pub IsDecided : Conf fl → List (Pack Number) → Conf fl → Type 0
  IsDecided c pps c' =
      ((check_state c'.state crit_cellvolt ≡ false) × All (PackInRange c) pps)
      ⊎ ((check_state c'.state crit_cellvolt ≡ true) × (¬ All (PackInRange c) pps))

  Decided-IsDecided :
      (c : Conf fl) (pps : List (Pack Number)) (s : Sums fl)
      → Decided c pps s
      → IsDecided c pps (leave_critical fl s.all_in_range s.conf)
  unfolding Decided
  Decided-IsDecided c pps s (inl (ok, st, all)) =
      inl (leave_critical-state s.all_in_range s.conf ∙ ground (arith, ok), all)
  Decided-IsDecided c pps s (inr (ok, st, bad)) =
      inr (leave_critical-state s.all_in_range s.conf ∙ ground (arith, ok, st), bad)

  -- Where no pack claims more cells or temperatures than its arrays hold, the scan of the packs
  -- reads inside of them and ends, and behind it the critical state is left exactly if all cells of all packs that were
  -- updated are above the critically low and below the critically high voltage; otherwise it is
  -- entered or kept, whatever the state was before.
  pub scan_packs_critical :
      (c : Conf fl) (pps : List (Pack Number))
      → All Fits pps
      → (s : Sums fl) × (scan_packs fl (start_sums fl c) pps ≡ some s)
        × IsDecided c pps (leave_critical fl s.all_in_range s.conf)
  unfolding start_sums Scanned
  scan_packs_critical c pps fits =
      let (s, e, d) = scan_packs-Scanned (start_sums fl c) pps refl fits in
      (s, e, Decided-IsDecided (start_sums fl c).conf pps s d)
