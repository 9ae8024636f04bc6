-- ===== src/Jk/Volts.antt =====
-- The pack after the report of a JK monitor.
use mybmm.Base.{
  ℕ, zero, suc, ◌+◌, ◌*◌, ◌≤◌, ◌<◌, ◌≡◌, refl, ap, ◌∙◌, sym, inl, inr, false, some, List, arith,
  length, get_elem?, get_short, to_short, pos, Bool-cases,
}
use mybmm.Floats.{Floats}
use mybmm.Pack.{Pack}
use mybmm.Jbd.Report.Values.{get_elem?-some, set_elem-some}
use mybmm.Jk.{jk_word_at, jk_thousandths, jk_tenths, is_nil, volts_loop, get_volts}

jk_word_at-some :
    (bytes : List ℕ) (i : ℕ) → i + 1 < length bytes → (w : ℕ) × (jk_word_at bytes i ≡ some w)
unfolding jk_word_at
jk_word_at-some bytes i h =
    let (lo, e) = get_elem?-some bytes i (omega arith) in
    let (hi, f) = get_elem?-some bytes (i + 1) h in (get_short hi lo, rw (e, f))

module _ (fl : Floats) where
  open fl use {Number}

  -- A cell with the voltage that stands at place `i` of the report, which is not zero.
  abbrev pub IsCell : List ℕ → List Number → ℕ → ℕ → Type 0
  IsCell bytes array j i =
      (w : ℕ) × (jk_word_at bytes i ≡ some w)
      × (get_elem? array j ≡ some (jk_thousandths fl (to_short w)))
      × (is_nil fl (jk_thousandths fl (to_short w)) ≡ false)

  IsCell-at :
      (bytes : List ℕ) (array : List Number) (j j' i i' : ℕ)
      → j ≡ j'
      → i ≡ i'
      → IsCell bytes array j i
      → IsCell bytes array j' i'
  IsCell-at bytes array j j' i i' e f (w, h, g, nz) =
      (w, ap (jk_word_at bytes) (sym f) ∙ h, ap (get_elem? array) (sym e) ∙ g, nz)

  IsCell-cons :
      (bytes : List ℕ) (array : List Number) (cells j i : ℕ)
      → IsCell bytes array j i
      → ((k : ℕ) → j + 1 + k < cells → IsCell bytes array (j + 1 + k) (i + 2 + k * 2))
      → (k : ℕ) → j + k < cells
      → IsCell bytes array (j + k) (i + k * 2)
  IsCell-cons bytes array cells j i here later zero h =
      IsCell-at bytes array j (j + 0) i (i + 0 * 2) (omega arith) (omega arith) here
  IsCell-cons bytes array cells j i here later (suc k) h =
      IsCell-at bytes array (j + 1 + k) (j + suc k) (i + 2 + k * 2) (i + suc k * 2) (omega arith)
        (omega arith) (later k (omega arith))

  volts_loop-some :
      (n j i : ℕ) (bytes : List ℕ) (array : List Number)
      → j + n ≤ length array
      → i + n * 2 ≤ length bytes
      → (array' : List Number) × (cells : ℕ) × (volts_loop fl n j i bytes array
          ≡ some (array', cells))
        × (length array' ≡ length array)
        × (j ≤ cells)
        × (cells ≤ j + n)
        × ((k : ℕ) → k < j → get_elem? array' k ≡ get_elem? array k)
        × ((k : ℕ) → j + k < cells → IsCell bytes array' (j + k) (i + k * 2))
  unfolding volts_loop
  volts_loop-some zero j i bytes array fits long =
      (array, j, refl, refl, omega arith, omega arith, λ k h. refl, λ k h. absurd (omega arith))
  volts_loop-some (suc n) j i bytes array fits long =
      let (w, e) = jk_word_at-some bytes i (omega arith) in
      let (array1, f, l, g, same) =
        set_elem-some array j (jk_thousandths fl (to_short w)) (omega arith) in
      elim (Bool-cases (is_nil fl (jk_thousandths fl (to_short w)))) [
        | inl end ↦ (
          array1,
          j,
          rw (e, f, end),
          l,
          omega arith,
          omega arith,
          same,
          λ k h. absurd (omega arith),
        )
        | inr more ↦
            let (array', cells, r, l', low, high, same', cell) =
              volts_loop-some n (j + 1) (i + 2) bytes array1 (omega (arith, l)) (omega arith) in
            (
              array',
              cells,
              rw (e, f, more) r,
              l' ∙ l,
              omega arith,
              omega arith,
              λ k h. same' k (omega arith) ∙ same k h,
              IsCell-cons bytes array' cells j i (w, e, same' j (omega arith) ∙ g, more) cell,
            )
      ]

  -- A report of at least 134 bytes that is put into a pack with at least 24 places for cells and two for
  -- temperatures is read and written inside of its arrays. The pack then has at most 24 cells, each
  -- with the voltage that stands in its place of the report, none of them zero, two temperatures, and arrays as long as before.
  pub get_volts-IsCell :
      (pp : Pack Number) (bytes : List ℕ)
      → 134 ≤ length bytes
      → 24 ≤ length pp.cellvolt
      → 2 ≤ length pp.temps
      → (pp' : Pack Number) × (get_volts fl pp bytes ≡ some pp')
        × (pp'.cells ≤ 24)
        × (pp'.ntemps ≡ 2)
        × (length pp'.cellvolt ≡ length pp.cellvolt)
        × (length pp'.temps ≡ length pp.temps)
        × ((k : ℕ) → k < pp'.cells → IsCell bytes pp'.cellvolt k (6 + k * 2))
  unfolding get_volts
  get_volts-IsCell pp bytes long fits fits_t =
      let (cellvolt, cells, e, l, _, high, _, cell) =
        volts_loop-some 24 0 6 bytes pp.cellvolt (omega arith) (omega arith) in
      let (voltage, e1) = jk_word_at-some bytes 118 (omega arith) in
      let (current, e2) = jk_word_at-some bytes 126 (omega arith) in
      let (first, e3) = jk_word_at-some bytes 130 (omega arith) in
      let (temps, e4, lt, _, _) =
        set_elem-some pp.temps 0 (jk_tenths fl (pos first)) (omega arith) in
      let (second, e5) = jk_word_at-some bytes 132 (omega arith) in
      let (temps', e6, lt', _, _) =
        set_elem-some temps 1 (jk_tenths fl (pos second)) (omega (arith, lt)) in
      (
        record pp {
          cellvolt = cellvolt;
          cells = cells;
          voltage = jk_thousandths fl (pos voltage);
          current = jk_thousandths fl (to_short current);
          ntemps = 2;
          temps = temps';
        },
        rw (e, e1, e2, e3, e4, e5, e6),
        omega arith,
        refl,
        l,
        lt' ∙ lt,
        λ k h.
            IsCell-at bytes cellvolt (0 + k) k (6 + k * 2) (6 + k * 2) (omega arith) refl
              (cell k (omega arith)),
      )
