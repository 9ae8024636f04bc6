-- ===== src/Pack/Extremes.antt =====
-- What the extremes say of the cells.
use mybmm.Base.{
  ◌≤◌, ◌≡◌, refl, inl, inr, ◌∙◌, sym, true, false, some, List, [], ◌∷◌, arith, if◌then◌else◌, All,
  Bool-cases, ℤ, is_zero, take, length, bit, check_state, check-set, pos,
}
use mybmm.Floats.{Floats, IsOrdered, addf}
use mybmm.Pack.{
  Pack, Monitor, elements, updated_bit, cell_loop, set_extremes, update_read, pack_update,
}

conflict {ℓ} : {A : Type ℓ} → false ≡ true → A
conflict h = cc

module _ (fl : Floats) (order : IsOrdered fl) where
  open fl use {Number, ltb, lit, single, to_int}
  open order use {lt_irrefl, lt_trans}

  smaller-ne-lt :
      (x min y : Number) → ltb y min ≡ false → ltb y (if ltb x min then x else min) ≡ false
  smaller-ne-lt x min y h = elim (Bool-cases (ltb x min)) [
    | inl less ↦ rw less (elim (Bool-cases (ltb y x)) [
      | inl below ↦ conflict (sym h ∙ lt_trans y x min below less)
      | inr fine ↦ fine
    ])
    | inr more ↦ rw more h
  ]

  larger-ne-lt :
      (x max y : Number) → ltb max y ≡ false → ltb (if ltb max x then x else max) y ≡ false
  larger-ne-lt x max y h = elim (Bool-cases (ltb max x)) [
    | inl more ↦ rw more (elim (Bool-cases (ltb x y)) [
      | inl below ↦ conflict (sym h ∙ lt_trans max x y more below)
      | inr fine ↦ fine
    ])
    | inr less ↦ rw less h
  ]

  smaller_self : (x min : Number) → ltb x (if ltb x min then x else min) ≡ false
  smaller_self x min = elim (Bool-cases (ltb x min)) [
    | inl less ↦ rw less (lt_irrefl x)
    | inr more ↦ rw more more
  ]

  larger_self : (x max : Number) → ltb (if ltb max x then x else max) x ≡ false
  larger_self x max = elim (Bool-cases (ltb max x)) [
    | inl more ↦ rw more (lt_irrefl x)
    | inr less ↦ rw less less
  ]

  cell_loop_keeps :
      (min max total y : Number) (vs : List Number)
      → (ltb y min ≡ false → ltb y (cell_loop fl min max total vs).0 ≡ false)
        × (ltb max y ≡ false → ltb (cell_loop fl min max total vs).1 y ≡ false)
  unfolding cell_loop
  cell_loop_keeps min max total y [] = (λ h. h, λ h. h)
  cell_loop_keeps min max total y (v ∷ vs) =
      let (below, above) =
        cell_loop_keeps (if ltb v min then v else min) (if ltb max v then v else max)
          (addf fl total v) y vs in
      (λ h. below (smaller-ne-lt v min y h), λ h. above (larger-ne-lt v max y h))

  -- No cell lies below the minimum or above the maximum of the loop.
  abbrev pub Between : Number → Number → Number → Type 0
  Between min max v = (ltb v min ≡ false) × (ltb max v ≡ false)

  pub cell_loop-Between :
      (min max total : Number) (vs : List Number)
      → All (Between (cell_loop fl min max total vs).0 (cell_loop fl min max total vs).1) vs
  unfolding cell_loop
  cell_loop-Between min max total [] = tt
  cell_loop-Between min max total (v ∷ vs) =
      let min' = if ltb v min then v else min in
      let max' = if ltb max v then v else max in
      let (below, above) = cell_loop_keeps min' max' (addf fl total v) v vs in
      (
        (below (smaller_self v min), above (larger_self v max)),
        cell_loop-Between min' max' (addf fl total v) vs,
      )

  -- What is returned with success is an update of the pack that was read: it is marked, and none
  -- of its cells lies below the minimum or above the maximum that it names.
  abbrev pub IsUpdate : Pack Number → Type 0
  IsUpdate pp =
      (check_state pp.state (bit updated_bit) ≡ true)
      × ((vs : List Number) × (elements pp.cellvolt pp.cells ≡ some vs)
          × All (Between pp.cell_min pp.cell_max) vs)

  set_extremes-IsUpdate :
      (crit_high : Number) (pp : Pack Number) (vs : List Number)
      → elements pp.cellvolt pp.cells ≡ some vs
      → IsUpdate (set_extremes fl crit_high pp vs)
  unfolding set_extremes
  set_extremes-IsUpdate crit_high pp vs e = (
    rw (check-set updated_bit updated_bit pp.state),
    (vs, e, cell_loop-Between crit_high (single (lit 0 1)) (single (lit 0 1)) vs),
  )

  -- Where the monitor opens and reads with success, and reports no more cells than the array has
  -- places for, `pack_update` returns 0, closes the handle, and leaves an update in the pack.
  pub pack_update-IsUpdate :
      (m : Monitor Number) (crit_high : Number) (pp pp1 : Pack Number) (h h1 h2 : m.Handle)
      → m.open_it h ≡ (pos 0, h1)
      → m.read pp h1 ≡ some (pos 0, pp1, h2)
      → pp1.cells ≤ length pp1.cellvolt
      → (pp' : Pack Number) × (pack_update fl m crit_high pp h ≡ some (pos 0, pp', m.close h2))
        × IsUpdate pp'
        × (pp'.cellvolt ≡ pp1.cellvolt)
  unfolding pack_update update_read
  pack_update-IsUpdate m crit_high pp pp1 h h1 h2 opened done fits =
      let vs = take pp1.cells pp1.cellvolt in
      let e : elements pp1.cellvolt pp1.cells ≡ some vs = ground arith in
      (
        set_extremes fl crit_high pp1 vs,
        rw (opened, done, e),
        set_extremes-IsUpdate crit_high pp1 vs e,
        unfold set_extremes in refl,
      )

-- Where the monitor fails, so does `pack_update`: an open that fails gives 1 and touches nothing
-- else, a read that fails gives its result, and the handle is closed.
pub pack_update_fails :
    (fl : Floats) (m : Monitor fl.Number) (crit_high : fl.Number) (pp : Pack fl.Number)
    (h : m.Handle)
    → (is_zero (m.open_it h).0 ≡ false
        → pack_update fl m crit_high pp h ≡ some (pos 1, pp, (m.open_it h).1))
      × ((r : ℤ) (pp1 : Pack fl.Number) (h2 : m.Handle)
          → is_zero (m.open_it h).0 ≡ true
          → m.read pp (m.open_it h).1 ≡ some (r, pp1, h2)
          → is_zero r ≡ false
          → pack_update fl m crit_high pp h ≡ some (r, pp1, m.close h2))
unfolding pack_update update_read
pack_update_fails fl m crit_high pp h =
    (λ no_open. rw no_open, λ r pp1 h2 opened done failed. rw (opened, done, failed))
