-- ===== src/Pack.antt =====
-- pack.h and pack.c: a pack as its monitor reports it, and `pack_update`, which reads it and works
-- out the extremes of its cells.
pub mod Extremes
use mybmm.Base.{
  ℕ, zero, suc, ◌+◌, Bool, true, false, not, Option, none, some, ◌>>=◌, List, [], ◌∷◌, ◌==◌,
  leb as le_nat, if◌then◌else◌, length, take, ℤ, pos, is_zero, bit, set_state,
}
use mybmm.Floats.{Floats, addf, subf, divf, intf}

-- MYBMM_PACK_STATE_UPDATED, CHARGING, DISCHARGING, BALANCING
abbrev pub updated_bit : ℕ
updated_bit = 0

abbrev pub pack_charging_bit : ℕ
pack_charging_bit = 1

abbrev pub discharging_bit : ℕ
discharging_bit = 2

abbrev pub balancing_bit : ℕ
balancing_bit = 3

abbrev pub max_temps : ℕ
max_temps = 8

abbrev pub max_cells : ℕ
max_cells = 32

-- The fields that the updates and the main loop use. `temps` and `cellvolt` are the arrays, of
-- `max_temps` and `max_cells` elements.
pub record Pack (Number : Type 0) : Type 0 where
  pub state : ℕ
  pub capacity : Number
  pub voltage : Number
  pub current : Number
  pub ntemps : ℕ
  pub temps : List Number
  pub cells : ℕ
  pub cellvolt : List Number
  pub cell_min : Number
  pub cell_max : Number
  pub cell_diff : Number
  pub cell_avg : Number
  pub balancebits : ℕ

-- The functions of a monitor that a pack holds (`pp->open`, `pp->read`, `pp->close`) over the state
-- of its handle; `none` is an access outside of a buffer or an array.
pub record Monitor (Number : Type 0) : Type 1 where
  pub Handle : Type 0
  pub open_it : Handle → ℤ × Handle
  pub read : Pack Number → Handle → Option (ℤ × Pack Number × Handle)
  pub close : Handle → Handle

-- `array[0]` to `array[n - 1]`, `none` if these are not all elements of the array
abbrev pub elements : {A : Type 0} → List A → ℕ → Option (List A)
elements array n = if le_nat n (length array) then some (take n array) else none

module _ (fl : Floats) where
  open fl use {Number, ltb, lit, single, to_int}

  -- The loop over the cells, with the minimum, the maximum and the sum so far.
  unfoldable pub cell_loop : Number → Number → Number → List Number → Number × Number × Number
  cell_loop min max total [] = (min, max, total)
  cell_loop min max total (v ∷ vs) =
      cell_loop (if ltb v min then v else min) (if ltb max v then v else max) (addf fl total v) vs

  -- what `pack_update` makes of the cells that were read
  unfoldable pub set_extremes : Number → Pack Number → List Number → Pack Number
  unfolding cell_loop
  set_extremes crit_high pp vs =
      let (min, max, total) = cell_loop crit_high (single (lit 0 1)) (single (lit 0 1)) vs in
      record pp {
        state = set_state pp.state (bit updated_bit);
        cell_min = min;
        cell_max = max;
        cell_diff = subf fl max min;
        cell_avg = divf fl total (intf fl (pos pp.cells));
        voltage = if is_zero (to_int pp.voltage) then total else pp.voltage;
      }

  -- the part behind the read
  update_read :
      (m : Monitor Number)
      → Number
      → ℤ × Pack Number × m.Handle
      → Option (ℤ × Pack Number × m.Handle)
  unfolding set_extremes
  update_read m crit_high (r, pp, h) =
      if is_zero r
      then (do
        vs ← elements pp.cellvolt pp.cells
        some (r, set_extremes crit_high pp vs, m.close h))
      else some (r, pp, m.close h)

  -- The result, the pack and the handle. `crit_high` is `pp->conf->cell_crit_high`.
  unfoldable pub pack_update :
      (m : Monitor Number) → Number → Pack Number → m.Handle → Option (ℤ × Pack Number × m.Handle)
  unfolding update_read
  pack_update m crit_high pp h =
      let (failed, h') = m.open_it h in
      if is_zero failed
      then (do done ← m.read pp h'; update_read m crit_high done)
      else some (pos 1, pp, h')
