-- ===== src/Setup/Start.antt =====
-- `pack_init`, `inverter_add` and `inverter_init`.
use mybmm.Base.{
  ℕ, zero, suc, Bool, true, false, not, Option, none, some, ◌>>=◌, List, [], ◌∷◌, ◌==◌, length,
  if◌then◌else◌, ℤ, pos, is_zero, bit, set_state, check_state,
}
use mybmm.Cfg.{cfg_get_item}
use mybmm.Modules.{inverter_type}
use mybmm.Worker.{worker_create_pool}
use mybmm.Setup.{
  no_strings, Setup, System, Added, Strings, charge_control_bit, discharge_control_bit, max_packs,
  type_keyword, inverter_section, invertertab, pack_name,
}
use mybmm.Setup.Add.{read_strings, make_instance, pack_add}

module _ {World Number : Type 0} (sys : System World Number) where
  -- A turn of the loop of `pack_init`, for the pack `i + 1`: whether the loop ends without an error, with the turns
  -- that follow.
  unfoldable pub next_pack :
      (Setup World Number → Option (Bool × Setup World Number))
      → ℕ
      → Option (List ℕ)
      → Setup World Number
      → Option (Bool × Setup World Number)
  unfolding pack_add pack_name
  next_pack more i none st = some (true, st)
  next_pack more i (some _) st = do
    (r, st') ← pack_add sys (pack_name (suc i)) no_strings st
    elim (is_zero r) [ true ↦ more st' | false ↦ some (false, st') ]

  -- the turns that are left
  unfoldable pub add_packs : ℕ → ℕ → Setup World Number → Option (Bool × Setup World Number)
  unfolding next_pack pack_name cfg_get_item
  add_packs zero i st = some (true, st)
  add_packs (suc n) i st = do
    found ← cfg_get_item st.cfg (pack_name (suc i)) type_keyword
    next_pack (λ st'. add_packs n (suc i) st') i found st

-- "Go through all packs and see if all have charge/discharge control"
unfoldable pub controls :
    {World Number : Type 0} → Bool → Bool → List (Added World Number) → Bool × Bool
unfolding check_state
controls c d [] = (c, d)
controls c d (pp ∷ pps) =
    if not (check_state pp.capabilities (bit charge_control_bit))
    then controls false d pps
    else if not (check_state pp.capabilities (bit discharge_control_bit))
    then controls c false pps
    else controls c d pps

abbrev pub set_if : Bool → ℕ → ℕ → ℕ
set_if b mask caps = if b then set_state caps mask else caps

module _ {World Number : Type 0} (sys : System World Number) where
  open sys use {has_memory}

  unfoldable pub set_controls : Setup World Number → Setup World Number
  unfolding controls set_state
  set_controls st =
      let (c, d) = controls true true st.packs in
      record st {
        capabilities =
            set_if d (bit discharge_control_bit)
              (set_if c (bit charge_control_bit) st.capabilities);
      }

  -- the part behind the loop
  unfoldable pub start_pool : Bool × Setup World Number → ℤ × Setup World Number
  unfolding worker_create_pool set_controls
  start_pool (false, st) = (pos 1, st)
  start_pool (true, st) =
      if length st.packs == 0
      then (pos 0, st)
      else elim (worker_create_pool has_memory (pos (length st.packs))) [
        | none ↦ (pos 1, st)
        | some pool ↦ (pos 0, set_controls (record st { pack_pool = some pool }))
      ]

  unfoldable pub pack_init : Setup World Number → Option (ℤ × Setup World Number)
  unfolding add_packs start_pool
  pack_init st = do added ← add_packs sys max_packs 0 st; some (start_pool added)

  -- `inverter_add`
  unfoldable pub inverter_add : Strings → Setup World Number → Option (ℤ × Setup World Number)
  unfolding make_instance
  inverter_add s st = do
    (made, st') ← make_instance sys inverter_type s st
    some
        (elim made [ none ↦ (pos 1, st') | some inv ↦ (pos 0, record st' { inverter = some inv }) ])

  -- `get_tab` is `read_strings` with the table of the inverter.
  unfoldable pub inverter_init : Setup World Number → Option (ℤ × Setup World Number)
  unfolding cfg_get_item read_strings inverter_add
  inverter_init st = do
    found ← cfg_get_item st.cfg inverter_section type_keyword
    elim found [
      | none ↦ some (pos 0, st)
      | some _ ↦ do
        (s, _, st1) ← read_strings sys (invertertab inverter_section) inverter_section no_strings st
        inverter_add s st1
    ]
