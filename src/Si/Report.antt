-- ===== src/Si/Report.antt =====
-- `si_read`: the report of the inverter.
use mybmm.Base.{ℕ, ◌+◌, Option, some, ◌>>=◌, List, if◌then◌else◌, ℤ, pos, is_zero, get_elem?}
use mybmm.Floats.{Floats, mulf}
use mybmm.Si.{si_getshort}

-- The fields of `struct mybmm_inverter` that `si_read` sets, and `frequency` of the configuration.
pub record Report (Number : Type 0) : Type 0 where
  pub grid_power : Number
  pub frequency : Number
  pub battery_voltage : Number
  pub battery_amps : Number
  pub battery_temp : Number
  pub battery_power : Number
  pub load_power : Number
  pub site_power : Number

-- the `short` at a place of the array
unfoldable pub si_short_at : List ℕ → ℕ → Option ℤ
unfolding si_getshort
si_short_at bytes i = do
  lo ← get_elem? bytes i
  hi ← get_elem? bytes (i + 1)
  some (si_getshort lo hi)

module _ (fl : Floats) {H : Type 0} (get_data : ℕ → List ℕ → H → Option (ℤ × List ℕ × H)) where
  open fl use {Number, add, mul, div, single, of_int, lit}

  -- three phases in hundreds of watts
  unfoldable pub three_phases : List ℕ → Option Number
  unfolding si_short_at
  three_phases bytes = do
    l1 ← si_short_at bytes 0
    l2 ← si_short_at bytes 2
    l3 ← si_short_at bytes 4
    some (
        single (
          add (add (mul (of_int l1) (lit 1000 1)) (mul (of_int l2) (lit 1000 1)))
            (mul (of_int l3) (lit 1000 1))))

  abbrev pub tenths : ℤ → Number
  tenths v = single (div (of_int v) (lit 100 1))

  -- what is set by the message 0x305
  unfoldable pub battery_report : List ℕ → Report Number → Option (Report Number)
  unfolding si_short_at
  battery_report bytes inv = do
    volts ← si_short_at bytes 0
    amps ← si_short_at bytes 2
    some (record inv {
      battery_voltage = tenths volts;
      battery_amps = tenths amps;
      battery_temp = single (lit 250 1);
      battery_power = mulf fl (tenths amps) (tenths volts);
    })

  -- the messages 0x308 and 0x30A, whose absence is not looked at
  unfoldable pub read_loads : List ℕ → Report Number → H → Option (ℤ × Report Number × H)
  unfolding three_phases si_short_at
  read_loads bytes inv h = do
    (_, bytes1, h1) ← get_data 0x308 bytes h
    loads ← three_phases bytes1
    (_, bytes2, h2) ← get_data 0x30A bytes1 h1
    pv ← si_short_at bytes2 0
    some (
      pos 0,
      record inv { load_power = loads; site_power = single (mul (of_int pv) (lit 1000 1)) },
      h2,
    )

  unfoldable pub read_battery : List ℕ → Report Number → H → Option (ℤ × Report Number × H)
  unfolding battery_report read_loads
  read_battery bytes inv h = do
    (r, bytes1, h1) ← get_data 0x305 bytes h
    if is_zero r
        then (do inv1 ← battery_report bytes1 inv; read_loads bytes1 inv1 h1)
        else some (pos 1, inv, h1)

  unfoldable pub read_frequency : List ℕ → Report Number → H → Option (ℤ × Report Number × H)
  unfolding si_short_at read_battery
  read_frequency bytes inv h = do
    (r, bytes1, h1) ← get_data 0x304 bytes h
    if is_zero r
        then (do
          hertz ← si_short_at bytes1 6
          read_battery bytes1 (record inv { frequency = single (div (of_int hertz) (lit 1000 1)) })
              h1)
        else some (pos 1, inv, h1)

  -- What is returned, the report and the session; `bytes` is what is on the stack for `data`.
  unfoldable pub si_read : List ℕ → Report Number → H → Option (ℤ × Report Number × H)
  unfolding three_phases read_frequency
  si_read bytes inv h = do
    (r, bytes1, h1) ← get_data 0x300 bytes h
    if is_zero r
        then (do
          grid ← three_phases bytes1
          read_frequency bytes1 (record inv { grid_power = grid }) h1)
        else some (pos 1, inv, h1)
