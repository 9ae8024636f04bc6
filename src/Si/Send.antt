-- ===== src/Si/Send.antt =====
-- `si_write`, `si_grid_control`, and the driver that `inverter_write` calls.
use mybmm.Base.{
  ℕ, ◌≡◌, refl, Bool, true, false, List, [], ◌∷◌, ◌++◌, if◌then◌else◌, replicate, ℤ, pos, is_zero,
  is_neg, bit, set_state, check_state, Bool-cases, inl, inr,
}
use mybmm.Floats.{Floats}
use mybmm.Battery.{Conf}
use mybmm.Main.{Inverter}
use mybmm.Inverter.{Driver, inverter_write}
use mybmm.Si.{short_bytes, long_bytes}

-- The functions of the transport (`s->tp`) that the driver sends with, over its state.
pub record SendBus : Type 1 where
  pub State : Type 0
  pub open_it : State → ℤ × State
  pub write : ℕ → List ℕ → State → ℤ × State
  pub close : State → State

-- MYBMM_GRID_ENABLE and MYBMM_GEN_ENABLE
abbrev pub grid_enable : ℕ
grid_enable = bit 6

abbrev pub gen_enable : ℕ
gen_enable = bit 7

-- the byte of `si_grid_control`: SI_GEN_ENABLE, SI_GRID_ENABLE, SI_CAN_SWITCH
unfoldable pub control_byte : ℕ → ℕ
unfolding set_state check_state
control_byte state =
    let b = if check_state state gen_enable then set_state (set_state 0 0x10) 0x80 else 0 in
    if check_state state grid_enable then set_state (set_state b 0x20) 0x80 else b

module _ (fl : Floats) (bus : SendBus) where
  open fl use {Number, mul, single, to_int, lit}
  open bus use {State, open_it, write, close}

  unfoldable pub si_grid_control : ℕ → State → State
  unfolding control_byte
  si_grid_control state h = (write 0x354 (control_byte state ∷ []) h).1

  -- `_putshort`, by way of a `float`, and `_putlong`
  abbrev pub put_short : Number → List ℕ
  put_short v = short_bytes (to_int (single v))

  abbrev pub put_long : Number → List ℕ
  put_long v = long_bytes (to_int v)

  abbrev pub limits_frame : Conf fl → List ℕ
  limits_frame conf =
      put_short (mul conf.charge_voltage (lit 100 1))
      ++ put_short (mul conf.charge_amps (lit 100 1))
      ++ put_short (mul conf.discharge_amps (lit 100 1))
      ++ put_short (mul conf.discharge_voltage (lit 100 1))

  abbrev pub charge_frame : Conf fl → List ℕ
  charge_frame conf =
      put_short conf.soc ++ put_short conf.soh ++ put_long (mul conf.soc (lit 1000 1))

  -- the last frame, whose count is an error where it is not 0
  send_events : State → ℤ × State
  send_events h =
      let (r, h') = write 0x35B (replicate 8 0) h in (if is_zero r then pos 0 else pos 1, h')

  -- a frame, and the rest where its count is not negative
  send_then : ℕ → List ℕ → (State → ℤ × State) → State → ℤ × State
  send_then id bytes rest h =
      let (r, h') = write id bytes h in if is_neg r then (pos 1, h') else rest h'

  unfoldable pub si_write : Conf fl → State → ℤ × State
  unfolding send_then send_events
  si_write conf h =
      send_then 0x351 (limits_frame conf)
        (send_then 0x355 (charge_frame conf) (send_then 0x35A (replicate 8 0) send_events)) h

  -- `si_open`, `si_close`, with `open` of the session
  unfoldable pub si_open : Bool × State → ℤ × (Bool × State)
  si_open (is_open, h) = let (r, h') = open_it h in (r, (if is_zero r then true else is_open, h'))

  unfoldable pub si_close : Bool × State → Bool × State
  si_close (is_open, h) = if is_open then (false, close h) else (is_open, h)

  abbrev pub write_settings : Conf fl → Inverter Number → Bool × State → ℤ × (Bool × State)
  write_settings conf inv (is_open, h) = let (r, h') = si_write conf h in (r, (is_open, h'))

  -- The driver with any read.
  abbrev pub si_driver :
      (Inverter Number → Bool × State → ℤ × Inverter Number × (Bool × State))
      → Driver Number (Conf fl)
  si_driver read = record {
    Handle = Bool × State;
    open_it = si_open;
    read = read;
    write = write_settings;
    close = si_close;
  }

  abbrev IsPositive : (State → ℤ × State) → Type 0
  IsPositive send = (h : State) → is_neg (send h).0 ≡ false

  send_events-IsPositive : IsPositive send_events
  unfolding send_events
  send_events-IsPositive h = elim (Bool-cases (is_zero (write 0x35B (replicate 8 0) h).0)) [
    | inl e ↦ rw e refl
    | inr e ↦ rw e refl
  ]

  send_then-IsPositive :
      (id : ℕ) (bytes : List ℕ) (rest : State → ℤ × State)
      → IsPositive rest
      → IsPositive (send_then id bytes rest)
  unfolding send_then
  send_then-IsPositive id bytes rest is h = elim (Bool-cases (is_neg (write id bytes h).0)) [
    | inl e ↦ rw e refl
    | inr e ↦ rw e (is (write id bytes h).1)
  ]

  si_write-IsPositive : (conf : Conf fl) → IsPositive (si_write conf)
  unfolding si_write
  si_write-IsPositive conf =
      let alarms = send_then 0x35A (replicate 8 0) send_events in
      let charge = send_then 0x355 (charge_frame conf) alarms in
      send_then-IsPositive 0x351 (limits_frame conf) charge (
        send_then-IsPositive 0x355 (charge_frame conf) alarms
          (send_then-IsPositive 0x35A (replicate 8 0) send_events send_events-IsPositive))

  -- Whatever the bus makes of the four frames, `inverter_write` with this driver returns 0 once the driver is
  -- open, and closes it: `si_write` reports an error as 1, which is not negative.
  pub inverter_write-si_write :
      (read : Inverter Number → Bool × State → ℤ × Inverter Number × (Bool × State))
      (conf : Conf fl) (inv : Inverter Number) (is_open : Bool) (h : State)
      → is_zero (open_it h).0 ≡ true
      → inverter_write (si_driver read) conf inv (is_open, h)
        ≡ (pos 0, (false, close (si_write conf (open_it h).1).1))
  unfolding inverter_write si_open si_close
  inverter_write-si_write read conf inv is_open h opened =
      rw (opened, si_write-IsPositive conf (open_it h).1) refl
