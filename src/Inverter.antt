-- ===== src/Inverter.antt =====
-- inverter.c: `inverter_read` and `inverter_write`, and the turn of the main loop with them.
pub mod Access
use mybmm.Base.{
  ℕ, Bool, true, false, not, Option, none, some, ◌>>=◌, List, if◌then◌else◌, ℤ, pos, is_zero,
  is_neg, bit, set_state, clear_state, check_state,
}
use mybmm.Floats.{Floats}
use mybmm.Battery.{Conf}
use mybmm.Pack.{Pack}
use mybmm.Main.{Inverter}
use mybmm.Main.Loop.{LoopState, Round, quit, wait, written, main_round}

-- MYBMM_INVERTER_STATE_UPDATED
abbrev pub inverter_updated_bit : ℕ
inverter_updated_bit = 0

-- The functions of a driver that an inverter holds (`inv->open`, `inv->read`, `inv->write`, `inv->close`)
-- over the state of its handle. `S` are the settings that it writes.
pub record Driver (Number : Type 0) (S : Type 0) : Type 1 where
  pub Handle : Type 0
  pub open_it : Handle → ℤ × Handle
  pub read : Inverter Number → Handle → ℤ × Inverter Number × Handle
  pub write : S → Inverter Number → Handle → ℤ × Handle
  pub close : Handle → Handle

module _ {Number S : Type 0} (m : Driver Number S) where
  open m use {Handle, open_it, read, write, close}

  inverter_answer : ℤ × Inverter Number × Handle → ℤ × Inverter Number × Handle
  unfolding set_state
  inverter_answer (r, inv, h) =
      if is_zero r
      then (r, record inv { state = set_state inv.state (bit inverter_updated_bit) }, close h)
      else (r, inv, close h)

  -- What is returned, the inverter and the handle.
  unfoldable pub inverter_read : Inverter Number → Handle → ℤ × Inverter Number × Handle
  unfolding clear_state inverter_answer
  inverter_read inv h =
      let inv1 = record inv { state = clear_state inv.state (bit inverter_updated_bit) } in
      let (r, h1) = open_it h in
      if is_zero r then inverter_answer (read inv1 h1) else (pos 1, inv1, h1)

  -- `inverter_mqtt_send`, which ends a write that succeeds, only sends and is left out.
  unfoldable pub inverter_write : S → Inverter Number → Handle → ℤ × Handle
  inverter_write settings inv h =
      let (r, h1) = open_it h in
      if not (is_zero r)
      then (pos 1, h1)
      else (let (w, h2) = write settings inv h1 in
          if is_neg w then (pos 1, h2) else (pos 0, close h2))

module _ (fl : Floats) (m : Driver fl.Number (Conf fl)) where
  open fl use {Number}
  open m use {Handle}

  send_settings : Inverter Number → Handle → Round fl → Round fl × Handle
  unfolding inverter_write
  send_settings inv h quit = (quit, h)
  send_settings inv h (wait l) = (wait l, h)
  send_settings inv h (written none l) = (written none l, h)
  send_settings inv h (written (some c) l) = (written (some c) l, (inverter_write m c inv h).1)

  -- A turn of the main loop where there is an inverter: it is read, the round is made with it if it
  -- has reported, and the settings are written. (That no inverter is written without a report is
  -- what the round decides.)
  unfoldable pub turn :
      (Pack Number → Pack Number)
      → ℕ
      → ℕ
      → Inverter Number
      → List (Pack Number)
      → LoopState fl
      → Handle
      → Option (Round fl × Inverter Number × Handle)
  unfolding send_settings inverter_read main_round check_state
  turn run current_time clock inv packs l h =
      let (_, inv1, h1) = inverter_read m inv h in
      let reported =
        if check_state inv1.state (bit inverter_updated_bit) then some inv1 else none in
      do
        round ← main_round fl run true current_time clock reported packs l
        let (round', h2) = send_settings inv1 h1 round
        some (round', inv1, h2)
