-- ===== src/Jbd/Can.antt =====
-- jbd.c over CAN: `jbd_can_crc`, `jbd_can_get` and `jbd_can_get_pack`.
pub mod Get
pub mod Report
pub mod Bounds
use Prim.Native.Nat.{bit_xor}
use mybmm.Base.{
  ℕ, zero, suc, ◌+◌, ◌*◌, ◌/◌, not, ◌≤◌, ◌≡◌, Bool, true, false, ◌||◌, Option, none, some, ◌>>=◌,
  List, [], ◌∷◌, ◌==◌, leb, if◌then◌else◌, length, take, get_elem?, replicate, store_at, get_short,
  IsByte, All, bit, check_state, set_state, clear_state, ℤ,
}
use mybmm.Floats.{Floats}
use mybmm.Pack.{Pack, elements, pack_charging_bit, discharging_bit, balancing_bit}
use mybmm.Jbd.Report.{
  short_at, set_elem, balance_word, ctemp, thousandths, mos_charge, mos_discharge,
}

-- CRC_16_POLYNOMIALS
abbrev pub crc_16_polynomials : ℕ
crc_16_polynomials = 0xA001

-- one turn of the inner loop
crc_bit : ℕ → ℕ
unfolding check_state
crc_bit w = if check_state w 1 then bit_xor (w / 2) crc_16_polynomials else w / 2

crc_bits : ℕ → ℕ → ℕ
unfolding crc_bit
crc_bits zero w = w
crc_bits (suc n) w = crc_bits n (crc_bit w)

crc_bytes : ℕ → List ℕ → ℕ
unfolding crc_bits
crc_bytes w [] = w
crc_bytes w (b ∷ bs) = crc_bytes (crc_bits 8 (bit_xor w b)) bs

-- over the first six bytes
unfoldable pub jbd_can_crc : List ℕ → Option ℕ
unfolding crc_bytes
jbd_can_crc msg = do bytes ← elements msg 6; some (crc_bytes 0xFFFF bytes)

-- The functions of the transport that the session holds (`s->tp`): a write of an empty frame with an
-- identifier, and whether it succeeds; a read of at most `n` bytes from frames with it, `none` for a
-- negative count.
pub record CanBus : Type 1 where
  pub State : Type 0
  pub write : ℕ → State → Bool × State
  pub read : ℕ → ℕ → State → Option (List ℕ) × State
  -- a read fills at most the buffer that it is given, with bytes
  pub read_bytes :
      (id n : ℕ) (s : State) (bytes : List ℕ) → (read id n s).0 ≡ some bytes → All IsByte bytes
  pub read_fits :
      (id n : ℕ) (s : State) (bytes : List ℕ) → (read id n s).0 ≡ some bytes → length bytes ≤ n

-- What is returned, what is left in `data`, and the transport.
abbrev pub CanOutcome : Type 0 → Type 0
CanOutcome S = Option (ℕ × List ℕ × S)

module _ (t : CanBus) (id datalen : ℕ) (chk : Bool) where
  open t use {State, write, read}

  -- Whether the loop is left: without a check, or with a checksum that is 0 or right.
  passes : List ℕ → Option Bool
  unfolding jbd_can_crc get_short
  passes bytes = if not chk then some true else do
    hi ← get_elem? bytes 6
    lo ← get_elem? bytes 7
    mycrc ← jbd_can_crc bytes
    some (get_short hi lo == 0 || get_short hi lo == mycrc)

  -- behind a read; `again` is the next turn, if there is one
  can_answer : (List ℕ → State → CanOutcome State) → Option (List ℕ) → State → CanOutcome State
  unfolding passes store_at
  can_answer again none s = some (1, replicate datalen 0, s)
  can_answer again (some bytes) s = do
    bytes' ← store_at (replicate datalen 0) 0 bytes
    ok ← passes bytes'
    elim ok [ true ↦ some (0, bytes', s) | false ↦ again bytes' s ]

  -- behind a write
  can_read_answer : (List ℕ → State → CanOutcome State) → List ℕ → Bool × State → CanOutcome State
  unfolding can_answer
  can_read_answer again bytes (false, s) = some (1, bytes, s)
  can_read_answer again bytes (true, s) = let (r, s') = read id datalen s in can_answer again r s'

  -- the turns, with `retries` more of them behind the first
  can_loop : ℕ → List ℕ → State → CanOutcome State
  unfolding can_read_answer
  can_loop zero bytes s = can_read_answer (λ bytes' s'. some (1, bytes', s')) bytes (write id s)
  can_loop (suc retries) bytes s = can_read_answer (can_loop retries) bytes (write id s)

unfoldable pub jbd_can_get : (t : CanBus) → ℕ → List ℕ → ℕ → Bool → t.State → CanOutcome t.State
unfolding can_loop
jbd_can_get t id bytes datalen chk s = can_loop t id datalen chk 3 bytes s

unfoldable pub jbd_can_get_crc : (t : CanBus) → ℕ → List ℕ → ℕ → t.State → CanOutcome t.State
unfolding jbd_can_get
jbd_can_get_crc t id bytes len s = jbd_can_get t id bytes len true s
