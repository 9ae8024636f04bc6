-- ===== src/Jbd/Report.antt =====
-- `jbd_get_pack`: what the monitor reports over a serial line, put into the pack.
pub mod Values
pub mod Decode
use mybmm.Base.{
  ℕ, zero, suc, ◌+◌, ◌-◌, ◌*◌, ◌%◌, ◌^◌, Bool, Option, none, some, ◌>>=◌, List, [], ◌∷◌, map,
  if◌then◌else◌, get_elem?, get_short, ℤ, pos, negsuc, to_short, bit, set_state, clear_state,
  check_state,
}
use Prim.Native.Nat.{bit_or}
use mybmm.Floats.{Floats, subf, divf, intf}
use mybmm.Pack.{Pack, pack_charging_bit, discharging_bit, balancing_bit}
use mybmm.Jbd.{cmd_read}
use mybmm.Jbd.Transfer.{Transport, jbd_rw}

abbrev pub cmd_hwinfo : ℕ
cmd_hwinfo = 0x03

abbrev pub cmd_cellinfo : ℕ
cmd_cellinfo = 0x04

-- JBD_MOS_CHARGE and JBD_MOS_DISCHARGE
abbrev pub mos_charge : ℕ
mos_charge = bit 0

abbrev pub mos_discharge : ℕ
mos_discharge = bit 1

-- `_getshort(&data[i])`
unfoldable pub short_at : List ℕ → ℕ → Option ℤ
unfolding get_short
short_at bytes i = do
  hi ← get_elem? bytes i
  lo ← get_elem? bytes (i + 1)
  some (to_short (get_short hi lo))

-- `array[i] = a`
unfoldable pub set_elem : {A : Type 0} → List A → ℕ → A → Option (List A)
set_elem [] i a = none
set_elem (x ∷ xs) zero a = some (a ∷ xs)
set_elem (x ∷ xs) (suc i) a = do ys ← set_elem xs i a; some (x ∷ ys)

-- an `int` or `short` converted to `uint32_t`
unfoldable pub to_u32 : ℤ → ℕ
to_u32 (pos n) = n % 2 ^ 32
to_u32 (negsuc n) = 2 ^ 32 - 1 - n % 2 ^ 32

-- `_getshort(..)`, then `|= _getshort(..) << 16`
unfoldable pub balance_word : ℤ → ℤ → ℕ
unfolding to_u32
balance_word low high = bit_or (to_u32 low) (to_u32 high * 2 ^ 16 % 2 ^ 32)

module _ (fl : Floats) where
  open fl use {Number, div, single, lit}

  -- `(float)v / 100.0`
  unfoldable pub hundredths : ℤ → Number
  hundredths v = single (div (intf fl v) (lit 1000 1))

  -- `CTEMP((float)v)`
  unfoldable pub ctemp : ℤ → Number
  ctemp v = divf fl (subf fl (intf fl v) (intf fl (pos 2731))) (intf fl (pos 10))

  -- `(float)v / 1000`
  unfoldable pub thousandths : ℤ → Number
  thousandths v = divf fl (intf fl v) (intf fl (pos 1000))

  -- `for(; i < ..; i++) array[i] = conv(_getshort(&data[start + i*2]))`, with `n` elements to go
  unfoldable pub fill : (ℤ → Number) → ℕ → ℕ → ℕ → List ℕ → List Number → Option (List Number)
  unfolding short_at set_elem
  fill conv start i zero bytes array = some array
  fill conv start i (suc n) bytes array = do
    v ← short_at bytes (start + i * 2)
    array' ← set_elem array i (conv v)
    fill conv start (i + 1) n bytes array'

  -- The flags behind the answer to HWINFO; both branches of the test of the discharge MOS set.
  unfoldable pub info_state : Bool → ℕ → ℕ → ℕ
  unfolding set_state clear_state check_state
  info_state balancing fetbits s =
      let s1 =
        if check_state fetbits mos_charge
        then set_state s (bit pack_charging_bit)
        else clear_state s (bit pack_charging_bit) in
      let s2 =
        if check_state fetbits mos_discharge
        then set_state s1 (bit discharging_bit)
        else set_state s1 (bit discharging_bit) in
      if balancing then set_state s2 (bit balancing_bit) else clear_state s2 (bit balancing_bit)

  -- the part between the two transfers
  unfoldable pub decode_info : Bool → List ℕ → Pack Number → Option (Pack Number)
  unfolding short_at balance_word info_state hundredths ctemp fill
  decode_info balancing bytes pp = do
    voltage ← short_at bytes 0
    current ← short_at bytes 2
    capacity ← short_at bytes 6
    low ← short_at bytes 12
    high ← short_at bytes 14
    fetbits ← get_elem? bytes 20
    cells ← get_elem? bytes 21
    ntemps ← get_elem? bytes 22
    temps ← fill ctemp 23 0 ntemps bytes pp.temps
    some (record pp {
      voltage = hundredths voltage;
      current = hundredths current;
      capacity = hundredths capacity;
      balancebits = balance_word low high;
      state = info_state balancing fetbits pp.state;
      cells = cells;
      ntemps = ntemps;
      temps = temps;
    })

  -- the part behind the second transfer
  unfoldable pub decode_cells : List ℕ → Pack Number → Option (Pack Number)
  unfolding fill thousandths
  decode_cells bytes pp = do
    cellvolt ← fill thousandths 0 0 pp.cells bytes pp.cellvolt
    some (record pp { cellvolt = cellvolt })

  unfoldable pub get_cells :
      (t : Transport)
      → Pack Number
      → Option ℕ × List ℕ × t.State
      → Option (ℕ × Pack Number × t.State)
  unfolding decode_cells
  get_cells t pp (none, bytes, s) = some (1, pp, s)
  get_cells t pp (some n, bytes, s) = do pp' ← decode_cells bytes pp; some (0, pp', s)

  unfoldable pub get_info :
      (t : Transport)
      → Bool
      → List ℕ
      → Pack Number
      → Option ℕ × List ℕ × t.State
      → Option (ℕ × Pack Number × t.State)
  unfolding decode_info get_cells jbd_rw
  get_info t balancing buf pp (none, bytes, s) = some (1, pp, s)
  get_info t balancing buf pp (some n, bytes, s) = do
    pp' ← decode_info balancing bytes pp
    answer ← jbd_rw t cmd_read cmd_cellinfo bytes 128 buf s
    get_cells t pp' answer

  -- What is returned, the pack and the transport. `bytes` (the source's `data`), `buf1` and `buf2` are what the arrays on
  -- the stack hold at first.
  unfoldable pub jbd_get_pack :
      (t : Transport)
      → Bool
      → List ℕ
      → List ℕ
      → List ℕ
      → Pack Number
      → t.State
      → Option (ℕ × Pack Number × t.State)
  unfolding get_info jbd_rw
  jbd_get_pack t balancing bytes buf1 buf2 pp s = do
    answer ← jbd_rw t cmd_read cmd_hwinfo bytes 128 buf1 s
    get_info t balancing buf2 pp answer
