-- ===== src/Jbd/Can/Report.antt =====
-- `jbd_can_get_pack`: the registers of the monitor, read one after the other over CAN.
use mybmm.Base.{
  ℕ, zero, suc, ◌+◌, Bool, not, true, false, Option, none, some, ◌>>=◌, List, ◌==◌, leb,
  if◌then◌else◌, get_elem?, get_short, bit, check_state, set_state, clear_state, ℤ,
}
use mybmm.Floats.{Floats}
use mybmm.Pack.{Pack, pack_charging_bit, discharging_bit, balancing_bit}
use mybmm.Jbd.Report.{
  short_at, set_elem, balance_word, ctemp, thousandths, mos_charge, mos_discharge,
}
use mybmm.Jbd.Can.{CanBus, CanOutcome, jbd_can_get_crc}

-- What is returned, the pack and the transport.
abbrev pub Reading : Type 0 → Type 0 → Type 0
Reading P S = Option (ℕ × P × S)

-- `if (jbd_can_get_crc(..)) return 1;`, with the rest of the function; `pp` is what has been read so far
unfoldable pub then_read :
    {P S : Type 0} → P → (List ℕ → S → Reading P S) → CanOutcome S → Reading P S
then_read pp rest none = none
then_read pp rest (some (r, bytes, s)) = if r == 0 then rest bytes s else some (1, pp, s)

-- The three values of a frame, from element `i` on: the array, the next element, and whether the
-- loop is left (`if (i >= count) break;` behind each).
unfoldable pub put_values :
    {A : Type 0} → (ℤ → A) → ℕ → ℕ → ℕ → ℕ → List ℕ → List A → Option (List A × ℕ × Bool)
unfolding short_at set_elem
put_values conv count i at zero bytes array = some (array, i, false)
put_values conv count i at (suc left) bytes array = do
  v ← short_at bytes at
  array' ← set_elem array i (conv v)
  let rest = put_values conv count (i + 1) (at + 2) left bytes array'
  if leb count (i + 1) then some (array', i + 1, true) else rest

module _ (fl : Floats) (t : CanBus) where
  open fl use {Number}
  open t use {State}

  -- `for(id = ..; id < ..; id++)`: frames until the array has `count` values, with `n` identifiers to
  -- go: 0 or 1 for an error, the last frame, the array and the transport
  unfoldable pub read_values :
      (ℤ → Number)
      → ℕ
      → ℕ
      → ℕ
      → ℕ
      → List ℕ
      → List Number
      → State
      → Option (ℕ × List ℕ × List Number × State)
  unfolding put_values jbd_can_get_crc
  read_values conv count zero id i bytes array s = some (0, bytes, array, s)
  read_values conv count (suc n) id i bytes array s = do
    (r, bytes', s') ← jbd_can_get_crc t id bytes 8 s
    if not (r == 0) then some (1, bytes', array, s') else do
      (array', i', done) ← put_values conv count i 0 3 bytes' array
      let rest = read_values conv count n (id + 1) i' bytes' array' s'
      if done then some (0, bytes', array', s') else rest

  unfoldable pub can_flags : Bool → ℕ → ℕ → ℕ
  unfolding set_state clear_state check_state
  can_flags balancing fetbits s =
      let s1 =
        if check_state fetbits mos_charge
        then set_state s (bit pack_charging_bit)
        else clear_state s (bit pack_charging_bit) in
      let s2 =
        if check_state fetbits mos_discharge
        then set_state s1 (bit discharging_bit)
        else clear_state s1 (bit discharging_bit) in
      if balancing then set_state s2 (bit balancing_bit) else clear_state s2 (bit balancing_bit)

  unfoldable pub put_balance : List ℕ → Pack Number → Option (Pack Number)
  unfolding short_at balance_word
  put_balance bytes pp = do
    low ← short_at bytes 0
    high ← short_at bytes 2
    some (record pp { balancebits = balance_word low high })

  unfoldable pub put_flags : Bool → List ℕ → Pack Number → Option (Pack Number)
  unfolding get_short can_flags
  put_flags balancing bytes pp = do
    hi ← get_elem? bytes 0
    lo ← get_elem? bytes 1
    some (record pp { state = can_flags balancing (get_short hi lo) pp.state })

  unfoldable pub put_counts : List ℕ → Pack Number → Option (Pack Number)
  put_counts bytes pp = do
    cells ← get_elem? bytes 0
    ntemps ← get_elem? bytes 1
    some (record pp { cells = cells; ntemps = ntemps })

  -- the loop over the frames with the cell voltages
  unfoldable pub read_cellvolt :
      Pack Number → ℕ × List ℕ × List Number × State → Reading (Pack Number) State
  unfolding read_values thousandths
  read_cellvolt pp (suc r, bytes, temps, s) = some (1, record pp { temps = temps }, s)
  read_cellvolt pp (zero, bytes, temps, s) = do
    (r, bytes', cellvolt, s') ← read_values (thousandths fl) pp.cells 10 0x107 0 bytes pp.cellvolt s
    some (r, record pp { temps = temps; cellvolt = cellvolt }, s')

  -- behind the frame with the counts
  unfoldable pub read_arrays : Pack Number → List ℕ → State → Reading (Pack Number) State
  unfolding read_values read_cellvolt ctemp put_counts
  read_arrays pp bytes s = do
    pp' ← put_counts bytes pp
    answer ← read_values (ctemp fl) pp'.ntemps 2 0x105 0 bytes pp'.temps s
    read_cellvolt pp' answer

  -- `bytes` (the source's `data`) is what the buffer of eight bytes holds at first.
  unfoldable pub jbd_can_get_pack :
      Bool → List ℕ → Pack Number → State → Reading (Pack Number) State
  unfolding then_read jbd_can_get_crc put_balance put_flags read_arrays
  jbd_can_get_pack balancing bytes pp s =
      then_read pp
        (λ bytes1 s1. put_balance bytes1 pp >>= λ pp1.
          then_read pp1
            (λ bytes2 s2. put_flags balancing bytes2 pp1 >>= λ pp2.
              then_read pp2 (read_arrays pp2) (jbd_can_get_crc t 0x104 bytes2 8 s2))
            (jbd_can_get_crc t 0x103 bytes1 8 s1))
        (jbd_can_get_crc t 0x102 bytes 8 s)
