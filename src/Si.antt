-- ===== src/Si.antt =====
-- si.c: the driver of the SMA Sunny Island inverter. It is told the limits of the battery in frames of a CAN
-- bus, and reports in frames with the identifiers 0x300 to 0x30A.
--
-- A `short` in a frame has its low byte first. A read of the transport gives a count and what stands in
-- `frame` behind it; a read can fail at any turn.
pub mod Receive
pub mod Report
pub mod Send
use mybmm.Base.{
  ℕ, zero, suc, ◌+◌, ◌*◌, ◌<◌, ◌≡◌, ap, arith, ◌-◌, ◌/◌, ◌%◌, ◌^◌, Bool, true, false, ◌||◌, Option,
  none, some, List, [], ◌∷◌, ◌++◌, ◌==◌, ltb, leb, if◌then◌else◌, take, drop, replicate, ℤ, pos,
  negsuc, is_neg, get_short, to_short, bit, set_state, check_state,
}
use mybmm.Can.{CanFrame}

-- `_getshort` of two bytes
unfoldable pub si_getshort : ℕ → ℕ → ℤ
unfolding get_short
si_getshort lo hi = to_short (get_short hi lo)

-- byte `k` of an `int`, in two's complement
unfoldable pub int_byte : ℕ → ℤ → ℕ
int_byte k (pos n) = n / 256 ^ k % 256
int_byte k (negsuc n) = 255 - n / 256 ^ k % 256

-- what `_putshort` and `_putlong` store for an `int`
abbrev pub short_bytes : ℤ → List ℕ
short_bytes v = int_byte 0 v ∷ int_byte 1 v ∷ []

abbrev pub long_bytes : ℤ → List ℕ
long_bytes v = int_byte 0 v ∷ int_byte 1 v ∷ int_byte 2 v ∷ int_byte 3 v ∷ []

-- The part of `struct si_session` that the thread of the driver shares with its reads.
pub record Received : Type 0 where
  pub bitmap : ℕ
  pub messages : ℕ → List ℕ

abbrev pub whole_frame : ℤ
whole_frame = pos 16

-- the count that is `sizeof(frame)`
abbrev pub is_whole : ℤ → Bool
is_whole (pos n) = n == 16
is_whole (negsuc n) = false

-- A turn of `si_thread` with what it reads.
unfoldable pub si_receive : ℤ × CanFrame → Received → Received
unfolding set_state
si_receive (r, frame) s =
    if is_neg r
    then record s { bitmap = 0 }
    else if is_whole r
    then (if ltb frame.can_id 0x300 || ltb 0x30A frame.can_id then s else record {
      bitmap = set_state s.bitmap (bit (frame.can_id - 0x300));
      messages = λ i. if i == (frame.can_id - 0x300) then frame.bytes else s.messages i;
    })
    else s

-- The transport is not open.
abbrev pub si_closed : Received → Received
si_closed s = record s { bitmap = 0 }

-- `si_get_local_can_data` of eight bytes, in an array of eight: `seen i` is what the thread has received
-- when the bitmap is looked at for the `i`th time. What is returned, and the array.
unfoldable pub get_local_loop : (ℕ → Received) → ℕ → ℕ → ℕ → List ℕ → ℤ × List ℕ
unfolding check_state
get_local_loop seen zero i idx bytes = (pos 1, bytes)
get_local_loop seen (suc retries) i idx bytes =
    let rest = get_local_loop seen retries (suc i) idx bytes in
    if check_state (seen i).bitmap (bit idx) then (pos 0, (seen i).messages idx) else rest

unfoldable pub si_get_local_can_data : (ℕ → Received) → ℕ → List ℕ → ℤ × List ℕ
unfolding get_local_loop
si_get_local_can_data seen id bytes = get_local_loop seen 5 0 (id - 0x300) bytes

-- `si_get_remote_can_data` of eight bytes: `reads i` is the `i`th read of the identifier. What is returned, the
-- array and how many reads were made; `none` where a frame says that it has more than eight bytes.
unfoldable pub get_remote_loop : (ℕ → ℤ × CanFrame) → ℕ → ℕ → List ℕ → Option (ℤ × List ℕ × ℕ)
get_remote_loop reads zero i bytes = some (pos 1, bytes, i)
get_remote_loop reads (suc retries) i bytes =
    let rest = get_remote_loop reads retries (suc i) bytes in
    let (count, frame) = reads i in
    if is_neg count
    then some (pos 1, bytes, suc i)
    else if is_whole count
    then (if leb frame.can_dlc 8
        then some (
          if ltb 0 retries then pos 0 else pos 1,
          take frame.can_dlc frame.bytes ++ replicate (8 - frame.can_dlc) 0,
          suc i,
        )
        else none)
    else rest

unfoldable pub si_get_remote_can_data : (ℕ → ℤ × CanFrame) → ℕ → List ℕ → Option (ℤ × List ℕ × ℕ)
unfolding get_remote_loop
si_get_remote_can_data reads i bytes = get_remote_loop reads 5 i bytes

-- A value that a `short` can hold.
abbrev pub IsShort : ℤ → Type 0
IsShort (pos n) = n < 32768
IsShort (negsuc n) = n < 32768

-- A `short` that is stored is read back.
pub si_getshort-int_byte : (v : ℤ) → IsShort v → si_getshort (int_byte 0 v) (int_byte 1 v) ≡ v
unfolding si_getshort int_byte get_short
si_getshort-int_byte (pos n) small =
    let fits : ltb (n / 256 % 256 * 256 + n / 1 % 256) (2 ^ 15) ≡ true = ground arith in
    rw fits (ap pos (omega arith))
si_getshort-int_byte (negsuc n) small =
    let w = (255 - n / 256 % 256) * 256 + (255 - n / 1 % 256) in
    let negative : ltb w (2 ^ 15) ≡ false = ground arith in rw negative (ap negsuc (omega arith))
