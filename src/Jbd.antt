-- ===== src/Jbd.antt =====
-- jbd.c: the frames of the JBD battery monitor, its transfers over a serial line and over CAN,
-- and the decoding of what it reports.
--
-- A buffer is a list of bytes of fixed length. `none` is an access outside of it.
pub mod Frame
pub mod Command
pub mod Detect
pub mod Transfer
pub mod Report
pub mod Can
pub mod Network
pub mod Driver
use mybmm.Base.{
  ℕ, ◌+◌, ◌-◌, ◌/◌, ◌%◌, Bool, true, false, not, Option, none, some, ◌>>=◌, List, [], ◌∷◌, ◌==◌,
  ltb, if◌then◌else◌, length, get_elem?, replicate, load_at, store_at, get_short,
}

abbrev pub pkt_start : ℕ
pkt_start = 0xDD

abbrev pub pkt_end : ℕ
pkt_end = 0x77

abbrev pub cmd_read : ℕ
cmd_read = 0xA5

abbrev pub cmd_write : ℕ
cmd_write = 0x5A

-- `crc -= data[i]` on a `uint16_t`
jbd_crc_from : ℕ → List ℕ → ℕ
jbd_crc_from crc [] = crc
jbd_crc_from crc (d ∷ ds) = jbd_crc_from ((crc + 65536 - d) % 65536) ds

unfoldable pub jbd_crc : List ℕ → ℕ
unfolding jbd_crc_from
jbd_crc bytes = jbd_crc_from 0 bytes

-- The value returned is `0` for a frame that is accepted and `1` for an error.
unfoldable pub jbd_verify : List ℕ → ℕ → Option ℕ
unfolding get_short
jbd_verify buf len = if ltb len 7 then some 1 else do
  start ← get_elem? buf 0
  if not (start == pkt_start) then some 1 else do
    data_length ← get_elem? buf 3
    if not (data_length == len - 7) then some 1 else do
      covered ← load_at buf 2 (data_length + 2)
      hi ← get_elem? buf (4 + data_length)
      lo ← get_elem? buf (5 + data_length)
      if not (jbd_crc covered == get_short hi lo) then some 1 else do
        stop ← get_elem? buf (6 + data_length)
        if not (stop == pkt_end) then some 1 else some 0

-- `jbd_cmd` behind its first statement, with the length that is sent. What is returned, `none` for
-- -1, with the packet.
jbd_cmd_build : ℕ → ℕ → ℕ → List ℕ → ℕ → Option (Option ℕ × List ℕ)
unfolding store_at
jbd_cmd_build pkt_size action reg bytes len = do
  pkt ← store_at (replicate pkt_size 0) 0 (pkt_start ∷ [])
  pkt ← store_at pkt 1 (action % 256 ∷ [])
  pkt ← store_at pkt 2 (reg % 256 ∷ [])
  pkt ← store_at pkt 3 (len % 256 ∷ [])
  if ltb pkt_size (4 + len) then some (none, pkt) else do
    payload ← load_at bytes 0 len
    pkt ← store_at pkt 4 payload
    covered ← load_at pkt 2 (len + 2)
    pkt ← store_at pkt (4 + len) (jbd_crc covered / 256 ∷ [])
    pkt ← store_at pkt (4 + len + 1) (jbd_crc covered % 256 ∷ [])
    pkt ← store_at pkt (4 + len + 2) (pkt_end ∷ [])
    some (some (4 + len + 3), pkt)

unfoldable pub jbd_cmd : ℕ → ℕ → ℕ → List ℕ → ℕ → Option (Option ℕ × List ℕ)
unfolding jbd_cmd_build
jbd_cmd pkt_size action reg bytes data_len =
    jbd_cmd_build pkt_size action reg bytes (if action == cmd_read then 0 else data_len)
