-- ===== src/CanIp.antt =====
-- can_ip.c: the frames of a CAN bus behind a device server.
--
-- A `struct can_frame` is its 16 bytes in memory: the identifier in the first four, the number of its data
-- in the fifth, the data in the last eight.
pub mod Lengths
use mybmm.Base.{
  ℕ, ◌+◌, ◌-◌, ◌/◌, ◌%◌, Bool, true, false, Option, none, some, ◌>>=◌, List, [], ◌∷◌, ◌++◌, ◌==◌,
  ltb, leb, if◌then◌else◌, take, replicate, length, get_elem?, load_at, store_at, ℤ, pos, negsuc,
  is_neg,
}
use mybmm.Can.{any_id, smaller}
use mybmm.DevServer.{Answer, devserver_send, devserver_recv}

-- CANSERVER_READ, CANSERVER_WRITE
abbrev pub server_read : ℕ
server_read = 3

abbrev pub server_write : ℕ
server_write = 4

-- The socket for one exchange: what it gives, how much of the data comes at once, an error at the end; and
-- what is on the stack for the frame.
pub record Exchange : Type 0 where
  pub input : List ℕ
  pub given : ℕ
  pub is_broken : Bool
  pub stack : List ℕ

-- what is returned, and the buffer
pub record Outcome : Type 0 where
  pub code : ℤ
  pub buf : List ℕ

unfoldable pub copy_data : List ℕ → ℕ → List ℕ → Option Outcome
unfolding store_at
copy_data frame len buf = do
  bytes ← load_at frame 8 len
  buf' ← store_at buf 0 bytes
  some (record { code = pos len; buf = buf' })

-- the part behind the answer
unfoldable pub take_frame : ℕ → ℕ → List ℕ → Answer → Option Outcome
unfolding copy_data store_at
take_frame id buflen buf a =
    let frame = take 16 a.bytes in
    if is_neg a.code
    then some (record { code = negsuc 0; buf = buf })
    else if id == any_id
    then (do
      bytes ← load_at frame 0 (smaller buflen 16)
      buf' ← store_at buf 0 bytes
      some (record { code = pos (smaller buflen 16); buf = buf' }))
    else (do dlc ← get_elem? frame 4; copy_data frame (smaller dlc buflen) buf)

-- `can_ip_read` on an open socket: the packet that is sent, and the outcome
unfoldable pub can_ip_read : ℕ → ℕ → ℕ → List ℕ → Exchange → Option (List ℕ × Outcome)
can_ip_read unit id buflen buf e = do
  sent ← devserver_send server_read unit (id % 256 ∷ id / 256 % 256 ∷ [])
  a ← devserver_recv e.given 16 e.stack e.is_broken e.input
  o ← take_frame id buflen buf a
  some (sent, o)

-- the bytes of the frame that is written
abbrev pub frame_bytes : ℕ → List ℕ → List ℕ
frame_bytes id bytes =
    let n = smaller (length bytes) 8 in
    id % 256 ∷ id / 256 % 256 ∷ 0 ∷ 0 ∷ n ∷ 0 ∷ 0 ∷ 0 ∷ (take 8 bytes ++ replicate (8 - n) 0)

-- `can_ip_write` on an open socket, of an identifier below 65536: the packet that is sent, and what is
-- returned. A negative count of `write` is an error of the socket, `is_sent` is false for it.
unfoldable pub can_ip_write : ℕ → ℕ → List ℕ → Bool → Exchange → Option (List ℕ × ℤ)
can_ip_write unit id buf is_sent e = do
  sent ← devserver_send server_write unit (frame_bytes id buf)
  a ← devserver_recv e.given 0 [] e.is_broken e.input
  some (sent, if is_sent then (if is_neg a.code then negsuc 0 else a.code) else negsuc 0)
