-- ===== src/Can.antt =====
-- can.c: `can_read` and `can_write`, the frames of a CAN socket. (The rest of the file opens and sets up
-- the interface through the kernel.)
pub mod Stream
use mybmm.Base.{
  ℕ, ◌+◌, Bool, true, false, not, ◌&&◌, Option, none, some, ◌>>=◌, List, [], ◌∷◌, ◌++◌, ◌==◌, leb,
  if◌then◌else◌, length, take, replicate, load_at, store_at, ℤ, pos, negsuc,
}

-- `struct can_frame`, with its eight bytes.
pub record CanFrame : Type 0 where
  pub can_id : ℕ
  pub can_dlc : ℕ
  pub bytes : List ℕ

-- A `read` of the socket: an error, or a count of bytes with the structure as the read left it.
pub data SocketRead : Type 0 where
  failed : SocketRead
  received : ℕ → CanFrame → SocketRead

-- A call that blocks for what has not come yet, or one that returns.
pub data Call (A : Type 0) : Type 0 where
  waiting : Call A
  returned : A → Call A

abbrev pub any_id : ℕ
any_id = 0xFFFF

abbrev pub frame_size : ℕ
frame_size = 16

abbrev pub smaller : ℕ → ℕ → ℕ
smaller a b = if leb a b then a else b

-- "Keep reading until we get our ID", with what the socket will give: the frame and the rest. An
-- incomplete frame is only reported, its `continue` goes on to the test of the loop.
unfoldable pub read_frame : ℕ → CanFrame → List SocketRead → Call (CanFrame × List SocketRead)
read_frame id frame [] = waiting
read_frame id frame (failed ∷ rs) = returned (frame, rs)
read_frame id frame (received n f ∷ rs) =
    let rest = read_frame id f rs in
    if not (id == any_id) && not (f.can_id == id) then rest else returned (f, rs)

-- the part behind the loop; `image` is the structure in memory
unfoldable pub copy_frame : (CanFrame → List ℕ) → ℕ → List ℕ → ℕ → CanFrame → Option (ℤ × List ℕ)
unfolding store_at
copy_frame image id buf buflen f =
    if id == any_id
    then (do
      bytes ← load_at (image f) 0 (smaller buflen frame_size)
      buf' ← store_at buf 0 bytes
      some (pos (smaller buflen frame_size), buf'))
    else (do
      bytes ← load_at f.bytes 0 (smaller f.can_dlc buflen)
      buf' ← store_at buf 0 bytes
      some (pos (smaller f.can_dlc buflen), buf'))

unfoldable pub copy_read :
    (CanFrame → List ℕ)
    → ℕ
    → List ℕ
    → ℕ
    → Call (CanFrame × List SocketRead)
    → Call (Option (ℤ × List ℕ × List SocketRead))
unfolding copy_frame
copy_read image id buf buflen waiting = waiting
copy_read image id buf buflen (returned (f, rs)) =
    returned (copy_frame image id buf buflen f >>= λ (n, buf'). some (n, buf', rs))

-- `is_open` is `fd >= 0`, `frame` what the structure on the stack holds at first; what is returned, the
-- buffer and what the socket still gives.
unfoldable pub can_read :
    (CanFrame → List ℕ)
    → Bool
    → CanFrame
    → ℕ
    → List ℕ
    → ℕ
    → List SocketRead
    → Call (Option (ℤ × List ℕ × List SocketRead))
unfolding copy_read read_frame
can_read image is_open frame id buf buflen rs =
    if not is_open
    then returned (some (negsuc 0, buf, rs))
    else copy_read image id buf buflen (read_frame id frame rs)

-- The frame that is written, `none` for an access outside of `buf`.
unfoldable pub frame_of : ℕ → List ℕ → ℕ → Option CanFrame
unfolding store_at
frame_of id buf buflen = do
  bytes ← load_at buf 0 (smaller 8 buflen)
  all ← store_at (replicate 8 0) 0 bytes
  some (record { can_id = id; can_dlc = smaller 8 buflen; bytes = all })

-- `write` is what the socket makes of a frame: whether it fails. What is returned, and the frame written.
unfoldable pub can_write : (CanFrame → Bool) → Bool → ℕ → List ℕ → ℕ → Option (ℤ × Option CanFrame)
unfolding frame_of
can_write write is_open id buf buflen = if not is_open then some (negsuc 0, none) else do
  f ← frame_of id buf buflen
  some (if write f then pos (smaller 8 buflen) else negsuc 0, some f)
