-- ===== src/Jbd/Transfer.antt =====
-- `jbd_rw`: a command and its answer over a serial or network transport, with three attempts.
--
-- The transport is the record of functions that the session holds (`s->tp`): what it writes is not
-- looked at again, and a read gives the bytes received, or `none` for a negative count.
pub mod Answers
pub mod Exchange
pub mod Length
use mybmm.Base.{
  ℕ, zero, suc, ◌≤◌, ◌≡◌, Option, none, some, ◌>>=◌, List, ◌++◌, length, drop, get_elem?, replicate,
  load_at, store_at, IsByte, All, true, false, ◌==◌,
}
use mybmm.Jbd.{jbd_verify, jbd_cmd}

abbrev pub buf_size : ℕ
buf_size = 256

pub record Transport : Type 1 where
  pub State : Type 0
  -- the packet buffer and how much of it to send, `none` for -1
  pub write : List ℕ → Option ℕ → State → State
  -- a read of at most `buf_size` bytes
  pub read : State → Option (List ℕ) × State
  -- a read fills at most the buffer that it is given, with bytes
  pub read_bytes : (s : State) (bytes : List ℕ) → (read s).0 ≡ some bytes → All IsByte bytes
  pub read_fits : (s : State) (bytes : List ℕ) → (read s).0 ≡ some bytes → length bytes ≤ buf_size

-- What is returned (`none` for -1), what is left in `data`, and the transport; `none` for an access
-- outside of a buffer.
abbrev pub Outcome : Type 0 → Type 0
Outcome S = Option (Option ℕ × List ℕ × S)

module _ (t : Transport) (datasz : ℕ) (cmd : List ℕ) (cmdlen : Option ℕ) where
  open t use {State, write, read}

  -- behind a read: the answer lies in front of what the buffer held before
  jbd_rw_answer :
      (List ℕ → State → Outcome State) → List ℕ → Option (List ℕ) → State → Outcome State
  jbd_rw_answer again buf none s = some (none, replicate datasz 0, s)
  jbd_rw_answer again buf (some bytes) s =
      let buf' = bytes ++ drop (length bytes) buf in
      do
        verdict ← jbd_verify buf' (length bytes)
        elim (verdict == 0) [
          | true ↦ (do
            n ← get_elem? buf' 3
            payload ← load_at buf' 4 n
            out ← store_at (replicate datasz 0) 0 payload
            some (some n, out, s))
          | false ↦ again buf' s
        ]

  jbd_rw_loop : ℕ → List ℕ → List ℕ → State → Outcome State
  unfolding jbd_rw_answer
  jbd_rw_loop zero out buf s = some (none, out, s)
  jbd_rw_loop (suc retries) out buf s =
      let (r, s') = read (write cmd cmdlen s) in
      jbd_rw_answer (jbd_rw_loop retries (replicate datasz 0)) buf r s'

-- `bytes` is `data` on entry; `buf` is the buffer on the stack, which holds anything.
unfoldable pub jbd_rw : (t : Transport) → ℕ → ℕ → List ℕ → ℕ → List ℕ → t.State → Outcome t.State
unfolding jbd_rw_loop
jbd_rw t action reg bytes datasz buf s = do
  (cmdlen, cmd) ← jbd_cmd 256 action reg bytes datasz
  jbd_rw_loop t datasz cmd cmdlen 3 bytes buf s
