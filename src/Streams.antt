-- ===== src/Streams.antt =====
-- ip.c and serial.c: the reads and writes of a socket and of a serial line, which collect what arrives until the buffer
-- is full or nothing comes for the time that `select` waits.
--
-- What the system gives is a list of events; when it ends, nothing comes any more. A failing `select` is taken for one
-- that finds something. `none` is a write behind the buffer.
pub mod Parts
pub mod Collect
pub mod Serial
use mybmm.Base.{
  ℕ, zero, suc, ◌+◌, ◌-◌, Bool, true, false, not, Option, none, some, ◌>>=◌, List, [], ◌∷◌, ◌==◌,
  ltb, leb, length, take, drop, if◌then◌else◌, ℤ, pos, negsuc, load_at, store_at, is_zero,
}
use mybmm.Strings.{is_nil, before}
use mybmm.Strings.Address.{is_ip}
use mybmm.Cfg.Table.{atoi}

-- A turn of the loop: `select` times out; the `read` fails, with EAGAIN or otherwise; the other side has closed; or
-- bytes are there, at least one.
pub data Event : Type 0 where
  quiet : Event
  again : Event
  broken : Event
  closed : Event
  arrived : ℕ → List ℕ → Event

-- what was not read stays
unfoldable pub put_back : List ℕ → List Event → List Event
put_back [] es = es
put_back (b ∷ bs) es = arrived b bs ∷ es

-- `while(1)`: `at` bytes are in the buffer, and `left` are left in it. A socket tries again after EAGAIN. What is
-- returned, the buffer and the events that are left.
unfoldable pub read_loop : Bool → List Event → ℕ → ℕ → List ℕ → Option (ℤ × List ℕ × List Event)
unfolding store_at put_back
read_loop retry [] at left buf = some (pos at, buf, [])
read_loop retry (quiet ∷ es) at left buf = some (pos at, buf, es)
read_loop retry (again ∷ es) at left buf =
    let rest = read_loop retry es at left buf in if retry then rest else some (negsuc 0, buf, es)
read_loop retry (broken ∷ es) at left buf = some (negsuc 0, buf, es)
read_loop retry (closed ∷ es) at left buf = some (pos at, buf, es)
read_loop retry (arrived b bs ∷ es) at left buf =
    let bytes = take left (b ∷ bs) in
    store_at buf at bytes >>= λ buf'.
    let rest = read_loop retry es (at + length bytes) (left - length bytes) buf' in
    if ltb (left - length bytes) 1
    then some (pos (at + length bytes), buf', put_back (drop left (b ∷ bs)) es)
    else rest

-- `ip_read`; `is_open` is `fd >= 0`
unfoldable pub ip_read : Bool → List Event → List ℕ → ℕ → Option (ℤ × List ℕ × List Event)
unfolding read_loop
ip_read is_open es buf buflen =
    if is_open then read_loop true es 0 buflen buf else some (negsuc 0, buf, es)

unfoldable pub serial_read : Bool → List Event → List ℕ → ℕ → Option (ℤ × List ℕ × List Event)
unfolding read_loop
serial_read is_open es buf buflen =
    if is_open then read_loop false es 0 buflen buf else some (negsuc 0, buf, es)

-- The bytes that `write` is given; `write` is what the system makes of them. What is returned, and the bytes.
write_out : (List ℕ → ℤ) → List ℕ → ℕ → Option (ℤ × Option (List ℕ))
write_out write buf buflen = do bytes ← load_at buf 0 buflen; some (write bytes, some bytes)

-- `is_ready` is whether the socket takes bytes within five seconds.
unfoldable pub ip_write : Bool → Bool → (List ℕ → ℤ) → List ℕ → ℕ → Option (ℤ × Option (List ℕ))
unfolding write_out
ip_write is_open is_ready write buf buflen =
    if not is_open
    then some (negsuc 0, none)
    else if is_ready
    then write_out write buf buflen
    else some (negsuc 0, none)

unfoldable pub serial_write : Bool → (List ℕ → ℤ) → List ℕ → ℕ → Option (ℤ × Option (List ℕ))
unfolding write_out
serial_write is_open write buf buflen =
    if is_open then write_out write buf buflen else some (negsuc 0, none)

-- `struct ip_session`
pub record IpSession : Type 0 where
  pub is_open : Bool
  pub target : List ℕ
  pub port : ℤ

unfoldable pub after_first : ℕ → List ℕ → List ℕ
after_first c [] = []
after_first c (d ∷ ds) = let rest = after_first c ds in if d == c then ds else rest

-- "host:port"; the port is 23 where there is none
unfoldable pub ip_new : List ℕ → IpSession
unfolding before after_first atoi
ip_new target = elim (before 58 target) [
  | none ↦ record { is_open = false; target = take 32 target; port = pos 23 }
  | some host ↦ record {
    is_open = false;
    target = take 32 host;
    port = if is_zero (atoi (after_first 58 target)) then pos 23 else atoi (after_first 58 target);
  }
]

-- The address as text, in an array of 32 bytes: that of a name that `resolve` finds, and else the target as it is.
unfoldable pub address_of : (List ℕ → Option (List ℕ)) → List ℕ → Option (List ℕ)
unfolding is_ip
address_of resolve target = elim (if is_ip target then none else resolve target) [
  | some address ↦ some address
  | none ↦ if ltb (length target) 32 then some target else none
]

-- `has_socket` is whether a socket is made, `connect` whether it is connected with an address and a port.
unfoldable pub ip_open :
    (List ℕ → Option (List ℕ)) → Bool → (List ℕ → ℤ → Bool) → IpSession → Option (ℤ × IpSession)
unfolding address_of
ip_open resolve has_socket connect s =
    if s.is_open
    then some (pos 0, s)
    else if not has_socket
    then some (pos 1, s)
    else address_of resolve s.target >>= λ temp.
        some (if connect temp s.port then (pos 0, record s { is_open = true }) else (pos 1, s))

unfoldable pub ip_close : IpSession → ℤ × IpSession
ip_close s = (pos 0, record s { is_open = false })
