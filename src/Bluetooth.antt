-- ===== src/Bluetooth.antt =====
-- bt.c: the bluetooth transport, which collects what the device notifies of until it is read.
--
-- gattlib is what calls `notification_cb`, connects and writes. Of the array `data` only the first `len` bytes are read,
-- they are `held` here. `none` is a write behind the buffer of a read.
pub mod Notified
use mybmm.Base.{
  ℕ, zero, suc, ◌+◌, ◌-◌, Bool, true, false, not, Option, none, some, ◌>>=◌, List, [], ◌∷◌, ◌++◌,
  ltb, length, take, if◌then◌else◌, ℤ, pos, negsuc, load_at, store_at, is_zero,
}
use mybmm.Strings.{is_nil}

-- sizeof(s->data)
abbrev pub data_size : ℕ
data_size = 4096

-- `struct bt_session`: whether there is a connection (`c`) and whether notifications are on (`not`)
pub record BtSession : Type 0 where
  pub is_connected : Bool
  pub is_notified : Bool
  pub target : List ℕ
  pub opts : List ℕ
  pub held : List ℕ
  pub cbcnt : ℕ

-- "0xffe1"
abbrev default_opts : List ℕ
default_opts = 48 ∷ 120 ∷ 102 ∷ 102 ∷ 101 ∷ 49 ∷ []

-- Both strings are copied to arrays of 32 bytes.
unfoldable pub bt_new : List ℕ → List ℕ → Option BtSession
bt_new target opts =
    if not (ltb (length target) 32)
    then none
    else if not (ltb (length opts) 32)
    then none
    else some (record {
      is_connected = false;
      is_notified = false;
      target = target;
      opts = if is_nil opts then default_opts else opts;
      held = [];
      cbcnt = 0;
    })

unfoldable pub notification_cb : List ℕ → BtSession → BtSession
notification_cb bytes s =
    let data_length =
      if ltb data_size (length s.held + length bytes)
      then data_size - length s.held
      else length bytes in
    record s { held = s.held ++ take data_length bytes; cbcnt = suc s.cbcnt }

-- notifications, one after the other
unfoldable pub notify_all : List (List ℕ) → BtSession → BtSession
unfolding notification_cb
notify_all [] s = s
notify_all (bytes ∷ ns) s = notify_all ns (notification_cb bytes s)

-- `is_uuid`, `connects` and `starts` are whether the calls of gattlib succeed.
unfoldable pub bt_open : Bool → Bool → Bool → BtSession → ℤ × BtSession
bt_open is_uuid connects starts s =
    if not is_uuid
    then (pos 1, s)
    else if not connects
    then (pos 1, record s { is_connected = false })
    else if starts
    then (pos 0, record s { is_connected = true; is_notified = true })
    else (pos 1, record s { is_connected = true })

-- the copy to the buffer
unfoldable pub deliver : BtSession → List ℕ → ℕ → Option (ℤ × List ℕ × BtSession)
unfolding store_at
deliver s buf buflen =
    let len = if ltb buflen (length s.held) then buflen else length s.held in
    store_at buf 0 (take len s.held) >>= λ buf'. some (pos len, buf', record s { held = [] })

-- The loop, with `n` turns that may sleep; `arriving i` is what is notified in the `i`th sleep.
unfoldable pub wait_loop :
    (ℕ → List (List ℕ)) → ℕ → ℕ → BtSession → List ℕ → ℕ → Option (ℤ × List ℕ × BtSession)
unfolding deliver notify_all
wait_loop arriving zero i s buf buflen =
    if is_nil s.held then some (pos 0, buf, s) else deliver s buf buflen
wait_loop arriving (suc n) i s buf buflen =
    let rest = wait_loop arriving n (suc i) (notify_all (arriving i) s) buf buflen in
    if is_nil s.held then rest else deliver s buf buflen

-- Three looks, with a sleep between them.
unfoldable pub bt_read :
    (ℕ → List (List ℕ)) → BtSession → List ℕ → ℕ → Option (ℤ × List ℕ × BtSession)
unfolding wait_loop
bt_read arriving s buf buflen =
    if s.is_connected then wait_loop arriving 2 0 s buf buflen else some (negsuc 0, buf, s)

-- `write` is whether gattlib takes the bytes.
unfoldable pub bt_write : (List ℕ → Bool) → BtSession → List ℕ → ℕ → Option (ℤ × BtSession)
bt_write write s buf buflen =
    let s' = record s { held = []; cbcnt = 0 } in
    if not s.is_connected
    then some (negsuc 0, s)
    else load_at buf 0 buflen >>= λ bytes. some (if write bytes then pos buflen else negsuc 0, s')

unfoldable pub bt_close : BtSession → ℤ × BtSession
bt_close s = (pos 0, record s { is_connected = false })
