-- ===== src/Tests/Arrivals.antt =====
-- Bytes that arrive at a socket and over bluetooth.
use mybmm.Base.{◌≡◌, refl, true, some, List, [], ◌∷◌, replicate, ℤ, pos, negsuc, arith}
use mybmm.Streams.{Event, quiet, again, arrived, ip_read, serial_read}
use mybmm.Streams.Collect.{ready, bytes_of, count_of, ip_read-IsCollected}
use mybmm.Bluetooth.{BtSession, notify_all, bt_read, bt_write}
use mybmm.Bluetooth.Notified.{all_bytes, bt_read-notify_all}

-- Three bytes in two parts, and then two more.
abbrev events : List Event
events = arrived 1 (2 ∷ []) ∷ again ∷ arrived 3 (4 ∷ 5 ∷ []) ∷ quiet ∷ []

first_three :
    ip_read true events (replicate 6 0) 3
    ≡ some (pos 3, 1 ∷ 2 ∷ 3 ∷ 0 ∷ 0 ∷ 0 ∷ [], arrived 4 (5 ∷ []) ∷ quiet ∷ [])
unfolding ip_read
first_three = refl

-- A serial line does not try again.
no_retry :
    serial_read true events (replicate 6 0) 3
    ≡ some (negsuc 0, 1 ∷ 2 ∷ 0 ∷ 0 ∷ 0 ∷ 0 ∷ [], arrived 3 (4 ∷ 5 ∷ []) ∷ quiet ∷ [])
unfolding serial_read
no_retry = refl

ip_read-IsCollected_example :
    (es : List Event) × (ip_read true events (replicate 6 0) 3
      ≡ some (pos 3, 1 ∷ 2 ∷ 3 ∷ 0 ∷ 0 ∷ 0 ∷ [], es))
    × (1 ∷ 2 ∷ 3 ∷ 4 ∷ 5 ∷ [] ≡ 1 ∷ 2 ∷ 3 ∷ bytes_of es)
unfolding ready bytes_of count_of
ip_read-IsCollected_example =
    ip_read-IsCollected events (replicate 6 0) 3 (omega arith) (omega arith)

abbrev connected : BtSession
connected = record {
  is_connected = true;
  is_notified = true;
  target = [];
  opts = [];
  held = 9 ∷ [];
  cbcnt = 1;
}

bt_read-notify_all_example :
    (r : ℤ) × (s1 : BtSession) × (s2 : BtSession) × (bt_write (λ bytes. true) connected (7 ∷ []) 1
      ≡ some (r, s1))
    × (bt_read (λ i. []) (notify_all ((1 ∷ 2 ∷ []) ∷ (3 ∷ []) ∷ []) s1) (replicate 4 0) 2
        ≡ some (pos 2, 1 ∷ 2 ∷ 0 ∷ 0 ∷ [], s2))
    × (s2.held ≡ [])
unfolding all_bytes
bt_read-notify_all_example =
    bt_read-notify_all (λ bytes. true) (λ i. []) connected (7 ∷ []) ((1 ∷ 2 ∷ []) ∷ (3 ∷ []) ∷ [])
      (replicate 4 0) 2 refl (omega arith) (omega arith)
