-- ===== src/Jbd/Command.antt =====
-- What `jbd_cmd` leaves in the packet buffer, and where it writes behind its end.
use mybmm.Base.{
  ℕ, ◌>>=◌, ◌+◌, ◌-◌, ◌/◌, ◌%◌, ◌<◌, ◌≤◌, ◌≡◌, refl, ◌∙◌, inl, inr, Option, none, some, List, [],
  ◌∷◌, ◌++◌, append_assoc, arith, false, ◌==◌, ltb, if◌then◌else◌, length, replicate, load_at,
  store_at, length-replicate, store_at-cleared, length-append, load_at-append, Bool-cases,
  Option-cases, length-store_at, store_at_out,
}
use mybmm.Jbd.{pkt_start, pkt_end, cmd_read, jbd_crc, jbd_cmd_build, jbd_cmd}
use mybmm.Jbd.Frame.{frame}

-- The payload that is sent: none with a read.
unfoldable pub sent : ℕ → List ℕ → List ℕ
sent action payload = if action == cmd_read then [] else payload

-- The buffer after the four header bytes and the payload.
abbrev filled : ℕ → ℕ → ℕ → List ℕ → List ℕ
filled size action reg payload =
    (pkt_start ∷ action ∷ reg ∷ length payload ∷ payload) ++ replicate (size - 4 - length payload) 0

-- The three writes behind the payload.
abbrev trailer : ℕ → List ℕ → ℕ → Option (Option ℕ × List ℕ)
trailer len pkt crc = do
  pkt ← store_at pkt (4 + len) (crc / 256 ∷ [])
  pkt ← store_at pkt (4 + len + 1) (crc % 256 ∷ [])
  pkt ← store_at pkt (4 + len + 2) (pkt_end ∷ [])
  some (some (4 + len + 3), pkt)

-- With `bytes` holding the payload, all writes up to the trailer are within the buffer.
jbd_cmd_build-trailer :
    (size action reg : ℕ) (bytes p : List ℕ)
    → action < 256
    → reg < 256
    → length p < 256
    → length p + 4 ≤ size
    → load_at bytes 0 (length p) ≡ some p
    → jbd_cmd_build size action reg bytes (length p)
      ≡ trailer (length p) (filled size action reg p) (jbd_crc (reg ∷ length p ∷ p))
unfolding jbd_cmd_build
jbd_cmd_build-trailer size action reg bytes p ha hr hn hs hl =
    let a : action % 256 ≡ action = omega arith in
    let r : reg % 256 ≡ reg = omega arith in
    let n : length p % 256 ≡ length p = omega arith in
    let room : ltb size (4 + length p) ≡ false = ground arith in
    let s0 = store_at-cleared [] (pkt_start ∷ []) 0 size 0 refl (omega arith) in
    let s1 = store_at-cleared (pkt_start ∷ []) (action ∷ []) 1 (size - 1) 0 refl (omega arith) in
    let s2 =
      store_at-cleared (pkt_start ∷ action ∷ []) (reg ∷ []) 2 (size - 1 - 1) 0 refl (omega arith) in
    let s3 =
      store_at-cleared (pkt_start ∷ action ∷ reg ∷ []) (length p ∷ []) 3 (size - 1 - 1 - 1) 0 refl
        (omega arith) in
    let s4 =
      store_at-cleared (pkt_start ∷ action ∷ reg ∷ length p ∷ []) p 4 (size - 1 - 1 - 1 - 1) 0 refl
        (omega arith) in
    let k : size - 1 - 1 - 1 - 1 - length p ≡ size - 4 - length p = omega arith in
    let l2 =
      load_at-append (pkt_start ∷ action ∷ []) (reg ∷ length p ∷ p)
        (replicate (size - 4 - length p) 0) 2 (length p + 2) refl (omega arith) in
    rw (a, r, n, s0, s1, s2, s3, room, hl, s4, k, l2)

trailer-frame :
    (size action reg : ℕ) (p : List ℕ)
    → length p + 7 ≤ size
    → trailer (length p) (filled size action reg p) (jbd_crc (reg ∷ length p ∷ p))
      ≡ some (some (length p + 7), frame action reg p ++ replicate (size - (length p + 7)) 0)
unfolding frame
trailer-frame size action reg p hs =
    let crc = jbd_crc (reg ∷ length p ∷ p) in
    let head : List ℕ = pkt_start ∷ action ∷ reg ∷ length p ∷ p in
    let k = size - 4 - length p in
    let end1 = length-append head (crc / 256 ∷ []) in
    let end2 = length-append (head ++ crc / 256 ∷ []) (crc % 256 ∷ []) in
    let s1 =
      store_at-cleared head (crc / 256 ∷ []) (4 + length p) k 0 (omega arith) (omega arith) in
    let s2 =
      store_at-cleared (head ++ crc / 256 ∷ []) (crc % 256 ∷ []) (4 + length p + 1) (k - 1) 0
        (omega arith) (omega arith) in
    let s3 =
      store_at-cleared ((head ++ crc / 256 ∷ []) ++ crc % 256 ∷ []) (pkt_end ∷ [])
        (4 + length p + 2) (k - 1 - 1) 0 (omega arith) (omega arith) in
    let e : k - 1 - 1 - 1 ≡ size - (length p + 7) = omega arith in
    let m : 4 + length p + 3 ≡ length p + 7 = omega arith in
    rw (s1, s2, s3, e, m) (simp append_assoc)

trailer_short :
    (len : ℕ) (pkt : List ℕ) (crc : ℕ) → length pkt < len + 7 → trailer len pkt crc ≡ none
trailer_short len pkt crc h = elim (Option-cases (store_at pkt (4 + len) (crc / 256 ∷ []))) [
  | inl e ↦ rw e
  | inr (p1, e1) ↦ rw e1 (elim (Option-cases (store_at p1 (4 + len + 1) (crc % 256 ∷ []))) [
    | inl e ↦ rw e
    | inr (p2, e2) ↦
        let l1 = length-store_at pkt (crc / 256 ∷ []) (4 + len) e1 in
        let l2 = length-store_at p1 (crc % 256 ∷ []) (4 + len + 1) e2 in
        rw (e2, store_at_out p2 (pkt_end ∷ []) (4 + len + 2) (omega arith))
  ])
]

length-filled :
    (size action reg : ℕ) (p : List ℕ)
    → length p + 4 ≤ size
    → length (filled size action reg p) ≡ size
length-filled size action reg p h = omega (
  arith,
  length-append p (replicate (size - 4 - length p) 0),
  length-replicate (size - 4 - length p) (let z : ℕ = 0 in z),
)

load_at-sent :
    (action : ℕ) (payload more : List ℕ)
    → load_at (payload ++ more) 0 (length (sent action payload)) ≡ some (sent action payload)
unfolding sent
load_at-sent action payload more = elim (Bool-cases (action == cmd_read)) [
  | inl e ↦ rw e (load_at-append [] [] (payload ++ more) 0 0 refl refl)
  | inr e ↦ rw e (load_at-append [] payload more 0 (length payload) refl refl)
]

length-sent :
    (action : ℕ) (payload : List ℕ)
    → (if action == cmd_read then 0 else length payload) ≡ length (sent action payload)
unfolding sent
length-sent action payload = ground arith

-- Into a buffer with room for seven bytes more than the payload, `jbd_cmd` writes the frame of its
-- action, register and payload (of a read, no payload) in front of zeros, and returns its length.
pub jbd_cmd-frame :
    (size action reg : ℕ) (payload more : List ℕ)
    → action < 256
    → reg < 256
    → length (sent action payload) < 256
    → length (sent action payload) + 7 ≤ size
    → jbd_cmd size action reg (payload ++ more) (length payload)
      ≡ some (
        some (length (sent action payload) + 7),
        frame action reg (sent action payload)
            ++ replicate (size - (length (sent action payload) + 7)) 0,
      )
unfolding jbd_cmd
jbd_cmd-frame size action reg payload more ha hr hn hs = rw length-sent (
    jbd_cmd_build-trailer size action reg (payload ++ more) (sent action payload) ha hr hn
      (omega arith) (load_at-sent action payload more)
    ∙ trailer-frame size action reg (sent action payload) hs)

-- The test `idx + data_len > pkt_size` leaves out the three bytes behind the payload: a payload
-- that ends less than three bytes before the end of the buffer passes it, and `jbd_cmd` writes
-- behind the buffer.
pub jbd_cmd_overflow :
    (size action reg : ℕ) (payload more : List ℕ)
    → action < 256
    → reg < 256
    → length (sent action payload) < 256
    → length (sent action payload) + 4 ≤ size
    → size < length (sent action payload) + 7
    → jbd_cmd size action reg (payload ++ more) (length payload) ≡ none
unfolding jbd_cmd
jbd_cmd_overflow size action reg payload more ha hr hn hs ho = rw length-sent (
    jbd_cmd_build-trailer size action reg (payload ++ more) (sent action payload) ha hr hn hs
      (load_at-sent action payload more)
    ∙ trailer_short (length (sent action payload)) (filled size action reg (sent action payload))
        (jbd_crc (reg ∷ length (sent action payload) ∷ sent action payload))
        (omega (arith, length-filled size action reg (sent action payload) hs)))
