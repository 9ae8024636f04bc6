-- ===== src/Si/Receive.antt =====
-- What the two ways to get a message deliver.
use mybmm.Base.{
  ℕ, zero, suc, ◌+◌, ◌-◌, ◌≤◌, ◌≡◌, refl, ap, ◌∙◌, true, false, ◌||◌, some, List, ◌++◌, ◌==◌, ltb,
  leb, arith, if◌then◌else◌, take, replicate, ℤ, pos, is_neg, bit, set_state, check_state,
  check-set,
}
use mybmm.Can.{CanFrame}
use mybmm.Si.{
  Received, is_whole, whole_frame, si_receive, get_local_loop, si_get_local_can_data,
  get_remote_loop, si_get_remote_can_data,
}

-- A whole frame with an identifier from 0x300 to 0x30A is what the next look for it delivers,
-- whatever was received before.
pub si_get_local_can_data-si_receive :
    (frame : CanFrame) (s : Received) (bytes : List ℕ)
    → 0x300 ≤ frame.can_id
    → frame.can_id ≤ 0x30A
    → si_get_local_can_data (λ i. si_receive (whole_frame, frame) s) frame.can_id bytes
      ≡ (pos 0, frame.bytes)
unfolding si_get_local_can_data get_local_loop si_receive
si_get_local_can_data-si_receive frame s bytes low high =
    let in_range : (ltb frame.can_id 0x300 || ltb 0x30A frame.can_id) ≡ false = ground arith in
    let k = frame.can_id - 0x300 in
    let same : (k == k) ≡ true = ground arith in
    let is_set : check_state (set_state s.bitmap (bit k)) (bit k) ≡ true =
      ground (arith, check-set k k s.bitmap) in
    rw (in_range, is_set, same) refl

-- The reads from the `i`th on give `k` incomplete frames and then a whole one.
abbrev pub IsDelayed : (ℕ → ℤ × CanFrame) → ℕ → ℕ → CanFrame → Type 0
IsDelayed reads i zero frame = reads i ≡ (whole_frame, frame)
IsDelayed reads i (suc k) frame =
    (is_neg (reads i).0 ≡ false) × (is_whole (reads i).0 ≡ false) × IsDelayed reads (suc i) k frame

get_remote_loop-delayed :
    (reads : ℕ → ℤ × CanFrame) (retries k i : ℕ) (frame : CanFrame) (bytes : List ℕ)
    → IsDelayed reads i k frame
    → k ≤ retries
    → frame.can_dlc ≤ 8
    → get_remote_loop reads (suc retries) i bytes
      ≡ some (
        if ltb k retries then pos 0 else pos 1,
        take frame.can_dlc frame.bytes ++ replicate (8 - frame.can_dlc) 0,
        i + k + 1,
      )
unfolding get_remote_loop
get_remote_loop-delayed reads retries zero i frame bytes e fits short =
    let eight : leb frame.can_dlc 8 ≡ true = ground arith in
    let next : suc i ≡ i + 0 + 1 = omega arith in rw (e, eight, next) refl
get_remote_loop-delayed reads zero (suc k) i frame bytes d fits short = absurd (omega arith)
get_remote_loop-delayed reads (suc retries) (suc k) i frame bytes (n, w, d) fits short =
    let stored = take frame.can_dlc frame.bytes ++ replicate (8 - frame.can_dlc) 0 in
    let same : ltb k retries ≡ ltb (suc k) (suc retries) = ground arith in
    let reads_made : suc i + k + 1 ≡ i + suc k + 1 = omega arith in
    rw (n, w)
      (get_remote_loop-delayed reads retries k (suc i) frame bytes d (omega arith) short
        ∙ (ap (λ b. some (if b then pos 0 else pos 1, stored, suc i + k + 1)) same
            ∙ ap (λ m. some (if ltb (suc k) (suc retries) then pos 0 else pos 1, stored, m))
                reads_made))

-- Where some reads give incomplete frames and the next one a whole frame, within the five that are
-- made, its bytes are stored with zeros behind them; but 0 is only returned for one of the first four, the
-- fifth is reported as a failure.
pub si_get_remote_can_data-delayed :
    (reads : ℕ → ℤ × CanFrame) (k i : ℕ) (frame : CanFrame) (bytes : List ℕ)
    → IsDelayed reads i k frame
    → k ≤ 4
    → frame.can_dlc ≤ 8
    → si_get_remote_can_data reads i bytes
      ≡ some (
        if ltb k 4 then pos 0 else pos 1,
        take frame.can_dlc frame.bytes ++ replicate (8 - frame.can_dlc) 0,
        i + k + 1,
      )
unfolding si_get_remote_can_data
si_get_remote_can_data-delayed reads k i frame bytes d fits short =
    get_remote_loop-delayed reads 4 k i frame bytes d fits short
