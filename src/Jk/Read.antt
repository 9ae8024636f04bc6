-- ===== src/Jk/Read.antt =====
-- `jk_read`: the requests to a JK monitor and the reports that it sends.
use mybmm.Base.{
  ℕ, zero, suc, Bool, true, false, not, Option, some, ◌>>=◌, List, if◌then◌else◌, ltb, ℤ, pos,
  negsuc, is_neg, check_state,
}
use mybmm.Floats.{Floats}
use mybmm.Pack.{Pack}
use mybmm.Jk.Search.{got_info, got_volt, getdata}

-- What the transport makes of the calls of one `jk_read`: the counts of the writes, and the counts of the reads with
-- what is in `data` behind them. Request `i` is followed by read `i`.
pub record Calls : Type 0 where
  pub writes : ℕ → ℤ
  pub reads : ℕ → ℤ × List ℕ

-- the turns of a loop over a count
abbrev turns_of : ℤ → ℕ
turns_of (pos n) = n
turns_of (negsuc n) = 0

module _ (fl : Floats) (s : Calls) where
  open fl use {Number}
  open s use {writes, reads}

  -- The loop for the information: whether it ends without an error, the pack, and the number of the next read.
  unfoldable pub info_loop : ℕ → ℕ → Pack Number → Option (Bool × Pack Number × ℕ)
  unfolding check_state
  info_loop zero i pp = some (true, pp, i)
  info_loop (suc retries) i pp =
      let (bytes, packet) = reads i in
      if is_neg (writes i)
      then some (false, pp, i)
      else if is_neg bytes
      then some (false, pp, suc i)
      else (do
        (r, pp') ← getdata fl pp packet (turns_of bytes)
        let rest = info_loop retries (suc i) pp'
        if check_state r got_info then some (true, pp', suc i) else rest)

  -- The loop for the voltages, in which the count is not looked at.
  unfoldable pub volt_loop : ℕ → ℕ → Pack Number → Option (ℤ × Pack Number)
  unfolding check_state
  volt_loop zero i pp = some (negsuc 0, pp)
  volt_loop (suc retries) i pp = do
    let (bytes, packet) = reads i
    (r, pp') ← getdata fl pp packet (turns_of bytes)
    let rest = volt_loop retries (suc i) pp'
    if check_state r got_volt then some (if ltb retries 1 then negsuc 0 else pos 0, pp') else rest

  -- What is returned, and the pack.
  unfoldable pub jk_read : Pack Number → Option (ℤ × Pack Number)
  unfolding info_loop volt_loop
  jk_read pp = do
    (is_fine, pp', i) ← info_loop 5 0 pp
    if not is_fine
        then some (negsuc 0, pp')
        else if is_neg (writes i)
        then some (negsuc 0, pp')
        else volt_loop 5 i pp'
