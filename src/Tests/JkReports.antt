-- ===== src/Tests/JkReports.antt =====
-- A report of a JK monitor with two cells.
use mybmm.Base.{
  ◌>>=◌, ℕ, ◌+◌, ◌*◌, ◌≤◌, ◌<◌, ◌≡◌, refl, some, none, List, ◌∷◌, arith, length, replicate, ℤ,
}
use mybmm.Pack.{Pack}
use mybmm.Jk.{get_volts}
use mybmm.Jk.Search.{getdata, got_volt, getdata-get_volts}
use mybmm.Jk.Volts.{IsCell, get_volts-IsCell}
use mybmm.Tests.Fixed.{fixed}
use mybmm.Tests.Buses.{large_pack}

abbrev report : List ℕ
report = 0x55 ∷ 0xAA ∷ 0xEB ∷ 0x90 ∷ 2 ∷ 0 ∷ 0xEE ∷ 0x0C ∷ 0xDA ∷ 0x0C ∷ replicate 124 0

-- shorter by the last byte
short_report :
    get_volts fixed large_pack (0x55 ∷ 0xAA ∷ 0xEB ∷ 0x90 ∷ 2 ∷ 0 ∷ replicate 127 0) ≡ none
unfolding get_volts
short_report = refl

get_volts-IsCell_example :
    (pp' : Pack ℤ) × (get_volts fixed large_pack report ≡ some pp')
    × (pp'.cells ≤ 24)
    × (pp'.ntemps ≡ 2)
    × (length pp'.cellvolt ≡ 32)
    × (length pp'.temps ≡ 8)
    × ((k : ℕ) → k < pp'.cells → IsCell fixed report pp'.cellvolt k (6 + k * 2))
get_volts-IsCell_example =
    get_volts-IsCell fixed large_pack report (omega arith) (omega arith) (omega arith)

-- A report with the bytes behind it, of which 301 are received, and one that is cut off after 20.
getdata-get_volts_example :
    getdata fixed large_pack (0x55 ∷ 0xAA ∷ 0xEB ∷ 0x90 ∷ 2 ∷ replicate 300 0) 301 ≡ (
      get_volts fixed large_pack (0x55 ∷ 0xAA ∷ 0xEB ∷ 0x90 ∷ 2 ∷ replicate 300 0) >>= λ pp'.
      some (got_volt, pp'))
getdata-get_volts_example = getdata-get_volts fixed large_pack (replicate 300 0) 0
