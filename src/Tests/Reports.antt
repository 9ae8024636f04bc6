-- ===== src/Tests/Reports.antt =====
-- Reports of the JBD monitor to `jbd_get_pack`.
use mybmm.Base.{
  ℕ, zero, suc, ◌+◌, ◌≤◌, ◌≡◌, refl, subst, Option, some, List, [], ◌∷◌, ◌++◌, arith, length,
  replicate, IsByte, All, ℤ, false,
}
use mybmm.Pack.{Pack}
use mybmm.Jbd.{cmd_read, jbd_crc, jbd_verify, jbd_cmd}
use mybmm.Jbd.Transfer.{Transport, jbd_rw}
use mybmm.Jbd.Report.{cmd_hwinfo, cmd_cellinfo, jbd_get_pack}
use mybmm.Jbd.Report.Decode.{IsReport, jbd_get_pack-IsReport}
use mybmm.Tests.Fixed.{fixed}
use mybmm.Tests.Packs.{empty_pack}
use mybmm.Tests.Frames.{some_of}

-- 52 V, 1 A, 100 Ah, the charge MOS on and the discharge MOS off, two cells, one temperature of 25
-- degrees.
abbrev pub info : List ℕ
info =
    20 ∷ 80 ∷ 0 ∷ 100 ∷ 0 ∷ 0 ∷ 39 ∷ 16 ∷ 0 ∷ 0 ∷ 0 ∷ 0 ∷ 0 ∷ 0 ∷ 0 ∷ 0 ∷ 0 ∷ 0 ∷ 0 ∷ 0 ∷ 1 ∷ 2 ∷ 1
    ∷ 11 ∷ 165 ∷ []

abbrev pub volts : List ℕ
volts = 12 ∷ 238 ∷ 12 ∷ 218 ∷ []

abbrev narrow_pack : Pack ℤ
narrow_pack = record empty_pack { temps = [] }

-- A device that answers HWINFO first and CELLINFO from then on.
unfoldable pub reply : ℕ → Option (List ℕ)
reply zero = some (
    221 ∷ 3 ∷ 0 ∷ 25 ∷ 20 ∷ 80 ∷ 0 ∷ 100 ∷ 0 ∷ 0 ∷ 39 ∷ 16 ∷ 0 ∷ 0 ∷ 0 ∷ 0 ∷ 0 ∷ 0 ∷ 0 ∷ 0 ∷ 0 ∷ 0
    ∷ 0 ∷ 0 ∷ 1 ∷ 2 ∷ 1 ∷ 11 ∷ 165 ∷ 254 ∷ 52 ∷ 119 ∷ [])
reply (suc n) = some (221 ∷ 4 ∷ 0 ∷ 4 ∷ 12 ∷ 238 ∷ 12 ∷ 218 ∷ 254 ∷ 28 ∷ 119 ∷ [])

pub reply_bytes :
    (n : ℕ) (bytes : List ℕ) → reply n ≡ some bytes → All IsByte bytes × (length bytes ≤ 256)
unfolding reply
reply_bytes zero bytes e = subst (λ l. All IsByte l × (length l ≤ 256)) (some_of e) (omega arith)
reply_bytes (suc n) bytes e = subst (λ l. All IsByte l × (length l ≤ 256)) (some_of e) (omega arith)

abbrev pub device : Transport
device = record {
  State = ℕ;
  write = λ pkt len s. s;
  read = λ s. (reply s, s + 1);
  read_bytes = λ s bytes e. (reply_bytes s bytes e).0;
  read_fits = λ s bytes e. (reply_bytes s bytes e).1;
}

pub info_read :
    jbd_rw device cmd_read cmd_hwinfo (replicate 128 0) 128 (replicate 256 0) 0
    ≡ some (some 25, info ++ replicate 103 0, 1)
unfolding jbd_rw jbd_cmd jbd_verify jbd_crc reply
info_read = refl

pub volts_read :
    jbd_rw device cmd_read cmd_cellinfo (info ++ replicate 103 0) 128 (replicate 256 0) 1
    ≡ some (some 4, volts ++ replicate 124 0, 2)
unfolding jbd_rw jbd_cmd jbd_verify jbd_crc reply
volts_read = refl

jbd_get_pack-IsReport_example :
    (pp' : Pack ℤ) × (jbd_get_pack fixed device false
        (replicate 128 0)
        (replicate 256 0)
        (replicate 256 0)
        empty_pack
        0
      ≡ some (0, pp', 2))
    × IsReport fixed (info ++ replicate 103 0) (volts ++ replicate 124 0) pp'
jbd_get_pack-IsReport_example =
    jbd_get_pack-IsReport fixed device false (replicate 128 0) (replicate 256 0) (replicate 256 0)
      empty_pack 0 1 2 (info ++ replicate 103 0) (volts ++ replicate 124 0) 25 4 2 1 refl info_read
      volts_read refl (omega arith) (omega arith) refl (omega arith) (omega arith)
