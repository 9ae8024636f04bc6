-- ===== src/Tests/Buses.antt =====
-- The JBD monitor over CAN.
use mybmm.Base.{
  ℕ, ◌+◌, ◌≤◌, ◌≡◌, refl, subst, inl, inr, true, Option, none, some, List, [], ◌∷◌, arith, leb,
  if◌then◌else◌, length, replicate, IsByte, All, ℤ, pos, Bool-cases,
}
use mybmm.Pack.{Pack}
use mybmm.Jbd.Can.{CanBus, jbd_can_crc, jbd_can_get_crc}
use mybmm.Jbd.Can.Get.{Got, jbd_can_get_crc-Got}
use mybmm.Jbd.Can.Report.{jbd_can_get_pack}
use mybmm.Jbd.Can.Bounds.{IsRead, jbd_can_get_pack-IsRead}
use mybmm.Tests.Fixed.{fixed}
use mybmm.Tests.Frames.{some_of}
use mybmm.Tests.Packs.{empty_pack}

-- the CRC-16 (Modbus) of "123456"
crc_run : jbd_can_crc (0x31 ∷ 0x32 ∷ 0x33 ∷ 0x34 ∷ 0x35 ∷ 0x36 ∷ []) ≡ some 0x32E4
unfolding jbd_can_crc
crc_run = refl

-- Every frame says the same: the words 0x0202, 3300 and 3290, without a checksum.
abbrev can_bytes : List ℕ
can_bytes = 2 ∷ 2 ∷ 12 ∷ 228 ∷ 12 ∷ 218 ∷ 0 ∷ 0 ∷ []

reply : ℕ → Option (List ℕ)
reply n = if leb 8 n then some can_bytes else none

reply_bytes :
    (n : ℕ) (bytes : List ℕ) → reply n ≡ some bytes → All IsByte bytes × (length bytes ≤ n)
unfolding reply
reply_bytes n bytes e = elim (Bool-cases (leb 8 n)) [
  | inl large ↦
      let h : length can_bytes ≤ n = ground arith in
      let same : some can_bytes ≡ some bytes = ground arith in
      subst (λ l. All IsByte l × (length l ≤ n)) (some_of same) (omega arith, h)
  | inr small ↦ absurd (ground arith)
]

abbrev bus : CanBus
bus = record {
  State = ℕ;
  write = λ id s. (true, s + 1);
  read = λ id n s. (reply n, s);
  read_bytes = λ id n s bytes e. (reply_bytes n bytes e).0;
  read_fits = λ id n s bytes e. (reply_bytes n bytes e).1;
}

abbrev pub large_pack : Pack ℤ
large_pack = record empty_pack { temps = replicate 8 (pos 0); cellvolt = replicate 32 (pos 0) }

jbd_can_get_crc-Got_example : Got ℕ (jbd_can_get_crc bus 0x102 (replicate 8 9) 8 0)
jbd_can_get_crc-Got_example = jbd_can_get_crc-Got bus 0x102 (replicate 8 9) 0 refl

jbd_can_get_pack-IsRead_example :
    IsRead fixed bus large_pack (jbd_can_get_pack fixed bus true (replicate 8 9) large_pack 0)
jbd_can_get_pack-IsRead_example =
    jbd_can_get_pack-IsRead fixed bus true (replicate 8 9) large_pack 0 refl (omega arith)
      (omega arith)
