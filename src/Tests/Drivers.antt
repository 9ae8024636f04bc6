-- ===== src/Tests/Drivers.antt =====
-- The JBD monitor in a pack.
use mybmm.Base.{ℕ, ◌≡◌, refl, some, [], ◌∷◌, ◌++◌, ◌+◌, replicate, arith, ℤ, pos, false, none}
use mybmm.Pack.{Pack, pack_update}
use mybmm.Strings.Element.{begins}
use mybmm.Pack.Extremes.{IsUpdate}
use mybmm.Jbd.Driver.{
  TransportModule, Stack, JbdSession, jbd_new, jbd_monitor, pack_update-jbd_monitor,
}
use mybmm.Jbd.Report.Decode.{IsReport}
use mybmm.Tests.Fixed.{fixed, fixed-IsOrdered}
use mybmm.Tests.Packs.{empty_pack}
use mybmm.Tests.Reports.{info, volts, reply, reply_bytes, info_read, volts_read}

-- "ip"; its handle counts the answers, and nothing is on its bus.
abbrev network : TransportModule
network = record {
  name = 105 ∷ 112 ∷ [];
  Handle = ℕ;
  new_it = λ target opts. some 0;
  open_it = λ h. (pos 0, h);
  close = λ h. (pos 0, 7);
  write_line = λ cmd len h. h;
  read_line = λ h. (reply h, h + 1);
  line_bytes = reply_bytes;
  write_bus = λ id h. (false, h);
  read_bus = λ id n h. (none, h);
  bus_bytes = λ id n h bytes e. absurd (cc e);
}

abbrev stack : Stack
stack = record {
  line_data = replicate 128 0;
  buf1 = replicate 256 0;
  buf2 = replicate 256 0;
  bus_data = replicate 8 0;
}

abbrev session : JbdSession ℕ
session = record { tp_handle = 0; balancing = false }

session_made : jbd_new network [] [] ≡ some session
unfolding jbd_new
session_made = refl

pack_update-jbd_monitor_example :
    (pp1 : Pack ℤ) × (pp' : Pack ℤ) × IsReport fixed
      (info ++ replicate 103 0)
      (volts ++ replicate 124 0)
      pp1
    × (pack_update fixed (jbd_monitor fixed network stack) (pos 9900) empty_pack session
        ≡ some (pos 0, pp', record { tp_handle = 7; balancing = false }))
    × IsUpdate fixed fixed-IsOrdered pp'
    × (pp'.cellvolt ≡ pp1.cellvolt)
unfolding begins
pack_update-jbd_monitor_example =
    pack_update-jbd_monitor fixed fixed-IsOrdered network stack (pos 9900) empty_pack session 0 1 2
      (info ++ replicate 103 0) (volts ++ replicate 124 0) 25 4 2 1 refl refl refl info_read
      volts_read refl (omega arith) (omega arith) refl (omega arith) (omega arith)
