-- ===== src/Tests/Inverters.antt =====
-- A driver of an inverter.
use mybmm.Base.{ℕ, ◌+◌, ◌==◌, if◌then◌else◌, ◌≡◌, refl, ℤ, pos, negsuc}
use mybmm.Battery.{Conf}
use mybmm.Inverter.{Driver, inverter_write}
use mybmm.Tests.Fixed.{fixed}
use mybmm.Tests.Charge.{settings}
use mybmm.Tests.Packs.{inverter}

-- Its handle counts the calls; the write at 5 fails.
abbrev driver : Driver ℤ (Conf fixed)
driver = record {
  Handle = ℕ;
  open_it = λ h. (pos 0, h + 1);
  read = λ inv h. (pos 0, record inv { battery_voltage = pos 51000 }, h + 1);
  write = λ c inv h. (if h == 5 then negsuc 0 else pos 8, h + 1);
  close = λ h. h + 1;
}

write_fails : inverter_write driver settings inverter 4 ≡ (pos 1, 6)
unfolding inverter_write
write_fails = refl
