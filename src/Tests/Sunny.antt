-- ===== src/Tests/Sunny.antt =====
-- The Sunny Island driver on a bus that records what is sent.
use mybmm.Base.{
  ℕ, ◌+◌, ◌≡◌, refl, false, Option, some, List, [], ◌∷◌, ◌==◌, if◌then◌else◌, replicate, ℤ, pos,
  negsuc, set_state, check_state, bit,
}
use mybmm.Can.{CanFrame}
use mybmm.Inverter.{inverter_write}
use mybmm.Si.{Received, whole_frame, si_get_local_can_data, si_getshort}
use mybmm.Si.Report.{Report, si_read}
use mybmm.Si.Send.{SendBus, si_write, si_driver, si_grid_control, inverter_write-si_write}
use mybmm.Tests.Fixed.{fixed}
use mybmm.Tests.Charge.{settings}
use mybmm.Tests.Packs.{inverter}

-- Its state is what was sent, the last frame first; the write of 0x355 fails.
abbrev bus : SendBus
bus = record {
  State = List (ℕ × List ℕ);
  open_it = λ h. (pos 0, h);
  write = λ id bytes h. (if id == 0x355 then negsuc 0 else pos 8, (id, bytes) ∷ h);
  close = λ h. h;
}

abbrev frame : CanFrame
frame = record { can_id = 0x305; can_dlc = 8; bytes = 8 ∷ 2 ∷ 206 ∷ 255 ∷ 0 ∷ 0 ∷ 0 ∷ 0 ∷ [] }

abbrev silent : Received
silent = record { bitmap = 0; messages = λ i. [] }

-- Without a message the read gives up after five looks, and leaves the array.
none_received : si_get_local_can_data (λ i. silent) 0x305 (1 ∷ 2 ∷ []) ≡ (pos 1, 1 ∷ 2 ∷ [])
unfolding si_get_local_can_data check_state
none_received = refl

amps_read : si_getshort 206 255 ≡ negsuc 49
unfolding si_getshort
amps_read = refl

-- a bus that never reports more than the battery, and loads that are taken from what the battery reported
abbrev battery_only : ℕ → List ℕ → ℕ → Option (ℤ × List ℕ × ℕ)
battery_only id bytes h =
    if id == 0x308 then some (pos 1, bytes, h + 1) else some (pos 0, frame.bytes, h + 1)

abbrev nothing : Report ℤ
nothing = record {
  grid_power = pos 0;
  frequency = pos 0;
  battery_voltage = pos 0;
  battery_amps = pos 0;
  battery_temp = pos 0;
  battery_power = pos 0;
  load_power = pos 0;
  site_power = pos 0;
}

stale_load :
    si_read fixed battery_only (replicate 8 0) nothing 0
    ≡ some (
      pos 0,
      record {
        grid_power = pos 47000000;
        frequency = pos 0;
        battery_voltage = pos 52000;
        battery_amps = negsuc 4999;
        battery_temp = pos 25000;
        battery_power = negsuc 259999;
        load_power = pos 47000000;
        site_power = pos 52000000;
      },
      5,
    )
unfolding si_read si_getshort
stale_load = refl

gen_enabled : si_grid_control fixed bus (bit 7) [] ≡ (0x354, 0x90 ∷ []) ∷ []
unfolding si_grid_control set_state check_state
gen_enabled = refl

inverter_write-si_write_example :
    inverter_write (si_driver fixed bus (λ inv h. (pos 0, inv, h))) settings inverter (false, [])
    ≡ (pos 0, (false, (si_write fixed bus settings []).1))
inverter_write-si_write_example =
    inverter_write-si_write fixed bus (λ inv h. (pos 0, inv, h)) settings inverter false [] refl

-- Four incomplete frames, then a whole one.
abbrev late : ℕ → ℤ × CanFrame
late i = if i == 4 then (whole_frame, frame) else (pos 5, frame)
