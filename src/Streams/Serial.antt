-- ===== src/Streams/Serial.antt =====
-- serial.c: the session of a serial line, and how it is opened.
use mybmm.Base.{
  ℕ, Bool, true, false, ◌&&◌, Option, none, some, List, [], ◌∷◌, ◌++◌, take, if◌then◌else◌, ℤ, pos,
  negsuc, not, ◌==◌,
}
use mybmm.Strings.{before, same_string}
use mybmm.Cfg.Table.{atoi}
use mybmm.Streams.{after_first}

-- DEFAULT_SPEED
abbrev default_speed : ℤ
default_speed = pos 9600

-- `struct serial_session`, of which `data`, `stop` and `parity` are always 8, 1 and 0
pub record SerialSession : Type 0 where
  pub is_open : Bool
  pub device : List ℕ
  pub speed : ℤ

-- "device,speed"
unfoldable pub serial_new : List ℕ → SerialSession
unfolding before after_first atoi
serial_new target = elim (before 44 target) [
  | none ↦ record { is_open = false; device = take 32 target; speed = default_speed }
  | some device ↦ record {
    is_open = false;
    device = take 32 device;
    speed = atoi (after_first 44 target);
  }
]

-- the cases of the switch
abbrev rates : List ℕ
rates = 57600 ∷ 38400 ∷ 19200 ∷ 9600 ∷ 4800 ∷ 2400 ∷ 1200 ∷ 600 ∷ 300 ∷ 150 ∷ 110 ∷ []

rate_of : ℕ → List ℕ → ℕ
rate_of n [] = 9600
rate_of n (r ∷ rs) = let rest = rate_of n rs in if n == r then r else rest

-- The rate that `set_interface_attribs` sets for a speed.
unfoldable pub rate : ℤ → ℕ
unfolding rate_of
rate (pos n) = rate_of n rates
rate (negsuc n) = 9600

-- "/dev" and "/dev/"
abbrev dev : List ℕ
dev = 47 ∷ 100 ∷ 101 ∷ 118 ∷ []

-- The file that is opened: `exists` is whether `access` finds the device as it was given.
unfoldable pub serial_path : Bool → List ℕ → List ℕ
unfolding same_string
serial_path exists device =
    if exists && not (same_string (take 4 device) dev) then dev ++ 47 ∷ device else device

-- `opens` is whether the file can be opened. What is returned, the session and the rate that is set.
unfoldable pub serial_open :
    (List ℕ → Bool) → (List ℕ → Bool) → SerialSession → ℤ × SerialSession × Option ℕ
unfolding serial_path rate
serial_open exists opens s =
    if s.is_open
    then (pos 0, s, none)
    else if opens (serial_path (exists s.device) s.device)
    then (pos 0, record s { is_open = true }, some (rate s.speed))
    else (pos 1, s, none)

unfoldable pub serial_close : SerialSession → ℤ × SerialSession
serial_close s = (pos 0, record s { is_open = false })
