-- ===== src/Tests/ConfigTables.antt =====
-- The settings without a file.
use mybmm.Base.{ℕ, ◌≡◌, refl, Option, none, some, List, [], ◌∷◌, length, take, pos}
use mybmm.Cfg.Read.{cfg_read}
use mybmm.Cfg.Table.{Setting, whole, real}
use mybmm.Settings.{Stored, read_settings}

abbrev sizes : Option (Option (Stored ℕ)) → List ℕ
sizes none = []
sizes (some none) = []
sizes (some (some s)) = length s.config ∷ length s.mqtt ∷ []

abbrev first_ints : Option (Option (Stored ℕ)) → List (Option (Setting ℕ))
first_ints none = []
first_ints (some none) = []
first_ints (some (some s)) = take 7 s.config

-- The level of messages is left, 30 seconds, 48 V, 14 cells of the second chemistry.
defaults :
    first_ints (read_settings length [] none none)
    ≡ none
      ∷ some (whole (pos 30))
      ∷ some (real 2)
      ∷ some (real 2)
      ∷ some (whole (pos 48))
      ∷ some (whole (pos 1))
      ∷ some (whole (pos 14))
      ∷ []
unfolding read_settings
defaults = refl

all_entries : sizes (read_settings length [] none none) ≡ 22 ∷ 4 ∷ []
unfolding read_settings
all_entries = refl

not_opened : read_settings length [] (some (102 ∷ [])) none ≡ some none
unfolding read_settings cfg_read
not_opened = refl
