-- ===== src/Settings.antt =====
-- config.c: the tables of the settings, and what `read_config` stores before the parts are set up.
use mybmm.Base.{ℕ, ◌≡◌, refl, ◌<◌, true, Option, none, some, ◌>>=◌, List, [], ◌∷◌, length}
use mybmm.Cfg.{CfgInfo}
use mybmm.Cfg.Read.{cfg_read}
use mybmm.Cfg.Write.{cfg_write}
use mybmm.Cfg.Written.{AreSections}
use mybmm.Cfg.RoundTrip.{cfg_read-cfg_write}
use mybmm.Cfg.Table.{
  DataType, int_type, float_type, logical_type, string_type, Setting, Entry, cfg_get_tab,
}

abbrev pub entry : List ℕ → List ℕ → DataType → ℕ → Option (List ℕ) → Entry
entry section keyword kind dlen def = record {
  section = section;
  keyword = keyword;
  kind = kind;
  dlen = dlen;
  def = def;
}

-- "mybmm"
abbrev mybmm_section : List ℕ
mybmm_section = 109 ∷ 121 ∷ 98 ∷ 109 ∷ 109 ∷ []

-- "mqtt"
abbrev mqtt_section : List ℕ
mqtt_section = 109 ∷ 113 ∷ 116 ∷ 116 ∷ []

-- "-1"
abbrev unset : List ℕ
unset = 45 ∷ 49 ∷ []

-- `myconf`: debug, interval, max_charge_amps, max_discharge_amps, system_voltage, battery_chem, cells,
-- cell_low, cell_crit_low, cell_high, cell_crit_high, c_rate, e_rate, capacity, charge_voltage,
-- charge_amps, discharge_voltage, discharge_amps, charge_max_voltage, charge_at_max, soc,
-- use_pack_voltage.
abbrev pub config_table : List Entry
config_table =
    entry mybmm_section (100 ∷ 101 ∷ 98 ∷ 117 ∷ 103 ∷ []) int_type 0 none
    ∷ entry mybmm_section (105 ∷ 110 ∷ 116 ∷ 101 ∷ 114 ∷ 118 ∷ 97 ∷ 108 ∷ []) int_type 0
        (some (51 ∷ 48 ∷ []))
    ∷ entry mybmm_section
        (109 ∷ 97 ∷ 120 ∷ 95 ∷ 99 ∷ 104 ∷ 97 ∷ 114 ∷ 103 ∷ 101 ∷ 95 ∷ 97 ∷ 109 ∷ 112 ∷ 115 ∷ [])
        float_type 0 (some unset)
    ∷ entry mybmm_section
        (109 ∷ 97 ∷ 120 ∷ 95 ∷ 100 ∷ 105 ∷ 115 ∷ 99 ∷ 104 ∷ 97 ∷ 114 ∷ 103 ∷ 101 ∷ 95 ∷ 97 ∷ 109
          ∷ 112 ∷ 115 ∷ [])
        float_type 0 (some unset)
    ∷ entry mybmm_section
        (115 ∷ 121 ∷ 115 ∷ 116 ∷ 101 ∷ 109 ∷ 95 ∷ 118 ∷ 111 ∷ 108 ∷ 116 ∷ 97 ∷ 103 ∷ 101 ∷ [])
        int_type 0 (some (52 ∷ 56 ∷ []))
    ∷ entry mybmm_section (98 ∷ 97 ∷ 116 ∷ 116 ∷ 101 ∷ 114 ∷ 121 ∷ 95 ∷ 99 ∷ 104 ∷ 101 ∷ 109 ∷ [])
        int_type 0 (some (49 ∷ []))
    ∷ entry mybmm_section (99 ∷ 101 ∷ 108 ∷ 108 ∷ 115 ∷ []) int_type 0 (some (49 ∷ 52 ∷ []))
    ∷ entry mybmm_section (99 ∷ 101 ∷ 108 ∷ 108 ∷ 95 ∷ 108 ∷ 111 ∷ 119 ∷ []) float_type 0
        (some unset)
    ∷ entry mybmm_section
        (99 ∷ 101 ∷ 108 ∷ 108 ∷ 95 ∷ 99 ∷ 114 ∷ 105 ∷ 116 ∷ 95 ∷ 108 ∷ 111 ∷ 119 ∷ []) float_type 0
        (some unset)
    ∷ entry mybmm_section (99 ∷ 101 ∷ 108 ∷ 108 ∷ 95 ∷ 104 ∷ 105 ∷ 103 ∷ 104 ∷ []) float_type 0
        (some unset)
    ∷ entry mybmm_section
        (99 ∷ 101 ∷ 108 ∷ 108 ∷ 95 ∷ 99 ∷ 114 ∷ 105 ∷ 116 ∷ 95 ∷ 104 ∷ 105 ∷ 103 ∷ 104 ∷ [])
        float_type 0 (some unset)
    ∷ entry mybmm_section (99 ∷ 95 ∷ 114 ∷ 97 ∷ 116 ∷ 101 ∷ []) float_type 0 (some unset)
    ∷ entry mybmm_section (101 ∷ 95 ∷ 114 ∷ 97 ∷ 116 ∷ 101 ∷ []) float_type 0 (some unset)
    ∷ entry mybmm_section (99 ∷ 97 ∷ 112 ∷ 97 ∷ 99 ∷ 105 ∷ 116 ∷ 121 ∷ []) float_type 0 (some unset)
    ∷ entry mybmm_section
        (99 ∷ 104 ∷ 97 ∷ 114 ∷ 103 ∷ 101 ∷ 95 ∷ 118 ∷ 111 ∷ 108 ∷ 116 ∷ 97 ∷ 103 ∷ 101 ∷ [])
        float_type 0 (some unset)
    ∷ entry mybmm_section (99 ∷ 104 ∷ 97 ∷ 114 ∷ 103 ∷ 101 ∷ 95 ∷ 97 ∷ 109 ∷ 112 ∷ 115 ∷ [])
        float_type 0 (some unset)
    ∷ entry mybmm_section
        (100 ∷ 105 ∷ 115 ∷ 99 ∷ 104 ∷ 97 ∷ 114 ∷ 103 ∷ 101 ∷ 95 ∷ 118 ∷ 111 ∷ 108 ∷ 116 ∷ 97 ∷ 103
          ∷ 101 ∷ [])
        float_type 0 (some unset)
    ∷ entry mybmm_section
        (100 ∷ 105 ∷ 115 ∷ 99 ∷ 104 ∷ 97 ∷ 114 ∷ 103 ∷ 101 ∷ 95 ∷ 97 ∷ 109 ∷ 112 ∷ 115 ∷ [])
        float_type 0 (some unset)
    ∷ entry mybmm_section
        (99 ∷ 104 ∷ 97 ∷ 114 ∷ 103 ∷ 101 ∷ 95 ∷ 109 ∷ 97 ∷ 120 ∷ 95 ∷ 118 ∷ 111 ∷ 108 ∷ 116 ∷ 97
          ∷ 103 ∷ 101 ∷ [])
        float_type 0 (some unset)
    ∷ entry mybmm_section
        (99 ∷ 104 ∷ 97 ∷ 114 ∷ 103 ∷ 101 ∷ 95 ∷ 97 ∷ 116 ∷ 95 ∷ 109 ∷ 97 ∷ 120 ∷ []) logical_type 0
        (some (78 ∷ []))
    ∷ entry mybmm_section (115 ∷ 111 ∷ 99 ∷ []) float_type 0 (some (45 ∷ 49 ∷ 46 ∷ 48 ∷ []))
    ∷ entry mybmm_section
        (117 ∷ 115 ∷ 101 ∷ 95 ∷ 112 ∷ 97 ∷ 99 ∷ 107 ∷ 95 ∷ 118 ∷ 111 ∷ 108 ∷ 116 ∷ 97 ∷ 103 ∷ 101
          ∷ [])
        logical_type 0 (some (48 ∷ []))
    ∷ []

-- `tab` of `get_mqtt_conf`: broker, topic, username, password.
abbrev pub mqtt_table : List Entry
mqtt_table =
    entry mqtt_section (98 ∷ 114 ∷ 111 ∷ 107 ∷ 101 ∷ 114 ∷ []) string_type 64 none
    ∷ entry mqtt_section (116 ∷ 111 ∷ 112 ∷ 105 ∷ 99 ∷ []) string_type 128 none
    ∷ entry mqtt_section (117 ∷ 115 ∷ 101 ∷ 114 ∷ 110 ∷ 97 ∷ 109 ∷ 101 ∷ []) string_type 32 none
    ∷ entry mqtt_section (112 ∷ 97 ∷ 115 ∷ 115 ∷ 119 ∷ 111 ∷ 114 ∷ 100 ∷ []) string_type 32 none
    ∷ []

-- What is stored for the entries of the two tables.
pub record Stored (Number : Type 0) : Type 0 where
  pub config : List (Option (Setting Number))
  pub mqtt : List (Option (Setting Number))

module _ {Number : Type 0} (atof : List ℕ → Number) where
  unfoldable pub read_tables : Option CfgInfo → Option (Stored Number)
  unfolding cfg_get_tab
  read_tables info = do
    config ← cfg_get_tab atof info config_table
    mqtt ← cfg_get_tab atof info mqtt_table
    some (record { config = config; mqtt = mqtt })

  read_file : Option CfgInfo → Option (Option (Stored Number))
  unfolding read_tables
  read_file none = some none
  read_file (some info) = do stored ← read_tables (some info); some (some stored)

  -- The part of `read_config` up to the settings: the name of the file, if there is one, and its text, if it can be
  -- opened. The inner `none` is a return of 1.
  unfoldable pub read_settings :
      List ℕ → Option (List ℕ) → Option (List ℕ) → Option (Option (Stored Number))
  unfolding read_tables read_file
  read_settings buffer none file = do stored ← read_tables none; some (some stored)
  read_settings buffer (some filename) file = do
    info ← cfg_read buffer filename file
    read_file info

  -- A configuration that was written is read with the settings that it had.
  read_settings-cfg_write :
      (buffer : List ℕ) (info : CfgInfo)
      → length info.filename < 256
      → AreSections [] info.sections
      → read_settings buffer (some info.filename) (cfg_write true info).1 ≡ read_file (some info)
  unfolding read_settings
  read_settings-cfg_write buffer info fits all =
      rw ((cfg_read-cfg_write buffer info fits all).1) refl
