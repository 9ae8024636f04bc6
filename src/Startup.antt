-- ===== src/Startup.antt =====
-- config.c and the `init` of main.c: how the configuration is read, the parts are set up, and the file is saved where a
-- part has changed the configuration.
--
-- The record of the charge control and that of the set-up are two views of `struct mybmm_config`: the word of its
-- flags is handed from one to the other. `none` is a write behind an array or the use of a null pointer.
pub mod Saved
use mybmm.Base.{
  ℕ, Bool, true, false, not, ◌||◌, Option, none, some, ◌>>=◌, List, [], ◌∷◌, ltb, length, take,
  if◌then◌else◌, ℤ, pos, negsuc, is_zero, is_neg, clear_state, check_state,
}
use mybmm.Floats.{Floats, intf}
use mybmm.Config.{Config}
use mybmm.Battery.{Conf, battery_init}
use mybmm.Strings.{is_nil}
use mybmm.Strings.Element.{strele}
use mybmm.Cfg.{CfgInfo}
use mybmm.Cfg.Read.{cfg_read}
use mybmm.Cfg.Write.{cfg_write}
use mybmm.Cfg.Table.{Setting, whole, real, text, atoi}
use mybmm.Settings.{Stored, read_tables}
use mybmm.Setup.{Strings, no_strings, Setup, System, config_dirty}
use mybmm.Setup.Add.{pack_add}
use mybmm.Setup.Start.{pack_init, inverter_add, inverter_init}

-- The two views of the configuration.
pub record Program (World : Type 0) (Number : Type 0) : Type 0 where
  pub conf : Config Number
  pub setup : Setup World Number

-- a copy to an array of 32 bytes
copied : List ℕ → Option (List ℕ)
copied s = if ltb (length s) 32 then some s else none

-- What `-i` and `-p` give: type, transport and target, which are cut to 32 characters first; `none` inside is the error
-- that one of them is empty.
unfoldable pub part_option : List ℕ → Option (Option Strings)
unfolding strele copied
part_option optarg = do
  type_name ← strele 0 (58 ∷ []) optarg
  transport ← strele 1 (58 ∷ []) optarg
  target ← strele 2 (58 ∷ []) optarg
  if is_nil type_name || is_nil transport || is_nil target then some none else do
    type_name' ← copied (take 32 type_name)
    transport' ← copied (take 32 transport)
    target' ← copied (take 32 target)
    some (
        some
          (record no_strings { type_name = type_name'; transport = transport'; target = target' }))

-- `-b`: the chemistry and the capacity
unfoldable pub battery_option : List ℕ → Option (ℤ × ℤ)
unfolding strele atoi
battery_option optarg = do
  chem ← strele 0 (44 ∷ []) optarg
  cap ← strele 1 (44 ∷ []) optarg
  some (atoi chem, atoi cap)

module _ (fl : Floats) where
  open fl use {Number}

  -- an entry of the table whose number, `int` or flag is stored
  put_real : (Number → Conf fl → Conf fl) → Setting Number → Conf fl → Conf fl
  put_real put (real x) c = put x c
  put_real put s c = c

  put_whole : (ℤ → Conf fl → Conf fl) → Setting Number → Conf fl → Conf fl
  put_whole put (whole n) c = put n c
  put_whole put s c = c

  put_flag : (Bool → Conf fl → Conf fl) → Setting Number → Conf fl → Conf fl
  put_flag put (whole n) c = put (not (is_zero n)) c
  put_flag put s c = c

  other_field : Setting Number → Conf fl → Conf fl
  other_field s c = c

  -- An interval below 0 means the same as 0: there is no sleep.
  at_least_0 : ℤ → ℕ
  at_least_0 (pos n) = n
  at_least_0 (negsuc n) = 0

  -- Where the entries of `config_table` are stored; `debug` and the maximal currents are no fields of the record.
  config_fields : List (Setting Number → Conf fl → Conf fl)
  unfolding put_real put_whole put_flag other_field at_least_0
  config_fields =
      other_field
      ∷ put_whole (λ n c. record c { interval = at_least_0 n })
      ∷ other_field
      ∷ other_field
      ∷ put_whole (λ n c. record c { system_voltage = n })
      ∷ put_whole (λ n c. record c { battery_chem = n })
      ∷ put_whole (λ n c. record c { cells = n })
      ∷ put_real (λ x c. record c { cell_low = x })
      ∷ put_real (λ x c. record c { cell_crit_low = x })
      ∷ put_real (λ x c. record c { cell_high = x })
      ∷ put_real (λ x c. record c { cell_crit_high = x })
      ∷ put_real (λ x c. record c { c_rate = x })
      ∷ put_real (λ x c. record c { e_rate = x })
      ∷ put_real (λ x c. record c { user_capacity = x })
      ∷ put_real (λ x c. record c { user_charge_voltage = x })
      ∷ put_real (λ x c. record c { user_charge_amps = x })
      ∷ put_real (λ x c. record c { user_discharge_voltage = x })
      ∷ put_real (λ x c. record c { user_discharge_amps = x })
      ∷ put_real (λ x c. record c { user_charge_max_voltage = x })
      ∷ put_flag (λ b c. record c { charge_at_max = b })
      ∷ put_real (λ x c. record c { user_soc = x })
      ∷ put_flag (λ b c. record c { use_packv = b })
      ∷ []

  store_one : (Setting Number → Conf fl → Conf fl) → Option (Setting Number) → Conf fl → Conf fl
  store_one put none c = c
  store_one put (some s) c = put s c

  -- what was read for each entry, put into its field
  unfoldable pub store_fields :
      List (Setting Number → Conf fl → Conf fl) → List (Option (Setting Number)) → Conf fl → Conf fl
  unfolding store_one
  store_fields [] stored c = c
  store_fields (put ∷ puts) [] c = c
  store_fields (put ∷ puts) (s ∷ stored) c = store_fields puts stored (store_one put s c)

  unfoldable pub store_config : List (Option (Setting Number)) → Conf fl → Conf fl
  unfolding store_fields config_fields
  store_config stored c = store_fields config_fields stored c

  or_text : Option (Setting Number) → List ℕ → List ℕ
  or_text (some (text t)) old = t
  or_text s old = old

  -- `get_mqtt_conf`: the broker and the topic
  unfoldable pub store_mqtt :
      {World : Type 0} → List (Option (Setting Number)) → Setup World Number → Setup World Number
  unfolding or_text
  store_mqtt (broker ∷ topic ∷ rest) st = record st {
    mqtt_broker = or_text broker st.mqtt_broker;
    mqtt_topic = or_text topic st.mqtt_topic;
  }
  store_mqtt stored st = st

  module _ {World : Type 0} (sys : System World Number) where
    open sys use {atof}

    abbrev pub together : Conf fl → Setup World Number → Program World Number
    together c st = record { conf = record c { state = st.state }; setup = st }

    -- "If config is dirty, write it back out"; also the text of the file that is written, if it
    -- can be written.
    unfoldable pub save :
        Bool → Program World Number → Option (ℤ × Program World Number × Option (List ℕ))
    unfolding cfg_write check_state clear_state
    save can_write p =
        if check_state p.setup.state config_dirty
        then elim p.setup.cfg [
          | none ↦ none
          | some info ↦ some (
            pos 0,
            together p.conf (record p.setup { state = clear_state p.setup.state config_dirty }),
            (cfg_write can_write info).1,
          )
        ]
        else some (pos 0, p, none)

    -- the packs, where the inverter was set up
    unfoldable pub init_packs :
        Bool
        → Conf fl
        → ℤ × Setup World Number
        → Option (ℤ × Program World Number × Option (List ℕ))
    unfolding pack_init save
    init_packs can_write c (r, st) =
        if not (is_zero r) then some (pos 1, together c st, none) else do
          (r2, st2) ← pack_init sys st
          elim (is_zero r2) [
            | true ↦ save can_write (together c st2)
            | false ↦ some (pos 1, together c st2, none)
          ]

    -- `read_config` behind the file
    unfoldable pub configure :
        Bool → Program World Number → Option (ℤ × Program World Number × Option (List ℕ))
    unfolding read_tables store_config store_mqtt battery_init inverter_init init_packs
    configure can_write p = do
      stored ← read_tables atof p.setup.cfg
      let c =
          battery_init fl
            (record (store_config stored.config p.conf) { battery_temp = intf fl (pos 25) })
      made ← inverter_init sys (record (store_mqtt stored.mqtt p.setup) { state = c.state })
      init_packs can_write c made

    -- `read_config`, with the name of the file, if there is one, and its text, if it can be opened.
    unfoldable pub read_config :
        Bool
        → List ℕ
        → Option (List ℕ)
        → Option (List ℕ)
        → Program World Number
        → Option (ℤ × Program World Number × Option (List ℕ))
    unfolding cfg_read configure
    read_config can_write buffer none file p = configure can_write p
    read_config can_write buffer (some filename) file p = do
      info ← cfg_read buffer filename file
      elim info [
        | none ↦ some (pos 1, record p { setup = record p.setup { cfg = none } }, none)
        | some i ↦ configure can_write (record p { setup = record p.setup { cfg = some i } })
      ]

    -- `reconfig`: both lists are made anew.
    unfoldable pub reconfig :
        Bool
        → List ℕ
        → Option (List ℕ)
        → Option (List ℕ)
        → Program World Number
        → Option (ℤ × Program World Number × Option (List ℕ))
    unfolding read_config
    reconfig can_write buffer filename file p =
        read_config can_write buffer filename file
          (record p { setup = record p.setup { modules = []; packs = [] } })

    -- The options of `init` behind the configuration: `-b`, `-i` and `-p`.
    override_battery : Option (ℤ × ℤ) → Conf fl → Conf fl
    unfolding battery_init
    override_battery none c = c
    override_battery (some (chem, cap)) c =
        let unset = intf fl (negsuc 0) in
        if is_neg chem
        then c
        else battery_init fl (record c {
          battery_chem = chem;
          capacity = if is_neg cap then intf fl (pos 100) else intf fl cap;
          cell_low = unset;
          cell_crit_low = unset;
          cell_high = unset;
          cell_crit_high = unset;
          c_rate = unset;
        })

    add_inverter : Option Strings → Setup World Number → Option (Setup World Number)
    unfolding inverter_add
    add_inverter none st = some st
    add_inverter (some s) st = do (_, st') ← inverter_add sys s st; some st'

    -- The section of the pack is "pack"; `pack_init` is called once more.
    add_pack_option : Option Strings → Setup World Number → Option (Setup World Number)
    unfolding pack_add pack_init
    add_pack_option none st = some st
    add_pack_option (some s) st = do
      (_, st1) ← pack_add sys (112 ∷ 97 ∷ 99 ∷ 107 ∷ []) s st
      (_, st2) ← pack_init sys st1
      some st2

    unfoldable pub apply_options :
        Option (ℤ × ℤ)
        → Option Strings
        → Option Strings
        → Program World Number
        → Option (Program World Number)
    unfolding override_battery add_inverter add_pack_option
    apply_options battery inv pack p =
        let c = override_battery battery p.conf in
        do
          st1 ← add_inverter inv (record p.setup { state = c.state })
          st2 ← add_pack_option pack st1
          some (together c st2)
