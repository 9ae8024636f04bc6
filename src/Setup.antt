-- ===== src/Setup.antt =====
-- pack.c and inverter.c: how the packs and the inverter of the configuration are set up, with `pack_add`, `pack_init`,
-- `get_tab`, `inverter_add` and `inverter_init`.
--
-- What is not the program's own code is a parameter: the system's symbols and the new UUIDs, what the modules and the
-- MQTT client do, on a state `World`. `calloc` gives what it is asked for; `none` is a write behind an array.
pub mod Add
pub mod Start
pub mod Identity
pub mod Packs
pub mod Marked
pub mod Controls
use mybmm.Base.{
  ℕ, zero, suc, ◌+◌, ◌/◌, ◌%◌, Bool, true, false, not, Option, none, some, ◌>>=◌, List, [], ◌∷◌,
  ◌++◌, ◌==◌, ltb, length, if◌then◌else◌, ℤ, pos, is_zero, bit, set_state, check_state,
}
use mybmm.Strings.{is_nil}
use mybmm.Cfg.{CfgInfo, cfg_get_item, cfg_set_item}
use mybmm.Cfg.Table.{Setting, text, real, Entry, string_type, float_type, cfg_get_tab}
use mybmm.Settings.{entry}
use mybmm.Modules.{Module, cellmon_type, inverter_type, transport_type, mybmm_load_module}
use mybmm.Worker.{Worker, worker_create_pool}

-- MYBMM_CONFIG_DIRTY, MYBMM_CHARGE_CONTROL, MYBMM_DISCHARGE_CONTROL
abbrev pub config_dirty : ℕ
config_dirty = bit 5

abbrev pub charge_control_bit : ℕ
charge_control_bit = 0

abbrev pub discharge_control_bit : ℕ
discharge_control_bit = 1

abbrev pub max_packs : ℕ
max_packs = 32

-- The strings that `struct mybmm_pack` and `struct mybmm_inverter` begin with; `opts` are the `params` of an inverter.
pub record Strings : Type 0 where
  pub name : List ℕ
  pub uuid : List ℕ
  pub type_name : List ℕ
  pub transport : List ℕ
  pub target : List ℕ
  pub opts : List ℕ

-- What `calloc` leaves in them.
abbrev pub no_strings : Strings
no_strings = record { name = []; uuid = []; type_name = []; transport = []; target = []; opts = [] }

-- A pack or an inverter that was added: `funcs` is the module that its functions (`open` and so on) and its
-- capabilities are those of, `capacity` that of a pack.
pub record Added (World : Type 0) (Number : Type 0) : Type 0 where
  pub strings : Strings
  pub capacity : Option Number
  pub capabilities : ℕ
  pub handle : ℕ
  pub funcs : Module World

-- The part of `struct mybmm_config` that the set-up uses.
pub record Setup (World : Type 0) (Number : Type 0) : Type 0 where
  pub cfg : Option CfgInfo
  pub state : ℕ
  pub modules : List (Module World)
  pub packs : List (Added World Number)
  pub inverter : Option (Added World Number)
  pub pack_pool : Option (List Worker)
  pub capabilities : ℕ
  pub mqtt_broker : List ℕ
  pub mqtt_topic : List ℕ
  pub world : World

-- "uuid" and "type"
abbrev pub uuid_keyword : List ℕ
uuid_keyword = 117 ∷ 117 ∷ 105 ∷ 100 ∷ []

abbrev pub type_keyword : List ℕ
type_keyword = 116 ∷ 121 ∷ 112 ∷ 101 ∷ []

-- "inverter"
abbrev pub inverter_section : List ℕ
inverter_section = 105 ∷ 110 ∷ 118 ∷ 101 ∷ 114 ∷ 116 ∷ 101 ∷ 114 ∷ []

-- name, uuid, type, transport, target
abbrev common_table : List ℕ → List Entry
common_table section =
    entry section (110 ∷ 97 ∷ 109 ∷ 101 ∷ []) string_type 32 none
    ∷ entry section uuid_keyword string_type 37 none
    ∷ entry section type_keyword string_type 32 none
    ∷ entry section (116 ∷ 114 ∷ 97 ∷ 110 ∷ 115 ∷ 112 ∷ 111 ∷ 114 ∷ 116 ∷ []) string_type 32 none
    ∷ entry section (116 ∷ 97 ∷ 114 ∷ 103 ∷ 101 ∷ 116 ∷ []) string_type 32 none
    ∷ []

-- and opts, capacity
abbrev pub packtab : List ℕ → List Entry
packtab section =
    common_table section
    ++ entry section (111 ∷ 112 ∷ 116 ∷ 115 ∷ []) string_type 64 none
      ∷ entry section (99 ∷ 97 ∷ 112 ∷ 97 ∷ 99 ∷ 105 ∷ 116 ∷ 121 ∷ []) float_type 0 none
      ∷ []

-- and params
abbrev pub invertertab : List ℕ → List Entry
invertertab section =
    common_table section
    ++ entry section (112 ∷ 97 ∷ 114 ∷ 97 ∷ 109 ∷ 115 ∷ []) string_type 64 none ∷ []

-- "pack_%02d"
unfoldable pub pack_name : ℕ → List ℕ
pack_name n = 112 ∷ 97 ∷ 99 ∷ 107 ∷ 95 ∷ (48 + n / 10) ∷ (48 + n % 10) ∷ []

module _ {Number : Type 0} where
  -- What a string holds after its entry was stored.
  stored_text : Option (Setting Number) → List ℕ → List ℕ
  stored_text (some (text t)) old = t
  stored_text s old = old

  stored_real : Option (Setting Number) → Option Number → Option Number
  stored_real (some (real x)) old = some x
  stored_real s old = old

  -- The strings of a table in its order, with the capacity for that of a pack.
  unfoldable pub store_table :
      List (Option (Setting Number)) → Strings → Option Number → Strings × Option Number
  unfolding stored_text stored_real
  store_table (n ∷ u ∷ ty ∷ tr ∷ ta ∷ o ∷ rest) s capacity = (
    record {
      name = stored_text n s.name;
      uuid = stored_text u s.uuid;
      type_name = stored_text ty s.type_name;
      transport = stored_text tr s.transport;
      target = stored_text ta s.target;
      opts = stored_text o s.opts;
    },
    stored_capacity rest capacity,
  )
    where
      stored_capacity : List (Option (Setting Number)) → Option Number → Option Number
      stored_capacity [] old = old
      stored_capacity (c ∷ cs) old = stored_real c old
  store_table stored s capacity = (s, capacity)

-- An empty name becomes that of the section, in an array of 32 bytes.
unfoldable pub own_name : List ℕ → Strings → Option Strings
own_name section s =
    if is_nil s.name
    then (if ltb (length section) 32 then some (record s { name = section }) else none)
    else some s

-- What the set-up calls: `atof`, the symbols of the program, a new UUID as text, `mp->new` of a module (0 is null),
-- `mqtt_new` with `mqtt_connect` for a topic and a name, `mqtt_setcb`, and whether there is memory for the threads.
pub record System (World : Type 0) (Number : Type 0) : Type 0 where
  pub atof : List ℕ → Number
  pub dlsym : List ℕ → Option (Module World)
  pub new_uuid : World → List ℕ × World
  pub create : Module World → Strings → Module World → World → ℕ × World
  pub connect : List ℕ → List ℕ → World → ℤ × World
  pub set_callback : World → World
  pub has_memory : Bool
