-- ===== src/Tests/Setups.antt =====
-- The modules, the packs and the inverter that are set up: runs on small configurations.
use mybmm.Base.{
  ℕ, ◌≡◌, refl, true, Option, none, some, List, [], ◌∷◌, length, replicate, ◌==◌, if◌then◌else◌, ℤ,
  pos, set_state, suc, arith,
}
use mybmm.Strings.{same_string, to_upper}
use mybmm.Cfg.{CfgInfo, CfgSection, CfgItem, cfg_get_item}
use mybmm.Modules.{
  Module, is_module, mybmm_get_module, mybmm_load_module, cellmon_type, transport_type,
}
use mybmm.Modules.Once.{AreDistinct, mybmm_load_module-once}
use mybmm.Setup.{Setup, System, Strings, no_strings, pack_name, uuid_keyword, config_dirty}
use mybmm.Setup.Add.{ensure_uuid}
use mybmm.Setup.Start.{pack_init}
use mybmm.Setup.Identity.{ensure_uuid-new}
use mybmm.Setup.Controls.{IsReady, pack_init-IsReady}

-- "jbd", "ip"
abbrev jbd : List ℕ
jbd = 106 ∷ 98 ∷ 100 ∷ []

abbrev ip : List ℕ
ip = 105 ∷ 112 ∷ []

-- A module of the test counts its initialisations in the state.
abbrev ip_module : Module ℕ
ip_module = record {
  kind = transport_type;
  name = ip;
  capabilities = 0;
  init = some (λ w. (pos 0, suc w));
}

abbrev jbd_module : Module ℕ
jbd_module = record { kind = cellmon_type; name = jbd; capabilities = 7; init = none }

-- "ip_module" and "jbd_module" by their lengths
abbrev symbols : List ℕ → Option (Module ℕ)
symbols n =
    if length n == 9 then some ip_module else if length n == 10 then some jbd_module else none

abbrev new_id : List ℕ
new_id = replicate 36 97

abbrev test_system : System ℕ ℕ
test_system = record {
  atof = λ s. length s;
  dlsym = symbols;
  new_uuid = λ w. (new_id, w);
  create = λ mp s tp w. (5, w);
  connect = λ topic name w. (pos 0, w);
  set_callback = λ w. w;
  has_memory = true;
}

abbrev item : List ℕ → List ℕ → CfgItem
item k v = record { keyword = k; desc = none; value = v }

-- TYPE=jbd, TRANSPORT=ip in the section PACK_01
abbrev pack_section : CfgSection
pack_section = record {
  name = 80 ∷ 65 ∷ 67 ∷ 75 ∷ 95 ∷ 48 ∷ 49 ∷ [];
  items =
      item (84 ∷ 89 ∷ 80 ∷ 69 ∷ []) jbd
      ∷ item (84 ∷ 82 ∷ 65 ∷ 78 ∷ 83 ∷ 80 ∷ 79 ∷ 82 ∷ 84 ∷ []) ip
      ∷ [];
}

abbrev test_info : CfgInfo
test_info = record { filename = 99 ∷ []; sections = pack_section ∷ [] }

abbrev before_init : Setup ℕ ℕ
before_init = record {
  cfg = some test_info;
  state = 0;
  modules = [];
  packs = [];
  inverter = none;
  pack_pool = none;
  capabilities = 0;
  mqtt_broker = [];
  mqtt_topic = [];
  world = 0;
}

abbrev result_of : Option (ℤ × Setup ℕ ℕ) → Setup ℕ ℕ
result_of none = before_init
result_of (some (r, st)) = st

abbrev after_init : Setup ℕ ℕ
after_init = result_of (pack_init test_system before_init)

pack_runs : pack_init test_system before_init ≡ some (pos 0, after_init)
unfolding pack_init
pack_runs = refl

load_module_runs :
    mybmm_load_module symbols [] 0 ip transport_type ≡ some (some ip_module, ip_module ∷ [], 1)
unfolding mybmm_load_module
load_module_runs = refl

ip_is_ip : is_module ip transport_type ip_module ≡ true
unfolding is_module
ip_is_ip = refl

nothing_listed : AreDistinct {World = ℕ} []
unfolding AreDistinct
nothing_listed = tt

mybmm_load_module-once_example :
    AreDistinct (ip_module ∷ [])
    × (mybmm_get_module (ip_module ∷ []) ip transport_type ≡ some ip_module)
    × (mybmm_get_module (ip_module ∷ []) jbd cellmon_type ≡ none)
    × (mybmm_load_module symbols (ip_module ∷ []) 1 ip transport_type
        ≡ some (some ip_module, ip_module ∷ [], 1))
unfolding mybmm_get_module
mybmm_load_module-once_example =
    mybmm_load_module-once symbols [] (ip_module ∷ []) 0 1 1 ip transport_type ip_module jbd
      cellmon_type nothing_listed ip_is_ip load_module_runs

pack_init-IsReady_example : IsReady before_init after_init
pack_init-IsReady_example = pack_init-IsReady test_system before_init after_init refl pack_runs

ensure_uuid-new_example :
    (s' : Strings) × (st' : Setup ℕ ℕ) × (ensure_uuid test_system
        (pack_name 1)
        no_strings
        before_init
      ≡ some (s', st'))
    × (s'.uuid ≡ new_id)
    × (st'.state ≡ set_state 0 config_dirty)
    × (cfg_get_item st'.cfg (pack_name 1) uuid_keyword ≡ some (some s'.uuid))
    × (ensure_uuid test_system (pack_name 1) s' st' ≡ some (s', st'))
unfolding same_string to_upper pack_name
ensure_uuid-new_example =
    ensure_uuid-new test_system (pack_name 1) no_strings before_init test_info (pack_name 1)
      uuid_keyword (λ w. refl) (omega arith) (omega arith) (omega arith) refl refl
