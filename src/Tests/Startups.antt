-- ===== src/Tests/Startups.antt =====
-- A start with a pack that has no UUID yet, and the options of the command line.
use mybmm.Base.{
  ℕ, ◌<◌, ◌≡◌, ◌≢◌, refl, Bool, true, false, ◌&&◌, not, Option, none, some, List, [], ◌∷◌, length,
  replicate, ◌==◌, ltb, ℤ, pos, ◌⊎◌, All, arith, check_state,
}
use mybmm.Strings.{is_space, to_upper, trim, trim_end, same_string}
use mybmm.Cfg.{CfgInfo, CfgItem, find_item, find_section}
use mybmm.Cfg.Read.{cfg_read, header_name, is_comment}
use mybmm.Cfg.Write.{cfg_write}
use mybmm.Cfg.Lines.{IsLine}
use mybmm.Cfg.Written.{IsItem, AreSections}
use mybmm.Setup.{System, config_dirty, no_strings}
use mybmm.Startup.{Program, part_option, configure}
use mybmm.Startup.Saved.{configure-saved}
use mybmm.Tests.Fixed.{fixed}
use mybmm.Tests.Charge.{settings}

abbrev small_system : System ℕ ℤ
small_system = record {
  atof = λ s. pos (length s);
  dlsym = λ name. none;
  new_uuid = λ w. (97 ∷ [], w);
  create = λ mp s tp w. (0, w);
  connect = λ topic name w. (pos 0, w);
  set_callback = λ w. w;
  has_memory = true;
}

abbrev item : List ℕ → List ℕ → CfgItem
item k v = record { keyword = k; desc = none; value = v }

-- TYPE=b
abbrev type_item : CfgItem
type_item = item (84 ∷ 89 ∷ 80 ∷ 69 ∷ []) (98 ∷ [])

-- UUID=a
abbrev uuid_item : CfgItem
uuid_item = item (85 ∷ 85 ∷ 73 ∷ 68 ∷ []) (97 ∷ [])

-- in the section PACK_01
abbrev pack_file : List CfgItem → CfgInfo
pack_file is = record {
  filename = 102 ∷ [];
  sections = (record { name = 80 ∷ 65 ∷ 67 ∷ 75 ∷ 95 ∷ 48 ∷ 49 ∷ []; items = is }) ∷ [];
}

abbrev at_start : Program ℕ ℤ
at_start = record {
  conf = settings;
  setup = record {
    cfg = some (pack_file (type_item ∷ []));
    state = 0;
    modules = [];
    packs = [];
    inverter = none;
    pack_pool = none;
    capabilities = 0;
    mqtt_broker = [];
    mqtt_topic = [];
    world = 0;
  };
}

abbrev set_up : Option (ℤ × Program ℕ ℤ × Option (List ℕ)) → Program ℕ ℤ
set_up none = at_start
set_up (some (r, p, written)) = p

abbrev started : Program ℕ ℤ
started = set_up (configure fixed small_system true at_start)

abbrev saved : CfgInfo
saved = pack_file (type_item ∷ uuid_item ∷ [])

start_runs :
    configure fixed small_system true at_start ≡ some (pos 0, started, (cfg_write true saved).1)
unfolding configure cfg_write
start_runs = refl

start_cfg : started.setup.cfg ≡ some saved
unfolding configure
start_cfg = refl

are_chars : List ℕ → Bool
are_chars [] = true
are_chars (c ∷ cs) = ltb c 128 && not (c == 10) && not (c == 0) && are_chars cs

chars_of : (s : List ℕ) → are_chars s ≡ true → All (λ c. (c < 128) × (c ≢ 10) × (c ≢ 0)) s
unfolding are_chars
chars_of [] h = tt
chars_of (c ∷ cs) h = ((ground arith, ground arith, ground arith), chars_of cs (ground arith))

type-IsLine : IsLine (84 ∷ 89 ∷ 80 ∷ 69 ∷ 61 ∷ 98 ∷ [])
unfolding is_space trim_end are_chars
type-IsLine = record {
  chars = chars_of (84 ∷ 89 ∷ 80 ∷ 69 ∷ 61 ∷ 98 ∷ []) refl;
  start = refl;
  first = (refl, tt);
  trimmed = refl;
  fits = omega arith;
}

uuid-IsLine : IsLine (85 ∷ 85 ∷ 73 ∷ 68 ∷ 61 ∷ 97 ∷ [])
unfolding is_space trim_end are_chars
uuid-IsLine = record {
  chars = chars_of (85 ∷ 85 ∷ 73 ∷ 68 ∷ 61 ∷ 97 ∷ []) refl;
  start = refl;
  first = (refl, tt);
  trimmed = refl;
  fits = omega arith;
}

header-IsLine : IsLine (91 ∷ 80 ∷ 65 ∷ 67 ∷ 75 ∷ 95 ∷ 48 ∷ 49 ∷ 93 ∷ [])
unfolding is_space trim_end are_chars
header-IsLine = record {
  chars = chars_of (91 ∷ 80 ∷ 65 ∷ 67 ∷ 75 ∷ 95 ∷ 48 ∷ 49 ∷ 93 ∷ []) refl;
  start = refl;
  first = (refl, tt);
  trimmed = refl;
  fits = omega arith;
}

type-IsItem : IsItem type_item
unfolding to_upper trim header_name is_comment
type-IsItem = record {
  key = (
    (ground arith, refl),
    ((ground arith, refl), ((ground arith, refl), ((ground arith, refl), tt))),
  );
  trimmed = refl;
  fits = omega arith;
  line = type-IsLine;
  no_header = refl;
  no_comment = refl;
  described = tt;
}

uuid-IsItem : IsItem uuid_item
unfolding to_upper trim header_name is_comment
uuid-IsItem = record {
  key = (
    (ground arith, refl),
    ((ground arith, refl), ((ground arith, refl), ((ground arith, refl), tt))),
  );
  trimmed = refl;
  fits = omega arith;
  line = uuid-IsLine;
  no_header = refl;
  no_comment = refl;
  described = tt;
}

saved_sections : AreSections [] saved.sections
unfolding to_upper find_item find_section same_string
saved_sections = (
  record {
    name = (
      (ground arith, refl),
      (
        (ground arith, refl),
        (
          (ground arith, refl),
          (
            (ground arith, refl),
            ((ground arith, refl), ((ground arith, refl), ((ground arith, refl), tt))),
          ),
        ),
      ),
    );
    fits = omega arith;
    line = header-IsLine;
    items = (type-IsItem, (uuid-IsItem, tt));
    new = (refl, (refl, tt));
  },
  refl,
  tt,
)

configure-saved_example :
    (check_state started.setup.state config_dirty ≡ false)
    × ((((cfg_write true saved).1 ≡ none) × (at_start.setup.cfg ≡ some saved))
        ⊎ (cfg_read (replicate 40 7) (102 ∷ []) (cfg_write true saved).1 ≡ some (some saved)))
configure-saved_example =
    configure-saved fixed small_system at_start started (cfg_write true saved).1 saved
      (replicate 40 7) start_runs start_cfg (omega arith) saved_sections

-- "a:b:c"
part_parsed :
    part_option (97 ∷ 58 ∷ 98 ∷ 58 ∷ 99 ∷ [])
    ≡ some (some (record no_strings { type_name = 97 ∷ []; transport = 98 ∷ []; target = 99 ∷ [] }))
unfolding part_option
part_parsed = refl
