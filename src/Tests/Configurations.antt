-- ===== src/Tests/Configurations.antt =====
-- A configuration file of two sections.
use mybmm.Base.{
  ℕ, ◌≡◌, refl, true, false, none, some, List, [], ◌∷◌, replicate, pos, arith, map, ◌&&◌,
  if◌then◌else◌,
}
use mybmm.Strings.{is_space, same_string, to_upper, trim, trim_end}
use mybmm.Cfg.{CfgItem, CfgInfo, find_item, find_section, cfg_get_item, cfg_set_item, cfg_set_bool}
use mybmm.Cfg.Read.{cfg_read, header_name, is_comment}
use mybmm.Cfg.Write.{cfg_write}
use mybmm.Cfg.Access.{cfg_get_item-cfg_set_item}
use mybmm.Cfg.Written.{IsItem, IsSection}
use mybmm.Cfg.RoundTrip.{cfg_read-cfg_write}
use mybmm.Cfg.Lines.{IsLine}
use mybmm.Cfg.Table.{int_type, logical_type, string_type, whole, cfg_get_tab}

-- "[A]", "; x", "KEY = v w" with space around, "[B]" with no blank line before it and "kEY=1" twice
abbrev file : List ℕ
file =
    32 ∷ 91 ∷ 97 ∷ 93 ∷ 10 ∷ 59 ∷ 32 ∷ 120 ∷ 10 ∷ 9 ∷ 75 ∷ 69 ∷ 121 ∷ 32 ∷ 61 ∷ 32 ∷ 118 ∷ 32 ∷ 119
    ∷ 32 ∷ 13 ∷ 10 ∷ 91 ∷ 66 ∷ 93 ∷ 10 ∷ 75 ∷ 61 ∷ 49 ∷ 10 ∷ 107 ∷ 61 ∷ 50 ∷ []

abbrev info : CfgInfo
info = record {
  filename = 102 ∷ [];
  sections =
      (record {
        name = 65 ∷ [];
        items =
            (record {
              keyword = 75 ∷ 69 ∷ 89 ∷ [];
              desc = some (59 ∷ 32 ∷ 120 ∷ []);
              value = 32 ∷ 118 ∷ 32 ∷ 119 ∷ [];
            })
            ∷ [];
      })
      ∷ (record {
        name = 66 ∷ [];
        items = (record { keyword = 75 ∷ []; desc = none; value = 50 ∷ [] }) ∷ [];
      })
      ∷ [];
}

file_read : cfg_read (replicate 40 0) (102 ∷ []) (some file) ≡ some (some info)
unfolding cfg_read
file_read = refl

file_written : cfg_read (replicate 40 0) (102 ∷ []) (cfg_write true info).1 ≡ some (some info)
unfolding cfg_read cfg_write
file_written = refl

-- A line without `=` takes as its value what an earlier line has left in the buffer.
stale_value :
    cfg_read (replicate 40 0) (102 ∷ []) (some (91 ∷ 65 ∷ 66 ∷ 67 ∷ 68 ∷ 93 ∷ 10 ∷ 75 ∷ 10 ∷ []))
    ≡ some (
        some (record {
          filename = 102 ∷ [];
          sections =
              (record {
                name = 65 ∷ 66 ∷ 67 ∷ 68 ∷ [];
                items =
                    (record { keyword = 75 ∷ []; desc = none; value = 66 ∷ 67 ∷ 68 ∷ 93 ∷ [] })
                    ∷ [];
              })
              ∷ [];
        }))
unfolding cfg_read
stale_value = refl

-- A keyword of 63 characters can be got, but not set.
long_keyword :
    (cfg_set_item (some info) (65 ∷ []) (replicate 63 75) none (some []) ≡ none)
    × (cfg_get_item (some info) (65 ∷ []) (replicate 63 75) ≡ some none)
unfolding cfg_set_item cfg_get_item same_string
long_keyword = (refl, refl)

-- The false value is a null string, which `cfg_set_item` reads.
set_false : cfg_set_bool (some info) (65 ∷ []) (75 ∷ []) false ≡ none
unfolding cfg_set_bool same_string
set_false = refl

abbrev no_atof : List ℕ → ℕ
no_atof s = 0

-- an int, a default and a string of as many characters as there is room for
table_read :
    cfg_get_tab no_atof (some info) (
      (record { section = 98 ∷ []; keyword = 107 ∷ []; kind = int_type; dlen = 4; def = none })
      ∷ (record {
        section = 98 ∷ [];
        keyword = 120 ∷ [];
        kind = logical_type;
        dlen = 4;
        def = some (89 ∷ 69 ∷ 115 ∷ []);
      })
      ∷ (record { section = 98 ∷ []; keyword = 120 ∷ []; kind = int_type; dlen = 4; def = none })
      ∷ [])
    ≡ some (some (whole (pos 2)) ∷ some (whole (pos 1)) ∷ none ∷ [])
unfolding cfg_get_tab same_string
table_read = refl

no_room_for_nul :
    cfg_get_tab no_atof (some info) (
      (record { section = 98 ∷ []; keyword = 107 ∷ []; kind = string_type; dlen = 1; def = none })
      ∷ [])
    ≡ none
unfolding cfg_get_tab same_string
no_room_for_nul = refl

comment_read : IsLine (59 ∷ 32 ∷ 120 ∷ [])
unfolding is_space trim_end
comment_read = record {
  chars = (
    (omega arith, ground arith, ground arith),
    ((omega arith, ground arith, ground arith), ((omega arith, ground arith, ground arith), tt)),
  );
  start = refl;
  first = (refl, tt);
  trimmed = refl;
  fits = omega arith;
}

assignment_read : IsLine (75 ∷ 61 ∷ 50 ∷ [])
unfolding is_space trim_end
assignment_read = record {
  chars = (
    (omega arith, ground arith, ground arith),
    ((omega arith, ground arith, ground arith), ((omega arith, ground arith, ground arith), tt)),
  );
  start = refl;
  first = (refl, tt);
  trimmed = refl;
  fits = omega arith;
}

header_read : IsLine (91 ∷ 66 ∷ 93 ∷ [])
unfolding is_space trim_end
header_read = record {
  chars = (
    (omega arith, ground arith, ground arith),
    ((omega arith, ground arith, ground arith), ((omega arith, ground arith, ground arith), tt)),
  );
  start = refl;
  first = (refl, tt);
  trimmed = refl;
  fits = omega arith;
}

abbrev described : CfgItem
described = record { keyword = 75 ∷ []; desc = some (59 ∷ 32 ∷ 120 ∷ []); value = 50 ∷ [] }

abbrev small : CfgInfo
small = record {
  filename = 102 ∷ [];
  sections = (record { name = 66 ∷ []; items = described ∷ [] }) ∷ [];
}

described-IsItem : IsItem described
unfolding to_upper trim header_name is_comment
described-IsItem = record {
  key = ((ground arith, refl), tt);
  trimmed = refl;
  fits = omega arith;
  line = assignment_read;
  no_header = refl;
  no_comment = refl;
  described = (comment_read, refl);
}

small-IsSection : IsSection (record { name = 66 ∷ []; items = described ∷ [] })
unfolding to_upper find_item
small-IsSection = record {
  name = ((ground arith, refl), tt);
  fits = omega arith;
  line = header_read;
  items = (described-IsItem, tt);
  new = (refl, tt);
}

cfg_read-cfg_write_example :
    ((cfg_write true small).0 ≡ pos 0)
    × (cfg_read (replicate 40 7) (102 ∷ []) (cfg_write true small).1 ≡ some (some small))
unfolding find_section
cfg_read-cfg_write_example =
    cfg_read-cfg_write (replicate 40 7) small (omega arith) (small-IsSection, refl, tt)

cfg_get_item-cfg_set_item_example :
    (info' : CfgInfo) × (cfg_set_item (some info) (98 ∷ []) (107 ∷ []) none (some (51 ∷ []))
      ≡ some (pos 0, some info'))
    × (cfg_get_item (some info') (97 ∷ []) (107 ∷ 101 ∷ 121 ∷ []) ≡ (
        if same_string (map to_upper (98 ∷ [])) (map to_upper (97 ∷ []))
          && same_string (map to_upper (107 ∷ [])) (map to_upper (107 ∷ 101 ∷ 121 ∷ []))
        then some (some (51 ∷ []))
        else cfg_get_item (some info) (97 ∷ []) (107 ∷ 101 ∷ 121 ∷ [])))
cfg_get_item-cfg_set_item_example =
    cfg_get_item-cfg_set_item info (98 ∷ []) (107 ∷ []) (97 ∷ []) (107 ∷ 101 ∷ 121 ∷ []) none
      (51 ∷ []) (omega arith) (omega arith) (omega arith) (omega arith)
