-- ===== src/Cfg.antt =====
-- cfg.c and cfg.h: the sections and items of a configuration, and how they are got and set.
--
-- A list of list.c is the sequence that it stands for. A pointer to a section is the section's name,
-- since the source only takes the first section with a name. `none` is a write behind an array or a read
-- of a null string. `malloc` gives what it is asked for.
pub mod Lookup
pub mod Access
pub mod Read
pub mod Write
pub mod Lines
pub mod Written
pub mod RoundTrip
pub mod Table
use mybmm.Base.{
  ℕ, ◌≡◌, Bool, true, false, ◌||◌, Option, none, some, ◌>>=◌, List, [], ◌∷◌, ◌++◌, ◌==◌,
  if◌then◌else◌, ℤ, pos, take,
}
use mybmm.Strings.{same_string, upper_into}

-- `struct _cfg_item`
pub record CfgItem : Type 0 where
  pub keyword : List ℕ
  pub desc : Option (List ℕ)
  pub value : List ℕ

-- `struct _cfg_section`
pub record CfgSection : Type 0 where
  pub name : List ℕ
  pub items : List CfgItem

-- `struct _cfg_info`
pub record CfgInfo : Type 0 where
  pub filename : List ℕ
  pub sections : List CfgSection

-- `_cfg_get_item`
unfoldable pub find_item : List ℕ → List CfgItem → Option CfgItem
find_item name [] = none
find_item name (i ∷ is) =
    let rest = find_item name is in if same_string i.keyword name then some i else rest

unfoldable pub find_section : List ℕ → List CfgSection → Option CfgSection
find_section name [] = none
find_section name (s ∷ ss) =
    let rest = find_section name ss in if same_string s.name name then some s else rest

unfoldable pub cfg_get_section : CfgInfo → List ℕ → Option (Option CfgSection)
unfolding find_section upper_into
cfg_get_section info name = do
  secname ← upper_into 64 name
  some (find_section secname info.sections)

-- The section that is made is the last one.
unfoldable pub cfg_create_section : CfgInfo → List ℕ → Option (List ℕ × CfgInfo)
unfolding upper_into
cfg_create_section info name = do
  secname ← upper_into 64 name
  some (
    secname,
    record info { sections = info.sections ++ (record { name = secname; items = [] }) ∷ [] },
  )

-- the section with the name, made where there is none
unfoldable pub open_section : CfgInfo → List ℕ → Option (List ℕ × CfgInfo)
unfolding cfg_get_section cfg_create_section
open_section info name = do
  found ← cfg_get_section info name
  elim found [ none ↦ cfg_create_section info name | some s ↦ some (s.name, info) ]

unfoldable pub item_in : Option CfgSection → List ℕ → Option (Option (List ℕ))
unfolding upper_into find_item
item_in none keyword = some none
item_in (some s) keyword = do
  itemname ← upper_into 64 keyword
  some (elim (find_item itemname s.items) [ none ↦ none | some i ↦ some i.value ])

unfoldable pub cfg_get_item : Option CfgInfo → List ℕ → List ℕ → Option (Option (List ℕ))
unfolding cfg_get_section item_in
cfg_get_item none section_name keyword = some none
cfg_get_item (some info) section_name keyword = do
  section ← cfg_get_section info section_name
  item_in section keyword

unfoldable pub cfg_get_string : Option CfgInfo → List ℕ → List ℕ → List ℕ → Option (List ℕ)
unfolding cfg_get_item
cfg_get_string info name keyword def = do
  p ← cfg_get_item info name keyword
  some (elim p [ none ↦ def | some v ↦ v ])

-- whether the first character is one of `1tTyY`
is_true : List ℕ → Bool
is_true [] = false
is_true (c ∷ cs) = c == 49 || c == 116 || c == 84 || c == 121 || c == 89

unfoldable pub cfg_get_bool : Option CfgInfo → List ℕ → List ℕ → ℤ → Option ℤ
unfolding cfg_get_item is_true
cfg_get_bool info name keyword def = do
  p ← cfg_get_item info name keyword
  some (elim p [ none ↦ def | some v ↦ (if is_true v then pos 1 else pos 0) ])

-- the first section with the name, changed
unfoldable pub update_section :
    List ℕ → (CfgSection → CfgSection) → List CfgSection → List CfgSection
update_section name f [] = []
update_section name f (s ∷ ss) =
    let rest = update_section name f ss in if same_string s.name name then f s ∷ ss else s ∷ rest

-- "no `desc`" leaves that of an item as it is.
unfoldable pub new_desc : Option (List ℕ) → Option (List ℕ) → Option (List ℕ)
new_desc none old = old
new_desc (some d) old = some d

-- the item with another value, or a new item behind the others
unfoldable pub put_item : List ℕ → Option (List ℕ) → List ℕ → List CfgItem → List CfgItem
unfolding new_desc
put_item itemname desc value [] =
    (record { keyword = take 63 itemname; desc = desc; value = value }) ∷ []
put_item itemname desc value (i ∷ is) =
    let rest = put_item itemname desc value is in
    if same_string i.keyword itemname
    then (record i { desc = new_desc desc i.desc; value = value }) ∷ is
    else i ∷ rest

abbrev pub set_in : List ℕ → Option (List ℕ) → List ℕ → CfgSection → CfgSection
set_in itemname desc value s = record s { items = put_item itemname desc value s.items }

-- `itemname` has one byte less than that of `cfg_get_item`.
unfoldable pub cfg_set_item :
    Option CfgInfo
    → List ℕ
    → List ℕ
    → Option (List ℕ)
    → Option (List ℕ)
    → Option (ℤ × Option CfgInfo)
unfolding open_section upper_into put_item update_section
cfg_set_item none sname iname desc ival = some (pos 1, none)
cfg_set_item (some info) sname iname desc ival = do
  (section, info') ← open_section info sname
  itemname ← upper_into 63 iname
  value ← ival
  some (
    pos 0,
    some (record info' {
      sections = update_section section (set_in itemname desc value) info'.sections;
    }),
  )

-- The value for false is a null string.
unfoldable pub cfg_set_bool : Option CfgInfo → List ℕ → List ℕ → Bool → Option (ℤ × Option CfgInfo)
unfolding cfg_set_item
cfg_set_bool info name keyword val =
    cfg_set_item info name keyword none (if val then some (49 ∷ []) else none)
