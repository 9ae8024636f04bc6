-- ===== src/Cfg/Read.antt =====
-- `_readline` and `cfg_read`: the text of a file read into sections and items.
use mybmm.Base.{
  ℕ, zero, suc, ◌-◌, Bool, false, not, ◌&&◌, ◌||◌, Option, none, some, ◌>>=◌, List, [], ◌∷◌, ◌++◌,
  ◌==◌, ltb, if◌then◌else◌, length, take, drop, map,
}
use mybmm.Strings.{is_space, to_upper, is_nil, before, same_string, trim, trim_end}
use mybmm.Cfg.{CfgItem, CfgSection, CfgInfo, open_section, update_section}

-- the room of a line, `size-1`
abbrev pub line_room : ℕ
line_room = 1021

-- The character is stored, with `started` for `have_start`.
unfoldable pub is_kept : Bool → ℕ → Bool
unfolding is_space
is_kept started c = ltb c 128 && (started || not (is_space c))

-- The character ends the line; it is not stored, also where it is one too many.
unfoldable pub is_stop : Bool → ℕ → ℕ → Bool
is_stop started room c = ltb c 128 && (c == 10 || started && room == 0)

abbrev pub push : ℕ → List (List ℕ) → List (List ℕ)
push c [] = (c ∷ []) ∷ []
push c (l ∷ ls) = (c ∷ l) ∷ ls

-- What the calls of `_readline` store, one after the other up to the one that meets the end of the file.
unfoldable pub read_lines : Bool → ℕ → List ℕ → List (List ℕ)
unfolding is_kept is_stop
read_lines started room [] = [] ∷ []
read_lines started room (c ∷ cs) =
    let stop = is_stop started room c in
    let kept = is_kept started c in
    let rest =
      read_lines (not stop && (started || kept))
        (if stop then line_room else if kept then room - 1 else room) cs in
    if stop then [] ∷ rest else if kept then push c rest else rest

-- The buffer of a line behind `_readline`: the characters, and the NUL where they are trimmed.
unfoldable pub write_line : List ℕ → List ℕ → List ℕ
unfolding trim_end
write_line raw buffer =
    let line = trim_end raw in
    line ++ 0 ∷ drop (suc (length line)) (raw ++ drop (length raw) buffer)

-- the string at a place of the buffer, none where it does not end in the buffer
unfoldable pub string_at : ℕ → List ℕ → Option (List ℕ)
unfolding before
string_at n buffer = before 0 (drop n buffer)

-- The variables of `cfg_read`.
pub record Reader : Type 0 where
  pub info : CfgInfo
  pub section : Option (List ℕ)
  pub desc : List ℕ
  pub buffer : List ℕ

-- the text between brackets, at the start of a line
unfoldable pub header_name : List ℕ → Option (List ℕ)
unfolding before
header_name [] = none
header_name (c ∷ cs) = if c == 91 then before 93 cs else none

unfoldable pub read_header : List ℕ → Reader → Option Reader
unfolding to_upper open_section
read_header h r = do
  (section, info') ← open_section r.info (take 63 (map to_upper h))
  some (record r { info = info'; section = some section; desc = [] })

unfoldable pub is_comment : List ℕ → Bool
is_comment [] = false
is_comment (c ∷ cs) = c == 59 || c == 35

-- the characters up to `=`, at most `room` of them
unfoldable pub scan_key : ℕ → List ℕ → List ℕ
unfolding to_upper
scan_key zero cs = []
scan_key (suc room) [] = []
scan_key (suc room) (c ∷ cs) =
    let rest = scan_key room cs in if c == 61 then [] else to_upper c ∷ rest

-- `_cfg_get_item` and `list_delete`
unfoldable pub delete_item : List ℕ → List CfgItem → List CfgItem
unfolding same_string
delete_item keyword [] = []
delete_item keyword (i ∷ is) =
    let rest = delete_item keyword is in if same_string i.keyword keyword then is else i ∷ rest

abbrev pub add_item : CfgItem → CfgSection → CfgSection
add_item item s = record s { items = delete_item item.keyword s.items ++ item ∷ [] }

-- The value is what stands behind the `=`, or behind the NUL of a line without one.
unfoldable pub read_item : List ℕ → List ℕ → Reader → Option Reader
unfolding scan_key trim string_at update_section delete_item
read_item text section r = do
  let key = scan_key 63 text
  value ← string_at (suc (length key)) r.buffer
  let item : CfgItem = record {
    keyword = trim key;
    desc = if is_nil r.desc then none else some r.desc;
    value = value;
  }
  some (record r {
    info = record r.info { sections = update_section section (add_item item) r.info.sections };
    desc = [];
  })

unfoldable pub read_text : List ℕ → Reader → Option Reader
unfolding is_comment read_item
read_text text r = elim r.section [
  | none ↦ some r
  | some section ↦
      (if is_comment text
        then some (record r { desc = take 1023 text })
        else read_item text section r)
]

-- one turn of the loop of `cfg_read`
unfoldable pub read_line : List ℕ → Reader → Option Reader
unfolding write_line string_at header_name read_header read_text
read_line raw r = do
  let r' : Reader = record r { buffer = write_line raw r.buffer }
  text ← string_at 0 r'.buffer
  if is_nil text
      then some (record r' { section = none })
      else elim (header_name text) [ some h ↦ read_header h r' | none ↦ read_text text r' ]

unfoldable pub read_all : List (List ℕ) → Reader → Option Reader
unfolding read_line
read_all [] r = some r
read_all (l ∷ ls) r = do r' ← read_line l r; read_all ls r'

-- `cfg_read` of the file with that text, if there is one; `buffer` is what is on the stack for `line`.
-- The file's name is stored by `strcpy` in 256 bytes.
unfoldable pub cfg_read : List ℕ → List ℕ → Option (List ℕ) → Option (Option CfgInfo)
unfolding read_lines read_all
cfg_read buffer filename none = some none
cfg_read buffer filename (some file) =
    if ltb (length filename) 256
    then (do
      let start : CfgInfo = record { filename = filename; sections = [] }
      r ←
          read_all (read_lines false line_room file)
            (record { info = start; section = none; desc = []; buffer = buffer })
      some (some (record r.info { filename = take 255 filename })))
    else none
