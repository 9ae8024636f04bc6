-- ===== src/Cfg/Table.antt =====
-- Values of the file put into variables: `conv_type` from a string, and `cfg_get_tab`.
use mybmm.Base.{
  ℕ, zero, suc, ◌+◌, ◌*◌, ◌-◌, Bool, ◌&&◌, ◌||◌, Option, none, some, ◌>>=◌, List, [], ◌∷◌, ◌==◌,
  ltb, leb, length, take, map, if◌then◌else◌, ℤ, pos, negsuc,
}
use mybmm.Strings.{is_space, same_string}
use mybmm.Cfg.{CfgInfo, cfg_get_item}

-- `enum DATA_TYPE`, the kinds that `conv_type` converts to
pub data DataType : Type 0 where
  int_type : DataType
  float_type : DataType
  double_type : DataType
  logical_type : DataType
  string_type : DataType
  other_type : DataType

is_digit : ℕ → Bool
is_digit c = leb 48 c && leb c 57

digits : ℕ → List ℕ → ℕ
unfolding is_digit
digits n [] = n
digits n (c ∷ cs) = let rest = digits (n * 10 + (c - 48)) cs in if is_digit c then rest else n

minus : ℕ → ℤ
minus zero = pos 0
minus (suc n) = negsuc n

-- `atoi` behind the white space
signed : List ℕ → ℤ
unfolding digits minus
signed [] = pos 0
signed (c ∷ cs) =
    if c == 45 then minus (digits 0 cs) else pos (digits 0 (if c == 43 then cs else c ∷ cs))

-- `atoi`; what it gives for a number that is no `int` is not used.
unfoldable pub atoi : List ℕ → ℤ
unfolding is_space signed
atoi [] = pos 0
atoi (c ∷ cs) = let rest = atoi cs in if is_space c then rest else signed (c ∷ cs)

to_lower : ℕ → ℕ
to_lower c = if leb 65 c && leb c 90 then c + 32 else c

-- "yes", "true" or "1", in an array of 16 bytes
unfoldable pub conv_logical : List ℕ → Option ℤ
unfolding to_lower same_string
conv_logical s =
    let temp = map to_lower s in
    if ltb (length s) 16
    then some (
        if same_string temp (121 ∷ 101 ∷ 115 ∷ [])
          || same_string temp (116 ∷ 114 ∷ 117 ∷ 101 ∷ [])
          || same_string temp (49 ∷ [])
        then pos 1
        else pos 0)
    else none

-- At most `dlen` characters are copied, by way of an array of 1024 bytes, and the NUL is stored behind them.
unfoldable pub conv_string : ℕ → List ℕ → Option (List ℕ)
conv_string dlen s =
    let copied = take dlen s in
    if ltb (length copied) 1024 && ltb (length copied) dlen then some copied else none

-- What is stored: a number for an `int`, a single float (for a double too), or a string.
pub data Setting (Number : Type 0) : Type 0 where
  whole : ℤ → Setting Number
  real : Number → Setting Number
  text : List ℕ → Setting Number

-- `struct cfg_proctab`; what stands at `dest` is what `cfg_get_tab` returns for the entry.
pub record Entry : Type 0 where
  pub section : List ℕ
  pub keyword : List ℕ
  pub kind : DataType
  pub dlen : ℕ
  pub def : Option (List ℕ)

module _ {Number : Type 0} (atof : List ℕ → Number) where
  -- What `conv_type` stores for a string: nothing for the other kinds.
  unfoldable pub conv_type : DataType → ℕ → List ℕ → Option (Option (Setting Number))
  unfolding conv_logical conv_string atoi
  conv_type int_type dlen s = some (some (whole (atoi s)))
  conv_type float_type dlen s = some (some (real (atof s)))
  conv_type double_type dlen s = some (some (real (atof s)))
  conv_type logical_type dlen s = do b ← conv_logical s; some (some (whole b))
  conv_type string_type dlen s = do t ← conv_string dlen s; some (some (text t))
  conv_type other_type dlen s = some none

  conv_entry : Entry → Option (List ℕ) → Option (Option (Setting Number))
  unfolding conv_type
  conv_entry ent none = some none
  conv_entry ent (some p) = conv_type ent.kind ent.dlen p

  -- the value of the file or that of the table
  or_default : Option (List ℕ) → Option (List ℕ) → Option (List ℕ)
  or_default none def = def
  or_default (some p) def = some p

  -- What is stored for each entry of the table.
  unfoldable pub cfg_get_tab : Option CfgInfo → List Entry → Option (List (Option (Setting Number)))
  unfolding cfg_get_item conv_entry or_default
  cfg_get_tab info [] = some []
  cfg_get_tab info (ent ∷ tab) = do
    p ← cfg_get_item info ent.section ent.keyword
    stored ← conv_entry ent (or_default p ent.def)
    rest ← cfg_get_tab info tab
    some (stored ∷ rest)

unfoldable pub cfg_get_int : Option CfgInfo → List ℕ → List ℕ → ℤ → Option ℤ
unfolding cfg_get_item atoi
cfg_get_int info name keyword def = do p ← cfg_get_item info name keyword; some (or_int p def)
  where
    or_int : Option (List ℕ) → ℤ → ℤ
    or_int none def = def
    or_int (some p) def = atoi p
