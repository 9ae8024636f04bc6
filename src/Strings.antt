-- ===== src/Strings.antt =====
-- Strings: utils.c and what the source uses of the character functions. A string is the list of its bytes
-- without the NUL at its end.
pub mod Address
pub mod Element
use mybmm.Base.{
  ℕ, ◌-◌, ◌<◌, ◌≡◌, refl, ap₂, arith, Bool, true, false, ◌&&◌, ◌||◌, Option, none, some, List, [],
  ◌∷◌, ◌==◌, leb, ltb, length, map, if◌then◌else◌,
}

-- `isspace`, `toupper` and `tolower` in the C locale
unfoldable pub is_space : ℕ → Bool
is_space c = c == 32 || leb 9 c && leb c 13

unfoldable pub to_upper : ℕ → ℕ
to_upper c = if leb 97 c && leb c 122 then c - 32 else c

abbrev pub is_nil : List ℕ → Bool
is_nil [] = true
is_nil (c ∷ cs) = false

-- `strcmp(a, b) == 0`
unfoldable pub same_string : List ℕ → List ℕ → Bool
same_string [] [] = true
same_string [] (d ∷ ds) = false
same_string (c ∷ cs) [] = false
same_string (c ∷ cs) (d ∷ ds) = c == d && same_string cs ds

-- the part before the first `c`, none where there is no `c`
unfoldable pub before : ℕ → List ℕ → Option (List ℕ)
before c [] = none
before c (d ∷ ds) =
    let rest = before c ds in
    if d == c then some [] else elim rest [ none ↦ none | some s ↦ some (d ∷ s) ]

-- `while(isspace(*(ptr-1))) ptr--`
unfoldable pub trim_end : List ℕ → List ℕ
unfolding is_space
trim_end [] = []
trim_end (c ∷ cs) = let rest = trim_end cs in if is_space c && is_nil rest then [] else c ∷ rest

trim_front : List ℕ → List ℕ
unfolding is_space
trim_front [] = []
trim_front (c ∷ cs) =
    let rest = trim_front cs in if is_space c || ltb 0 c && ltb c 32 then rest else c ∷ cs

unfoldable pub trim : List ℕ → List ℕ
unfolding trim_end trim_front
trim s = trim_end (trim_front s)

-- The copy of a string, in upper case, to an array of `size` bytes; none where it does not fit.
unfoldable pub upper_into : ℕ → List ℕ → Option (List ℕ)
unfolding to_upper
upper_into size s = if ltb (length s) size then some (map to_upper s) else none

pub same_string_refl : (s : List ℕ) → same_string s s ≡ true
unfolding same_string
same_string_refl [] = refl
same_string_refl (c ∷ cs) = ground (arith, same_string_refl cs)

pub same_string_eq : (s t : List ℕ) → same_string s t ≡ true → s ≡ t
unfolding same_string
same_string_eq [] [] e = refl
same_string_eq [] (d ∷ ds) e = absurd (ground arith)
same_string_eq (c ∷ cs) [] e = absurd (ground arith)
same_string_eq (c ∷ cs) (d ∷ ds) e =
    let heads : c ≡ d = ground arith in
    let tails : same_string cs ds ≡ true = ground arith in
    ap₂ ◌∷◌ heads (same_string_eq cs ds tails)

pub upper_into-fits :
    (size : ℕ) (s : List ℕ) → length s < size → upper_into size s ≡ some (map to_upper s)
unfolding upper_into
upper_into-fits size s fits = let room : ltb (length s) size ≡ true = ground arith in rw room refl
