-- ===== src/Tests/Elements.antt =====
-- Elements of strings, and addresses.
use mybmm.Base.{ℕ, ◌≡◌, refl, true, false, some, List, [], ◌∷◌, arith}
use mybmm.Strings.{is_space}
use mybmm.Strings.Element.{is_quote, strele, join, or_empty, strele-join}
use mybmm.Strings.Address.{is_ip, digit_counts, are_parts, is_ip-are_parts}

-- "ab", "c"
abbrev ab : List ℕ
ab = 97 ∷ 98 ∷ []

abbrev just_c : List ℕ
just_c = 99 ∷ []

strele-join_example : strele 1 (44 ∷ []) (join 44 ab (just_c ∷ [])) ≡ some just_c
unfolding is_quote is_space or_empty
strele-join_example =
    strele-join 1 44 ab (just_c ∷ []) refl refl
      ((refl, refl, omega arith), ((refl, refl, omega arith), tt))
      (((refl, refl, omega arith), tt), tt) (omega arith, (omega arith, tt))

-- `"ab",c`: the first element, which is quoted, comes out empty.
first_quoted : strele 0 (44 ∷ []) (34 ∷ 97 ∷ 98 ∷ 34 ∷ 44 ∷ 99 ∷ []) ≡ some []
unfolding strele
first_quoted = refl

-- `c,"ab"`
second_quoted : strele 1 (44 ∷ []) (99 ∷ 44 ∷ 34 ∷ 97 ∷ 98 ∷ 34 ∷ []) ≡ some ab
unfolding strele
second_quoted = refl

-- "1.2.3.4" and "1.2.3.4."
four_parts : is_ip (49 ∷ 46 ∷ 50 ∷ 46 ∷ 51 ∷ 46 ∷ 52 ∷ []) ≡ false
unfolding is_ip
four_parts = refl

four_dots : is_ip (49 ∷ 46 ∷ 50 ∷ 46 ∷ 51 ∷ 46 ∷ 52 ∷ 46 ∷ []) ≡ true
unfolding is_ip
four_dots = refl

is_ip-are_parts_example :
    is_ip (49 ∷ 46 ∷ 50 ∷ []) ≡ are_parts 4 (digit_counts 0 (49 ∷ 46 ∷ 50 ∷ []))
is_ip-are_parts_example = is_ip-are_parts (49 ∷ 46 ∷ 50 ∷ [])
