-- ===== src/Strings/Element.antt =====
-- `strele` of utils.c, which takes one element out of a string with delimiters.
--
-- White space outside of quotes is taken for a blank (the source also writes it into the string). `cptr++` before
-- `cptr` has a value has no effect. The element is returned in an array of 1024 bytes; `none` where it does not fit.
use mybmm.Base.{
  ℕ, zero, suc, ◌+◌, ◌-◌, ◌<◌, ◌≡◌, refl, sym, ap, ◌∙◌, Bool, true, false, not, ◌&&◌, ◌||◌, Option,
  none, some, List, [], ◌∷◌, ◌++◌, ◌==◌, ltb, length, drop, get_elem?, if◌then◌else◌, arith, All,
  append_assoc, append-nil,
}
use mybmm.Strings.{is_space}

unfoldable pub is_quote : ℕ → Bool
is_quote c = c == 34 || c == 39

-- whether the string begins with the other one
unfoldable pub begins : List ℕ → List ℕ → Bool
begins [] s = true
begins (d ∷ ds) [] = false
begins (d ∷ ds) (c ∷ cs) = c == d && begins ds cs

-- An empty delimiter is never found.
unfoldable pub matches : List ℕ → List ℕ → Bool
unfolding begins
matches [] s = false
matches (d ∷ ds) s = begins (d ∷ ds) s

starts_quoted : List ℕ → Bool
unfolding is_quote
starts_quoted [] = false
starts_quoted (c ∷ cs) = is_quote c

blank : ℕ → ℕ
unfolding is_space
blank c = if is_space c then 32 else c

-- The loop over the string: characters of a delimiter that are still to be skipped, `count`, `qc` (0 outside of quotes),
-- whether `eptr` is behind the next character, and what stands from `eptr` on. The
-- result is whether `count` came to `num`, and what stands from `eptr` to `src`.
unfoldable pub strele_loop : ℕ → List ℕ → ℕ → ℕ → ℕ → Bool → List ℕ → List ℕ → Bool × List ℕ
unfolding matches starts_quoted is_quote blank
strele_loop num delimiter skip count qc behind e [] = (count == num, e)
strele_loop num delimiter (suc skip) count qc behind e (c ∷ cs) =
    strele_loop num delimiter skip count qc behind e cs
strele_loop num delimiter zero count qc behind e (c ∷ cs) =
    let quoted =
      strele_loop num delimiter zero count (if c == qc then 0 else qc) false
        (if behind then e else e ++ c ∷ []) cs in
    let qc' = if is_quote c then c else 0 in
    let skip = length delimiter - 1 in
    let next =
      strele_loop num delimiter skip (suc count) qc' (starts_quoted (drop skip cs)) [] cs in
    let more =
      strele_loop num delimiter zero count qc' false (if behind then e else e ++ blank c ∷ []) cs in
    if not (qc == 0)
    then quoted
    else if matches delimiter (blank c ∷ cs)
    then (if count == num then (true, e) else next)
    else more

-- the copy, which ends at a quote
unfoldable pub until_quote : List ℕ → List ℕ
unfolding is_quote
until_quote [] = []
until_quote (c ∷ cs) = let rest = until_quote cs in if is_quote c then [] else c ∷ rest

unfoldable pub strele : ℕ → List ℕ → List ℕ → Option (List ℕ)
unfolding strele_loop until_quote
strele num delimiter string =
    let (found, e) = strele_loop num delimiter 0 0 0 false [] string in
    let info = if found then until_quote e else [] in
    if ltb (length info) 1024 then some info else none

-- The strings with the delimiter between them.
unfoldable pub join : ℕ → List ℕ → List (List ℕ) → List ℕ
join d f [] = f
join d f (g ∷ gs) = f ++ d ∷ join d g gs

-- A character that is no quote, no white space and not the delimiter.
abbrev pub IsPlain : ℕ → ℕ → Type 0
IsPlain d c = (is_quote c ≡ false) × (is_space c ≡ false) × ¬ (c ≡ d)

unfoldable pub or_empty : Option (List ℕ) → List ℕ
or_empty none = []
or_empty (some s) = s

or_empty-short :
    (fs : List (List ℕ)) (n : ℕ)
    → All (λ g. length g < 1024) fs
    → length (or_empty (get_elem? fs n)) < 1024
unfolding or_empty
or_empty-short [] n all = omega arith
or_empty-short (f ∷ fs) zero (short, all) = short
or_empty-short (f ∷ fs) (suc n) (short, all) = or_empty-short fs n all

module _ (num d : ℕ) (no_quote : is_quote d ≡ false) (no_space : is_space d ≡ false) where
  plain_loop :
      (count : ℕ) (e f rest : List ℕ)
      → All (IsPlain d) f
      → strele_loop num (d ∷ []) 0 count 0 false e (f ++ rest)
        ≡ strele_loop num (d ∷ []) 0 count 0 false (e ++ f) rest
  unfolding strele_loop begins matches blank
  plain_loop count e [] rest plain =
      ap (λ t. strele_loop num (d ∷ []) 0 count 0 false t rest) (sym (append-nil e))
  plain_loop count e (c ∷ f) rest ((q, s, other), plain) =
      let no : (c == d) ≡ false = ground arith in
      rw (s, no, q)
        (plain_loop count (e ++ c ∷ []) f rest plain
          ∙ ap (λ t. strele_loop num (d ∷ []) 0 count 0 false t rest) (append_assoc e (c ∷ []) f))

  until_quote-plain : (f : List ℕ) → All (IsPlain d) f → until_quote f ≡ f
  unfolding until_quote
  until_quote-plain [] plain = refl
  until_quote-plain (c ∷ f) ((q, s, other), plain) =
      rw q (ap (λ t. c ∷ t) (until_quote-plain f plain))

  starts_quoted-join :
      (f : List ℕ) (fs : List (List ℕ)) → All (IsPlain d) f → starts_quoted (join d f fs) ≡ false
  unfolding starts_quoted join
  starts_quoted-join [] [] plain = refl
  starts_quoted-join [] (g ∷ gs) plain = no_quote
  starts_quoted-join (c ∷ f) [] ((q, s, other), plain) = q
  starts_quoted-join (c ∷ f) (g ∷ gs) ((q, s, other), plain) = q

  -- At a delimiter.
  at_delimiter :
      (count : ℕ) (e g : List ℕ) (gs : List (List ℕ))
      → All (IsPlain d) g
      → strele_loop num (d ∷ []) 0 count 0 false e (d ∷ join d g gs) ≡ (
          if count == num
          then (true, e)
          else strele_loop num (d ∷ []) 0 (suc count) 0 false [] (join d g gs))
  unfolding strele_loop begins matches blank
  at_delimiter count e g gs plain =
      let here : (d == d) ≡ true = ground arith in
      rw (no_space, here, no_quote, starts_quoted-join g gs plain) refl

  at_end :
      (count : ℕ) (e : List ℕ) → strele_loop num (d ∷ []) 0 count 0 false e [] ≡ (count == num, e)
  unfolding strele_loop
  at_end count e = refl

  abbrev element_of : Bool × List ℕ → List ℕ
  element_of (found, e) = if found then until_quote e else []

  loop-join :
      (k count : ℕ) (f : List ℕ) (fs : List (List ℕ))
      → num ≡ count + k
      → All (IsPlain d) f
      → All (λ g. All (IsPlain d) g) fs
      → element_of (strele_loop num (d ∷ []) 0 count 0 false [] (join d f fs))
        ≡ or_empty (get_elem? (f ∷ fs) k)
  unfolding join or_empty
  loop-join k count f [] e plain all =
      ap (λ t. element_of (strele_loop num (d ∷ []) 0 count 0 false [] t)) (sym (append-nil f))
      ∙ (ap element_of (plain_loop count [] f [] plain) ∙ last k e)
    where
      last :
          (k : ℕ)
          → num ≡ count + k
          → element_of (strele_loop num (d ∷ []) 0 count 0 false f [])
            ≡ or_empty (get_elem? (f ∷ []) k)
      last zero e =
          let here : (count == num) ≡ true = ground (arith, e) in
          ap element_of (at_end count f) ∙ rw here (until_quote-plain f plain)
      last (suc k) e =
          let before : (count == num) ≡ false = ground (arith, e) in
          ap element_of (at_end count f) ∙ rw before refl
  loop-join zero count f (g ∷ gs) e plain (plain_g, all) =
      let here : (count == num) ≡ true = ground (arith, e) in
      ap element_of
        (plain_loop count [] f (d ∷ join d g gs) plain ∙ at_delimiter count f g gs plain_g)
      ∙ rw here (until_quote-plain f plain)
  loop-join (suc k) count f (g ∷ gs) e plain (plain_g, all) =
      let before : (count == num) ≡ false = ground (arith, e) in
      ap element_of
        (plain_loop count [] f (d ∷ join d g gs) plain ∙ at_delimiter count f g gs plain_g)
      ∙ rw before (loop-join k (suc count) g gs (omega (arith, e)) plain_g all)

-- Of strings with a delimiter of one character between them `strele` gives back the one with the number `num`, from 0
-- on, and an empty string where there is none, if the strings are shorter than 1024 and have no quotes, no white
-- space and no delimiter in them, and the delimiter is no quote and no white space.
pub strele-join :
    (num d : ℕ) (f : List ℕ) (fs : List (List ℕ))
    → is_quote d ≡ false
    → is_space d ≡ false
    → All (IsPlain d) f
    → All (λ g. All (IsPlain d) g) fs
    → All (λ g. length g < 1024) (f ∷ fs)
    → strele num (d ∷ []) (join d f fs) ≡ some (or_empty (get_elem? (f ∷ fs) num))
unfolding strele
strele-join num d f fs q s plain all short =
    let element = loop-join num d q s num 0 f fs (omega arith) plain all in
    let fits : ltb (length (or_empty (get_elem? (f ∷ fs) num))) 1024 ≡ true =
      ground (arith, or_empty-short (f ∷ fs) num short) in
    rw (element, fits) refl
