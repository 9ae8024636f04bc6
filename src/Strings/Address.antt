-- ===== src/Strings/Address.antt =====
-- `is_ip` of utils.c, and the parts between dots that it looks at.
use mybmm.Strings.{is_nil}
use mybmm.Base.{
  ℕ, zero, suc, ◌+◌, ◌≤◌, ◌<◌, ◌≡◌, refl, sym, Bool, false, ◌&&◌, List, [], ◌∷◌, ◌==◌, ltb, leb,
  if◌then◌else◌, arith, Bool-cases, inl, inr,
}

unfoldable pub is_digit : ℕ → Bool
is_digit c = leb 48 c && leb c 57

-- The loop, with the dots and the digits so far; a character that is neither changes nothing.
unfoldable pub ip_loop : ℕ → ℕ → List ℕ → Bool
unfolding is_digit
ip_loop dots digits [] = dots == 4
ip_loop dots digits (c ∷ cs) =
    let next = ip_loop (suc dots) 0 cs in
    let more = ip_loop dots (suc digits) cs in
    let skip = ip_loop dots digits cs in
    if c == 46
    then (if digits == 0 then false else if ltb 4 (suc dots) then false else next)
    else if is_digit c
    then (if ltb 3 (suc digits) then false else more)
    else skip

unfoldable pub is_ip : List ℕ → Bool
unfolding ip_loop
is_ip string = ip_loop 0 0 string

-- The numbers of digits between the dots, with `n` in the part so far.
unfoldable pub digit_counts : ℕ → List ℕ → List ℕ
unfolding is_digit
digit_counts n [] = n ∷ []
digit_counts n (c ∷ cs) =
    let next = digit_counts 0 cs in
    let more = digit_counts (suc n) cs in
    let skip = digit_counts n cs in if c == 46 then n ∷ next else if is_digit c then more else skip

-- `k` parts of one to three digits, with a last one of at most three.
unfoldable pub are_parts : ℕ → List ℕ → Bool
are_parts k [] = false
are_parts zero (n ∷ ns) = leb n 3 && is_nil ns
are_parts (suc k) (n ∷ ns) = let rest = are_parts k ns in ltb 0 n && leb n 3 && rest

digit_counts-some : (n : ℕ) (cs : List ℕ) → is_nil (digit_counts n cs) ≡ false
unfolding digit_counts
digit_counts-some n [] = refl
digit_counts-some n (c ∷ cs) = elim (Bool-cases (c == 46)) [
  | inl h ↦ rw h refl
  | inr h ↦ elim (Bool-cases (is_digit c)) [
    | inl d ↦ rw (h, d) (digit_counts-some (suc n) cs)
    | inr d ↦ rw (h, d) (digit_counts-some n cs)
  ]
]

-- A part of more than three digits is no part.
are_parts_long : (k n : ℕ) (ns : List ℕ) → 3 < n → are_parts k (n ∷ ns) ≡ false
unfolding are_parts
are_parts_long zero n ns h = ground arith
are_parts_long (suc k) n ns h = ground arith

digit_counts_long : (k n : ℕ) (cs : List ℕ) → 3 < n → are_parts k (digit_counts n cs) ≡ false
unfolding digit_counts
digit_counts_long k n [] h = are_parts_long k n [] h
digit_counts_long k n (c ∷ cs) h = elim (Bool-cases (c == 46)) [
  | inl e ↦ rw e (are_parts_long k n (digit_counts 0 cs) h)
  | inr e ↦ elim (Bool-cases (is_digit c)) [
    | inl d ↦ rw (e, d) (digit_counts_long k (suc n) cs (omega arith))
    | inr d ↦ rw (e, d) (digit_counts_long k n cs h)
  ]
]

ip_loop-are_parts :
    (k dots n : ℕ) (cs : List ℕ)
    → dots + k ≡ 4
    → n ≤ 3
    → ip_loop dots n cs ≡ are_parts k (digit_counts n cs)
unfolding ip_loop digit_counts are_parts
ip_loop-are_parts zero dots n [] e fits = ground arith
ip_loop-are_parts (suc k) dots n [] e fits = ground arith
ip_loop-are_parts k dots n (c ∷ cs) e fits = elim (Bool-cases (c == 46)) [
  | inl h ↦
      rw h
        (at_dot k dots n cs e fits (λ k' e'. ip_loop-are_parts k' (suc dots) 0 cs e' (omega arith)))
  | inr h ↦ elim (Bool-cases (is_digit c)) [
    | inl d ↦ elim (Bool-cases (ltb 3 (suc n))) [
      | inl long ↦ rw (h, d, long) (sym (digit_counts_long k (suc n) cs (ground arith)))
      | inr short ↦ rw (h, d, short) (ip_loop-are_parts k dots (suc n) cs e (ground arith))
    ]
    | inr d ↦ rw (h, d) (ip_loop-are_parts k dots n cs e fits)
  ]
]
  where
    at_dot :
        (k dots n : ℕ) (cs : List ℕ)
        → dots + k ≡ 4
        → n ≤ 3
        → ((k' : ℕ)
            → suc dots + k' ≡ 4
            → ip_loop (suc dots) 0 cs ≡ are_parts k' (digit_counts 0 cs))
        → (if n == 0 then false else if ltb 4 (suc dots) then false else ip_loop (suc dots) 0 cs)
          ≡ are_parts k (n ∷ digit_counts 0 cs)
    at_dot zero dots n cs e fits next = ground (arith, digit_counts-some 0 cs)
    at_dot (suc k) dots n cs e fits next = ground (arith, next k (omega arith))

-- `is_ip` accepts exactly the strings with four dots, with one to three digits in front of each of them and at most
-- three behind the last one, whatever else stands between the digits. So it accepts no address of four parts.
pub is_ip-are_parts : (string : List ℕ) → is_ip string ≡ are_parts 4 (digit_counts 0 string)
unfolding is_ip
is_ip-are_parts string = ip_loop-are_parts 4 0 0 string refl (omega arith)
