-- ===== src/Streams/Parts.antt =====
-- Parts of lists and of buffers, for what is written piece by piece.
use mybmm.Base.{
  ℕ, zero, suc, ◌+◌, ◌-◌, ◌≤◌, ◌≡◌, refl, sym, ap, ◌∙◌, true, some, List, [], ◌∷◌, ◌++◌, leb,
  length, take, drop, arith, store_at, length-append, append_assoc, take-append, drop-append,
}

module _ {A : Type 0} where
  pub take-drop : (n : ℕ) (xs : List A) → take n xs ++ drop n xs ≡ xs
  take-drop zero xs = refl
  take-drop (suc n) [] = refl
  take-drop (suc n) (x ∷ xs) = ap (◌∷◌ x) (take-drop n xs)

  pub take_within : (n : ℕ) (xs ys : List A) → n ≤ length xs → take n (xs ++ ys) ≡ take n xs
  take_within zero xs ys h = refl
  take_within (suc n) [] ys h = absurd (omega arith)
  take_within (suc n) (x ∷ xs) ys h = ap (◌∷◌ x) (take_within n xs ys (omega arith))

  pub take_beyond :
      (n : ℕ) (xs ys : List A) → length xs ≤ n → take n (xs ++ ys) ≡ xs ++ take (n - length xs) ys
  take_beyond n [] ys h = ap (λ m. take m ys) (omega arith)
  take_beyond zero (x ∷ xs) ys h = absurd (omega arith)
  take_beyond (suc n) (x ∷ xs) ys h =
      ap (◌∷◌ x) (take_beyond n xs ys (omega arith) ∙ ap (λ m. xs ++ take m ys) (omega arith))

  drop-nil : (n : ℕ) → drop {A = A} n [] ≡ []
  drop-nil zero = refl
  drop-nil (suc n) = refl

  pub drop-drop : (m n : ℕ) (xs : List A) → drop m (drop n xs) ≡ drop (n + m) xs
  drop-drop m zero xs = ap (λ k. drop k xs) (omega arith)
  drop-drop m (suc n) [] = drop-nil m ∙ sym (drop-nil (suc n + m))
  drop-drop m (suc n) (x ∷ xs) =
      let same : suc (n + m) ≡ suc n + m = omega arith in
      drop-drop m n xs ∙ ap (λ k. drop k (x ∷ xs)) same

pub store_at-append :
    (w old bytes : List ℕ) (at : ℕ)
    → at ≡ length w
    → length bytes ≤ length old
    → store_at (w ++ old) at bytes ≡ some ((w ++ bytes) ++ drop (length bytes) old)
unfolding store_at
store_at-append w old bytes at e h =
    let fits : leb (at + length bytes) (length (w ++ old)) ≡ true =
      ground (arith, length-append w old) in
    let front : take at (w ++ old) ≡ w = take-append w old at (sym e) in
    let back : drop (at + length bytes) (w ++ old) ≡ drop (length bytes) old =
      sym (drop-drop (length bytes) at (w ++ old))
      ∙ ap (drop (length bytes)) (drop-append w old at (sym e)) in
    rw (fits, front, back) (ap some (sym (append_assoc w bytes _)))

-- Two writes, one behind the other, are one.
pub behind :
    (w ch t old : List ℕ)
    → (w ++ ch) ++ (t ++ drop (length t) (drop (length ch) old))
      ≡ w ++ ((ch ++ t) ++ drop (length (ch ++ t)) old)
behind w ch t old =
    append_assoc w ch _
    ∙ ap (λ u. w ++ u)
        (sym (append_assoc ch t _)
          ∙ ap (λ u. (ch ++ t) ++ u)
              (drop-drop (length t) (length ch) old
                ∙ ap (λ n. drop n old) (sym (length-append ch t))))

pub length-take_most : (n : ℕ) (xs : List ℕ) → length (take n xs) ≤ n
length-take_most zero xs = omega arith
length-take_most (suc n) [] = omega arith
length-take_most (suc n) (x ∷ xs) = omega (arith, length-take_most n xs)
