-- ===== src/Jbd/Report/Values.antt =====
-- The loops that put 16-bit values of an answer into an array.
use mybmm.Base.{
  ℕ, zero, suc, ◌+◌, ◌*◌, ◌≤◌, ◌<◌, ◌≡◌, refl, ap, ◌∙◌, none, some, List, [], ◌∷◌, arith, length,
  get_elem?, get_short, to_short, ℤ, Option-cases, inl, inr, Bool-cases, ltb,
}
use mybmm.Floats.{Floats}
use mybmm.Jbd.Report.{short_at, set_elem, fill}

pub get_elem?-some :
    {A : Type 0} (xs : List A) (i : ℕ) → i < length xs → (a : A) × (get_elem? xs i ≡ some a)
get_elem?-some [] i h = absurd (omega arith)
get_elem?-some (x ∷ xs) zero h = (x, refl)
get_elem?-some (x ∷ xs) (suc i) h = get_elem?-some xs i (omega arith)

pub short_at-some :
    (bytes : List ℕ) (i : ℕ) → i + 1 < length bytes → (v : ℤ) × (short_at bytes i ≡ some v)
unfolding short_at
short_at-some bytes i h =
    let (hi, e) = get_elem?-some bytes i (omega arith) in
    let (lo, f) = get_elem?-some bytes (i + 1) h in (to_short (get_short hi lo), rw (e, f))

-- Inside of an array an element is replaced, the others stay.
pub set_elem-some :
    {A : Type 0} (xs : List A) (i : ℕ) (a : A)
    → i < length xs
    → (ys : List A) × (set_elem xs i a ≡ some ys)
      × (length ys ≡ length xs)
      × (get_elem? ys i ≡ some a)
      × ((j : ℕ) → j < i → get_elem? ys j ≡ get_elem? xs j)
unfolding set_elem
set_elem-some [] i a h = absurd (omega arith)
set_elem-some (x ∷ xs) zero a h = (a ∷ xs, refl, refl, refl, λ j lt. absurd (omega arith))
set_elem-some (x ∷ xs) (suc i) a h =
    let (ys, e, l, g, o) = set_elem-some xs i a (omega arith) in
    (x ∷ ys, rw e, ap suc l, g, tail_same x xs ys i o)
  where
    tail_same :
        {A : Type 0} (x : A) (xs ys : List A) (i : ℕ)
        → ((j : ℕ) → j < i → get_elem? ys j ≡ get_elem? xs j)
        → (j : ℕ) → j < suc i
        → get_elem? (x ∷ ys) j ≡ get_elem? (x ∷ xs) j
    tail_same x xs ys i o zero lt = refl
    tail_same x xs ys i o (suc j) lt = o j (omega arith)

pub set_elem_out :
    {A : Type 0} (xs : List A) (i : ℕ) (a : A) → length xs ≤ i → set_elem xs i a ≡ none
unfolding set_elem
set_elem_out [] i a h = refl
set_elem_out (x ∷ xs) zero a h = absurd (omega arith)
set_elem_out (x ∷ xs) (suc i) a h = rw (set_elem_out xs i a (omega arith))

module _ (fl : Floats) (conv : ℤ → fl.Number) (start : ℕ) (bytes : List ℕ) where
  open fl use {Number}

  -- Element `j` is the value that the answer has in place `j`.
  abbrev pub IsValue : List Number → ℕ → Type 0
  IsValue array j =
      (v : ℤ) × (short_at bytes (start + j * 2) ≡ some v) × (get_elem? array j ≡ some (conv v))

  -- Where the answer and the array are long enough, the loop puts the values from `i` on and leaves what
  -- lies before.
  pub fill-some :
      (i n : ℕ) (array : List Number)
      → i + n ≤ length array
      → start + (i + n) * 2 ≤ length bytes
      → (array' : List Number) × (fill fl conv start i n bytes array ≡ some array')
        × (length array' ≡ length array)
        × ((j : ℕ) → j < i → get_elem? array' j ≡ get_elem? array j)
        × ((j : ℕ) → i ≤ j → j < i + n → IsValue array' j)
  unfolding fill
  fill-some i zero array fits long = (array, refl, refl, λ j h. refl, λ j h k. absurd (omega arith))
  fill-some i (suc n) array fits long =
      let (v, e) = short_at-some bytes (start + i * 2) (omega arith) in
      let (array1, f, l, g, same) = set_elem-some array i (conv v) (omega arith) in
      let (array', r, l', same', value) =
        fill-some (i + 1) n array1 (omega (arith, l)) (omega arith) in
      (
        array',
        rw (e, f) r,
        l' ∙ l,
        λ j h. same' j (omega arith) ∙ same j h,
        λ j h k. elim (Bool-cases (ltb i j)) [
          | inl later ↦ value j (ground arith) (omega arith)
          | inr here ↦
              let at : j ≡ i = ground arith in
              (
                v,
                ap (λ m. short_at bytes (start + m * 2)) at ∙ e,
                same' j (omega arith) ∙ (ap (λ m. get_elem? array1 m) at ∙ g),
              )
        ],
      )

  -- More values than the array has places are a write behind it.
  pub fill_out :
      (i n : ℕ) (array : List Number)
      → i ≤ length array
      → length array < i + n
      → fill fl conv start i n bytes array ≡ none
  unfolding fill
  fill_out i zero array low over = absurd (omega arith)
  fill_out i (suc n) array low over = elim (Option-cases (short_at bytes (start + i * 2))) [
    | inl missing ↦ rw missing
    | inr (v, e) ↦ elim (Bool-cases (ltb i (length array))) [
      | inl inside ↦
          let (array1, f, l, _, _) = set_elem-some array i (conv v) (ground arith) in
          rw (e, f) (fill_out (i + 1) n array1 (ground (arith, l)) (omega (arith, l)))
      | inr outside ↦ rw (e, set_elem_out array i (conv v) (ground arith))
    ]
  ]
