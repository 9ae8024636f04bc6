-- ===== src/Jbd/Can/Get.antt =====
-- What `jbd_can_get` returns.
use mybmm.Base.{
  ℕ, zero, suc, ◌≤◌, ◌≡◌, refl, ap, ◌∙◌, sym, subst, ◌⊎◌, inl, inr, Bool, true, false, Option, none,
  some, ◌>>=◌, List, arith, ◌==◌, length, take, get_elem?, get_short, replicate, store_at,
  length-store_at, Bool-cases, Option-cases,
}
use mybmm.Pack.{elements}
use mybmm.Jbd.Report.Values.{get_elem?-some}
use mybmm.Jbd.Can.{
  CanBus, CanOutcome, jbd_can_crc, passes, can_answer, can_read_answer, can_loop, crc_bytes,
  jbd_can_get, jbd_can_get_crc,
}

-- A checksum in the last two of eight bytes that is 0 or right.
abbrev pub IsChecked : List ℕ → Type 0
IsChecked bytes =
    (hi : ℕ) × (lo : ℕ) × (get_elem? bytes 6 ≡ some hi)
    × (get_elem? bytes 7 ≡ some lo)
    × ((get_short hi lo ≡ 0) ⊎ (jbd_can_crc bytes ≡ some (get_short hi lo)))

-- There is an outcome, with eight bytes: either 0, and they are checked, or 1.
abbrev pub Got : (S : Type 0) → CanOutcome S → Type 0
Got S o =
    (r : ℕ) × (bytes : List ℕ) × (s : S) × (o ≡ some (r, bytes, s))
    × (length bytes ≡ 8)
    × (((r ≡ 0) × IsChecked bytes) ⊎ (r ≡ 1))

jbd_can_crc-some : (bytes : List ℕ) → length bytes ≡ 8 → (crc : ℕ) × (jbd_can_crc bytes ≡ some crc)
unfolding jbd_can_crc
jbd_can_crc-some bytes h =
    let e : elements bytes 6 ≡ some (take 6 bytes) = ground (arith, h) in
    (_, ap (λ o. o >>= λ bs. some (crc_bytes 0xFFFF bs)) e)

store_at-some :
    (buf bytes : List ℕ)
    → length bytes ≤ length buf
    → (buf' : List ℕ) × (store_at buf 0 bytes ≡ some buf') × (length buf' ≡ length buf)
unfolding store_at
store_at-some buf bytes fits = elim (Option-cases (store_at buf 0 bytes)) [
  | inl out ↦ absurd (ground arith)
  | inr (buf', e) ↦ (buf', e, length-store_at buf bytes 0 e)
]

module _ (t : CanBus) (id : ℕ) where
  open t use {State, write, read}

  -- Whether eight bytes pass is what `IsChecked` says.
  passes-IsChecked :
      (bytes : List ℕ)
      → length bytes ≡ 8
      → (passes t id 8 true bytes ≡ some false)
        ⊎ ((passes t id 8 true bytes ≡ some true) × IsChecked bytes)
  unfolding passes
  passes-IsChecked bytes h =
      let (hi, e6) = get_elem?-some bytes 6 (omega (arith, h)) in
      let (lo, e7) = get_elem?-some bytes 7 (omega (arith, h)) in
      let (crc, e) = jbd_can_crc-some bytes h in
      elim (Bool-cases (get_short hi lo == 0)) [
        | inl zero_crc ↦ inr (rw (e6, e7, e, zero_crc), (hi, lo, e6, e7, inl (ground arith)))
        | inr other ↦ elim (Bool-cases (get_short hi lo == crc)) [
          | inl right ↦
              inr (rw (e6, e7, e, other, right), (hi, lo, e6, e7, inr (e ∙ ap some (ground arith))))
          | inr wrong ↦ inl (rw (e6, e7, e, other, wrong))
        ]
      ]

  can_answer-Got :
      (again : List ℕ → State → CanOutcome State)
      → ((bytes : List ℕ) (s : State) → length bytes ≡ 8 → Got State (again bytes s))
      → (r : Option (List ℕ)) (s : State) → ((bytes : List ℕ) → r ≡ some bytes → length bytes ≤ 8)
      → Got State (can_answer t id 8 true again r s)
  unfolding can_answer
  can_answer-Got again ih none s fits = (1, replicate 8 0, s, refl, refl, inr refl)
  can_answer-Got again ih (some bytes) s fits =
      let (bytes', e, long) = store_at-some (replicate 8 0) bytes (fits bytes refl) in
      elim (passes-IsChecked bytes' long) [
        | inr (ok, checked) ↦ (0, bytes', s, rw (e, ok), long, inl (refl, checked))
        | inl bad ↦
            let next : can_answer t id 8 true again (some bytes) s ≡ again bytes' s = rw (e, bad) in
            subst (Got State) (sym next) (ih bytes' s long)
      ]

  can_read_answer-Got :
      (again : List ℕ → State → CanOutcome State)
      → ((bytes : List ℕ) (s : State) → length bytes ≡ 8 → Got State (again bytes s))
      → (bytes : List ℕ) (w : Bool × State) → length bytes ≡ 8
      → Got State (can_read_answer t id 8 true again bytes w)
  unfolding can_read_answer
  can_read_answer-Got again ih bytes (false, s) h = (1, bytes, s, refl, h, inr refl)
  can_read_answer-Got again ih bytes (true, s) h =
      can_answer-Got again ih (read id 8 s).0 (read id 8 s).1 (t.read_fits id 8 s)

  can_loop-Got :
      (retries : ℕ) (bytes : List ℕ) (s : State)
      → length bytes ≡ 8
      → Got State (can_loop t id 8 true retries bytes s)
  unfolding can_loop
  can_loop-Got zero bytes s h =
      can_read_answer-Got (λ bytes' s'. some (1, bytes', s'))
        (λ bytes' s' h'. (1, bytes', s', refl, h', inr refl)) bytes (write id s) h
  can_loop-Got (suc retries) bytes s h =
      can_read_answer-Got (can_loop t id 8 true retries) (can_loop-Got retries) bytes (write id s) h

-- A checked transfer of eight bytes ends, reads and writes inside of its buffer and leaves eight
-- bytes in it; if it returns 0, their last two are 0 or the CRC-16 of the first six, and else it
-- returns 1.
pub jbd_can_get_crc-Got :
    (t : CanBus) (id : ℕ) (bytes : List ℕ) (s : t.State)
    → length bytes ≡ 8
    → Got t.State (jbd_can_get_crc t id bytes 8 s)
unfolding jbd_can_get_crc jbd_can_get
jbd_can_get_crc-Got t id bytes s h = can_loop-Got t id 3 bytes s h
