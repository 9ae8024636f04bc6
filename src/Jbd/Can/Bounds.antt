-- ===== src/Jbd/Can/Bounds.antt =====
-- `jbd_can_get_pack` stays inside of its arrays.
use mybmm.Base.{
  ℕ, zero, suc, ◌+◌, ◌*◌, ◌≤◌, ◌≡◌, refl, ap, ◌∙◌, sym, subst, ◌⊎◌, inl, inr, Bool, not, true,
  false, Option, some, ◌>>=◌, List, arith, ◌==◌, leb, length, ℤ, Bool-cases, if◌then◌else◌,
  get_short,
}
use mybmm.Floats.{Floats}
use mybmm.Pack.{Pack}
use mybmm.Jbd.Report.{ctemp, thousandths, balance_word}
use mybmm.Jbd.Report.Values.{get_elem?-some, short_at-some, set_elem-some}
use mybmm.Jbd.Can.{CanBus, CanOutcome, jbd_can_get_crc}
use mybmm.Jbd.Can.Get.{Got, jbd_can_get_crc-Got}
use mybmm.Jbd.Can.Report.{
  Reading, then_read, put_values, read_values, can_flags, put_balance, put_flags, put_counts,
  read_cellvolt, read_arrays, jbd_can_get_pack,
}

put_values-some :
    {A : Type 0} (conv : ℤ → A) (count i at left : ℕ) (bytes : List ℕ) (array : List A)
    → i + left ≤ length array
    → at + left * 2 ≤ length bytes
    → (array' : List A) × (i' : ℕ) × (done : Bool) × (put_values conv count i at left bytes array
        ≡ some (array', i', done))
      × (length array' ≡ length array)
      × (i' ≤ i + left)
unfolding put_values
put_values-some conv count i at zero bytes array fits long =
    (array, i, false, refl, refl, omega arith)
put_values-some conv count i at (suc left) bytes array fits long =
    let (v, e) = short_at-some bytes at (omega arith) in
    let (array1, f, l, _, _) = set_elem-some array i (conv v) (omega arith) in
    elim (Bool-cases (leb count (i + 1))) [
      | inl end ↦ (array1, i + 1, true, rw (e, f, end), l, omega arith)
      | inr more ↦
          let (array', i', done, g, l', h) =
            put_values-some conv count (i + 1) (at + 2) left bytes array1 (omega (arith, l))
              (omega arith) in
          (array', i', done, rw (e, f, more) g, l' ∙ l, omega arith)
    ]

module _ (fl : Floats) (t : CanBus) where
  open fl use {Number}
  open t use {State}

  -- The loop over the frames ends, with 0 or 1, eight bytes in the buffer and the array as long as before.
  abbrev ReadsArray : ℕ → Option (ℕ × List ℕ × List Number × State) → Type 0
  ReadsArray n o =
      (r : ℕ) × (bytes : List ℕ) × (array : List Number) × (s : State) × (o
        ≡ some (r, bytes, array, s))
      × (length bytes ≡ 8)
      × (length array ≡ n)
      × ((r ≡ 0) ⊎ (r ≡ 1))

  read_values-end :
      (conv : ℤ → Number) (count n id i i' : ℕ) (bytes : List ℕ) (array array' : List Number)
      (s : State) (bytes' : List ℕ) (s' : State) (done : Bool)
      → jbd_can_get_crc t id bytes 8 s ≡ some (0, bytes', s')
      → put_values conv count i 0 3 bytes' array ≡ some (array', i', done)
      → read_values fl t conv count (suc n) id i bytes array s ≡ (
          if done
          then some (0, bytes', array', s')
          else read_values fl t conv count n (id + 1) i' bytes' array' s')
  unfolding read_values
  read_values-end conv count n id i i' bytes array array' s bytes' s' true e g = rw (e, g)
  read_values-end conv count n id i i' bytes array array' s bytes' s' false e g = rw (e, g)

  -- the turn of the loop behind a frame
  ReadsArray-frame :
      (conv : ℤ → Number) (count n id i : ℕ) (bytes : List ℕ) (array : List Number) (s : State)
      (r : ℕ) (bytes' : List ℕ) (s' : State)
      → jbd_can_get_crc t id bytes 8 s ≡ some (r, bytes', s')
      → length bytes' ≡ 8
      → i + suc n * 3 ≤ length array
      → ((i' : ℕ) (array' : List Number)
          → i' + n * 3 ≤ length array'
          → ReadsArray (length array') (read_values fl t conv count n (id + 1) i' bytes' array' s'))
      → ReadsArray (length array) (read_values fl t conv count (suc n) id i bytes array s)
  unfolding read_values
  ReadsArray-frame conv count n id i bytes array s (suc r) bytes' s' e long fits next =
      let failed : not (suc r == 0) ≡ true = ground arith in
      (1, bytes', array, s', rw (e, failed), long, refl, inr refl)
  ReadsArray-frame conv count n id i bytes array s zero bytes' s' e long fits next =
      let (array', i', done, g, l, h) =
        put_values-some conv count i 0 3 bytes' array (omega arith) (omega (arith, long)) in
      let turn = read_values-end conv count n id i i' bytes array array' s bytes' s' done e g in
      let (r2, bytes2, array2, s2, e2, long2, l2, z) = next i' array' (omega (arith, l, h)) in
      elim (Bool-cases done) [
        | inl end ↦ (
          0,
          bytes',
          array',
          s',
          turn
              ∙ ap
                  (λ b.
                    if b
                    then some (0, bytes', array', s')
                    else read_values fl t conv count n (id + 1) i' bytes' array' s')
                  end,
          long,
          l,
          inl refl,
        )
        | inr more ↦ (
          r2,
          bytes2,
          array2,
          s2,
          turn
              ∙ (ap
                    (λ b.
                      if b
                      then some (0, bytes', array', s')
                      else read_values fl t conv count n (id + 1) i' bytes' array' s')
                    more
                  ∙ e2),
          long2,
          l2 ∙ l,
          z,
        )
      ]

  read_values-ReadsArray :
      (conv : ℤ → Number) (count n id i : ℕ) (bytes : List ℕ) (array : List Number) (s : State)
      → length bytes ≡ 8
      → i + n * 3 ≤ length array
      → ReadsArray (length array) (read_values fl t conv count n id i bytes array s)
  unfolding read_values
  read_values-ReadsArray conv count zero id i bytes array s long fits =
      (0, bytes, array, s, refl, long, refl, inl refl)
  read_values-ReadsArray conv count (suc n) id i bytes array s long fits =
      let (r, bytes', s', e, long', _) = jbd_can_get_crc-Got t id bytes s long in
      ReadsArray-frame conv count n id i bytes array s r bytes' s' e long' fits (λ i' array' fits'.
        read_values-ReadsArray conv count n (id + 1) i' bytes' array' s' long' fits')

  -- The function returns 0 or 1, and the arrays of the pack have the size they had.
  abbrev pub IsRead : Pack Number → Reading (Pack Number) State → Type 0
  IsRead pp o =
      (r : ℕ) × (pp' : Pack Number) × (s : State) × (o ≡ some (r, pp', s))
      × ((r ≡ 0) ⊎ (r ≡ 1))
      × (length pp'.temps ≡ length pp.temps)
      × (length pp'.cellvolt ≡ length pp.cellvolt)

  then_read-IsRead :
      (pp pp1 : Pack Number) (rest : List ℕ → State → Reading (Pack Number) State)
      (o : CanOutcome State)
      → length pp1.temps ≡ length pp.temps
      → length pp1.cellvolt ≡ length pp.cellvolt
      → Got State o
      → ((bytes : List ℕ) (s : State) → length bytes ≡ 8 → IsRead pp (rest bytes s))
      → IsRead pp (then_read pp1 rest o)
  unfolding then_read
  then_read-IsRead pp pp1 rest o lt lc (r, bytes, s, e, long, _) go = elim (Bool-cases (r == 0)) [
    | inl good ↦
        let next : then_read pp1 rest o ≡ rest bytes s = rw (e, good) in
        subst (IsRead pp) (sym next) (go bytes s long)
    | inr bad ↦ (1, pp1, s, rw (e, bad), inr refl, lt, lc)
  ]

  read_cellvolt-IsRead :
      (pp : Pack Number) (r : ℕ) (bytes : List ℕ) (temps : List Number) (s : State)
      → length bytes ≡ 8
      → length temps ≡ length pp.temps
      → 30 ≤ length pp.cellvolt
      → IsRead pp (read_cellvolt fl t pp (r, bytes, temps, s))
  unfolding read_cellvolt
  read_cellvolt-IsRead pp (suc r) bytes temps s long same fits =
      (1, record pp { temps = temps }, s, refl, inr refl, same, refl)
  read_cellvolt-IsRead pp zero bytes temps s long same fits =
      let (r, bytes', array, s', e, _, l, z) =
        read_values-ReadsArray (thousandths fl) pp.cells 10 0x107 0 bytes pp.cellvolt s long
          (omega arith) in
      (r, record pp { temps = temps; cellvolt = array }, s', rw e, z, same, l)

  read_arrays-IsRead :
      (pp : Pack Number) (bytes : List ℕ) (s : State)
      → length bytes ≡ 8
      → 6 ≤ length pp.temps
      → 30 ≤ length pp.cellvolt
      → IsRead pp (read_arrays fl t pp bytes s)
  unfolding read_arrays put_counts
  read_arrays-IsRead pp bytes s long fits_t fits_c =
      let (cells, e0) = get_elem?-some bytes 0 (omega (arith, long)) in
      let (ntemps, e1) = get_elem?-some bytes 1 (omega (arith, long)) in
      let pp' = record pp { cells = cells; ntemps = ntemps } in
      let (r, bytes', array, s', e, long', l, z) =
        read_values-ReadsArray (ctemp fl) ntemps 2 0x105 0 bytes pp.temps s long (omega arith) in
      let whole : read_arrays fl t pp bytes s ≡ read_cellvolt fl t pp' (r, bytes', array, s') =
        rw (e0, e1, e) in
      subst (IsRead pp) (sym whole) (read_cellvolt-IsRead pp' r bytes' array s' long' l fits_c)

  -- a frame that changes neither of the arrays
  IsRead-bind :
      (pp pp1 : Pack Number) (o : Option (Pack Number))
      (rest : Pack Number → Reading (Pack Number) State)
      → o ≡ some pp1
      → IsRead pp (rest pp1)
      → IsRead pp (o >>= rest)
  IsRead-bind pp pp1 o rest e h = subst (λ o. IsRead pp (o >>= rest)) (sym e) h

  -- Over any bus, and whatever the monitor reports, `jbd_can_get_pack` ends without an access outside
  -- of its frame or of arrays that have at least 6 places for temperatures and 30 for cells, returns 0 or 1, and leaves the
  -- arrays as long as they were.
  pub jbd_can_get_pack-IsRead :
      (balancing : Bool) (bytes : List ℕ) (pp : Pack Number) (s : State)
      → length bytes ≡ 8
      → 6 ≤ length pp.temps
      → 30 ≤ length pp.cellvolt
      → IsRead pp (jbd_can_get_pack fl t balancing bytes pp s)
  unfolding jbd_can_get_pack put_balance put_flags
  jbd_can_get_pack-IsRead balancing bytes pp s long fits_t fits_c =
      then_read-IsRead pp pp _ _ refl refl (jbd_can_get_crc-Got t 0x102 bytes s long)
        (λ bytes1 s1 long1.
          let (low, e0) = short_at-some bytes1 0 (omega (arith, long1)) in
          let (high, e2) = short_at-some bytes1 2 (omega (arith, long1)) in
          let pp1 = record pp { balancebits = balance_word low high } in
          IsRead-bind pp pp1 (put_balance fl t bytes1 pp) _ (rw (e0, e2)) (
            then_read-IsRead pp pp1 _ _ refl refl (jbd_can_get_crc-Got t 0x103 bytes1 s1 long1)
              (λ bytes2 s2 long2.
                let (hi, f0) = get_elem?-some bytes2 0 (omega (arith, long2)) in
                let (lo, f1) = get_elem?-some bytes2 1 (omega (arith, long2)) in
                let pp2 = record pp1 {
                  state = can_flags fl t balancing (get_short hi lo) pp1.state;
                } in
                IsRead-bind pp pp2 (put_flags fl t balancing bytes2 pp1) _ (rw (f0, f1)) (
                  then_read-IsRead pp pp2 (read_arrays fl t pp2) _ refl refl
                    (jbd_can_get_crc-Got t 0x104 bytes2 s2 long2)
                    (λ bytes3 s3 long3. read_arrays-IsRead pp2 bytes3 s3 long3 fits_t fits_c)))))
