-- ===== src/Jbd/Detect.antt =====
-- What the checksum of a JBD frame detects.
use mybmm.Base.{ℕ, ◌+◌, ◌-◌, ◌%◌, ◌≡◌, ◌≢◌, some, List, [], ◌∷◌, ◌++◌, arith, length, IsByte, All}
use mybmm.Jbd.{jbd_crc_from, jbd_crc, jbd_verify}
use mybmm.Jbd.Frame.{raw, jbd_verify-raw}

sum : List ℕ → ℕ
sum [] = 0
sum (x ∷ xs) = x + sum xs

-- The checksum is minus the sum of the bytes, modulo 2^16.
jbd_crc_from-sum :
    (crc : ℕ) (ds : List ℕ) → All IsByte ds → (jbd_crc_from crc ds + sum ds) % 65536 ≡ crc % 65536
unfolding jbd_crc_from sum
jbd_crc_from-sum crc [] h = omega arith
jbd_crc_from-sum crc (d ∷ ds) h = omega (arith, jbd_crc_from-sum ((crc + 65536 - d) % 65536) ds h.1)

sum-append : (xs ys : List ℕ) → sum (xs ++ ys) ≡ sum xs + sum ys
unfolding sum
sum-append [] ys = omega arith
sum-append (x ∷ xs) ys = omega (arith, sum-append xs ys)

All-append : (xs ys : List ℕ) → All IsByte xs → All IsByte ys → All IsByte (xs ++ ys)
All-append [] ys hx hy = hy
All-append (x ∷ xs) ys hx hy = (hx.0, All-append xs ys hx.1 hy)

jbd_crc-ne :
    (status n a b : ℕ) (xs ys : List ℕ)
    → IsByte status
    → IsByte n
    → IsByte a
    → IsByte b
    → All IsByte xs
    → All IsByte ys
    → a ≢ b
    → jbd_crc (status ∷ n ∷ (xs ++ a ∷ ys)) ≢ jbd_crc (status ∷ n ∷ (xs ++ b ∷ ys))
unfolding jbd_crc sum
jbd_crc-ne status n a b xs ys hs hn ha hb hx hy ne same =
    let ca =
      jbd_crc_from-sum 0 (status ∷ n ∷ (xs ++ a ∷ ys))
        (hs, (hn, All-append xs (a ∷ ys) hx (ha, hy))) in
    let cb =
      jbd_crc_from-sum 0 (status ∷ n ∷ (xs ++ b ∷ ys))
        (hs, (hn, All-append xs (b ∷ ys) hx (hb, hy))) in
    ne (omega (arith, ca, cb, same, sum-append xs (a ∷ ys), sum-append xs (b ∷ ys)))

-- A received frame that is accepted is refused when one byte `a` of its payload is another byte `b`.
pub jbd_verify_corrupted :
    (start reg status n a b hi lo stop : ℕ) (xs ys rest : List ℕ)
    → IsByte status
    → IsByte n
    → IsByte a
    → IsByte b
    → All IsByte xs
    → All IsByte ys
    → a ≢ b
    → jbd_verify (raw start reg status n (xs ++ a ∷ ys) hi lo stop rest) (length (xs ++ a ∷ ys) + 7)
      ≡ some 0
    → jbd_verify (raw start reg status n (xs ++ b ∷ ys) hi lo stop rest) (length (xs ++ b ∷ ys) + 7)
      ≡ some 1
jbd_verify_corrupted start reg status n a b hi lo stop xs ys rest hs hn ha hb hx hy ne ok =
    let va = jbd_verify-raw start reg status n (xs ++ a ∷ ys) hi lo stop rest in
    let vb = jbd_verify-raw start reg status n (xs ++ b ∷ ys) hi lo stop rest in
    ground (arith, va, vb, jbd_crc-ne status n a b xs ys hs hn ha hb hx hy ne)
