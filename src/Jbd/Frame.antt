-- ===== src/Jbd/Frame.antt =====
-- The frames that `jbd_cmd` builds and `jbd_verify` accepts.
use mybmm.Base.{
  ℕ, zero, suc, ◌⊎◌, ◌+◌, ◌-◌, ◌*◌, ◌/◌, ◌%◌, ◌<◌, ◌≤◌, ◌≡◌, refl, ◌∙◌, ap, ap₂, subst, sym, inl,
  inr, Bool, true, ◌&&◌, some, List, [], ◌∷◌, ◌++◌, append_assoc, arith, ◌==◌, ltb, if◌then◌else◌,
  length, take, load_at, get_short, get_elem?, get_elem?-append, length-append, take-append,
  load_at-append, IsByte, All, Bool-cases,
}
use mybmm.Jbd.{pkt_start, pkt_end, jbd_crc_from, jbd_crc, jbd_verify}

-- A frame: start, register, status (or action and register), length, payload, checksum, end.
unfoldable pub frame : ℕ → ℕ → List ℕ → List ℕ
frame reg status payload =
    let crc = jbd_crc (status ∷ length payload ∷ payload) in
    (pkt_start ∷ reg ∷ status ∷ length payload ∷ payload) ++ crc / 256 ∷ crc % 256 ∷ pkt_end ∷ []

jbd_crc_from-lt : (crc : ℕ) (ds : List ℕ) → crc < 65536 → jbd_crc_from crc ds < 65536
unfolding jbd_crc_from
jbd_crc_from-lt crc [] h = h
jbd_crc_from-lt crc (d ∷ ds) h = jbd_crc_from-lt ((crc + 65536 - d) % 65536) ds (omega arith)

pub jbd_crc-lt : (ds : List ℕ) → jbd_crc ds < 65536
unfolding jbd_crc
jbd_crc-lt ds = jbd_crc_from-lt 0 ds (omega arith)

abbrev pub raw : ℕ → ℕ → ℕ → ℕ → List ℕ → ℕ → ℕ → ℕ → List ℕ → List ℕ
raw start reg status n payload hi lo stop rest =
    start ∷ reg ∷ status ∷ n ∷ (payload ++ (hi ∷ lo ∷ stop ∷ rest))

-- The verdict on any buffer that holds `len` bytes, by its parts.
pub jbd_verify-raw :
    (start reg status n : ℕ) (payload : List ℕ) (hi lo stop : ℕ) (rest : List ℕ)
    → jbd_verify (raw start reg status n payload hi lo stop rest) (length payload + 7)
      ≡ some (
          if start == pkt_start
            && n == length payload
            && jbd_crc (status ∷ n ∷ payload) == get_short hi lo
            && stop == pkt_end
          then 0
          else 1)
unfolding jbd_verify
jbd_verify-raw start reg status n payload hi lo stop rest =
    elim (Bool-cases (n == length payload)) [
      | inl same ↦
          let e : n ≡ length payload = ground arith in
          let buf = raw start reg status n payload hi lo stop rest in
          let head : List ℕ = start ∷ reg ∷ status ∷ n ∷ [] in
          let at2 : load_at buf 2 (n + 2) ≡ some (status ∷ n ∷ payload) =
            load_at-append (start ∷ reg ∷ []) (status ∷ n ∷ payload) (hi ∷ lo ∷ stop ∷ rest) 2
              (n + 2) refl (omega arith) in
          let at4 : get_elem? buf (4 + n) ≡ some hi =
            get_elem?-append head (payload ++ (hi ∷ lo ∷ stop ∷ rest)) (4 + n) n (omega arith)
            ∙ get_elem?-append payload (hi ∷ lo ∷ stop ∷ rest) n 0 (omega arith) in
          let at5 : get_elem? buf (5 + n) ≡ some lo =
            get_elem?-append head (payload ++ (hi ∷ lo ∷ stop ∷ rest)) (5 + n) (n + 1) (omega arith)
            ∙ get_elem?-append payload (hi ∷ lo ∷ stop ∷ rest) (n + 1) 1 (omega arith) in
          let at6 : get_elem? buf (6 + n) ≡ some stop =
            get_elem?-append head (payload ++ (hi ∷ lo ∷ stop ∷ rest)) (6 + n) (n + 2) (omega arith)
            ∙ get_elem?-append payload (hi ∷ lo ∷ stop ∷ rest) (n + 2) 2 (omega arith) in
          ground (arith, at2, at4, at5, at6)
      | inr other ↦ ground arith
    ]

-- The first `length payload + 7` bytes are a frame for any register, status and payload below 256
-- bytes, and what stands behind them is not read.
pub jbd_verify-frame :
    (reg status : ℕ) (payload rest : List ℕ)
    → jbd_verify (frame reg status payload ++ rest) (length payload + 7) ≡ some 0
unfolding frame get_short
jbd_verify-frame reg status payload rest =
    let crc = jbd_crc (status ∷ length payload ∷ payload) in
    let shape : frame reg status payload ++ rest
        ≡ raw pkt_start reg status (length payload) payload (crc / 256) (crc % 256) pkt_end rest =
      ap (λ l. pkt_start ∷ reg ∷ status ∷ length payload ∷ l) (append_assoc payload _ rest) in
    rw shape (
      jbd_verify-raw pkt_start reg status (length payload) payload (crc / 256) (crc % 256) pkt_end
        rest
      ∙ ap some (ground arith))

-- The parts of a buffer that holds at least `len` bytes.
record Parts (buf : List ℕ) (len : ℕ) : Type 0 where
  start : ℕ
  reg : ℕ
  status : ℕ
  n : ℕ
  payload : List ℕ
  hi : ℕ
  lo : ℕ
  stop : ℕ
  rest : List ℕ
  shape : buf ≡ raw start reg status n payload hi lo stop rest
  size : len ≡ length payload + 7

split_at :
    (n : ℕ) (l : List ℕ)
    → n + 3 ≤ length l
    → (payload : List ℕ) × (hi : ℕ) × (lo : ℕ) × (stop : ℕ) × (rest : List ℕ) × (l
        ≡ payload ++ (hi ∷ lo ∷ stop ∷ rest))
      × (n ≡ length payload)
split_at zero (a ∷ b ∷ c ∷ r) h = ([], a, b, c, r, refl, refl)
split_at zero (a ∷ b ∷ []) h = absurd (omega arith)
split_at zero (a ∷ []) h = absurd (omega arith)
split_at zero [] h = absurd (omega arith)
split_at (suc n) [] h = absurd (omega arith)
split_at (suc n) (a ∷ l) h =
    let (payload, hi, lo, stop, rest, e, m) = split_at n l (omega arith) in
    (a ∷ payload, hi, lo, stop, rest, ap (λ t. a ∷ t) e, ap suc m)

Parts-of : (buf : List ℕ) (len : ℕ) → 7 ≤ len → len ≤ length buf → Parts buf len
Parts-of (a ∷ b ∷ c ∷ d ∷ l) len h1 h2 =
    let (payload, hi, lo, stop, rest, e, m) = split_at (len - 7) l (omega arith) in
    record {
      start = a;
      reg = b;
      status = c;
      n = d;
      payload = payload;
      hi = hi;
      lo = lo;
      stop = stop;
      rest = rest;
      shape = ap (λ t. a ∷ b ∷ c ∷ d ∷ t) e;
      size = omega arith;
    }
Parts-of (a ∷ b ∷ c ∷ []) len h1 h2 = absurd (omega arith)
Parts-of (a ∷ b ∷ []) len h1 h2 = absurd (omega arith)
Parts-of (a ∷ []) len h1 h2 = absurd (omega arith)
Parts-of [] len h1 h2 = absurd (omega arith)

-- The verdict by the parts.
abbrev accepts : ℕ → ℕ → ℕ → List ℕ → ℕ → ℕ → ℕ → Bool
accepts start status n payload hi lo stop =
    start == pkt_start
    && n == length payload
    && jbd_crc (status ∷ n ∷ payload) == get_short hi lo
    && stop == pkt_end

Parts-verdict :
    {buf : List ℕ} {len : ℕ} (p : Parts buf len)
    → jbd_verify buf len
      ≡ some (if accepts p.start p.status p.n p.payload p.hi p.lo p.stop then 0 else 1)
Parts-verdict p =
    ap₂ jbd_verify p.shape p.size
    ∙ jbd_verify-raw p.start p.reg p.status p.n p.payload p.hi p.lo p.stop p.rest

jbd_verify_short : (buf : List ℕ) (len : ℕ) → len < 7 → jbd_verify buf len ≡ some 1
unfolding jbd_verify
jbd_verify_short buf len h = ground arith

-- `jbd_verify` reads only the `len` bytes that were received, whatever they are, and its verdict
-- is `0` or `1`.
pub jbd_verify_total :
    (buf : List ℕ) (len : ℕ)
    → len ≤ length buf
    → (jbd_verify buf len ≡ some 0) ⊎ (jbd_verify buf len ≡ some 1)
jbd_verify_total buf len h = elim (Bool-cases (ltb len 7)) [
  | inl short ↦ inr (jbd_verify_short buf len (ground arith))
  | inr long ↦ ground (arith, Parts-verdict (Parts-of buf len (ground arith) h))
]

-- The bytes received are exactly a frame.
abbrev pub IsFrame : List ℕ → Type 0
IsFrame bytes = (reg : ℕ) × (status : ℕ) × (payload : List ℕ) × (bytes ≡ frame reg status payload)

All-IsByte-at :
    (xs : List ℕ) (hi lo stop : ℕ) (ys : List ℕ)
    → All IsByte (xs ++ (hi ∷ lo ∷ stop ∷ ys))
    → IsByte lo
All-IsByte-at [] hi lo stop ys h = h.1.0
All-IsByte-at (x ∷ xs) hi lo stop ys h = All-IsByte-at xs hi lo stop ys h.1

raw-frame :
    (start reg status n : ℕ) (payload : List ℕ) (hi lo stop : ℕ) (rest : List ℕ)
    → IsByte lo
    → accepts start status n payload hi lo stop ≡ true
    → raw start reg status n payload hi lo stop rest ≡ frame reg status payload ++ rest
unfolding frame get_short
raw-frame start reg status n payload hi lo stop rest byte ok =
    let crc = jbd_crc (status ∷ length payload ∷ payload) in
    let e1 : start ≡ pkt_start = ground arith in
    let e2 : n ≡ length payload = ground arith in
    let e3 : jbd_crc (status ∷ n ∷ payload) ≡ hi * 256 + lo = ground arith in
    let e4 : crc ≡ hi * 256 + lo = ap (λ m. jbd_crc (status ∷ m ∷ payload)) (sym e2) ∙ e3 in
    let e5 : hi ≡ crc / 256 = omega arith in
    let e6 : lo ≡ crc % 256 = omega arith in
    let e7 : stop ≡ pkt_end = ground arith in
    cc (append_assoc payload (crc / 256 ∷ crc % 256 ∷ pkt_end ∷ []) rest)

pub length-frame :
    (reg status : ℕ) (payload : List ℕ) → length (frame reg status payload) ≡ length payload + 7
unfolding frame
length-frame reg status payload = omega (
  arith,
  length-append payload (
      jbd_crc (status ∷ length payload ∷ payload) / 256
      ∷ jbd_crc (status ∷ length payload ∷ payload) % 256
      ∷ pkt_end
      ∷ []),
)

Parts-IsFrame :
    {buf : List ℕ} {len : ℕ} (p : Parts buf len)
    → All IsByte buf
    → accepts p.start p.status p.n p.payload p.hi p.lo p.stop ≡ true
    → take len buf ≡ frame p.reg p.status p.payload
Parts-IsFrame {buf} {len} p bytes ok =
    let b : All IsByte (raw p.start p.reg p.status p.n p.payload p.hi p.lo p.stop p.rest) =
      subst (All IsByte) p.shape bytes in
    let lo_byte : IsByte p.lo = All-IsByte-at p.payload p.hi p.lo p.stop p.rest b.1.1.1.1 in
    let e : buf ≡ frame p.reg p.status p.payload ++ p.rest =
      p.shape ∙ raw-frame p.start p.reg p.status p.n p.payload p.hi p.lo p.stop p.rest lo_byte ok in
    ap (take len) e
    ∙ take-append (frame p.reg p.status p.payload) p.rest len
        (length-frame p.reg p.status p.payload ∙ sym p.size)

-- A verdict of `0` means that the `len` bytes received are a frame, and nothing more.
pub IsFrame-jbd_verify :
    (buf : List ℕ) (len : ℕ)
    → All IsByte buf
    → len ≤ length buf
    → jbd_verify buf len ≡ some 0
    → IsFrame (take len buf)
IsFrame-jbd_verify buf len bytes h ok = elim (Bool-cases (ltb len 7)) [
  | inl short ↦ absurd (ground (arith, jbd_verify_short buf len (ground arith)))
  | inr long ↦
      let p = Parts-of buf len (ground arith) h in
      (p.reg, p.status, p.payload, Parts-IsFrame p bytes (ground (arith, Parts-verdict p)))
]
