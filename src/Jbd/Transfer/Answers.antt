-- ===== src/Jbd/Transfer/Answers.antt =====
-- What a device answers, and lemmas on the frames among the answers and on what is delivered.
use mybmm.Base.{
  ℕ, zero, suc, ◌-◌, ◌≤◌, ◌≡◌, refl, ap, subst, ◌⊎◌, inl, inr, Option, none, some, List, [], ◌∷◌,
  ◌++◌, append_assoc, append-nil, arith, length, length-append, length-drop, length-replicate, take,
  drop, leb, if◌then◌else◌, get_elem?, replicate, load_at, load_at-append, store_at,
  store_at-cleared, store_at_out, IsByte, All, Bool-cases, ◌>>=◌, ◌/◌, ◌%◌,
}
use mybmm.Jbd.{jbd_verify, jbd_crc, pkt_start, pkt_end}
use mybmm.Jbd.Frame.{
  frame, IsFrame, IsFrame-jbd_verify, jbd_verify-frame, jbd_verify_total, length-frame,
}
use mybmm.Jbd.Transfer.{Transport, buf_size, Outcome}

-- The answers to a command end with a frame (its payload is the result), with an error of the
-- transport, or with the attempts (in both cases there is no result). What is no frame is skipped.
pub data Exchange : List (Option (List ℕ)) → Option (List ℕ) → Type 0 where
  exhausted : Exchange [] none
  broken : {rs : List (Option (List ℕ))} → Exchange (none ∷ rs) none
  answered :
      {bytes : List ℕ} {rs : List (Option (List ℕ))} (reg status : ℕ) (payload : List ℕ)
      → bytes ≡ frame reg status payload
      → Exchange (some bytes ∷ rs) (some payload)
  refused :
      {bytes : List ℕ} {rs : List (Option (List ℕ))} {r : Option (List ℕ)}
      → ¬ IsFrame bytes
      → Exchange rs r
      → Exchange (some bytes ∷ rs) r

-- The first `k` answers of the transport, each to the command written anew.
unfoldable pub answers : (t : Transport) → List ℕ → Option ℕ → ℕ → t.State → List (Option (List ℕ))
answers t cmd cmdlen zero s = []
answers t cmd cmdlen (suc k) s =
    let (r, s') = t.read (t.write cmd cmdlen s) in r ∷ answers t cmd cmdlen k s'

-- What the caller gets: the length and the payload in front of zeros, or -1 and zeros.
unfoldable pub delivered : ℕ → Option (List ℕ) → Option (Option ℕ × List ℕ)
delivered datasz none = some (none, replicate datasz 0)
delivered datasz (some payload) =
    if leb (length payload) datasz
    then some (some (length payload), payload ++ replicate (datasz - length payload) 0)
    else none

-- An outcome without the state of the transport.
unfoldable pub result : {S : Type 0} → Outcome S → Option (Option ℕ × List ℕ)
result none = none
result (some (n, out, s)) = some (n, out)

-- The buffer on the stack.
pub record IsBuffer (buf : List ℕ) : Type 0 where
  pub size : length buf ≡ buf_size
  pub bytes : All IsByte buf

pub All-append_drop :
    (xs ys : List ℕ) (n : ℕ) → All IsByte xs → All IsByte ys → All IsByte (xs ++ drop n ys)
All-append_drop [] ys zero hx hy = hy
All-append_drop [] [] (suc n) hx hy = tt
All-append_drop [] (y ∷ ys) (suc n) hx hy = All-append_drop [] ys n hx hy.1
All-append_drop (x ∷ xs) ys n hx hy = (hx.0, All-append_drop xs ys n hx.1 hy)

pub overlay-IsBuffer :
    (bytes buf : List ℕ)
    → IsBuffer buf
    → All IsByte bytes
    → length bytes ≤ buf_size
    → IsBuffer (bytes ++ drop (length bytes) buf)
overlay-IsBuffer bytes buf b hb hl = record {
  size = omega (
    arith,
    b.size,
    length-append bytes (drop (length bytes) buf),
    length-drop (length bytes) buf,
  );
  bytes = All-append_drop bytes buf (length bytes) hb b.bytes;
}

pub frame_payload :
    (reg status : ℕ) (payload rest : List ℕ)
    → (get_elem? (frame reg status payload ++ rest) 3 ≡ some (length payload))
      × (load_at (frame reg status payload ++ rest) 4 (length payload) ≡ some payload)
unfolding frame
frame_payload reg status payload rest =
    let crc = jbd_crc (status ∷ length payload ∷ payload) in
    let tail : List ℕ = crc / 256 ∷ crc % 256 ∷ pkt_end ∷ [] in
    (
      refl,
      rw (append_assoc payload tail rest) (
          load_at-append (pkt_start ∷ reg ∷ status ∷ length payload ∷ []) payload (tail ++ rest) 4
            (length payload) refl refl),
    )

pub store_at-delivered :
    (datasz : ℕ) (payload : List ℕ)
    → (store_at (replicate datasz 0) 0 payload >>= λ out. some (some (length payload), out))
      ≡ delivered datasz (some payload)
unfolding delivered
store_at-delivered datasz payload = elim (Bool-cases (leb (length payload) datasz)) [
  | inl fits ↦ rw (store_at-cleared [] payload 0 datasz 0 refl (ground arith), fits)
  | inr over ↦ rw (
    store_at_out (replicate datasz 0) payload 0 (ground (arith, length-replicate {A = ℕ} datasz 0)),
    over,
  )
]

pub take-length : (xs : List ℕ) → take (length xs) xs ≡ xs
take-length [] = refl
take-length (x ∷ xs) = ap (λ l. x ∷ l) (take-length xs)

pub drop-length : (xs : List ℕ) → drop (length xs) xs ≡ []
drop-length [] = refl
drop-length (x ∷ xs) = drop-length xs

pub IsFrame-accepted : (bytes : List ℕ) → IsFrame bytes → jbd_verify bytes (length bytes) ≡ some 0
IsFrame-accepted bytes (reg, status, payload, e) =
    let f = frame reg status payload in
    rw (e, length-frame reg status payload)
      (rw (append-nil f) at (jbd_verify-frame reg status payload []))

-- `jbd_verify` decides whether bytes are a frame.
pub IsFrame-dec : (bytes : List ℕ) → All IsByte bytes → IsFrame bytes ⊎ (¬ IsFrame bytes)
IsFrame-dec bytes hb = elim (jbd_verify_total bytes (length bytes) (omega arith)) [
  | inl good ↦ inl (
      subst IsFrame (take-length bytes)
        (IsFrame-jbd_verify bytes (length bytes) hb (omega arith) good))
  | inr bad ↦ inr (λ f. cc (IsFrame-accepted bytes f))
]
