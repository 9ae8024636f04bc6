-- ===== src/Base/Buffers.antt =====
-- Chains of fallible steps in `Option`, and fixed-size buffers: `none` is an access out of bounds.
use mathlib.Core.Option.{Option, none, some}
use Prim.Native.Nat.{ℕ, ◌+◌, ◌-◌, ◌*◌, ◌≤◌, ◌<◌}
use mathlib.Core.Path.{◌≡◌, refl, ap, ◌∙◌, sym}
use mathlib.Core.Bool.{true}
use mathlib.Core.Logic.{inl, inr}
use mathlib.Core.List.{List, [], ◌∷◌, ◌++◌, append_assoc}
use native.Mathlib.Omega.{arith}
use mybmm.Base.Tests.{leb, if◌then◌else◌, Bool-cases}
use mybmm.Base.Lists.{
  length, take, drop, replicate, length-append, length-replicate, length-take_le, length-drop,
  take-append,
}

infixl 5 ◌>>=◌
abbrev pub ◌>>=◌ {ℓ κ} : {A : Type ℓ} {B : Type κ} → Option A → (A → Option B) → Option B
none >>= f = none
some a >>= f = f a

pub bind-eq-some {ℓ κ} :
    {A : Type ℓ} {B : Type κ} (m : Option A) (f : A → Option B) {b : B}
    → (m >>= f) ≡ some b
    → (a : A) × (m ≡ some a) × (f a ≡ some b)
bind-eq-some none f h = cc
bind-eq-some (some a) f h = (a, refl, h)

-- `n` bytes of the buffer from position `i` on
abbrev pub load_at : List ℕ → ℕ → ℕ → Option (List ℕ)
load_at buf i n = if leb (i + n) (length buf) then some (take n (drop i buf)) else none

-- the bytes written over the buffer from position `i` on
unfoldable pub store_at : List ℕ → ℕ → List ℕ → Option (List ℕ)
store_at buf i bytes =
    if leb (i + length bytes) (length buf)
    then some (take i buf ++ (bytes ++ drop (i + length bytes) buf))
    else none

-- A value below 256.
abbrev pub IsByte : ℕ → Type 0
IsByte b = b < 256

-- The 16-bit pattern of two bytes, the high one first.
unfoldable pub get_short : ℕ → ℕ → ℕ
get_short hi lo = hi * 256 + lo

drop-replicate : (n k z : ℕ) → n ≤ k → drop n (replicate k z) ≡ replicate (k - n) z
drop-replicate ℕ.zero k z h = ap (λ m. replicate m z) (omega arith)
drop-replicate (ℕ.suc n) ℕ.zero z h = absurd (omega arith)
drop-replicate (ℕ.suc n) (ℕ.suc k) z h =
    drop-replicate n k z (omega arith) ∙ ap (λ m. replicate m z) (omega arith)

drop-append_past : (xs ys : List ℕ) (n k : ℕ) → n ≡ length xs + k → drop n (xs ++ ys) ≡ drop k ys
drop-append_past [] ys n k e = ap (λ m. drop m ys) (omega arith)
drop-append_past (x ∷ xs) ys ℕ.zero k e = absurd (omega arith)
drop-append_past (x ∷ xs) ys (ℕ.suc n) k e = drop-append_past xs ys n k (omega arith)

-- A write behind what has been written into a cleared buffer.
pub store_at-cleared :
    (w bytes : List ℕ) (i k z : ℕ)
    → i ≡ length w
    → length bytes ≤ k
    → store_at (w ++ replicate k z) i bytes ≡ some ((w ++ bytes) ++ replicate (k - length bytes) z)
unfolding store_at
store_at-cleared w bytes i k z e h =
    let long : length (w ++ replicate k z) ≡ length w + k =
      length-append w (replicate k z) ∙ ap (λ m. length w + m) (length-replicate k z) in
    let fits : leb (i + length bytes) (length (w ++ replicate k z)) ≡ true = ground (arith, long) in
    let front : take i (w ++ replicate k z) ≡ w = take-append w (replicate k z) i (omega arith) in
    let back : drop (i + length bytes) (w ++ replicate k z) ≡ replicate (k - length bytes) z =
      drop-append_past w (replicate k z) _ (length bytes) (omega arith)
      ∙ drop-replicate (length bytes) k z h in
    rw (fits, front, back) (ap some (sym (append_assoc w bytes _)))

pub load_at-append :
    (pre mid post : List ℕ) (i n : ℕ)
    → i ≡ length pre
    → n ≡ length mid
    → load_at (pre ++ (mid ++ post)) i n ≡ some mid
load_at-append pre mid post i n e f =
    let long : length (pre ++ (mid ++ post)) ≡ length pre + (length mid + length post) =
      length-append pre (mid ++ post) ∙ ap (λ m. length pre + m) (length-append mid post) in
    let fits : leb (i + n) (length (pre ++ (mid ++ post))) ≡ true = ground (arith, long) in
    let front : drop i (pre ++ (mid ++ post)) ≡ mid ++ post =
      drop-append_past pre (mid ++ post) i 0 (omega arith) in
    rw (fits, front, take-append mid post n (sym f))

length-store :
    (buf bytes : List ℕ) (i : ℕ)
    → i + length bytes ≤ length buf
    → length (take i buf ++ (bytes ++ drop (i + length bytes) buf)) ≡ length buf
length-store buf bytes i h =
    let rest = drop (i + length bytes) buf in
    omega (
      arith,
      length-append (take i buf) (bytes ++ rest),
      length-append bytes rest,
      length-take_le i buf (omega arith),
      length-drop (i + length bytes) buf,
    )

-- A write leaves the length of the buffer alone, and one that ends behind it is a fault.
pub length-store_at :
    (buf bytes : List ℕ) (i : ℕ) {buf' : List ℕ}
    → store_at buf i bytes ≡ some buf'
    → length buf' ≡ length buf
unfolding store_at
length-store_at buf bytes i h = elim (Bool-cases (leb (i + length bytes) (length buf))) [
  | inl fits ↦ ground (arith, length-store buf bytes i (ground arith))
  | inr out ↦ ground arith
]

pub store_at_out :
    (buf bytes : List ℕ) (i : ℕ) → length buf < i + length bytes → store_at buf i bytes ≡ none
unfolding store_at
store_at_out buf bytes i h = ground arith
