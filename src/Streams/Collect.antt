-- ===== src/Streams/Collect.antt =====
-- What a read of a socket or a serial line collects.
use mybmm.Base.{
  ℕ, zero, suc, ◌+◌, ◌-◌, ◌<◌, ◌≤◌, ◌≡◌, refl, sym, ap, ap₂, ◌∙◌, Bool, true, false, ◌&&◌, Option,
  some, List, [], ◌∷◌, ◌++◌, ltb, leb, length, take, drop, if◌then◌else◌, arith, ℤ, pos, negsuc,
  Bool-cases, inl, inr, length-append, append_assoc, length-take_le, length-drop,
}
use mybmm.Cfg.Lookup.{take_short}
use mybmm.Streams.Parts.{take-drop, take_within, take_beyond, store_at-append, behind}
use mybmm.Streams.{Event, quiet, again, broken, closed, arrived, put_back, read_loop, ip_read}

-- The bytes that arrive before the loop stops by itself, and whether it stops with an error.
unfoldable pub ready : Bool → List Event → List ℕ × Bool
ready retry [] = ([], false)
ready retry (quiet ∷ es) = ([], false)
ready retry (again ∷ es) = let rest = ready retry es in if retry then rest else ([], true)
ready retry (broken ∷ es) = ([], true)
ready retry (closed ∷ es) = ([], false)
ready retry (arrived b bs ∷ es) = let (more, failed) = ready retry es in (b ∷ bs ++ more, failed)

-- All bytes of the events.
unfoldable pub bytes_of : List Event → List ℕ
bytes_of [] = []
bytes_of (quiet ∷ es) = bytes_of es
bytes_of (again ∷ es) = bytes_of es
bytes_of (broken ∷ es) = bytes_of es
bytes_of (closed ∷ es) = bytes_of es
bytes_of (arrived b bs ∷ es) = b ∷ bs ++ bytes_of es

-- What a read returns with `left` bytes of room behind `at` bytes.
unfoldable pub count_of : ℕ → ℕ → List ℕ × Bool → ℤ
count_of at left (bytes, failed) =
    if failed && ltb (length bytes) left then negsuc 0 else pos (at + length (take left bytes))

bytes_of-put_back : (bs : List ℕ) (es : List Event) → bytes_of (put_back bs es) ≡ bs ++ bytes_of es
unfolding bytes_of put_back
bytes_of-put_back [] es = refl
bytes_of-put_back (b ∷ bs) es = refl

-- What the loop has done: the count, the bytes in front of the rest of the buffer, and what is left.
abbrev pub IsCollected :
    Bool → List Event → ℕ → ℕ → List ℕ → List ℕ → Option (ℤ × List ℕ × List Event) → Type 0
IsCollected retry es at left w old result =
    (es' : List Event) × (result
      ≡ some (
        count_of at left (ready retry es),
        w ++ (take left (ready retry es).0 ++ drop (length (take left (ready retry es).0)) old),
        es',
      ))
    × (bytes_of es ≡ take left (ready retry es).0 ++ bytes_of es')

-- The loop stops here: nothing more is put into the buffer.
stopped :
    (es' : List Event) (at left : ℕ) (buf : List ℕ)
    → ◌≡◌ {A = Option (ℤ × List ℕ × List Event)}
        (some (pos at, buf, es'))
        (some (count_of at (suc left) ([], false), buf, es'))
unfolding count_of
stopped es' at left buf = ap (λ n. some (pos n, buf, es')) (omega arith)

-- or it fails here.
stopped_failed :
    (es' : List Event) (at left : ℕ) (buf : List ℕ)
    → ◌≡◌ {A = Option (ℤ × List ℕ × List Event)}
        (some (negsuc 0, buf, es'))
        (some (count_of at (suc left) ([], true), buf, es'))
unfolding count_of
stopped_failed es' at left buf = let room : ltb 0 (suc left) ≡ true = ground arith in rw room refl

count_of-full :
    (at left : ℕ) (bytes : List ℕ) (failed : Bool)
    → left ≤ length bytes
    → count_of at left (bytes, failed) ≡ pos (at + length (take left bytes))
unfolding count_of
count_of-full at left bytes failed h =
    let enough : (failed && ltb (length bytes) left) ≡ false = ground arith in rw enough refl

-- Bytes that do not fill the buffer.
count_of-more :
    (at left : ℕ) (bs more : List ℕ) (failed : Bool)
    → length bs ≤ left
    → count_of (at + length bs) (left - length bs) (more, failed)
      ≡ count_of at left (bs ++ more, failed)
unfolding count_of
count_of-more at left bs more failed h =
    let same : ltb (length (bs ++ more)) left ≡ ltb (length more) (left - length bs) =
      ground (arith, length-append bs more) in
    let counted : at + length (take left (bs ++ more))
        ≡ at + length bs + length (take (left - length bs) more) =
      ap (λ t. at + length t) (take_beyond left bs more h)
      ∙ omega (arith, length-append bs (take (left - length bs) more)) in
    rw (same, counted) refl

-- Bytes that leave room are put into the buffer in front of what the loop collects behind them.
read_on :
    (retry : Bool) (b : ℕ) (bs : List ℕ) (es es' : List Event) (at left k : ℕ) (w old : List ℕ)
    → at ≡ length w
    → suc left ≤ length old
    → length (b ∷ bs) ≤ left
    → suc left - length (b ∷ bs) ≡ suc k
    → read_loop retry es
        (at + length (b ∷ bs))
        (suc k)
        ((w ++ b ∷ bs) ++ drop (length (b ∷ bs)) old)
      ≡ some (
        count_of (at + length (b ∷ bs)) (suc k) (ready retry es),
        (w ++ b ∷ bs)
            ++ (take (suc k) (ready retry es).0
                ++ drop (length (take (suc k) (ready retry es).0)) (drop (length (b ∷ bs)) old)),
        es',
      )
    → bytes_of es ≡ take (suc k) (ready retry es).0 ++ bytes_of es'
    → IsCollected retry
        (arrived b bs ∷ es)
        at
        (suc left)
        w
        old
        (read_loop retry (arrived b bs ∷ es) at (suc left) (w ++ old))
unfolding read_loop ready bytes_of
read_on retry b bs es es' at left k w old e fits short k_is read kept =
    let ch = b ∷ bs in
    let more = (ready retry es).0 in
    let all : take left bs ≡ bs = take_short left bs (omega arith) in
    let put = store_at-append w old ch at e (omega arith) in
    let not_full : ltb (suc k) 1 ≡ false = ground arith in
    let t = take (suc k) more in
    let whole : take (suc left) (ch ++ more) ≡ ch ++ t =
      take_beyond (suc left) ch more (omega arith) ∙ ap (λ m. ch ++ take m more) k_is in
    (
      es',
      rw (all, put, k_is, not_full)
          (read
            ∙ ap₂ (λ n buf. some (n, buf, es'))
                (ap (λ m. count_of (at + length ch) m (ready retry es)) (sym k_is)
                  ∙ count_of-more at (suc left) ch more (ready retry es).1 (omega arith))
                (behind w ch t old ∙ ap (λ u. w ++ (u ++ drop (length u) old)) (sym whole))),
      ap (λ u. ch ++ u) kept
          ∙ (sym (append_assoc ch t (bytes_of es')) ∙ ap (λ u. u ++ bytes_of es') (sym whole)),
    )

read_loop-IsCollected :
    (retry : Bool) (es : List Event) (at left : ℕ) (w old : List ℕ)
    → at ≡ length w
    → suc left ≤ length old
    → IsCollected retry es at (suc left) w old (read_loop retry es at (suc left) (w ++ old))
unfolding read_loop ready bytes_of
read_loop-IsCollected retry [] at left w old e fits = ([], stopped [] at left (w ++ old), refl)
read_loop-IsCollected retry (quiet ∷ es) at left w old e fits =
    (es, stopped es at left (w ++ old), refl)
read_loop-IsCollected retry (closed ∷ es) at left w old e fits =
    (es, stopped es at left (w ++ old), refl)
read_loop-IsCollected retry (broken ∷ es) at left w old e fits =
    (es, stopped_failed es at left (w ++ old), refl)
read_loop-IsCollected true (again ∷ es) at left w old e fits =
    read_loop-IsCollected true es at left w old e fits
read_loop-IsCollected false (again ∷ es) at left w old e fits =
    (es, stopped_failed es at left (w ++ old), refl)
read_loop-IsCollected retry (arrived b bs ∷ es) at left w old e fits =
    let ch = b ∷ bs in
    let more = (ready retry es).0 in
    elim (Bool-cases (leb (suc left) (length ch))) [
      | inl h ↦
          let long : suc left ≤ length ch = ground arith in
          let got : length (take (suc left) ch) ≡ suc left = length-take_le (suc left) ch long in
          let room : length (take (suc left) ch) ≤ length old = omega (arith, got) in
          let full : ltb (suc left - length (take (suc left) ch)) 1 ≡ true = ground (arith, got) in
          let put = store_at-append w old (take (suc left) ch) at e room in
          let whole : take (suc left) (ch ++ more) ≡ take (suc left) ch =
            take_within (suc left) ch more long in
          let enough : suc left ≤ length (ch ++ more) = omega (arith, length-append ch more) in
          let counted = count_of-full at (suc left) (ch ++ more) (ready retry es).1 enough in
          (
            put_back (drop (suc left) ch) es,
            rw (put, full)
                (ap₂ (λ n t. some (n, t, put_back (drop (suc left) ch) es))
                  (sym (counted ∙ ap (λ t. pos (at + length t)) whole))
                  (append_assoc w (take (suc left) ch) _
                    ∙ ap (λ t. w ++ (t ++ drop (length t) old)) (sym whole))),
            ap (λ t. t ++ bytes_of es) (sym (take-drop (suc left) ch))
                ∙ (append_assoc (take (suc left) ch) (drop (suc left) ch) (bytes_of es)
                    ∙ ap₂ ◌++◌ (sym whole) (sym (bytes_of-put_back (drop (suc left) ch) es))),
          )
      | inr h ↦
          let short : length ch ≤ left = ground arith in
          let k = left - length ch in
          let (es', read, kept) =
            read_loop-IsCollected retry es (at + length ch) k (w ++ ch) (drop (length ch) old)
              (omega (arith, length-append w ch)) (omega (arith, length-drop (length ch) old)) in
          read_on retry b bs es es' at left k w old e fits short (omega arith) read kept
    ]

-- With room for at least one byte, and a buffer that is as long as it is said to be, `ip_read` on an open socket puts the
-- bytes that arrive before a pause, an end or an error into the buffer, in their order and as many as there is room for,
-- and leaves the rest of the buffer as it is. It returns how many, or -1 after an error that comes before
-- the buffer is full. No byte is lost: what it does not put into the buffer is there for the next read.
pub ip_read-IsCollected :
    (es : List Event) (buf : List ℕ) (buflen : ℕ)
    → 0 < buflen
    → buflen ≤ length buf
    → IsCollected true es 0 buflen [] buf (ip_read true es buf buflen)
unfolding ip_read
ip_read-IsCollected es buf zero some_room fits = absurd (omega arith)
ip_read-IsCollected es buf (suc n) some_room fits =
    read_loop-IsCollected true es 0 n [] buf refl fits
