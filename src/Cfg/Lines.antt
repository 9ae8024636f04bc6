-- ===== src/Cfg/Lines.antt =====
-- What `_readline` makes of a written line, and what `cfg_read` makes of it.
use mybmm.Base.{
  ℕ, zero, suc, ◌-◌, ◌<◌, ◌≤◌, ◌≡◌, ◌≢◌, refl, ap, ◌∙◌, true, false, none, some, List, [], ◌∷◌,
  ◌++◌, append_assoc, length, take, drop, arith, All, ◌==◌, ltb,
}
use mybmm.Strings.{is_space, is_nil, before, to_upper, trim_end}
use mybmm.Cfg.Read.{
  line_room, is_kept, is_stop, push, read_lines, write_line, string_at, Reader, header_name,
  read_header, scan_key, read_text, read_line,
}

-- a character that a line may have
abbrev pub IsChar : ℕ → Type 0
IsChar c = (c < 128) × (c ≢ 10) × (c ≢ 0)

-- A text that is read as it is written: it does not begin or end with space, and fits in a line.
pub record IsLine (s : List ℕ) : Type 0 where
  pub chars : All IsChar s
  pub start : is_nil s ≡ false
  pub first : All (λ c. is_space c ≡ false) (take 1 s)
  pub trimmed : trim_end s ≡ s
  pub fits : length s ≤ line_room

read_lines-started :
    (room : ℕ) (cs rest : List ℕ)
    → All IsChar cs
    → length cs ≤ room
    → read_lines true room (cs ++ 10 ∷ rest) ≡ cs ∷ read_lines false line_room rest
unfolding read_lines is_stop is_kept
read_lines-started room [] rest chars fits = refl
read_lines-started room (c ∷ cs) rest ((small, nl, nn), chars) fits =
    let ascii : ltb c 128 ≡ true = ground arith in
    let no_newline : (c == 10) ≡ false = ground arith in
    let has_room : (room == 0) ≡ false = ground arith in
    rw (ascii, no_newline, has_room)
      (ap (push c) (read_lines-started (room - 1) cs rest chars (omega arith)))

pub read_lines-line :
    (s rest : List ℕ)
    → IsLine s
    → read_lines false line_room (s ++ 10 ∷ rest) ≡ s ∷ read_lines false line_room rest
unfolding read_lines is_stop is_kept
read_lines-line [] rest is = absurd (ground (arith, is.start))
read_lines-line (c ∷ cs) rest is =
    let ((small, nl, nn), chars) = is.chars in
    let ascii : ltb c 128 ≡ true = ground arith in
    let no_newline : (c == 10) ≡ false = ground arith in
    rw (ascii, no_newline, is.first.0)
      (ap (push c) (read_lines-started 1020 cs rest chars (omega (arith, is.fits))))

pub read_lines-blank :
    (rest : List ℕ) → read_lines false line_room (10 ∷ rest) ≡ [] ∷ read_lines false line_room rest
unfolding read_lines is_stop is_kept
read_lines-blank rest = refl

pub before-append :
    (c : ℕ) (s rest : List ℕ) → All (λ d. d ≢ c) s → before c (s ++ c ∷ rest) ≡ some s
unfolding before
before-append c [] rest apart = let here : (c == c) ≡ true = ground arith in rw here refl
before-append c (d ∷ ds) rest (ne, apart) =
    let other : (d == c) ≡ false = ground arith in rw (other, before-append c ds rest apart) refl

no_nul : (s : List ℕ) → All IsChar s → All (λ d. d ≢ 0) s
no_nul [] chars = tt
no_nul (c ∷ cs) ((_, _, nn), chars) = (nn, no_nul cs chars)

-- The buffer holds the line, and its NUL.
abbrev behind : List ℕ → List ℕ → List ℕ
behind s b = drop (suc (length s)) (s ++ drop (length s) b)

write_line-line : (s b : List ℕ) → IsLine s → write_line s b ≡ s ++ 0 ∷ behind s b
unfolding write_line
write_line-line s b is = rw is.trimmed refl

string_at-line : (s b : List ℕ) → IsLine s → string_at 0 (write_line s b) ≡ some s
unfolding string_at
string_at-line s b is =
    ap (before 0) (write_line-line s b is) ∙ before-append 0 s (behind s b) (no_nul s is.chars)

-- a line that is no header
pub read_line-text :
    (s : List ℕ) (r : Reader)
    → IsLine s
    → header_name s ≡ none
    → read_line s r ≡ read_text s (record r { buffer = write_line s r.buffer })
unfolding read_line
read_line-text s r is plain = rw (string_at-line s r.buffer is, is.start, plain) refl

pub read_line-header :
    (s h : List ℕ) (r : Reader)
    → IsLine s
    → header_name s ≡ some h
    → read_line s r ≡ read_header h (record r { buffer = write_line s r.buffer })
unfolding read_line
read_line-header s h r is header = rw (string_at-line s r.buffer is, is.start, header) refl

pub read_line-blank :
    (r : Reader) → (b : List ℕ) × (read_line [] r ≡ some (record r { section = none; buffer = b }))
unfolding read_line write_line string_at trim_end before
read_line-blank r = (_, refl)

pub scan_key-key :
    (room : ℕ) (k rest : List ℕ)
    → All (λ c. (c ≢ 61) × (to_upper c ≡ c)) k
    → length k ≤ room
    → scan_key room (k ++ 61 ∷ rest) ≡ k
unfolding scan_key
scan_key-key zero [] rest key fits = refl
scan_key-key zero (c ∷ cs) rest key fits = absurd (omega arith)
scan_key-key (suc room) [] rest key fits = refl
scan_key-key (suc room) (c ∷ cs) rest ((ne, up), key) fits =
    let other : (c == 61) ≡ false = ground arith in
    rw (other, up) (ap (◌∷◌ c) (scan_key-key room cs rest key (omega arith)))

drop-past : (k rest : List ℕ) (c : ℕ) → drop (suc (length k)) (k ++ c ∷ rest) ≡ rest
drop-past [] rest c = refl
drop-past (d ∷ ds) rest c = drop-past ds rest c

chars_behind : (k v : List ℕ) → All IsChar (k ++ 61 ∷ v) → All IsChar v
chars_behind [] v (_, chars) = chars
chars_behind (c ∷ cs) v (_, chars) = chars_behind cs v chars

pub string_at-value :
    (k v b : List ℕ)
    → IsLine (k ++ 61 ∷ v)
    → string_at (suc (length k)) (write_line (k ++ 61 ∷ v) b) ≡ some v
unfolding string_at
string_at-value k v b is =
    let s = k ++ 61 ∷ v in
    ap (λ w. before 0 (drop (suc (length k)) w))
      (write_line-line s b is ∙ append_assoc k (61 ∷ v) (0 ∷ behind s b))
    ∙ (ap (before 0) (drop-past k (v ++ 0 ∷ behind s b) 61)
        ∙ before-append 0 v (behind s b) (no_nul v (chars_behind k v is.chars)))
