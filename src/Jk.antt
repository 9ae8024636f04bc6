-- ===== src/Jk.antt =====
-- jk.c: `_getvolts`, which puts the report of a JK monitor into the pack.
pub mod Volts
pub mod Search
pub mod Read
use mybmm.Base.{
  ℕ, zero, suc, ◌+◌, Bool, not, ◌||◌, Option, none, some, ◌>>=◌, List, [], ◌∷◌, if◌then◌else◌,
  get_elem?, get_short, ℤ, pos, to_short,
}
use mybmm.Floats.{Floats}
use mybmm.Pack.{Pack}
use mybmm.Jbd.Report.{set_elem}

-- `(unsigned short)_getshort(&data[i])` with the low byte first
unfoldable pub jk_word_at : List ℕ → ℕ → Option ℕ
unfolding get_short
jk_word_at bytes i = do lo ← get_elem? bytes i; hi ← get_elem? bytes (i + 1); some (get_short hi lo)

module _ (fl : Floats) where
  open fl use {Number, ltb, div, of_int, single, lit}

  -- `.. / 1000.0` and `.. / 10.0`, stored in a `float`
  unfoldable pub jk_thousandths : ℤ → Number
  jk_thousandths v = single (div (of_int v) (lit 10000 1))

  unfoldable pub jk_tenths : ℤ → Number
  jk_tenths v = single (div (of_int v) (lit 100 1))

  -- `!x` for a number
  abbrev pub is_nil : Number → Bool
  is_nil x = not (ltb x (lit 0 1) || ltb (lit 0 1) x)

  -- The loop over the cells, with `n` of them to go: the array and the count.
  unfoldable pub volts_loop : ℕ → ℕ → ℕ → List ℕ → List Number → Option (List Number × ℕ)
  unfolding jk_word_at set_elem jk_thousandths
  volts_loop zero j i bytes array = some (array, j)
  volts_loop (suc n) j i bytes array = do
    w ← jk_word_at bytes i
    array' ← set_elem array j (jk_thousandths (to_short w))
    let rest = volts_loop n (j + 1) (i + 2) bytes array'
    if is_nil (jk_thousandths (to_short w)) then some (array', j) else rest

  -- `bytes` are the data from the signature on.
  unfoldable pub get_volts : Pack Number → List ℕ → Option (Pack Number)
  unfolding volts_loop jk_tenths
  get_volts pp bytes = do
    (cellvolt, cells) ← volts_loop 24 0 6 bytes pp.cellvolt
    voltage ← jk_word_at bytes 118
    current ← jk_word_at bytes 126
    first ← jk_word_at bytes 130
    temps ← set_elem pp.temps 0 (jk_tenths (pos first))
    second ← jk_word_at bytes 132
    temps' ← set_elem temps 1 (jk_tenths (pos second))
    some (record pp {
      cellvolt = cellvolt;
      cells = cells;
      voltage = jk_thousandths (pos voltage);
      current = jk_thousandths (to_short current);
      ntemps = 2;
      temps = temps';
    })
