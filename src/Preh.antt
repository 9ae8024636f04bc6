-- ===== src/Preh.antt =====
-- preh.c: a monitor of several cell units ("CMUs") on a CAN bus: the frames that its thread keeps, and `preh_read`, which
-- puts what they say into the pack.
--
-- The pack has a CMU for each number of its options; a number is not negative here. `none` is an access outside of an
-- array, and a byte is below 256, so that `|` of bytes in different places adds them.
pub mod Receive
pub mod Cells
pub mod Bounds
use mybmm.Base.{
  ℕ, zero, suc, ◌+◌, ◌-◌, ◌*◌, ◌/◌, ◌%◌, Bool, true, false, not, ◌||◌, Option, none, some, ◌>>=◌,
  List, [], ◌∷◌, ◌==◌, ltb, leb, if◌then◌else◌, get_elem?, ℤ, pos, is_neg, bit, set_state,
  check_state,
}
use mybmm.Floats.{Floats, addf, divf, intf}
use mybmm.Can.{CanFrame}
use mybmm.Si.{is_whole}
use mybmm.Pack.{Pack, elements}
use mybmm.Jbd.Report.{set_elem}

-- The part of `struct preh_info` that its thread writes: eight words of bits and 256 messages.
pub record Inbox : Type 0 where
  pub bitmaps : ℕ → ℕ
  pub messages : ℕ → List ℕ

-- No message is there.
abbrev pub forget : Inbox → Inbox
forget s = record s { bitmaps = λ i. 0 }

-- the bits of one word set
abbrev pub mark : ℕ → Inbox → ℕ → ℕ
mark idx s w = if w == (idx / 32) then set_state (s.bitmaps w) (bit (idx % 32)) else s.bitmaps w

-- A turn of `preh_thread` with whether the transport is open and what is read.
unfoldable pub preh_receive : Bool → ℤ × CanFrame → Inbox → Inbox
unfolding set_state
preh_receive is_open (r, frame) s =
    let idx = frame.can_id - 0x100 in
    if not is_open
    then forget s
    else if is_neg r
    then forget s
    else if not (is_whole r)
    then s
    else if ltb frame.can_id 0x100 || ltb 0x1FF frame.can_id
    then s
    else record s {
      messages = λ i. if i == idx then frame.bytes else s.messages i;
      bitmaps = mark idx s;
    }

-- Whether the message is there.
unfoldable pub is_set : Inbox → ℕ → Bool
unfolding check_state
is_set s idx = check_state (s.bitmaps (idx / 32)) (bit (idx % 32))

-- `seen i` is what the thread has received when the bitmap is looked at for the `i`th time; null is `none`.
unfoldable pub local_loop : (ℕ → Inbox) → ℕ → ℕ → ℕ → Option (List ℕ)
unfolding is_set
local_loop seen zero i idx = none
local_loop seen (suc retries) i idx =
    let rest = local_loop seen retries (suc i) idx in
    if is_set (seen i) idx then some ((seen i).messages idx) else rest

-- `none` for an identifier outside of the arrays; at most four looks are made.
unfoldable pub preh_get_local_can_data : (ℕ → Inbox) → ℕ → Option (Option (List ℕ))
unfolding local_loop
preh_get_local_can_data seen id =
    if ltb id 0x100 || ltb 0x1FF id then none else some (local_loop seen 4 0 (id - 0x100))

-- `reads i` is the `i`th read of the transport. What is returned, and how many reads were made.
unfoldable pub remote_loop : (ℕ → ℤ × CanFrame) → ℕ → ℕ → Option (List ℕ) × ℕ
remote_loop reads zero i = (none, i)
remote_loop reads (suc retries) i =
    let rest = remote_loop reads retries (suc i) in
    let (bytes, frame) = reads i in
    if is_neg bytes
    then (none, suc i)
    else if is_whole bytes
    then (some frame.bytes, suc i)
    else rest

unfoldable pub preh_get_remote_can_data : (ℕ → ℤ × CanFrame) → ℕ → Option (List ℕ) × ℕ
unfolding remote_loop
preh_get_remote_can_data reads i = remote_loop reads 5 i

-- `_getshort`, of twelve bits
abbrev pub low_12 : ℕ → ℕ → ℕ
low_12 lo hi = lo + hi % 16 * 256

-- What the loop over the CMUs works on: the pack and its `error`.
pub record Reading (Number : Type 0) : Type 0 where
  pub pack : Pack Number
  pub error : ℕ

module _ (fl : Floats) where
  open fl use {Number, div, single, of_int, lit}

  -- "Get error + balance bits"
  unfoldable pub take_status : List ℕ → Reading Number → Option (Reading Number)
  take_status msg r = do
    d0 ← get_elem? msg 0
    d1 ← get_elem? msg 1
    d2 ← get_elem? msg 2
    d3 ← get_elem? msg 3
    d4 ← get_elem? msg 4
    d5 ← get_elem? msg 5
    some (record {
      pack = record r.pack { balancebits = d4 + d5 * 0x0F * 256 };
      error = d0 + d1 * 256 + d2 * 65536 + d3 * 16777216;
    })

  -- the loop over the temperatures, with the sum and the count so far
  unfoldable pub sum_temps : Number → ℕ → List ℕ → Number × ℕ
  sum_temps temp tcount [] = (temp, tcount)
  sum_temps temp tcount (d ∷ msg) =
      if ltb 40 d
      then sum_temps (addf fl temp (intf fl (pos (d - 40)))) (suc tcount) msg
      else sum_temps temp tcount msg

  -- "Dont report them all, average them"
  unfoldable pub take_temps : Option (List ℕ) → Reading Number → Option (Reading Number)
  unfolding sum_temps set_elem
  take_temps none r = some r
  take_temps (some msg) r = do
    four ← elements msg 4
    temps ← set_elem r.pack.temps r.pack.ntemps (
        divf fl (sum_temps (single (lit 0 1)) 0 four).0
          (intf fl (pos (sum_temps (single (lit 0 1)) 0 four).1)))
    some (record r { pack = record r.pack { temps = temps; ntemps = suc r.pack.ntemps } })

  -- The cells of a message, two bytes each, from `cell` on: whether the loop over the messages ends here.
  unfoldable pub take_cells : ℕ → List ℕ → ℕ → List Number → Option (Bool × ℕ × List Number)
  unfolding set_elem
  take_cells cells [] cell cellvolt = some (false, cell, cellvolt)
  take_cells cells (lo ∷ []) cell cellvolt = some (false, cell, cellvolt)
  take_cells cells (lo ∷ hi ∷ msg) cell cellvolt = elim (hi % 16 == 0) [
    | true ↦ some (true, cell, cellvolt)
    | false ↦ do
      cellvolt' ← set_elem cellvolt cell (single (div (of_int (pos (low_12 lo hi))) (lit 10000 1)))
      elim (leb cells (suc cell)) [
        | true ↦ some (true, suc cell, cellvolt')
        | false ↦ take_cells cells msg (suc cell) cellvolt'
      ]
  ]

  -- a message of cells, where there is one
  unfoldable pub take_message :
      ℕ → Option (List ℕ) → ℕ → List Number → Option (Bool × ℕ × List Number)
  unfolding take_cells
  take_message cells none cell cellvolt = some (false, cell, cellvolt)
  take_message cells (some msg) cell cellvolt = do
    six ← elements msg 6
    take_cells cells six cell cellvolt

  module _ {S : Type 0} (get_data : ℕ → S → Option (Option (List ℕ) × S)) where
    -- `for(j=2; j < 7; j++)`, with `n` turns to go
    unfoldable pub cell_messages :
        ℕ → ℕ → ℕ → ℕ → ℕ → List Number → S → Option (ℕ × List Number × S)
    unfolding take_message
    cell_messages cmu cells zero j cell cellvolt s = some (cell, cellvolt, s)
    cell_messages cmu cells (suc n) j cell cellvolt s = do
      (msg, s') ← get_data (0x100 + j * 16 + cmu) s
      (ended, cell', cellvolt') ← take_message cells msg cell cellvolt
      elim ended [
        | true ↦ some (cell', cellvolt', s')
        | false ↦ cell_messages cmu cells n (suc j) cell' cellvolt' s'
      ]

    -- the rest of a turn of the loop over the CMUs, behind the message with its status
    unfoldable pub read_cmu : ℕ → List ℕ → ℕ → Reading Number → S → Option (ℕ × Reading Number × S)
    unfolding take_status take_temps cell_messages
    read_cmu cmu status cell r s = do
      r1 ← take_status status r
      (temps, s1) ← get_data (0x170 + cmu) s
      r2 ← take_temps temps r1
      (cell', cellvolt, s2) ← cell_messages cmu r2.pack.cells 5 2 cell r2.pack.cellvolt s1
      some (cell', record r2 { pack = record r2.pack { cellvolt = cellvolt } }, s2)

    -- What is returned, what was read and the transport.
    unfoldable pub read_cmus : List ℕ → ℕ → Reading Number → S → Option (ℤ × Reading Number × S)
    unfolding read_cmu
    read_cmus [] cell r s = some (pos 0, r, s)
    read_cmus (cmu ∷ cmus) cell r s = do
      (status, s1) ← get_data (0x100 + cmu) s
      elim status [
        | none ↦ some (pos 1, r, s1)
        | some msg ↦ do (cell', r', s2) ← read_cmu cmu msg cell r s1; read_cmus cmus cell' r' s2
      ]

    unfoldable pub preh_read : List ℕ → Reading Number → S → Option (ℤ × Reading Number × S)
    unfolding read_cmus
    preh_read cmus r s = read_cmus cmus 0 (record r { pack = record r.pack { ntemps = 0 } }) s
