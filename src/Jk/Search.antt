-- ===== src/Jk/Search.antt =====
-- jk.c: `getdata`, the search for a report in what was received.
use mybmm.Base.{
  ℕ, zero, suc, ◌+◌, ◌≤◌, ◌≡◌, true, false, not, ◌&&◌, Option, none, some, ◌>>=◌, List, [], ◌∷◌,
  arith, ◌==◌, ltb as lt_nat, leb as le_nat, if◌then◌else◌, drop, get_elem?, bit, set_state,
  check_state, Option-cases, inl, inr,
}
use mybmm.Floats.{Floats}
use mybmm.Pack.{Pack}
use mybmm.Jk.{get_volts}

-- GOT_RES, GOT_VOLT and GOT_INFO
abbrev pub got_res : ℕ
got_res = bit 0

abbrev pub got_volt : ℕ
got_volt = bit 1

abbrev pub got_info : ℕ
got_info = bit 2

abbrev pub sig : List ℕ
sig = 0x55 ∷ 0xAA ∷ 0xEB ∷ 0x90 ∷ []

module _ (fl : Floats) where
  open fl use {Number}

  -- The variables of the loop.
  pub record Search : Type 0 where
    pub i : ℕ
    pub j : ℕ
    pub start : ℕ
    pub r : ℕ
    pub pack : Pack Number

  -- behind the four bytes of the signature, with the kind of the report
  unfoldable pub take_report : List ℕ → ℕ → Search → Option Search
  unfolding get_volts set_state
  take_report bytes kind s =
      if kind == 1
      then some (record s { r = set_state s.r got_res })
      else if kind == 2
      then (do
        pp' ← get_volts fl s.pack (drop s.start bytes)
        some (record s { r = set_state s.r got_volt; pack = pp' }))
      else if kind == 3
      then some (record s { r = set_state s.r got_info })
      else some s

  -- the body of the loop behind a byte that matches
  unfoldable pub match_byte : List ℕ → ℕ → Search → Option Search
  unfolding take_report
  match_byte bytes total s =
      let s1 = record s { start = if s.j == 0 then s.i else s.start; j = s.j + 1 } in
      if le_nat 4 s1.j && lt_nat (s1.start + 300) total
      then (do
        kind ← get_elem? bytes (s1.i + 1)
        s2 ← take_report bytes kind s1
        some (record s2 { i = s2.i + 300; j = 0 }))
      else some s1

  -- The body of the loop: `none` is an access outside of the data, or behind `sig`.
  unfoldable pub look_at : List ℕ → ℕ → Search → Option Search
  unfolding match_byte
  look_at bytes total s = do
    d ← get_elem? bytes s.i
    g ← get_elem? sig s.j
    if d == g then match_byte bytes total s else some s

  -- The turns go up in `i`, so that `total` of them are enough.
  unfoldable pub search_loop : ℕ → List ℕ → ℕ → Search → Option Search
  unfolding look_at check_state
  search_loop zero bytes total s = some s
  search_loop (suc fuel) bytes total s = if not (lt_nat s.i total) then some s else do
    s' ← look_at bytes total s
    let rest = search_loop fuel bytes total (record s' { i = s'.i + 1 })
    if check_state s'.r got_volt then some s' else rest

  -- What was got, and the pack; `total` (the source's `bytes`) is how much of the data was received.
  unfoldable pub getdata : Pack Number → List ℕ → ℕ → Option (ℕ × Pack Number)
  unfolding search_loop
  getdata pp bytes total = do
    s ← search_loop total bytes total (record { i = 0; j = 0; start = 0; r = 0; pack = pp })
    some (s.r, s.pack)

  -- Data that begin with the signature of a report of voltages, with at least 301 bytes received, are
  -- taken as one: the result is GOT_VOLT and what `_getvolts` makes of the pack.
  pub getdata-get_volts :
      (pp : Pack Number) (rest : List ℕ) (k : ℕ)
      → getdata pp (0x55 ∷ 0xAA ∷ 0xEB ∷ 0x90 ∷ 2 ∷ rest) (suc (suc (suc (suc (297 + k)))))
        ≡ (get_volts fl pp (0x55 ∷ 0xAA ∷ 0xEB ∷ 0x90 ∷ 2 ∷ rest) >>= λ pp'. some (got_volt, pp'))
  unfolding getdata search_loop look_at match_byte take_report check_state set_state
  getdata-get_volts pp rest k =
      let total = suc (suc (suc (suc (297 + k)))) in
      let a0 : lt_nat 0 total ≡ true = ground arith in
      let a1 : lt_nat 1 total ≡ true = ground arith in
      let a2 : lt_nat 2 total ≡ true = ground arith in
      let a3 : lt_nat 3 total ≡ true = ground arith in
      let many : lt_nat 300 total ≡ true = ground arith in
      elim (Option-cases (get_volts fl pp (0x55 ∷ 0xAA ∷ 0xEB ∷ 0x90 ∷ 2 ∷ rest))) [
        | inl fault ↦ rw (a0, a1, a2, a3, many, fault)
        | inr (pp', told) ↦ rw (a0, a1, a2, a3, many, told)
      ]

  -- Where at least five and at most 300 bytes are received and they begin with the signature, the search
  -- reads behind the four bytes that it compares with.
  pub getdata_overread :
      (pp : Pack Number) (x : ℕ) (rest : List ℕ) (k : ℕ)
      → k ≤ 295
      → getdata pp (0x55 ∷ 0xAA ∷ 0xEB ∷ 0x90 ∷ x ∷ rest) (suc (suc (suc (suc (suc k))))) ≡ none
  unfolding getdata search_loop look_at match_byte check_state
  getdata_overread pp x rest k h =
      let total = suc (suc (suc (suc (suc k)))) in
      let a0 : lt_nat 0 total ≡ true = ground arith in
      let a1 : lt_nat 1 total ≡ true = ground arith in
      let a2 : lt_nat 2 total ≡ true = ground arith in
      let a3 : lt_nat 3 total ≡ true = ground arith in
      let a4 : lt_nat 4 total ≡ true = ground arith in
      let few : lt_nat 300 total ≡ false = ground arith in rw (a0, a1, a2, a3, few, a4)
