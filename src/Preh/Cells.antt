-- ===== src/Preh/Cells.antt =====
-- The cells that `preh_read` puts into the pack: where they stop.
use mybmm.Base.{
  ℕ, zero, suc, ◌+◌, ◌*◌, ◌%◌, ◌<◌, ◌≤◌, ◌≡◌, refl, ◌∙◌, Bool, true, false, ◌⊎◌, inl, inr, Option,
  none, some, List, [], ◌∷◌, length, take, ◌==◌, leb, arith, Bool-cases, pos, Gives, Gives-bind,
  Gives-weaker,
}
use mybmm.Floats.{Floats}
use mybmm.Pack.{elements}
use mybmm.Jbd.Report.Values.{set_elem-some}
use mybmm.Preh.{low_12, take_cells, take_message, cell_messages}

abbrev pub IsMessage : Option (List ℕ) → Type 0
IsMessage none = Unit
IsMessage (some msg) = length msg ≡ 8

-- The identifiers of the range give messages of eight bytes, or none.
abbrev pub GivesMessages : {S : Type 0} → (ℕ → S → Option (Option (List ℕ) × S)) → Type 0
GivesMessages {S = S} get_data =
    (id : ℕ) (s : S) → 0x100 ≤ id → id < 0x200 → Gives (λ (msg, s'). IsMessage msg) (get_data id s)

module _ (fl : Floats) where
  open fl use {Number}

  -- `cells` is at most `m`, and so is every place that a cell was put to.
  abbrev IsPut : ℕ → List Number → Bool × ℕ × List Number → Type 0
  IsPut m cellvolt (ended, cell, cellvolt') =
      (length cellvolt' ≡ length cellvolt) × (cell ≤ m) × ((ended ≡ true) ⊎ (cell < m))

  take_cells-IsPut :
      (m cells : ℕ) (msg : List ℕ) (cell : ℕ) (cellvolt : List Number)
      → cells ≤ m
      → cell < m
      → m ≤ length cellvolt
      → Gives (IsPut m cellvolt) (take_cells fl cells msg cell cellvolt)
  unfolding take_cells
  take_cells-IsPut m cells [] cell cellvolt c f l = (refl, omega arith, inr f)
  take_cells-IsPut m cells (lo ∷ []) cell cellvolt c f l = (refl, omega arith, inr f)
  take_cells-IsPut m cells (lo ∷ hi ∷ msg) cell cellvolt c f l = elim (Bool-cases (hi % 16 == 0)) [
    | inl h ↦ rw (take_cells, h) (refl, omega arith, inl refl)
    | inr h ↦
        let v = fl.single (fl.div (fl.of_int (pos (low_12 lo hi))) (fl.lit 10000 1)) in
        let (vs, e, same, _, _) = set_elem-some cellvolt cell v (omega arith) in
        elim (Bool-cases (leb cells (suc cell))) [
          | inl b ↦ rw (take_cells, h, e, b) (same, f, inl refl)
          | inr b ↦
              rw (take_cells, h, e, b)
                (Gives-weaker (IsPut m vs) (IsPut m cellvolt)
                  (take_cells fl cells msg (suc cell) vs)
                  (λ (ended, cell', vs') (len, low, more). (len ∙ same, low, more))
                  (take_cells-IsPut m cells msg (suc cell) vs c (ground arith)
                    (omega (arith, same))))
        ]
  ]

  take_message-IsPut :
      (m cells : ℕ) (msg : Option (List ℕ)) (cell : ℕ) (cellvolt : List Number)
      → IsMessage msg
      → cells ≤ m
      → cell < m
      → m ≤ length cellvolt
      → Gives (IsPut m cellvolt) (take_message fl cells msg cell cellvolt)
  unfolding take_message
  take_message-IsPut m cells none cell cellvolt g c f l = (refl, omega arith, inr f)
  take_message-IsPut m cells (some msg) cell cellvolt g c f l =
      let e : elements msg 6 ≡ some (take 6 msg) = ground (arith, g) in
      rw e (take_cells-IsPut m cells (take 6 msg) cell cellvolt c f l)

  module _ {S : Type 0} (get_data : ℕ → S → Option (Option (List ℕ) × S))
      (good : GivesMessages get_data) where
    abbrev pub IsFilled : ℕ → List Number → ℕ × List Number × S → Type 0
    IsFilled m cellvolt (cell, cellvolt', s) = (length cellvolt' ≡ length cellvolt) × (cell ≤ m)

    pub cell_messages-IsFilled :
        (m cmu cells n j cell : ℕ) (cellvolt : List Number) (s : S)
        → cells ≤ m
        → cell < m
        → m ≤ length cellvolt
        → cmu < 0x90
        → n + j ≤ 7
        → Gives (IsFilled m cellvolt) (cell_messages fl get_data cmu cells n j cell cellvolt s)
    unfolding cell_messages
    cell_messages-IsFilled m cmu cells zero j cell cellvolt s c f l u t = (refl, omega arith)
    cell_messages-IsFilled m cmu cells (suc n) j cell cellvolt s c f l u t =
        Gives-bind (IsFilled m cellvolt) (λ (msg, s'). IsMessage msg)
          (get_data (0x100 + j * 16 + cmu) s) _
          (good (0x100 + j * 16 + cmu) s (omega arith) (omega arith))
          (λ (msg, s') g.
            Gives-bind (IsFilled m cellvolt) (IsPut m cellvolt)
              (take_message fl cells msg cell cellvolt) _
              (take_message-IsPut m cells msg cell cellvolt g c f l)
              (λ (ended, cell', vs) (same, low, more). go ended cell' vs s' same low more (λ lt.
                Gives-weaker (IsFilled m vs) (IsFilled m cellvolt)
                  (cell_messages fl get_data cmu cells n (suc j) cell' vs s')
                  (λ (cell2, vs2, s2) (same2, low2). (same2 ∙ same, low2))
                  (cell_messages-IsFilled m cmu cells n (suc j) cell' vs s' c lt
                    (omega (arith, same)) u (omega arith)))))
      where
        go :
            (ended : Bool) (cell' : ℕ) (vs : List Number) (s' : S)
            → length vs ≡ length cellvolt
            → cell' ≤ m
            → (ended ≡ true) ⊎ (cell' < m)
            → (cell' < m
                → Gives
                    (IsFilled m cellvolt)
                    (cell_messages fl get_data cmu cells n (suc j) cell' vs s'))
            → Gives (IsFilled m cellvolt) (elim ended [
              | true ↦ some (cell', vs, s')
              | false ↦ cell_messages fl get_data cmu cells n (suc j) cell' vs s'
            ])
        go true cell' vs s' same low more next = (same, low)
        go false cell' vs s' same low (inl e) next = absurd (ground arith)
        go false cell' vs s' same low (inr lt) next = next lt
