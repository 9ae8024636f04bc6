-- ===== src/Preh/Bounds.antt =====
-- The arrays of the pack in `preh_read`: what keeps the writes inside.
use mybmm.Base.{
  ℕ, suc, ◌+◌, ◌<◌, ◌≤◌, ◌≡◌, refl, ◌∙◌, Option, none, some, ◌>>=◌, List, [], ◌∷◌, length, take,
  arith, get_elem?-some, All, ℤ, pos, Gives, Gives-bind, Gives-weaker, Gives-some,
}
use mybmm.Floats.{Floats, divf, intf}
use mybmm.Pack.{elements, max_temps, max_cells}
use mybmm.Jbd.Report.Values.{set_elem-some}
use mybmm.Preh.{
  Reading, take_status, take_temps, cell_messages, read_cmu, read_cmus, preh_read, sum_temps,
}
use mybmm.Preh.Cells.{IsMessage, GivesMessages, IsFilled, cell_messages-IsFilled}

module _ (fl : Floats) where
  open fl use {Number}

  module _ {S : Type 0} (get_data : ℕ → S → Option (Option (List ℕ) × S))
      (good : GivesMessages get_data) where
    -- What stays of the pack, and the number of temperatures behind `k` more.
    abbrev Stays : ℕ → Reading Number → Reading Number → Type 0
    Stays k r r' =
        (length r'.pack.cellvolt ≡ length r.pack.cellvolt)
        × (length r'.pack.temps ≡ length r.pack.temps)
        × (r'.pack.cells ≡ r.pack.cells)
        × (r'.pack.ntemps ≤ k + r.pack.ntemps)

    take_status-Stays :
        (msg : List ℕ) (r : Reading Number)
        → length msg ≡ 8
        → Gives (Stays 0 r) (take_status fl msg r)
    unfolding take_status
    take_status-Stays msg r l =
        let (d0, e0) = get_elem?-some msg 0 (omega arith) in
        let (d1, e1) = get_elem?-some msg 1 (omega arith) in
        let (d2, e2) = get_elem?-some msg 2 (omega arith) in
        let (d3, e3) = get_elem?-some msg 3 (omega arith) in
        let (d4, e4) = get_elem?-some msg 4 (omega arith) in
        let (d5, e5) = get_elem?-some msg 5 (omega arith) in
        rw (e0, e1, e2, e3, e4, e5) (refl, refl, refl, omega arith)

    take_temps-Stays :
        (msg : Option (List ℕ)) (r : Reading Number)
        → IsMessage msg
        → r.pack.ntemps < length r.pack.temps
        → Gives (Stays 1 r) (take_temps fl msg r)
    unfolding take_temps
    take_temps-Stays none r g room = (refl, refl, refl, omega arith)
    take_temps-Stays (some msg) r g room =
        let e : elements msg 4 ≡ some (take 4 msg) = ground (arith, g) in
        let sums = sum_temps fl (fl.single (fl.lit 0 1)) 0 (take 4 msg) in
        let (ts, put, same, _, _) =
          set_elem-some r.pack.temps r.pack.ntemps (divf fl sums.0 (intf fl (pos sums.1))) room in
        rw (e, put) (refl, same, refl, omega arith)

    read_cmu-Stays :
        (m cmu : ℕ) (status : List ℕ) (cell : ℕ) (r : Reading Number) (s : S)
        → length status ≡ 8
        → r.pack.ntemps < length r.pack.temps
        → r.pack.cells ≤ m
        → cell < m
        → m ≤ length r.pack.cellvolt
        → cmu < 0x90
        → Gives
            (λ (cell', r', s'). (cell' ≤ m) × Stays 1 r r')
            (read_cmu fl get_data cmu status cell r s)
    unfolding read_cmu
    read_cmu-Stays m cmu status cell r s eight room c f l u =
        Gives-bind P (Stays 0 r) (take_status fl status r) _ (take_status-Stays status r eight)
          (λ r1 (v1, t1, c1, n1).
            Gives-bind P (λ (msg, s'). IsMessage msg) (get_data (0x170 + cmu) s) _
              (good (0x170 + cmu) s (omega arith) (omega arith))
              (λ (temps, s1) g.
                Gives-bind P (Stays 1 r1) (take_temps fl temps r1) _
                  (take_temps-Stays temps r1 g (omega (arith, t1)))
                  (λ r2 (v2, t2, c2, n2).
                    Gives-bind P (IsFilled fl get_data good m r2.pack.cellvolt)
                      (cell_messages fl get_data cmu r2.pack.cells 5 2 cell r2.pack.cellvolt s1) _
                      (cell_messages-IsFilled fl get_data good m cmu r2.pack.cells 5 2 cell
                        r2.pack.cellvolt s1 (omega (arith, c1, c2)) f (omega (arith, v1, v2)) u
                        (omega arith))
                      (λ (cell', vs, s2) (same, low).
                        (low, (same ∙ (v2 ∙ v1), t2 ∙ t1, c2 ∙ c1, omega arith))))))
      where
        P : ℕ × Reading Number × S → Type 0
        P (cell', r', s') = (cell' ≤ m) × Stays 1 r r'

    Stays-trans :
        (j k n : ℕ) (a b c : Reading Number) → j + k ≤ n → Stays j a b → Stays k b c → Stays n a c
    Stays-trans j k n a b c fits (v, t, p, t_le) (v2, t2, p2, t_le2) =
        (v2 ∙ v, t2 ∙ t, p2 ∙ p, omega arith)

    abbrev pub IsCmu : ℕ → Type 0
    IsCmu cmu = cmu < 0x90

    read_cmus-Stays :
        (m : ℕ) (cmus : List ℕ) (cell : ℕ) (r : Reading Number) (s : S)
        → All IsCmu cmus
        → r.pack.ntemps + length cmus ≤ length r.pack.temps
        → r.pack.cells ≤ m
        → cell < m
        → m + length cmus ≤ length r.pack.cellvolt + 1
        → Gives (λ (result, r', s'). Stays (length cmus) r r') (read_cmus fl get_data cmus cell r s)
    unfolding read_cmus
    read_cmus-Stays m [] cell r s all room c f l = (refl, refl, refl, omega arith)
    read_cmus-Stays m (cmu ∷ cmus) cell r s (u, all) room c f l =
        Gives-bind P (λ (msg, s'). IsMessage msg) (get_data (0x100 + cmu) s) _
          (good (0x100 + cmu) s (omega arith) (omega arith))
          (λ (status, s1) g. go status s1 g (λ cell' r' s2 low (v, t, p, n).
            read_cmus-Stays (suc m) cmus cell' r' s2 all (omega (arith, t)) (omega (arith, p))
              (omega arith) (omega (arith, v))))
      where
        P : ℤ × Reading Number × S → Type 0
        P (result, r', s') = Stays (suc (length cmus)) r r'

        go :
            (status : Option (List ℕ)) (s1 : S)
            → IsMessage status
            → ((cell' : ℕ) (r' : Reading Number) (s2 : S)
                → cell' ≤ m
                → Stays 1 r r'
                → Gives
                    (λ (result, r2, s3). Stays (length cmus) r' r2)
                    (read_cmus fl get_data cmus cell' r' s2))
            → Gives P (elim status [
              | none ↦ some (pos 1, r, s1)
              | some msg ↦ do
                (cell', r', s2) ← read_cmu fl get_data cmu msg cell r s1
                read_cmus fl get_data cmus cell' r' s2
            ])
        go none s1 g next = (refl, refl, refl, omega arith)
        go (some msg) s1 g next =
            Gives-bind P (λ (cell', r', s2). (cell' ≤ m) × Stays 1 r r')
              (read_cmu fl get_data cmu msg cell r s1) _
              (read_cmu-Stays m cmu msg cell r s1 g (omega arith) c f (omega arith) u)
              (λ (cell', r', s2) (low, one).
                Gives-weaker (λ (result, r2, s3). Stays (length cmus) r' r2) P
                  (read_cmus fl get_data cmus cell' r' s2)
                  (λ (result, r2, s3) more.
                    Stays-trans 1 (length cmus) (suc (length cmus)) r r' r2 (omega arith) one more)
                  (next cell' r' s2 low one))

    -- With at most eight CMUs with numbers below 0x90, at least one cell, and no more cells and CMUs together than 33, `preh_read`
    -- writes nothing outside of the arrays of a pack of 32 cells and eight temperatures, where
    -- the messages of the transport have eight bytes: it returns, and reports at most one temperature for each CMU.
    pub preh_read-InBounds :
        (cmus : List ℕ) (r : Reading Number) (s : S)
        → All IsCmu cmus
        → length cmus ≤ 8
        → 0 < r.pack.cells
        → r.pack.cells + length cmus ≤ 33
        → length r.pack.temps ≡ max_temps
        → length r.pack.cellvolt ≡ max_cells
        → (result : ℤ) × (r' : Reading Number) × (s' : S) × (preh_read fl get_data cmus r s
            ≡ some (result, r', s'))
          × (r'.pack.ntemps ≤ length cmus)
          × (length r'.pack.temps ≡ max_temps)
          × (length r'.pack.cellvolt ≡ max_cells)
    unfolding preh_read
    preh_read-InBounds cmus r s all few some_cell cells temps cellvolt =
        let start : Reading Number = record r { pack = record r.pack { ntemps = 0 } } in
        let ((result, r', s'), e, (v, t, p, n)) =
          Gives-some (λ (result, r', s'). Stays (length cmus) start r')
            (read_cmus fl get_data cmus 0 start s)
            (read_cmus-Stays r.pack.cells cmus 0 start s all (omega (arith, temps)) (omega arith)
              some_cell (omega (arith, cellvolt))) in
        (result, r', s', e, omega arith, t ∙ temps, v ∙ cellvolt)
