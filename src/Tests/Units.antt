-- ===== src/Tests/Units.antt =====
-- The CMUs of preh.c, with an inbox of which every message is there.
use mybmm.Base.{
  ℕ, ◌≡◌, refl, true, Option, none, some, ◌>>=◌, List, [], ◌∷◌, length, replicate, get_elem?, ◌≤◌,
  ◌-◌, ℤ, pos, arith, Bool-cases, inl, inr,
}
use mybmm.Can.{CanFrame}
use mybmm.Si.{whole_frame}
use mybmm.Pack.{max_temps, max_cells}
use mybmm.Preh.{Inbox, is_set, preh_receive, preh_get_local_can_data, Reading, preh_read}
use mybmm.Preh.Cells.{GivesMessages}
use mybmm.Preh.Bounds.{preh_read-InBounds}
use mybmm.Preh.Receive.{get_local-same, preh_get_local_can_data-preh_receive}
use mybmm.Tests.Fixed.{fixed}
use mybmm.Tests.Packs.{empty_pack}

abbrev full_inbox : Inbox
full_inbox = record { bitmaps = λ i. 0xFFFFFFFF; messages = λ i. replicate 8 0x31 }

abbrev get_full : ℕ → ℕ → Option (Option (List ℕ) × ℕ)
get_full id s = preh_get_local_can_data (λ i. full_inbox) id >>= λ msg. some (msg, s)

-- 14 cells, as `preh_new` sets them
abbrev unread : Reading ℤ
unread = record {
  pack = record empty_pack {
    cells = 14;
    temps = replicate 8 (pos 0);
    cellvolt = replicate 32 (pos 0);
  };
  error = 0;
}

full-GivesMessages : GivesMessages get_full
full-GivesMessages id s low high =
    rw (get_local-same full_inbox id low (omega arith))
      (elim (Bool-cases (is_set full_inbox (id - 0x100))) [ inl h ↦ rw h refl | inr h ↦ rw h tt ])

preh_read-InBounds_example :
    (result : ℤ) × (r : Reading ℤ) × (s : ℕ) × (preh_read fixed get_full (1 ∷ 2 ∷ []) unread 0
      ≡ some (result, r, s))
    × (r.pack.ntemps ≤ 2)
    × (length r.pack.temps ≡ max_temps)
    × (length r.pack.cellvolt ≡ max_cells)
preh_read-InBounds_example =
    preh_read-InBounds fixed get_full full-GivesMessages (1 ∷ 2 ∷ []) unread 0
      (omega arith, (omega arith, tt)) (omega arith) (omega arith) (omega arith) refl refl

-- Each of nine CMUs has temperatures, and there is room for eight.
preh_read_overflow : preh_read fixed get_full (replicate 9 1) unread 0 ≡ none
unfolding preh_read preh_get_local_can_data
preh_read_overflow = refl

-- The second CMU puts a cell behind the fourteen of the pack.
preh_read_behind :
    (preh_read fixed get_full (1 ∷ 2 ∷ []) unread 0 >>= λ (result, r, s).
    get_elem? r.pack.cellvolt 14)
    ≡ some (pos 305)
unfolding preh_read preh_get_local_can_data
preh_read_behind = refl

abbrev cell_frame : CanFrame
cell_frame = record { can_id = 0x123; can_dlc = 8; bytes = replicate 8 7 }

preh_get_local_can_data-preh_receive_example :
    preh_get_local_can_data (λ i. preh_receive true (whole_frame, cell_frame) full_inbox) 0x123
    ≡ some (some (replicate 8 7))
preh_get_local_can_data-preh_receive_example =
    preh_get_local_can_data-preh_receive cell_frame full_inbox 0x123 (omega arith) (omega arith)
      (omega arith) (omega arith)
