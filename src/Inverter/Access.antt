-- ===== src/Inverter/Access.antt =====
-- When an inverter has reported, and what is left of its handle.
use mybmm.Base.{
  ◌≡◌, ◌∙◌, sym, true, false, pos, is_zero, is_neg, bit, clear_state, check_state, check-set,
  check-clear, Bool-cases, inl, inr, ◌⊎◌,
}
use mybmm.Main.{Inverter}
use mybmm.Inverter.{Driver, inverter_updated_bit, inverter_answer, inverter_read, inverter_write}

module _ {Number S : Type 0} (m : Driver Number S) where
  open m use {Handle, open_it, read, write, close}

  -- The driver does not itself say that the inverter was updated.
  abbrev pub IsPlain : Type 0
  IsPlain =
      (inv : Inverter Number) (h : Handle)
      → check_state (read inv h).1.state (bit inverter_updated_bit)
        ≡ check_state inv.state (bit inverter_updated_bit)

  -- With a driver whose read leaves the flag alone, an inverter counts as updated after
  -- `inverter_read` exactly if 0 was returned: a failure to open or to read clears what an earlier
  -- read has set.
  pub inverter_read_updated :
      IsPlain
      → (inv : Inverter Number) (h : Handle)
      → check_state (inverter_read m inv h).1.state (bit inverter_updated_bit)
        ≡ is_zero (inverter_read m inv h).0
  unfolding inverter_read inverter_answer
  inverter_read_updated plain inv h =
      let inv1 = record inv { state = clear_state inv.state (bit inverter_updated_bit) } in
      let cleared : check_state inv1.state (bit inverter_updated_bit) ≡ false =
        check-clear inverter_updated_bit inverter_updated_bit inv.state in
      elim (Bool-cases (is_zero (open_it h).0)) [
        | inr shut ↦ rw shut cleared
        | inl opened ↦ elim (Bool-cases (is_zero (read inv1 (open_it h).1).0)) [
          | inl done ↦
              rw (opened, done) (check-set inverter_updated_bit inverter_updated_bit _ ∙ sym done)
          | inr bad ↦ rw (opened, bad, bad) (plain inv1 (open_it h).1 ∙ cleared)
        ]
      ]

  -- `inverter_write` returns 0 exactly if the driver opens and does not report a negative count, and
  -- then it closes what it has opened. A write that fails returns 1 and leaves the handle as
  -- the write left it, open.
  pub inverter_write-cases :
      (settings : S) (inv : Inverter Number) (h : Handle)
      → ((is_zero (open_it h).0 ≡ false)
          × (inverter_write m settings inv h ≡ (pos 1, (open_it h).1)))
        ⊎ (((is_zero (open_it h).0 ≡ true)
              × (is_neg (write settings inv (open_it h).1).0 ≡ true)
              × (inverter_write m settings inv h ≡ (pos 1, (write settings inv (open_it h).1).1)))
            ⊎ ((is_zero (open_it h).0 ≡ true)
                × (is_neg (write settings inv (open_it h).1).0 ≡ false)
                × (inverter_write m settings inv h
                    ≡ (pos 0, close (write settings inv (open_it h).1).1))))
  unfolding inverter_write
  inverter_write-cases settings inv h = elim (Bool-cases (is_zero (open_it h).0)) [
    | inr shut ↦ inl (shut, rw shut)
    | inl opened ↦ elim (Bool-cases (is_neg (write settings inv (open_it h).1).0)) [
      | inl bad ↦ inr (inl (opened, bad, rw (opened, bad)))
      | inr done ↦ inr (inr (opened, done, rw (opened, done)))
    ]
  ]
