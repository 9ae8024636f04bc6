-- ===== src/Jbd/Driver.antt =====
-- jbd.c 415-452: the functions of the module `jbd`, which a pack calls through its monitor.
use mybmm.Base.{
  ℕ, zero, suc, ◌≤◌, ◌<◌, ◌≡◌, refl, Bool, false, Option, some, ◌>>=◌, List, [], ◌∷◌, if◌then◌else◌,
  length, get_elem?, arith, ℤ, pos, IsByte, All,
}
use mybmm.Floats.{Floats, IsOrdered}
use mybmm.Pack.{Pack, Monitor, pack_update}
use mybmm.Pack.Extremes.{IsUpdate, pack_update-IsUpdate}
use mybmm.Strings.Element.{begins}
use mybmm.Jbd.{cmd_read}
use mybmm.Jbd.Transfer.{Transport, buf_size, jbd_rw}
use mybmm.Jbd.Report.{jbd_get_pack, cmd_hwinfo, cmd_cellinfo}
use mybmm.Jbd.Report.Decode.{IsReport, jbd_get_pack-IsReport}
use mybmm.Jbd.Can.{CanBus}
use mybmm.Jbd.Can.Report.{jbd_can_get_pack}

-- The module of a transport (`s->tp`). Its `read` and `write` take the arguments of a line or those of a bus: here they
-- are two pairs of functions on one handle.
pub record TransportModule : Type 1 where
  pub name : List ℕ
  pub Handle : Type 0
  pub new_it : List ℕ → List ℕ → Option Handle
  pub open_it : Handle → ℤ × Handle
  pub close : Handle → ℤ × Handle
  pub write_line : List ℕ → Option ℕ → Handle → Handle
  pub read_line : Handle → Option (List ℕ) × Handle
  pub line_bytes :
      (h : Handle) (bytes : List ℕ)
      → (read_line h).0 ≡ some bytes
      → All IsByte bytes × (length bytes ≤ buf_size)
  pub write_bus : ℕ → Handle → Bool × Handle
  pub read_bus : ℕ → ℕ → Handle → Option (List ℕ) × Handle
  pub bus_bytes :
      (id n : ℕ) (h : Handle) (bytes : List ℕ)
      → (read_bus id n h).0 ≡ some bytes
      → All IsByte bytes × (length bytes ≤ n)

abbrev pub line_of : TransportModule → Transport
line_of tp = record {
  State = tp.Handle;
  write = tp.write_line;
  read = tp.read_line;
  read_bytes = λ h bytes e. (tp.line_bytes h bytes e).0;
  read_fits = λ h bytes e. (tp.line_bytes h bytes e).1;
}

abbrev pub bus_of : TransportModule → CanBus
bus_of tp = record {
  State = tp.Handle;
  write = tp.write_bus;
  read = tp.read_bus;
  read_bytes = λ id n h bytes e. (tp.bus_bytes id n h bytes e).0;
  read_fits = λ id n h bytes e. (tp.bus_bytes id n h bytes e).1;
}

-- What the arrays on the stack hold at first: `data` and the buffers of the two transfers over a line, and `data` of the
-- report over a bus.
pub record Stack : Type 0 where
  pub line_data : List ℕ
  pub buf1 : List ℕ
  pub buf2 : List ℕ
  pub bus_data : List ℕ

-- `jbd_session_t`, for one transport; the pack is handed over at each call
pub record JbdSession (Handle : Type 0) : Type 0 where
  pub tp_handle : Handle
  pub balancing : Bool

-- `none` where the transport makes no handle
unfoldable pub jbd_new : (tp : TransportModule) → List ℕ → List ℕ → Option (JbdSession tp.Handle)
jbd_new tp target opts = do
  h ← tp.new_it target opts
  some (record { tp_handle = h; balancing = false })

abbrev pub jbd_open : (tp : TransportModule) → JbdSession tp.Handle → ℤ × JbdSession tp.Handle
jbd_open tp s = let (r, h) = tp.open_it s.tp_handle in (r, record s { tp_handle = h })

abbrev pub jbd_close : (tp : TransportModule) → JbdSession tp.Handle → ℤ × JbdSession tp.Handle
jbd_close tp s = let (r, h) = tp.close s.tp_handle in (r, record s { tp_handle = h })

module _ (fl : Floats) where
  open fl use {Number}

  -- "can" in front of the name of the transport
  unfoldable pub jbd_read :
      (tp : TransportModule)
      → Stack
      → Pack Number
      → JbdSession tp.Handle
      → Option (ℤ × Pack Number × JbdSession tp.Handle)
  jbd_read tp st pp s = do
    (r, pp', h) ←
        if begins (99 ∷ 97 ∷ 110 ∷ []) tp.name
        then jbd_can_get_pack fl (bus_of tp) s.balancing st.bus_data pp s.tp_handle
        else jbd_get_pack fl (line_of tp) s.balancing st.line_data st.buf1 st.buf2 pp s.tp_handle
    some (pos r, pp', record s { tp_handle = h })

  -- The module as what a pack calls.
  abbrev pub jbd_monitor : TransportModule → Stack → Monitor Number
  jbd_monitor tp st = record {
    Handle = JbdSession tp.Handle;
    open_it = jbd_open tp;
    read = λ pp s. jbd_read tp st pp s;
    close = λ s. (jbd_close tp s).1;
  }

inside : {A : Type 0} (xs : List A) (n : ℕ) (x : A) → get_elem? xs n ≡ some x → n < length xs
inside [] n x e = absurd (cc e)
inside (y ∷ ys) zero x e = omega arith
inside (y ∷ ys) (suc n) x e = let h = inside ys n x e in omega arith

module _ (fl : Floats) (order : IsOrdered fl) where
  open fl use {Number}

  IsReport-fits :
      (info volts : List ℕ) (pp : Pack Number)
      → IsReport fl info volts pp
      → (n : ℕ) → pp.cells ≡ n
      → n ≤ length pp.cellvolt
  IsReport-fits info volts pp told zero e = omega arith
  IsReport-fits info volts pp told (suc n) e =
      let (v, _, there) = told.1 n (omega (arith, e)) in
      let h = inside pp.cellvolt n _ there in omega arith

  -- The monitor in a pack, over a transport that is no CAN bus: where the transport opens and the device answers both
  -- commands with counts that the arrays have places for, `pack_update` returns 0 and closes the transport. Its pack has
  -- the cell voltages of a pack that holds what the answers say, is marked as updated, and none of its cells
  -- lies below the minimum or above the maximum that it names.
  pub pack_update-jbd_monitor :
      (tp : TransportModule) (st : Stack) (crit_high : Number) (pp : Pack Number)
      (s : JbdSession tp.Handle) (h h1 h2 : tp.Handle) (info volts : List ℕ)
      (n1 n2 cells ntemps : ℕ)
      → begins (99 ∷ 97 ∷ 110 ∷ []) tp.name ≡ false
      → tp.open_it s.tp_handle ≡ (pos 0, h)
      → length st.line_data ≡ 128
      → jbd_rw (line_of tp) cmd_read cmd_hwinfo st.line_data 128 st.buf1 h
        ≡ some (some n1, info, h1)
      → jbd_rw (line_of tp) cmd_read cmd_cellinfo info 128 st.buf2 h1 ≡ some (some n2, volts, h2)
      → get_elem? info 21 ≡ some cells
      → cells ≤ length pp.cellvolt
      → cells ≤ 32
      → get_elem? info 22 ≡ some ntemps
      → ntemps ≤ length pp.temps
      → ntemps ≤ 8
      → (pp1 : Pack Number) × (pp' : Pack Number) × IsReport fl info volts pp1
        × (pack_update fl (jbd_monitor fl tp st) crit_high pp s
            ≡ some (pos 0, pp', record s { tp_handle = (tp.close h2).1 }))
        × IsUpdate fl order pp'
        × (pp'.cellvolt ≡ pp1.cellvolt)
  unfolding jbd_read
  pack_update-jbd_monitor tp st crit_high pp s h h1 h2 info volts n1 n2 cells ntemps line opened
        long e1 e2 e_cells fits few e_temps fits_t few_t =
      let (pp1, got, told) =
        jbd_get_pack-IsReport fl (line_of tp) s.balancing st.line_data st.buf1 st.buf2 pp h h1 h2
          info volts n1 n2 cells ntemps long e1 e2 e_cells fits few e_temps fits_t few_t in
      let done : jbd_read fl tp st pp (record s { tp_handle = h })
          ≡ some (pos 0, pp1, record s { tp_handle = h2 }) =
        rw (line, got) refl in
      let (pp', updated, is, same) =
        pack_update-IsUpdate fl order (jbd_monitor fl tp st) crit_high pp pp1 s
          (record s { tp_handle = h }) (record s { tp_handle = h2 }) (rw opened refl) done
          (IsReport-fits info volts pp1 told pp1.cells refl) in
      (pp1, pp', told, updated, is, same)
