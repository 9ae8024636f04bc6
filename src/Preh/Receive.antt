-- ===== src/Preh/Receive.antt =====
-- What the thread of preh.c keeps is what a look for it finds.
use mybmm.Base.{
  ℕ, ◌-◌, ◌/◌, ◌%◌, ◌≤◌, ◌≡◌, refl, ap, ◌∙◌, sym, true, false, ◌||◌, none, some, List, ◌==◌, ltb,
  if◌then◌else◌, arith, Bool-cases, inl, inr, check-set,
}
use mybmm.Can.{CanFrame}
use mybmm.Si.{whole_frame}
use mybmm.Preh.{Inbox, mark, is_set, local_loop, preh_receive, preh_get_local_can_data}

abbrev InRange : ℕ → Type 0
InRange id = (0x100 ≤ id) × (id ≤ 0x1FF)

preh_receive-whole :
    (frame : CanFrame) (s : Inbox)
    → 0x100 ≤ frame.can_id
    → frame.can_id ≤ 0x1FF
    → preh_receive true (whole_frame, frame) s ≡ (record s {
      messages = λ i. if i == (frame.can_id - 0x100) then frame.bytes else s.messages i;
      bitmaps = mark (frame.can_id - 0x100) s;
    })
unfolding preh_receive
preh_receive-whole frame s low high =
    let inside : (ltb frame.can_id 0x100 || ltb 0x1FF frame.can_id) ≡ false = ground arith in
    rw inside refl

-- Exactly the bit of the message is set as well.
is_set-mark :
    (s : Inbox) (m : ℕ → List ℕ) (idx i : ℕ)
    → is_set (record { bitmaps = mark idx s; messages = m }) i ≡ (i == idx || is_set s i)
unfolding is_set
is_set-mark s m idx i = elim (Bool-cases (i / 32 == (idx / 32))) [
  | inl w ↦
      let same : (idx % 32 == (i % 32)) ≡ (i == idx) = ground arith in
      rw w (check-set (idx % 32) (i % 32) (s.bitmaps (i / 32)) ∙ ap (λ b. b || is_set s i) same)
  | inr w ↦ let other : (i == idx) ≡ false = ground arith in rw (w, other) refl
]

-- Where the inbox does not change, one look is as good as four.
local_loop-same :
    (s : Inbox) (i idx : ℕ)
    → local_loop (λ i. s) 4 i idx ≡ (if is_set s idx then some (s.messages idx) else none)
unfolding local_loop
local_loop-same s i idx = elim (Bool-cases (is_set s idx)) [ inl h ↦ rw h refl | inr h ↦ rw h refl ]

pub get_local-same :
    (s : Inbox) (id : ℕ)
    → 0x100 ≤ id
    → id ≤ 0x1FF
    → preh_get_local_can_data (λ i. s) id
      ≡ some (if is_set s (id - 0x100) then some (s.messages (id - 0x100)) else none)
unfolding preh_get_local_can_data
get_local-same s id low high =
    let inside : (ltb id 0x100 || ltb 0x1FF id) ≡ false = ground arith in
    rw inside (ap some (local_loop-same s 0 (id - 0x100)))

-- After a whole frame with an identifier from 0x100 to 0x1FF a look for an identifier of this range delivers
-- the frame's bytes for the frame's own, and for every other one what a look before it would have.
pub preh_get_local_can_data-preh_receive :
    (frame : CanFrame) (s : Inbox) (id : ℕ)
    → 0x100 ≤ frame.can_id
    → frame.can_id ≤ 0x1FF
    → 0x100 ≤ id
    → id ≤ 0x1FF
    → preh_get_local_can_data (λ i. preh_receive true (whole_frame, frame) s) id ≡ (
        if id == frame.can_id then some (some frame.bytes) else preh_get_local_can_data (λ i. s) id)
preh_get_local_can_data-preh_receive frame s id low high low2 high2 =
    let idx = frame.can_id - 0x100 in
    let m : ℕ → List ℕ = λ i. if i == idx then frame.bytes else s.messages i in
    let s' : Inbox = record { messages = m; bitmaps = mark idx s } in
    ap (λ s. preh_get_local_can_data (λ i. s) id) (preh_receive-whole frame s low high)
    ∙ (get_local-same s' id low2 high2 ∙ elim (Bool-cases (id == frame.can_id)) [
      | inl h ↦
          let here : (id - 0x100 == idx) ≡ true = ground arith in
          let there : is_set s' (id - 0x100) ≡ true =
            is_set-mark s m idx (id - 0x100) ∙ rw here refl in
          rw (h, there, here) refl
      | inr h ↦
          let other : (id - 0x100 == idx) ≡ false = ground arith in
          let as_before : is_set s' (id - 0x100) ≡ is_set s (id - 0x100) =
            is_set-mark s m idx (id - 0x100) ∙ rw other refl in
          rw (h, as_before, other) (sym (get_local-same s id low2 high2))
    ])
