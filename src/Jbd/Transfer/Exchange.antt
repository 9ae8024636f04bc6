-- ===== src/Jbd/Transfer/Exchange.antt =====
-- What `jbd_rw` returns, told by the answers of the device alone.
use mybmm.Base.{
  ℕ, zero, suc, ◌+◌, ◌-◌, ◌≤◌, ◌<◌, ◌≡◌, refl, subst, inl, inr, Option, none, some, List, [], ◌∷◌,
  ◌++◌, append-nil, arith, length, length-append, drop, take-append, replicate, store_at, IsByte,
  All, Option-cases,
}
use mybmm.Jbd.{jbd_verify, jbd_cmd}
use mybmm.Jbd.Frame.{
  frame, IsFrame, IsFrame-jbd_verify, jbd_verify-frame, jbd_verify_total, length-frame,
}
use mybmm.Jbd.Command.{sent, jbd_cmd-frame}
use mybmm.Jbd.Transfer.{Transport, buf_size, Outcome, jbd_rw_answer, jbd_rw_loop, jbd_rw}
use mybmm.Jbd.Transfer.Answers.{
  Exchange, answers, delivered, result, IsBuffer, overlay-IsBuffer, frame_payload,
  store_at-delivered, IsFrame-dec, exhausted, broken, answered, refused,
}

module _ (t : Transport) (datasz : ℕ) (cmd : List ℕ) (cmdlen : Option ℕ) where
  open t use {State}

  -- A frame in front of the buffer is delivered.
  jbd_rw_answer-frame :
      (again : List ℕ → State → Outcome State) (buf : List ℕ) (s : State) (reg status : ℕ)
      (payload : List ℕ)
      → result (jbd_rw_answer t datasz cmd cmdlen again buf (some (frame reg status payload)) s)
        ≡ delivered datasz (some payload)
  unfolding jbd_rw_answer result
  jbd_rw_answer-frame again buf s reg status payload =
      let f = frame reg status payload in
      let rest = drop (length f) buf in
      let v : jbd_verify (f ++ rest) (length f) ≡ some 0 =
        rw (length-frame reg status payload) (jbd_verify-frame reg status payload _) in
      let (g, l) = frame_payload reg status payload rest in
      rw (v, g, l)
        (elim (Option-cases (store_at (replicate datasz 0) 0 payload)) [
          | inl e ↦ rw e (rw e at (store_at-delivered datasz payload))
          | inr (out, e) ↦ rw e (rw e at (store_at-delivered datasz payload))
        ])

  jbd_rw_answer-refused :
      (again : List ℕ → State → Outcome State) (buf : List ℕ) (s : State) (bytes : List ℕ)
      → IsBuffer buf
      → All IsByte bytes
      → length bytes ≤ buf_size
      → ¬ IsFrame bytes
      → jbd_rw_answer t datasz cmd cmdlen again buf (some bytes) s
        ≡ again (bytes ++ drop (length bytes) buf) s
  unfolding jbd_rw_answer
  jbd_rw_answer-refused again buf s bytes b hb hl not_frame =
      let rest = drop (length bytes) buf in
      let long : length bytes ≤ length (bytes ++ rest) = omega (arith, length-append bytes rest) in
      let whole : IsBuffer (bytes ++ rest) = overlay-IsBuffer bytes buf b hb hl in
      elim (jbd_verify_total (bytes ++ rest) (length bytes) long) [
        | inl good ↦ absurd (
            not_frame (
              subst IsFrame (take-append bytes rest (length bytes) refl)
                (IsFrame-jbd_verify (bytes ++ rest) (length bytes) whole.bytes long good)))
        | inr bad ↦ rw bad
      ]

  answer_step :
      (again : List ℕ → State → Outcome State) (buf : List ℕ) (s : State) {rd : Option (List ℕ)}
      {rs : List (Option (List ℕ))} {r : Option (List ℕ)}
      → Exchange (rd ∷ rs) r
      → IsBuffer buf
      → ((bytes : List ℕ) → rd ≡ some bytes → All IsByte bytes × (length bytes ≤ buf_size))
      → ((buf' : List ℕ)
          → IsBuffer buf'
          → Exchange rs r
          → result (again buf' s) ≡ delivered datasz r)
      → result (jbd_rw_answer t datasz cmd cmdlen again buf rd s) ≡ delivered datasz r
  unfolding delivered
  answer_step again buf s broken b read next = unfold jbd_rw_answer result in refl
  answer_step again buf s (answered reg status payload e) b read next =
      rw e (jbd_rw_answer-frame again buf s reg status payload)
  answer_step again buf s (refused {bytes} not_frame later) b read next =
      let (hb, hl) = read bytes refl in
      rw (jbd_rw_answer-refused again buf s bytes b hb hl not_frame)
        (next (bytes ++ drop (length bytes) buf) (overlay-IsBuffer bytes buf b hb hl) later)

  jbd_rw_loop-Exchange :
      (k : ℕ) (buf : List ℕ) (s : State) {r : Option (List ℕ)}
      → IsBuffer buf
      → Exchange (answers t cmd cmdlen k s) r
      → result (jbd_rw_loop t datasz cmd cmdlen k (replicate datasz 0) buf s) ≡ delivered datasz r
  unfolding jbd_rw_loop answers
  jbd_rw_loop-Exchange zero buf s b exhausted = unfold delivered result in refl
  jbd_rw_loop-Exchange (suc k) buf s b x =
      let s1 = t.write cmd cmdlen s in
      answer_step (jbd_rw_loop t datasz cmd cmdlen k (replicate datasz 0)) buf (t.read s1).1 x b
        (λ bytes e. (t.read_bytes s1 bytes e, t.read_fits s1 bytes e))
        (λ buf' b' later. jbd_rw_loop-Exchange k buf' (t.read s1).1 b' later)

  -- There is always an outcome of the exchange.
  Exchange-cons :
      (rd : Option (List ℕ)) (rs : List (Option (List ℕ)))
      → ((bytes : List ℕ) → rd ≡ some bytes → All IsByte bytes)
      → (r : Option (List ℕ)) × Exchange rs r
      → (r : Option (List ℕ)) × Exchange (rd ∷ rs) r
  Exchange-cons none rs hb later = (none, broken)
  Exchange-cons (some bytes) rs hb (r, later) = elim (IsFrame-dec bytes (hb bytes refl)) [
    | inl (reg, status, payload, e) ↦ (some payload, answered reg status payload e)
    | inr not_frame ↦ (r, refused not_frame later)
  ]

  Exchange-total :
      (k : ℕ) (s : State) → (r : Option (List ℕ)) × Exchange (answers t cmd cmdlen k s) r
  unfolding answers
  Exchange-total zero s = (none, exhausted)
  Exchange-total (suc k) s =
      let s1 = t.write cmd cmdlen s in
      Exchange-cons (t.read s1).0 (answers t cmd cmdlen k (t.read s1).1)
        (λ bytes e. t.read_bytes s1 bytes e) (Exchange-total k (t.read s1).1)

-- What `jbd_cmd` leaves in the 256 bytes of `cmd`.
pub command : ℕ → ℕ → List ℕ → List ℕ
command action reg bytes =
    frame action reg (sent action bytes)
    ++ replicate (buf_size - (length (sent action bytes) + 7)) 0

-- What it returns for answers that are told by `r`.
pub jbd_rw-answers :
    (t : Transport) (action reg : ℕ) (bytes buf : List ℕ) (s : t.State) (r : Option (List ℕ))
    → action < 256
    → reg < 256
    → length (sent action bytes) + 7 ≤ buf_size
    → IsBuffer buf
    → Exchange (answers t (command action reg bytes) (some (length (sent action bytes) + 7)) 3 s) r
    → result (jbd_rw t action reg bytes (length bytes) buf s) ≡ delivered (length bytes) r
unfolding jbd_rw command
jbd_rw-answers t action reg bytes buf s r ha hr hs b x =
    let n = some (length (sent action bytes) + 7) in
    let built = jbd_cmd-frame buf_size action reg bytes [] ha hr (omega arith) hs in
    let sends : jbd_cmd buf_size action reg bytes (length bytes)
        ≡ some (n, command action reg bytes) =
      rw (append-nil bytes) at built in
    rw sends (jbd_rw_loop-Exchange t (length bytes) (command action reg bytes) n 3 buf s b x)

-- Where the frame of its action, register and data (of a read, no data) fits into the 256 bytes of the
-- packet, `jbd_rw` sends it, up to three times. The outcome is that of the first frame among the answers: its length and its payload in
-- front of zeros (an access outside of `data` if that is too short), or -1 with zeros where the
-- transport fails first or none of three answers is a frame.
pub jbd_rw-Exchange :
    (t : Transport) (action reg : ℕ) (bytes buf : List ℕ) (s : t.State)
    → action < 256
    → reg < 256
    → length (sent action bytes) + 7 ≤ buf_size
    → IsBuffer buf
    → (r : Option (List ℕ)) × Exchange
        (answers t (command action reg bytes) (some (length (sent action bytes) + 7)) 3 s)
        r
      × (result (jbd_rw t action reg bytes (length bytes) buf s) ≡ delivered (length bytes) r)
jbd_rw-Exchange t action reg bytes buf s ha hr hs b =
    let n = some (length (sent action bytes) + 7) in
    let (r, x) = Exchange-total t (length bytes) (command action reg bytes) n 3 s in
    (r, x, jbd_rw-answers t action reg bytes buf s r ha hr hs b x)
