-- ===== src/Jbd/Network.antt =====
-- The transport of ip.c under `jbd_rw`: what a read of the socket gives is an answer of the device.
use mybmm.Base.{
  ℕ, suc, ◌+◌, ◌<◌, ◌≤◌, ◌≡◌, refl, sym, subst, ap, ◌∙◌, true, false, ◌&&◌, Option, none, some,
  List, [], ◌∷◌, ◌++◌, length, take, replicate, ltb, if◌then◌else◌, arith, ℤ, pos, negsuc, IsByte,
  All, Bool-cases, inl, inr, take-append,
}
use mybmm.Cfg.Lookup.{take_short}
use mybmm.Jbd.Frame.{frame, length-frame}
use mybmm.Jbd.Command.{sent}
use mybmm.Jbd.Transfer.{Transport, buf_size, jbd_rw}
use mybmm.Jbd.Transfer.Answers.{Exchange, answered, answers, delivered, result, IsBuffer}
use mybmm.Jbd.Transfer.Exchange.{command, jbd_rw-answers}
use mybmm.Streams.Parts.{length-take_most}
use mybmm.Streams.{Event, ip_read}
use mybmm.Streams.Collect.{ready, bytes_of, count_of, IsCollected, ip_read-IsCollected}

-- What the socket still gives, which is bytes.
pub record Socket : Type 0 where
  pub events : List Event
  pub are_bytes : All IsByte (bytes_of events)

-- what was received, none for a negative count
answer_of : Option (ℤ × List ℕ × List Event) → Option (List ℕ)
answer_of none = none
answer_of (some (pos n, buf, es)) = some (take n buf)
answer_of (some (negsuc n, buf, es)) = none

-- A read of at most 256 bytes.
abbrev buffer : List ℕ
buffer = replicate buf_size 0

pub received : List Event → Option (List ℕ)
unfolding answer_of
received es = answer_of (ip_read true es buffer buf_size)

pub collected :
    (es : List Event) → IsCollected true es 0 buf_size [] buffer (ip_read true es buffer buf_size)
collected es = ip_read-IsCollected es buffer buf_size (omega arith) (omega arith)

All-split : (xs ys : List ℕ) → All IsByte (xs ++ ys) → All IsByte xs × All IsByte ys
All-split [] ys all = (tt, all)
All-split (x ∷ xs) ys (h, all) = let (a, b) = All-split xs ys all in ((h, a), b)

-- the bytes of a read, and those that are left
pub split_bytes :
    (s : Socket)
    → All IsByte (take buf_size (ready true s.events).0)
      × All IsByte (bytes_of (collected s.events).0)
split_bytes s =
    All-split (take buf_size (ready true s.events).0) (bytes_of (collected s.events).0)
      (subst (All IsByte) (collected s.events).2 s.are_bytes)

-- What is received is what is ready, or an error.
received-ready :
    (es : List Event)
    → received es ≡ (
        if (ready true es).1 && ltb (length (ready true es).0) buf_size
        then none
        else some (take buf_size (ready true es).0))
unfolding received answer_of count_of
received-ready es =
    ap answer_of (collected es).1
    ∙ elim (Bool-cases ((ready true es).1 && ltb (length (ready true es).0) buf_size)) [
      | inl h ↦ rw h refl
      | inr h ↦ rw h (
          ap some (
            take-append (take buf_size (ready true es).0) _
              (0 + length (take buf_size (ready true es).0)) (omega arith)))
    ]

some_of : {a b : List ℕ} → some a ≡ some b → a ≡ b
some_of e = cc

pub received_bytes :
    (s : Socket) (bytes : List ℕ)
    → received s.events ≡ some bytes
    → All IsByte bytes × (length bytes ≤ buf_size)
received_bytes s bytes e =
    let got = ready true s.events in
    let same = sym (received-ready s.events) ∙ e in
    elim (Bool-cases (got.1 && ltb (length got.0) buf_size)) [
      | inl h ↦ absurd (cc (rw h at same))
      | inr h ↦
          let is : take buf_size got.0 ≡ bytes = some_of (rw h at same) in
          (
            subst (All IsByte) is (split_bytes s).0,
            subst (λ l. length l ≤ buf_size) is (length-take_most buf_size got.0),
          )
    ]

-- `ip_write` gives the socket its packet, and what is received does not depend on it.
abbrev pub ip_transport : Transport
ip_transport = record {
  State = Socket;
  write = λ cmd len s. s;
  read = λ s. (
    received s.events,
    record { events = (collected s.events).0; are_bytes = (split_bytes s).1 },
  );
  read_bytes = λ s bytes e. (received_bytes s bytes e).0;
  read_fits = λ s bytes e. (received_bytes s bytes e).1;
}

-- The first answer is a frame.
Exchange-first :
    (t : Transport) (cmd : List ℕ) (n : Option ℕ) (k : ℕ) (s : t.State) (reg status : ℕ)
    (payload : List ℕ)
    → (t.read (t.write cmd n s)).0 ≡ some (frame reg status payload)
    → Exchange (answers t cmd n (suc k) s) (some payload)
unfolding answers
Exchange-first t cmd n k s reg status payload e =
    subst (λ r. Exchange (r ∷ answers t cmd n k (t.read (t.write cmd n s)).1) (some payload))
      (sym e) (answered reg status payload refl)

-- The bytes that a socket gives before it pauses or is closed, in whatever parts they arrive, are put
-- together: where they are the frame of a payload, and at most 256 bytes, `jbd_rw` over `ip_read`
-- returns the length of that payload and the payload in front of zeros, for every action, register and data that fit the
-- packet. A payload that is longer than `data` is an access outside of it.
pub jbd_rw-ip_read :
    (action reg : ℕ) (bytes buf : List ℕ) (s : Socket) (reg' status : ℕ) (payload : List ℕ)
    → action < 256
    → reg < 256
    → length (sent action bytes) + 7 ≤ buf_size
    → IsBuffer buf
    → ready true s.events ≡ (frame reg' status payload, false)
    → length payload + 7 ≤ buf_size
    → result (jbd_rw ip_transport action reg bytes (length bytes) buf s)
      ≡ delivered (length bytes) (some payload)
jbd_rw-ip_read action reg bytes buf s reg' status payload ha hr hs b arrives fits =
    let whole : received s.events ≡ some (frame reg' status payload) =
      rw (received-ready s.events, arrives)
        (ap some (
          take_short buf_size (frame reg' status payload)
            (omega (arith, length-frame reg' status payload)))) in
    jbd_rw-answers ip_transport action reg bytes buf s (some payload) ha hr hs b (
      Exchange-first ip_transport (command action reg bytes) (some (length (sent action bytes) + 7))
        2 s reg' status payload whole)
