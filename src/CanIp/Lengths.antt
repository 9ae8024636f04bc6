-- ===== src/CanIp/Lengths.antt =====
-- What the Sunny Island driver makes of the counts of `can_ip_read`.
use mybmm.Base.{
  ℕ, zero, suc, ◌/◌, ◌%◌, ◌≡◌, ◌≢◌, refl, sym, ap, ◌∙◌, Bool, false, Option, none, some, ◌>>=◌,
  List, [], ◌∷◌, ◌==◌, arith, take, load_at, store_at, get_elem?, ℤ, pos, is_neg, Bool-cases, inl,
  inr, bind-eq-some,
}
use mybmm.Can.{CanFrame, any_id, smaller}
use mybmm.DevServer.{Answer, devserver_send, devserver_recv}
use mybmm.Si.{is_whole, get_remote_loop, si_get_remote_can_data}
use mybmm.Streams.Parts.{length-take_most}
use mybmm.CanIp.{Exchange, Outcome, server_read, copy_data, take_frame, can_ip_read}

-- whether a count of an outcome is that of a whole frame
abbrev is_frame : Option Outcome → Bool
is_frame none = false
is_frame (some o) = is_whole o.code

copy_data-short :
    (bytes : List ℕ) (len : ℕ) (buf : List ℕ) (o : Outcome)
    → copy_data (take 16 bytes) len buf ≡ some o
    → is_whole o.code ≡ false
unfolding copy_data
copy_data-short bytes len buf o e =
    let (b, loaded, e1) = bind-eq-some (load_at (take 16 bytes) 8 len) _ e in
    let (buf', _, e2) = bind-eq-some (store_at buf 0 b) _ e1 in
    let short : (len == 16) ≡ false = ground (arith, length-take_most 16 bytes) in
    sym (ap is_frame e2) ∙ short

take_frame-short :
    (id buflen : ℕ) (buf : List ℕ) (a : Answer) (o : Outcome)
    → id ≢ any_id
    → take_frame id buflen buf a ≡ some o
    → is_whole o.code ≡ false
unfolding take_frame
take_frame-short id buflen buf a o ne e = elim (Bool-cases (is_neg a.code)) [
  | inl n ↦ sym (ap is_frame (rw n at e))
  | inr n ↦
      let other : (id == any_id) ≡ false = ground arith in
      let (dlc, _, e1) = bind-eq-some (get_elem? (take 16 a.bytes) 4) _ (rw (n, other) at e) in
      copy_data-short a.bytes (smaller dlc buflen) buf o e1
]

-- `can_ip_read` of one identifier returns the number of its data, never the size of a frame.
can_ip_read-short :
    (un id buflen : ℕ) (buf : List ℕ) (x : Exchange) (sent : List ℕ) (o : Outcome)
    → id ≢ any_id
    → can_ip_read un id buflen buf x ≡ some (sent, o)
    → is_whole o.code ≡ false
unfolding can_ip_read
can_ip_read-short un id buflen buf x sent o ne e =
    let (s, _, e1) =
      bind-eq-some (devserver_send server_read un (id % 256 ∷ id / 256 % 256 ∷ []))
        (λ s. devserver_recv x.given 16 x.stack x.is_broken x.input >>= λ a.
          take_frame id buflen buf a >>= λ o. some (s, o))
        e in
    let (a, _, e2) =
      bind-eq-some (devserver_recv x.given 16 x.stack x.is_broken x.input)
        (λ a. take_frame id buflen buf a >>= λ o. some (s, o)) e1 in
    let (o', t, e3) = bind-eq-some (take_frame id buflen buf a) (λ o. some (s, o)) e2 in
    ap is_whole (sym (ap code_of e3)) ∙ take_frame-short id buflen buf a o' ne t
  where
    code_of : Option (List ℕ × Outcome) → ℤ
    code_of none = pos 0
    code_of (some (s, o)) = o.code

get_remote_loop-failing :
    (reads : ℕ → ℤ × CanFrame) (retries i : ℕ) (bytes : List ℕ)
    → ((j : ℕ) → is_whole (reads j).0 ≡ false)
    → (n : ℕ) × (get_remote_loop reads retries i bytes ≡ some (pos 1, bytes, n))
unfolding get_remote_loop
get_remote_loop-failing reads zero i bytes short = (i, refl)
get_remote_loop-failing reads (suc retries) i bytes short = elim (Bool-cases (is_neg (reads i).0)) [
  | inl n ↦ (suc i, rw n refl)
  | inr n ↦
      let (m, e) = get_remote_loop-failing reads retries (suc i) bytes short in
      (m, rw (n, short i, e) refl)
]

-- Where every read of the transport is a `can_ip_read` of the identifier that does not run out of an array,
-- and the identifier is not the one for any frame, `si_get_remote_can_data` fails and leaves the
-- array as it was, whatever the device server sends.
pub si_get_remote_can_data-can_ip_read :
    (un id i : ℕ) (bytes : List ℕ) (bufs : ℕ → List ℕ) (xs : ℕ → Exchange) (sent : ℕ → List ℕ)
    (os : ℕ → Outcome) (frames : ℕ → CanFrame)
    → id ≢ any_id
    → ((j : ℕ) → can_ip_read un id 16 (bufs j) (xs j) ≡ some (sent j, os j))
    → (n : ℕ) × (si_get_remote_can_data (λ j. ((os j).code, frames j)) i bytes
        ≡ some (pos 1, bytes, n))
unfolding si_get_remote_can_data
si_get_remote_can_data-can_ip_read un id i bytes bufs xs sent os frames ne runs =
    get_remote_loop-failing (λ j. ((os j).code, frames j)) 5 i bytes
      (λ j. can_ip_read-short un id 16 (bufs j) (xs j) (sent j) (os j) ne (runs j))
