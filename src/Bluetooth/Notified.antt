-- ===== src/Bluetooth/Notified.antt =====
-- A request over bluetooth and what is read of the notifications behind it.
use mybmm.Base.{
  ℕ, zero, suc, ◌+◌, ◌<◌, ◌≤◌, ◌≡◌, refl, sym, subst, ap, ◌∙◌, Bool, true, false, some, List, [],
  ◌∷◌, ◌++◌, ltb, leb, length, take, drop, if◌then◌else◌, arith, ℤ, pos, negsuc, Bool-cases, inl,
  inr, length-append, append_assoc, append-nil,
}
use mybmm.Strings.{is_nil}
use mybmm.Cfg.Lookup.{take_short}
use mybmm.Streams.Parts.{length-take_most}
use mybmm.Streams.Parts.{take_beyond, store_at-append}
use mybmm.Bluetooth.{
  BtSession, data_size, notification_cb, notify_all, deliver, wait_loop, bt_read, bt_write,
}

unfoldable pub all_bytes : List (List ℕ) → List ℕ
all_bytes [] = []
all_bytes (bytes ∷ ns) = bytes ++ all_bytes ns

-- One notification: the first bytes are kept, as many as there is room for.
notification_cb-held :
    (bytes : List ℕ) (s : BtSession)
    → length s.held ≤ data_size
    → (notification_cb bytes s).held ≡ take data_size (s.held ++ bytes)
unfolding notification_cb
notification_cb-held bytes s fits =
    elim (Bool-cases (ltb data_size (length s.held + length bytes))) [
      | inl h ↦ rw h (sym (take_beyond data_size s.held bytes fits))
      | inr h ↦ rw h (
          ap (λ t. s.held ++ t) (take_short (length bytes) bytes (omega arith))
          ∙ sym
              (take_short data_size (s.held ++ bytes) (ground (arith, length-append s.held bytes))))
    ]

take-take_append : (n : ℕ) (xs ys : List ℕ) → take n (take n xs ++ ys) ≡ take n (xs ++ ys)
take-take_append zero xs ys = refl
take-take_append (suc n) [] ys = refl
take-take_append (suc n) (x ∷ xs) ys = ap (◌∷◌ x) (take-take_append n xs ys)

notify_all-held :
    (ns : List (List ℕ)) (s : BtSession)
    → length s.held ≤ data_size
    → ((notify_all ns s).held ≡ take data_size (s.held ++ all_bytes ns))
      × ((notify_all ns s).is_connected ≡ s.is_connected)
unfolding notify_all all_bytes notification_cb
notify_all-held [] s fits = (
  sym (
      take_short data_size (s.held ++ []) (omega (arith, length-append s.held []))
      ∙ append-nil s.held),
  refl,
)
notify_all-held (bytes ∷ ns) s fits =
    let s1 = notification_cb bytes s in
    let held = notification_cb-held bytes s fits in
    let (more, on) = notify_all-held ns s1 (
      subst (λ t. length t ≤ data_size) (sym held)
        (length-take_most data_size (s.held ++ bytes))) in
    (
      more
          ∙ (ap (λ t. take data_size (t ++ all_bytes ns)) held
              ∙ (take-take_append data_size (s.held ++ bytes) (all_bytes ns)
                  ∙ ap (take data_size) (append_assoc s.held bytes (all_bytes ns)))),
      on,
    )

abbrev smaller : ℕ → ℕ → ℕ
smaller a b = if ltb a b then a else b

deliver-held :
    (s : BtSession) (buf : List ℕ) (buflen : ℕ)
    → buflen ≤ length buf
    → deliver s buf buflen
      ≡ some (
        pos (smaller buflen (length s.held)),
        take buflen s.held ++ drop (length (take buflen s.held)) buf,
        record s { held = [] },
      )
unfolding deliver
deliver-held s buf buflen fits = elim (Bool-cases (ltb buflen (length s.held))) [
  | inl h ↦
      let room : length (take buflen s.held) ≤ length buf =
        omega (arith, length-take_most buflen s.held) in
      rw (h, store_at-append [] buf (take buflen s.held) 0 refl room) refl
  | inr h ↦
      let few : length s.held ≤ buflen = ground arith in
      let all : take (length s.held) s.held ≡ s.held =
        take_short (length s.held) s.held (omega arith) in
      let room : length s.held ≤ length buf = omega arith in
      rw (h, all, store_at-append [] buf s.held 0 refl room, take_short buflen s.held few) refl
]

wait_loop-held :
    (arriving : ℕ → List (List ℕ)) (n i : ℕ) (s : BtSession) (buf : List ℕ) (buflen : ℕ)
    → is_nil s.held ≡ false
    → wait_loop arriving n i s buf buflen ≡ deliver s buf buflen
unfolding wait_loop
wait_loop-held arriving zero i s buf buflen h = rw h refl
wait_loop-held arriving (suc n) i s buf buflen h = rw h refl

not_nil : (xs ys : List ℕ) → xs ≡ ys → 0 < length ys → is_nil xs ≡ false
not_nil [] ys e h = absurd (omega (arith, ap length e))
not_nil (x ∷ xs) ys e h = refl

take_some : (n : ℕ) (xs : List ℕ) → 0 < length xs → 0 < length (take (suc n) xs)
take_some n [] h = absurd (omega arith)
take_some n (x ∷ xs) h = omega arith

bt_read-open :
    (arriving : ℕ → List (List ℕ)) (s : BtSession) (buf : List ℕ) (buflen : ℕ)
    → s.is_connected ≡ true
    → bt_read arriving s buf buflen ≡ wait_loop arriving 2 0 s buf buflen
unfolding bt_read
bt_read-open arriving s buf buflen on = rw on refl

-- What is notified behind a write on an open connection is what the next read delivers, whatever was held before the
-- write: of all the bytes, in their order, the first 4096 are kept, and of these as many as the buffer is
-- said to have room for are put into it, which is the count that is returned. The others are dropped.
pub bt_read-notify_all :
    (write : List ℕ → Bool) (arriving : ℕ → List (List ℕ)) (s : BtSession) (request : List ℕ)
    (ns : List (List ℕ)) (buf : List ℕ) (buflen : ℕ)
    → s.is_connected ≡ true
    → buflen ≤ length buf
    → 0 < length (all_bytes ns)
    → (r : ℤ) × (s1 : BtSession) × (s2 : BtSession) × (bt_write write s request (length request)
        ≡ some (r, s1))
      × (bt_read arriving (notify_all ns s1) buf buflen
          ≡ some (
            pos (smaller buflen (length (take data_size (all_bytes ns)))),
            take buflen (take data_size (all_bytes ns))
                ++ drop (length (take buflen (take data_size (all_bytes ns)))) buf,
            s2,
          ))
      × (s2.held ≡ [])
unfolding bt_write
bt_read-notify_all write arriving s request ns buf buflen on fits some_bytes =
    let s1 : BtSession = record s { held = []; cbcnt = 0 } in
    let all = take data_size (all_bytes ns) in
    let (held, connected) = notify_all-held ns s1 (omega arith) in
    let s3 = notify_all ns s1 in
    let there : 0 < length all = take_some 4095 (all_bytes ns) some_bytes in
    let whole : leb (0 + length request) (length request) ≡ true = ground arith in
    let there_all : take (length request) request ≡ request =
      take_short (length request) request (omega arith) in
    (
      if write request then pos (length request) else negsuc 0,
      s1,
      record s3 { held = [] },
      rw (on, whole, there_all) refl,
      bt_read-open arriving s3 buf buflen (connected ∙ on)
          ∙ (wait_loop-held arriving 2 0 s3 buf buflen (not_nil s3.held all held there)
              ∙ (deliver-held s3 buf buflen fits
                  ∙ ap
                      (λ t. some (
                        pos (smaller buflen (length t)),
                        take buflen t ++ drop (length (take buflen t)) buf,
                        record s3 { held = [] },
                      ))
                      held)),
      refl,
    )
