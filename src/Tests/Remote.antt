-- ===== src/Tests/Remote.antt =====
-- A read of the bus behind a device server, and the driver over it.
use mybmm.Base.{ℕ, ◌≡◌, refl, true, false, some, List, [], ◌∷◌, ◌++◌, arith, replicate, pos}
use mybmm.DevServer.{devserver_send, devserver_recv}
use mybmm.Si.{si_get_remote_can_data}
use mybmm.CanIp.{Exchange, Outcome, take_frame, can_ip_read, can_ip_write}
use mybmm.CanIp.Lengths.{si_get_remote_can_data-can_ip_read}

-- A frame 0x305 with the data 1, 2, 3.
abbrev exchange : Exchange
exchange = record {
  input =
      0xD5 ∷ 0 ∷ 0 ∷ 16 ∷ 5 ∷ 3 ∷ 0 ∷ 0 ∷ 3 ∷ 0 ∷ 0 ∷ 0 ∷ 1 ∷ 2 ∷ 3 ∷ 0 ∷ 0 ∷ 0 ∷ 0 ∷ 0 ∷ 0xEB ∷ [];
  given = 16;
  is_broken = false;
  stack = replicate 16 7;
}

abbrev asked : List ℕ
asked = 0xD5 ∷ 3 ∷ 0 ∷ 2 ∷ 5 ∷ 3 ∷ 0xEB ∷ []

abbrev outcome : Outcome
outcome = record { code = pos 3; buf = 1 ∷ 2 ∷ 3 ∷ replicate 13 0 }

frame_read : can_ip_read 0 0x305 16 (replicate 16 0) exchange ≡ some (asked, outcome)
unfolding can_ip_read devserver_send devserver_recv take_frame
frame_read = refl

-- A refusal of the server has no data, and the frame is what was on the stack.
refusal_read :
    can_ip_read 0 0x305 8 (replicate 8 0) (record exchange { input = 0xD5 ∷ 1 ∷ 0 ∷ 0 ∷ 0xEB ∷ [] })
    ≡ some (asked, record { code = pos 7; buf = replicate 7 7 ++ 0 ∷ [] })
unfolding can_ip_read devserver_send devserver_recv take_frame
refusal_read = refl

frame_written :
    can_ip_write 2 0x351
      (1 ∷ 2 ∷ [])
      true
      (record exchange { input = 0xD5 ∷ 0 ∷ 2 ∷ 0 ∷ 0xEB ∷ [] })
    ≡ some (
      0xD5 ∷ 4 ∷ 2 ∷ 16 ∷ 0x51 ∷ 3 ∷ 0 ∷ 0 ∷ 2 ∷ 0 ∷ 0 ∷ 0 ∷ 1 ∷ 2 ∷ 0 ∷ 0 ∷ 0 ∷ 0 ∷ 0 ∷ 0 ∷ 0xEB
          ∷ [],
      pos 0,
    )
unfolding can_ip_write devserver_send devserver_recv
frame_written = refl

si_get_remote_can_data-can_ip_read_example :
    (n : ℕ) × (si_get_remote_can_data
        (λ j. (pos 3, record { can_id = 0; can_dlc = 0; bytes = [] }))
        0
        (9 ∷ [])
      ≡ some (pos 1, 9 ∷ [], n))
si_get_remote_can_data-can_ip_read_example =
    si_get_remote_can_data-can_ip_read 0 0x305 0 (9 ∷ []) (λ j. replicate 16 0) (λ j. exchange)
      (λ j. asked) (λ j. outcome) (λ j. record { can_id = 0; can_dlc = 0; bytes = [] })
      (ground arith) (λ j. frame_read)
