-- ===== src/Tests/Packets.antt =====
-- Packets of the device server.
use mybmm.Base.{
  ℕ, ◌≡◌, refl, true, false, none, some, List, [], ◌∷◌, ◌++◌, arith, replicate, pos, negsuc,
}
use mybmm.DevServer.{devserver_send, devserver_recv, devserver_request}
use mybmm.DevServer.Packets.{devserver_recv-devserver_send}

-- The reply to a request with status 3 has no data for the caller.
refused :
    devserver_request 9 1 0 4 (9 ∷ 9 ∷ 9 ∷ 9 ∷ []) false (0xD5 ∷ 3 ∷ 0 ∷ 0 ∷ 0xEB ∷ [])
    ≡ some (
      0xD5 ∷ 1 ∷ 0 ∷ 0 ∷ 0xEB ∷ [],
      pos 0,
      record {
        code = pos 0;
        opcode = some 3;
        unit = some 0;
        bytes = 9 ∷ 9 ∷ 9 ∷ 9 ∷ [];
        rest = [];
      },
    )
unfolding devserver_request
refused = refl

-- Of three bytes the read gives two: the third is taken for the end mark.
short_read :
    devserver_recv 2 4 (9 ∷ 9 ∷ 9 ∷ 9 ∷ []) false (0xD5 ∷ 0 ∷ 0 ∷ 3 ∷ 5 ∷ 6 ∷ 7 ∷ 0xEB ∷ [])
    ≡ some (record {
      code = negsuc 0;
      opcode = some 0;
      unit = some 0;
      bytes = 5 ∷ 6 ∷ 9 ∷ 9 ∷ [];
      rest = 0xEB ∷ [];
    })
unfolding devserver_recv
short_read = refl

-- A packet that announces 252 bytes fills the array, and its end mark is stored behind it.
too_long : devserver_recv 9 0 [] false (0xD5 ∷ 0 ∷ 0 ∷ 252 ∷ (replicate 252 1 ++ 0xEB ∷ [])) ≡ none
unfolding devserver_recv
too_long = refl

devserver_recv-devserver_send_example :
    (packet : List ℕ) × (devserver_send 2 1 (5 ∷ 6 ∷ []) ≡ some packet)
    × (devserver_recv 2 4 (9 ∷ 9 ∷ 9 ∷ 9 ∷ []) true ((1 ∷ 2 ∷ []) ++ (packet ++ 8 ∷ []))
        ≡ some (record {
          code = pos 2;
          opcode = some 2;
          unit = some 1;
          bytes = 5 ∷ 6 ∷ 9 ∷ 9 ∷ [];
          rest = 8 ∷ [];
        }))
devserver_recv-devserver_send_example =
    devserver_recv-devserver_send 2 1 (5 ∷ 6 ∷ []) (9 ∷ 9 ∷ 9 ∷ 9 ∷ []) (1 ∷ 2 ∷ []) (8 ∷ []) 4 true
      (omega arith) (omega arith) (ground arith, (ground arith, tt))
