-- ===== src/Tests/Lines.antt =====
-- The JBD monitor over a socket.
use mybmm.Base.{◌≡◌, refl, some, List, [], ◌∷◌, replicate, arith, true, false}
use mybmm.Jbd.{cmd_read, jbd_crc}
use mybmm.Jbd.Frame.{frame}
use mybmm.Jbd.Command.{sent}
use mybmm.Jbd.Transfer.{jbd_rw}
use mybmm.Jbd.Transfer.Answers.{delivered, result}
use mybmm.Jbd.Network.{Socket, ip_transport, jbd_rw-ip_read}
use mybmm.Streams.{Event, again, arrived, quiet}
use mybmm.Streams.Collect.{ready, bytes_of}

-- An answer with the payload 1, 2 that comes in two parts.
abbrev parts : List Event
parts = arrived 0xDD (3 ∷ 0 ∷ 2 ∷ 1 ∷ []) ∷ again ∷ arrived 2 (0xFF ∷ 0xFB ∷ 0x77 ∷ []) ∷ quiet ∷ []

parts-ready : ready true parts ≡ (frame 3 0 (1 ∷ 2 ∷ []), false)
unfolding ready frame jbd_crc
parts-ready = refl

abbrev socket : Socket
unfolding bytes_of
socket = record { events = parts; are_bytes = omega arith }

jbd_rw-ip_read_example :
    result (jbd_rw ip_transport cmd_read 3 (replicate 128 9) 128 (replicate 256 7) socket)
    ≡ some (some 2, 1 ∷ 2 ∷ replicate 126 0)
unfolding sent delivered socket
jbd_rw-ip_read_example =
    jbd_rw-ip_read cmd_read 3 (replicate 128 9) (replicate 256 7) socket 3 0 (1 ∷ 2 ∷ [])
      (omega arith) (omega arith) (omega arith) (record { size = refl; bytes = omega arith })
      parts-ready (omega arith)
