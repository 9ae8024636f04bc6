-- ===== src/Tests/Frames.antt =====
-- The frames of jbd.c.
use mybmm.Base.{
  ℕ, zero, suc, ◌+◌, ◌≤◌, ◌≡◌, refl, subst, Option, some, List, [], ◌∷◌, arith, length, replicate,
  IsByte, All,
}
use mybmm.Jbd.{cmd_read, jbd_crc, jbd_verify, jbd_cmd}
use mybmm.Jbd.Frame.{raw, IsFrame, IsFrame-jbd_verify}
use mybmm.Jbd.Command.{sent}
use mybmm.Jbd.Detect.{jbd_verify_corrupted}
use mybmm.Jbd.Transfer.{Transport, jbd_rw}
use mybmm.Jbd.Transfer.Answers.{Exchange, answers, delivered, result}
use mybmm.Jbd.Transfer.Exchange.{command, jbd_rw-Exchange}

abbrev answer : List ℕ
answer = 0xDD ∷ 3 ∷ 0 ∷ 2 ∷ 1 ∷ 2 ∷ 0xFF ∷ 0xFB ∷ 0x77 ∷ []

-- the read of the hardware information
read_hwinfo :
    jbd_cmd 256 cmd_read 3 [] 0
    ≡ some (some 7, 0xDD ∷ 0xA5 ∷ 3 ∷ 0 ∷ 0xFF ∷ 0xFD ∷ 0x77 ∷ replicate 249 0)
unfolding jbd_cmd jbd_crc
read_hwinfo = refl

answer_accepted : jbd_verify answer 9 ≡ some 0
unfolding jbd_verify jbd_crc
answer_accepted = refl

IsFrame-jbd_verify_example : IsFrame answer
IsFrame-jbd_verify_example = IsFrame-jbd_verify answer 9 (omega arith) (omega arith) answer_accepted

jbd_verify_corrupted_example : jbd_verify (raw 0xDD 3 0 2 (1 ∷ 7 ∷ []) 0xFF 0xFB 0x77 []) 9 ≡ some 1
jbd_verify_corrupted_example =
    jbd_verify_corrupted 0xDD 3 0 2 2 7 0xFF 0xFB 0x77 (1 ∷ []) [] [] (omega arith) (omega arith)
      (omega arith) (omega arith) (omega arith) tt (omega arith) answer_accepted

pub some_of : {A : Type 0} {a b : A} → some a ≡ some b → a ≡ b
some_of e = cc

-- A device that answers with noise first, and then with a frame.
reply : ℕ → Option (List ℕ)
reply zero = some (1 ∷ 2 ∷ 3 ∷ [])
reply (suc n) = some answer

reply_bytes :
    (n : ℕ) (bytes : List ℕ) → reply n ≡ some bytes → All IsByte bytes × (length bytes ≤ 256)
unfolding reply
reply_bytes zero bytes e = subst (λ l. All IsByte l × (length l ≤ 256)) (some_of e) (omega arith)
reply_bytes (suc n) bytes e = subst (λ l. All IsByte l × (length l ≤ 256)) (some_of e) (omega arith)

abbrev device : Transport
device = record {
  State = ℕ;
  write = λ pkt len s. s;
  read = λ s. (reply s, s + 1);
  read_bytes = λ s bytes e. (reply_bytes s bytes e).0;
  read_fits = λ s bytes e. (reply_bytes s bytes e).1;
}

-- The answer of the second attempt is delivered into 128 bytes.
hwinfo_read :
    result (jbd_rw device cmd_read 3 (replicate 128 9) 128 (replicate 256 7) 0)
    ≡ some (some 2, 1 ∷ 2 ∷ replicate 126 0)
unfolding result jbd_rw jbd_cmd jbd_verify jbd_crc reply
hwinfo_read = refl

jbd_rw-Exchange_example :
    (r : Option (List ℕ)) × Exchange
      (answers device
        (command cmd_read 3 (replicate 128 9))
        (some (length (sent cmd_read (replicate 128 9)) + 7))
        3
        0)
      r
    × (result (jbd_rw device cmd_read 3 (replicate 128 9) 128 (replicate 256 7) 0)
        ≡ delivered 128 r)
unfolding sent
jbd_rw-Exchange_example =
    jbd_rw-Exchange device cmd_read 3 (replicate 128 9) (replicate 256 7) 0 (omega arith)
      (omega arith) (omega arith) (record { size = refl; bytes = omega arith })
