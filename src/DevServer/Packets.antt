-- ===== src/DevServer/Packets.antt =====
-- A packet that is sent is received, and a request gets the reply to it.
use mybmm.Base.{
  ℕ, suc, ◌+◌, ◌-◌, ◌%◌, ◌≤◌, ◌≡◌, ◌≢◌, refl, ap, ◌∙◌, Bool, true, false, ◌||◌, none, some, List,
  [], ◌∷◌, ◌++◌, append_assoc, ◌==◌, leb, ltb, arith, length, take, drop, drop-append,
  if◌then◌else◌, pos, negsuc, All,
}
use mybmm.DevServer.{
  packet_start, packet_end, devserver_send, Answer, find_start, recv_end, recv_drain, recv_data,
  recv_header, devserver_recv,
}

find_start-append :
    (noise rest : List ℕ)
    → All (λ c. c ≢ packet_start) noise
    → find_start (noise ++ packet_start ∷ rest) ≡ some rest
unfolding find_start
find_start-append [] rest apart = refl
find_start-append (c ∷ cs) rest (ne, apart) =
    let other : (c == packet_start) ≡ false = ground arith in
    rw (other, find_start-append cs rest apart) refl

-- the answer with the data at the front of what was there
abbrev stored : ℕ → ℕ → List ℕ → List ℕ → List ℕ → Answer
stored opcode unit bytes old rest = record {
  code = pos (length bytes);
  opcode = some opcode;
  unit = some unit;
  bytes = bytes ++ drop (length bytes) old;
  rest = rest;
}

take-all : (bytes rest : List ℕ) → take (length bytes) (take (length bytes) (bytes ++ rest)) ≡ bytes
take-all [] rest = refl
take-all (c ∷ cs) rest = ap (◌∷◌ c) (take-all cs rest)

recv_data-stored :
    (datasz : ℕ) (bytes rest : List ℕ) (a : Answer)
    → length bytes ≤ datasz
    → length bytes ≤ 251
    → recv_data
        (length bytes)
        datasz
        (length bytes)
        (record a { rest = bytes ++ packet_end ∷ rest })
      ≡ some (record a {
        code = pos (length bytes);
        bytes = bytes ++ drop (length bytes) a.bytes;
        rest = rest;
      })
unfolding recv_data recv_drain recv_end
recv_data-stored datasz [] rest a room short =
    let none_left : (datasz == 0 || 0 == 0) ≡ true = ground arith in rw none_left refl
recv_data-stored datasz (c ∷ cs) rest a room short =
    let n = length (c ∷ cs) in
    let some_left : (datasz == 0 || n == 0) ≡ false = ground arith in
    let all : ltb datasz n ≡ false = ground arith in
    let came : (n == 0) ≡ false = ground arith in
    let fits : leb (4 + n + (n - n)) 256 ≡ true = ground arith in
    let drained : n - n ≡ 0 = omega arith in
    let ends : ltb (4 + n + 0) 256 ≡ true = ground arith in
    rw
      (
        some_left,
        all,
        take-all cs (packet_end ∷ rest),
        came,
        fits,
        drained,
        drop-append cs (packet_end ∷ rest) (length cs) refl,
        ends,
      )
      (ap
        (λ t. some (record a {
          code = pos n;
          bytes = c ∷ (cs ++ drop (suc (length t)) a.bytes);
          rest = rest;
        }))
        (take-all cs (packet_end ∷ rest)))

devserver_recv-found :
    (given datasz : ℕ) (old : List ℕ) (is_broken : Bool) (input cs : List ℕ)
    → find_start input ≡ some cs
    → devserver_recv given datasz old is_broken input
      ≡ recv_header given datasz
          (record {
            code = if is_broken then negsuc 0 else pos 0;
            opcode = none;
            unit = none;
            bytes = old;
            rest = [];
          })
          cs
unfolding devserver_recv
devserver_recv-found given datasz old is_broken input cs e = rw (devserver_recv, e) refl

-- behind the header
abbrev opened : ℕ → ℕ → List ℕ → Bool → Answer
opened opcode un old is_broken = record {
  code = if is_broken then negsuc 0 else pos 0;
  opcode = some opcode;
  unit = some un;
  bytes = old;
  rest = [];
}

-- With room for them, and behind bytes that are no start, the data of at most 251 bytes that
-- `devserver_send` puts in a packet are what `devserver_recv` stores, together with the opcode and the unit; it returns how
-- many they are and leaves what follows the packet. That the read of the data gives
-- all of them is assumed.
pub devserver_recv-devserver_send :
    (opcode un : ℕ) (bytes old noise rest : List ℕ) (datasz : ℕ) (is_broken : Bool)
    → length bytes ≤ datasz
    → length bytes ≤ 251
    → All (λ c. c ≢ packet_start) noise
    → (packet : List ℕ) × (devserver_send opcode un bytes ≡ some packet)
      × (devserver_recv (length bytes) datasz old is_broken (noise ++ (packet ++ rest))
          ≡ some (stored opcode un bytes old rest))
unfolding devserver_send devserver_recv recv_header
devserver_recv-devserver_send opcode un bytes old noise rest datasz is_broken room short apart =
    let fits : leb (length bytes + 5) 256 ≡ true = ground arith in
    let len : length bytes % 256 ≡ length bytes = omega arith in
    let tail = opcode ∷ un ∷ length bytes % 256 ∷ (bytes ++ packet_end ∷ []) in
    (
      packet_start ∷ tail,
      rw fits refl,
      devserver_recv-found (length bytes) datasz old is_broken
            (noise ++ packet_start ∷ (tail ++ rest)) (tail ++ rest)
            (find_start-append noise (tail ++ rest) apart)
          ∙ rw (len, append_assoc bytes (packet_end ∷ []) rest)
              (recv_data-stored datasz bytes rest (opened opcode un old is_broken) room short),
    )
