-- ===== src/DevServer.antt =====
-- dsfuncs.c: the packets that the device server and its clients exchange over a socket.
--
-- `none` is a write behind the array of a packet. What a socket gives is the list of bytes that are
-- still to come, with `is_broken` for an error at its end; `given` is how many bytes the read of the
-- data returns, which can be fewer than it asks for. (The checksum is not compiled in.)
pub mod Packets
use mybmm.Base.{
  ℕ, zero, suc, ◌+◌, ◌-◌, ◌%◌, Bool, true, false, not, ◌||◌, Option, none, some, ◌>>=◌, List, [],
  ◌∷◌, ◌++◌, ◌==◌, leb, ltb, length, take, drop, if◌then◌else◌, ℤ, pos, negsuc, is_neg,
}

abbrev pub packet_start : ℕ
packet_start = 0xD5

abbrev pub packet_end : ℕ
packet_end = 0xEB

-- The packet that `devserver_send` writes.
unfoldable pub devserver_send : ℕ → ℕ → List ℕ → Option (List ℕ)
devserver_send opcode unit bytes =
    if leb (length bytes + 5) 256
    then some (packet_start ∷ opcode ∷ unit ∷ length bytes % 256 ∷ (bytes ++ packet_end ∷ []))
    else none

-- What `devserver_recv` returns, what it stores and what is still to come.
pub record Answer : Type 0 where
  pub code : ℤ
  pub opcode : Option ℕ
  pub unit : Option ℕ
  pub bytes : List ℕ
  pub rest : List ℕ

-- "Read the start": what follows it
unfoldable pub find_start : List ℕ → Option (List ℕ)
find_start [] = none
find_start (c ∷ cs) = let rest = find_start cs in if c == packet_start then some cs else rest

-- the end mark, to be stored at `i` of the packet; `len` is the length that is returned
unfoldable pub recv_end : ℕ → ℕ → Answer → Option Answer
recv_end i len a = elim a.rest [
  | [] ↦ some (record a { code = negsuc 0 })
  | c ∷ cs ↦
      (if not (c == packet_end)
        then some (record a { code = negsuc 0; rest = cs })
        else if ltb i 256
        then some (record a { code = pos len; rest = cs })
        else none)
]

-- "Drain any remaining data": `left` bytes, also where none comes
unfoldable pub recv_drain : ℕ → ℕ → ℕ → Answer → Option Answer
unfolding recv_end
recv_drain i left len a =
    if leb (i + left) 256
    then recv_end (i + left) len (record a { rest = drop left a.rest })
    else none

-- the data, where there is room for some and some is announced
unfoldable pub recv_data : ℕ → ℕ → ℕ → Answer → Option Answer
unfolding recv_drain
recv_data given datasz len a =
    if datasz == 0 || len == 0
    then recv_drain 4 len len a
    else (let asked = if ltb datasz len then datasz else len in
        let came = take given (take asked a.rest) in
        if length came == 0
        then some (record a { code = negsuc 0 })
        else recv_drain (4 + asked) (len - asked) asked (record a {
          bytes = came ++ drop (length came) a.bytes;
          rest = drop (length came) a.rest;
        }))

unfoldable pub recv_header : ℕ → ℕ → Answer → List ℕ → Option Answer
unfolding recv_data
recv_header given datasz a [] = some (record a { code = negsuc 0 })
recv_header given datasz a (op ∷ []) = some (record a { code = negsuc 0; opcode = some op })
recv_header given datasz a (op ∷ un ∷ []) =
    some (record a { code = negsuc 0; opcode = some op; unit = some un })
recv_header given datasz a (op ∷ un ∷ len ∷ cs) =
    recv_data given datasz len (record a { opcode = some op; unit = some un; rest = cs })

-- `old` is what stands in the `datasz` bytes at `data`.
unfoldable pub devserver_recv : ℕ → ℕ → List ℕ → Bool → List ℕ → Option Answer
unfolding find_start recv_header
devserver_recv given datasz old is_broken input =
    let start : Answer = record {
      code = if is_broken then negsuc 0 else pos 0;
      opcode = none;
      unit = none;
      bytes = old;
      rest = [];
    } in
    elim (find_start input) [ none ↦ some start | some cs ↦ recv_header given datasz start cs ]

-- the result of `devserver_request`
request_code : Answer → ℤ
request_code a =
    if is_neg a.code
    then negsuc 0
    else elim a.opcode [ none ↦ a.code | some status ↦ (if status == 0 then a.code else pos 0) ]

-- What it sends, what it returns, and the answer; `input` is what the server sends then.
unfoldable pub devserver_request :
    ℕ → ℕ → ℕ → ℕ → List ℕ → Bool → List ℕ → Option (List ℕ × ℤ × Answer)
unfolding devserver_send devserver_recv request_code
devserver_request given opcode unit len old is_broken input = do
  sent ← devserver_send opcode unit []
  a ← devserver_recv given len old is_broken input
  some (sent, request_code a, a)

-- `devserver_reply` and `devserver_error` send a packet.
unfoldable pub devserver_reply : ℕ → ℕ → List ℕ → Option (List ℕ)
unfolding devserver_send
devserver_reply status unit bytes = devserver_send status unit bytes

unfoldable pub devserver_error : ℕ → Option (List ℕ)
unfolding devserver_send
devserver_error code = devserver_send code 0 []
