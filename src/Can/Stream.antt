-- ===== src/Can/Stream.antt =====
-- What `can_read` takes from the frames of the socket, and what `can_write` puts there.
use mybmm.Base.{
  ℕ, ◌-◌, ◌≤◌, ◌≡◌, refl, ap, ◌∙◌, sym, Bool, true, false, not, ◌&&◌, some, ◌>>=◌, List, [], ◌∷◌,
  ◌++◌, ◌==◌, if◌then◌else◌, arith, length, replicate, load_at, store_at, load_at-append,
  store_at-cleared, All, pos, negsuc, append-nil,
}
use mybmm.Can.{
  CanFrame, SocketRead, failed, received, returned, any_id, frame_size, smaller, read_frame,
  copy_frame, copy_read, can_read, frame_of, can_write,
}

-- A frame for somebody else.
abbrev pub IsOther : ℕ → SocketRead → Type 0
IsOther id failed = ⊥
IsOther id (received n f) = ¬ (f.can_id ≡ id)

-- The structure after the frames.
pub last_frame : CanFrame → List SocketRead → CanFrame
last_frame frame [] = frame
last_frame frame (failed ∷ rs) = last_frame frame rs
last_frame frame (received n f ∷ rs) = last_frame f rs

read_frame_skips :
    (id : ℕ) (frame : CanFrame) (before rs : List SocketRead)
    → ¬ (id ≡ any_id)
    → All (IsOther id) before
    → read_frame id frame (before ++ rs) ≡ read_frame id (last_frame frame before) rs
unfolding read_frame last_frame
read_frame_skips id frame [] rs h others = refl
read_frame_skips id frame (failed ∷ before) rs h (other, others) = absurd other
read_frame_skips id frame (received n f ∷ before) rs h (other, others) =
    let loops : (not (id == any_id) && not (f.can_id == id)) ≡ true = ground arith in
    rw loops (read_frame_skips id f before rs h others)

read_frame_found :
    (id : ℕ) (frame f : CanFrame) (n : ℕ) (rs : List SocketRead)
    → f.can_id ≡ id
    → read_frame id frame (received n f ∷ rs) ≡ returned (f, rs)
unfolding read_frame
read_frame_found id frame f n rs h =
    let stops : (not (id == any_id) && not (f.can_id == id)) ≡ false = ground arith in rw stops

-- An open socket gives the first frame with the identifier and drops the ones in front of it: its bytes, as many as it
-- names and the buffer is said to hold, are put into the buffer.
pub can_read_finds :
    (image : CanFrame → List ℕ) (frame f : CanFrame) (id n buflen : ℕ) (buf : List ℕ)
    (before rs : List SocketRead)
    → ¬ (id ≡ any_id)
    → All (IsOther id) before
    → f.can_id ≡ id
    → can_read image true frame id buf buflen (before ++ received n f ∷ rs)
      ≡ returned (copy_frame image id buf buflen f >>= λ (len, buf'). some (len, buf', rs))
unfolding can_read copy_read
can_read_finds image frame f id n buflen buf before rs h others found =
    ap (copy_read image id buf buflen) (
      read_frame_skips id frame before (received n f ∷ rs) h others
      ∙ read_frame_found id (last_frame frame before) f n rs found)

-- Where the socket fails behind frames for others, the call does not return an error: it copies the
-- last of these frames (or what the stack held) as if it were the answer.
pub can_read_failed :
    (image : CanFrame → List ℕ) (frame : CanFrame) (id buflen : ℕ) (buf : List ℕ)
    (before rs : List SocketRead)
    → ¬ (id ≡ any_id)
    → All (IsOther id) before
    → can_read image true frame id buf buflen (before ++ failed ∷ rs)
      ≡ returned (
          copy_frame image id buf buflen (last_frame frame before) >>= λ (len, buf').
          some (len, buf', rs))
unfolding can_read copy_read
can_read_failed image frame id buflen buf before rs h others =
    ap (copy_read image id buf buflen) (read_frame_skips id frame before (failed ∷ rs) h others)

frame_of-some :
    (id : ℕ) (bytes : List ℕ)
    → length bytes ≤ 8
    → frame_of id bytes (length bytes)
      ≡ some (record {
        can_id = id;
        can_dlc = length bytes;
        bytes = bytes ++ replicate (8 - length bytes) 0;
      })
unfolding frame_of
frame_of-some id bytes short =
    let all : smaller 8 (length bytes) ≡ length bytes = ground arith in
    let loaded : load_at bytes 0 (length bytes) ≡ some bytes =
      ap (λ l. load_at l 0 (length bytes)) (sym (append-nil bytes))
      ∙ load_at-append [] bytes [] 0 (length bytes) refl refl in
    let stored : store_at (replicate 8 0) 0 bytes ≡ some (bytes ++ replicate (8 - length bytes) 0) =
      store_at-cleared [] bytes 0 8 0 refl short in
    rw (all, loaded, stored)

copy_frame-some :
    (image : CanFrame → List ℕ) (id k : ℕ) (bytes : List ℕ)
    → ¬ (id ≡ any_id)
    → length bytes ≤ k
    → copy_frame image id (replicate k 0) k (record {
      can_id = id;
      can_dlc = length bytes;
      bytes = bytes ++ replicate (8 - length bytes) 0;
    })
      ≡ some (pos (length bytes), bytes ++ replicate (k - length bytes) 0)
unfolding copy_frame
copy_frame-some image id k bytes h fits =
    let one : (id == any_id) ≡ false = ground arith in
    let all : smaller (length bytes) k ≡ length bytes = ground arith in
    let loaded =
      load_at-append [] bytes (replicate (8 - length bytes) 0) 0 (length bytes) refl refl in
    let stored : store_at (replicate k 0) 0 bytes ≡ some (bytes ++ replicate (k - length bytes) 0) =
      store_at-cleared [] bytes 0 k 0 refl fits in
    rw (one, all, loaded, stored)

-- At most eight bytes that one program writes with an identifier (other than 0xFFFF, which stands
-- for any) are, behind frames for others, what another reads with that identifier into a cleared
-- buffer that has room for them.
pub can_read-can_write :
    (image : CanFrame → List ℕ) (write : CanFrame → Bool) (frame : CanFrame) (id k : ℕ)
    (bytes : List ℕ) (before rs : List SocketRead)
    → ¬ (id ≡ any_id)
    → length bytes ≤ 8
    → length bytes ≤ k
    → All (IsOther id) before
    → (f : CanFrame) × (can_write write true id bytes (length bytes)
        ≡ some (if write f then pos (smaller 8 (length bytes)) else negsuc 0, some f))
      × (can_read image true frame id (replicate k 0) k (before ++ received frame_size f ∷ rs)
          ≡ returned (some (pos (length bytes), bytes ++ replicate (k - length bytes) 0, rs)))
unfolding can_write
can_read-can_write image write frame id k bytes before rs h short fits others =
    let f : CanFrame = record {
      can_id = id;
      can_dlc = length bytes;
      bytes = bytes ++ replicate (8 - length bytes) 0;
    } in
    (
      f,
      rw (frame_of-some id bytes short),
      can_read_finds image frame f id frame_size k (replicate k 0) before rs h others refl
          ∙ ap (λ o. returned (o >>= λ (len, buf'). some (len, buf', rs)))
              (copy_frame-some image id k bytes h fits),
    )
