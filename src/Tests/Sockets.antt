-- ===== src/Tests/Sockets.antt =====
-- Frames of a CAN socket.
use mybmm.Base.{
  ℕ, ◌≡◌, refl, true, some, List, [], ◌∷◌, arith, replicate, if◌then◌else◌, pos, negsuc, store_at,
}
use mybmm.Can.{CanFrame, failed, received, waiting, returned, any_id, smaller, can_read, can_write}
use mybmm.Can.Stream.{can_read-can_write}

abbrev image : CanFrame → List ℕ
image f = f.can_id ∷ 0 ∷ 0 ∷ 0 ∷ f.can_dlc ∷ 0 ∷ 0 ∷ 0 ∷ f.bytes

abbrev mine : CanFrame
mine = record { can_id = 0x102; can_dlc = 2; bytes = 7 ∷ 8 ∷ 0 ∷ 0 ∷ 0 ∷ 0 ∷ 0 ∷ 0 ∷ [] }

abbrev other : CanFrame
other = record { can_id = 0x35A; can_dlc = 3; bytes = 1 ∷ 2 ∷ 3 ∷ 0 ∷ 0 ∷ 0 ∷ 0 ∷ 0 ∷ [] }

-- The second of two frames is the one with the identifier.
second_read :
    can_read image true mine 0x102
      (replicate 4 0)
      4
      (received 16 other ∷ received 16 mine ∷ failed ∷ [])
    ≡ returned (some (pos 2, 7 ∷ 8 ∷ 0 ∷ 0 ∷ [], failed ∷ []))
unfolding can_read store_at
second_read = refl

still_waiting : can_read image true mine 0x102 (replicate 4 0) 4 (received 16 other ∷ []) ≡ waiting
unfolding can_read
still_waiting = refl

-- After an error the frame for somebody else is delivered.
error_read :
    can_read image true mine 0x102 (replicate 4 0) 4 (received 16 other ∷ failed ∷ [])
    ≡ returned (some (pos 3, 1 ∷ 2 ∷ 3 ∷ 0 ∷ [], []))
unfolding can_read store_at
error_read = refl

-- An incomplete frame ends a read of any frame.
incomplete_read :
    can_read image true mine any_id (replicate 4 9) 4 (received 5 other ∷ [])
    ≡ returned (some (pos 4, 0x35A ∷ 0 ∷ 0 ∷ 0 ∷ [], []))
unfolding can_read store_at
incomplete_read = refl

can_read-can_write_example :
    (f : CanFrame) × (can_write (λ f. true) true 0x102 (5 ∷ 6 ∷ 7 ∷ []) 3
      ≡ some (if true then pos (smaller 8 3) else negsuc 0, some f))
    × (can_read image true mine 0x102 (replicate 8 0) 8 (received 16 other ∷ received 16 f ∷ [])
        ≡ returned (some (pos 3, 5 ∷ 6 ∷ 7 ∷ 0 ∷ 0 ∷ 0 ∷ 0 ∷ 0 ∷ [], [])))
can_read-can_write_example =
    can_read-can_write image (λ f. true) mine 0x102 8 (5 ∷ 6 ∷ 7 ∷ []) (received 16 other ∷ []) []
      (omega arith) (omega arith) (omega arith) (omega arith, tt)
