-- ===== src/Tests/JkReads.antt =====
-- A JK monitor that does not report voltages.
use mybmm.Base.{◌≡◌, refl, some, [], ◌∷◌, ◌==◌, if◌then◌else◌, pos, negsuc}
use mybmm.Jk.Search.{getdata}
use mybmm.Jk.Read.{jk_read}
use mybmm.Tests.Fixed.{fixed}
use mybmm.Tests.Buses.{large_pack}

-- Nothing that is received has the signature.
silent :
    jk_read fixed (record { writes = λ i. pos 20; reads = λ i. (pos 1, 0 ∷ []) }) large_pack
    ≡ some (negsuc 0, large_pack)
unfolding jk_read getdata
silent = refl

-- The write of the third request fails.
not_asked :
    jk_read fixed
      (record { writes = λ i. (if i == 2 then negsuc 0 else pos 20); reads = λ i. (pos 1, 0 ∷ []) })
      large_pack
    ≡ some (negsuc 0, large_pack)
unfolding jk_read getdata
not_asked = refl
