-- ===== src/TransportStream/Demuxer/Base.antt =====
-- The base PTS that Demuxer::processPacket settles on.
use openplatform_rdk_aamp.Prelude.{ℕ, ◌+◌, ◌^◌, ◌<◌, ◌≤◌, ◌≡◌, refl, true, false, arith}
use openplatform_rdk_aamp.TransportStream.Demuxer.{Demuxer, near_base, lowered_base, finalize_base}

lowered_base-le : (base pts : ℕ) → pts < 2 ^ 33 → lowered_base base pts ≤ pts
lowered_base-le base pts small = ground arith

near_base-close :
    (base pts : ℕ)
    → base < 2 ^ 64
    → pts < 2 ^ 33
    → pts ≤ lowered_base (near_base base pts) pts + 45000
unfolding near_base
near_base-close base pts word small = ground arith

-- Outside trick mode the first PTS of a demuxer finalizes its base PTS, at or below that PTS and at most
-- 45000 ticks below it, whatever 64 bit number the base was before, -1 included.
pub finalize_base-bounds :
    (d : Demuxer)
    → d.finalized_base_pts ≡ false
    → d.base_pts < 2 ^ 64
    → d.current_pts < 2 ^ 33
    → d.trickmode ≡ false
    → ((finalize_base d).0.finalized_base_pts ≡ true)
      × ((finalize_base d).0.current_pts ≡ d.current_pts)
      × ((finalize_base d).0.base_pts ≤ d.current_pts)
      × (d.current_pts ≤ (finalize_base d).0.base_pts + 45000)
unfolding finalize_base
finalize_base-bounds d open_yet word small normal =
    rw (open_yet, normal)
      (
        refl,
        refl,
        lowered_base-le _ d.current_pts small,
        near_base-close d.base_pts d.current_pts word small,
      )
