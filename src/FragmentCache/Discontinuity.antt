-- ===== src/FragmentCache/Discontinuity.antt =====
-- InjectFragment on a fragment that starts a discontinuity.
use openplatform_rdk_aamp.Prelude.{true, false}
use openplatform_rdk_aamp.FragmentCache.{Fragment, Track, clear_discontinuity}

-- The track after ProcessDiscontinuity stopped the injection.
abbrev stopped : Fragment → Track → Track
stopped f t = record (clear_discontinuity f t) { pts_error = false; discontinuity_processed = true }
