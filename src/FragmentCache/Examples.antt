-- ===== src/FragmentCache/Examples.antt =====
-- A ring of two fragments that wraps around, and a discontinuity.
use openplatform_rdk_aamp.Prelude.{ℕ, ◌≡◌, refl, List, [], ◌∷◌, false, true, some}
use openplatform_rdk_aamp.FragmentCache.{
  Fragment, Track, Context, video, new_track, fetch_fragment, inject_fragment, inject_data,
  send_part, discontinuity_part,
}
use openplatform_rdk_aamp.FragmentCache.Ring.{slots_from}
use openplatform_rdk_aamp.FragmentCache.Plain.{injected}
use openplatform_rdk_aamp.FragmentCache.Queue.{Op, fetches, injects, run, with_contents}

abbrev fragment : ℕ → Fragment
fragment n = record { ptr = some (n ∷ []); position = n; duration = 2; discontinuity = false }

-- The sink discards the fragment; one more such injection is allowed.
abbrev discards : Context
discards = record {
  normal_rate = true;
  has_parser = false;
  process_discontinuity = true;
  discarded = true;
  sink_pts_error = λ error. false;
  fail_limit = 2;
  audio_disabled = false;
}

abbrev accepts : Context
accepts = record discards { discarded = false }

abbrev session : List Op
session =
    fetches (fragment 1)
    ∷ fetches (fragment 2)
    ∷ injects accepts
    ∷ fetches (fragment 3)
    ∷ injects discards
    ∷ injects accepts
    ∷ fetches (fragment 4)
    ∷ []

session_order :
    with_contents (run session (new_track video 2))
    ≡ some (fragment 1 ∷ fragment 2 ∷ fragment 3 ∷ [], some (fragment 4) ∷ [])
unfolding run fetch_fragment inject_fragment inject_data discontinuity_part send_part injected
    slots_from
session_order = refl

abbrev marked : Fragment
marked = record (fragment 1) { discontinuity = true }

-- The ring caches the fragment with a discontinuity and another behind it.
abbrev begun : Track
begun = record (new_track video 2) {
  slots = some marked ∷ some (fragment 2) ∷ [];
  cached = 2;
  total_injected_duration = 4;
}
