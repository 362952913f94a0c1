-- ===== src/IsoBmff/Processor/Examples.antt =====
-- The processors of a video and an audio track on a small init segment and a small fragment.
use openplatform_rdk_aamp.Prelude.{◌≡◌, refl, inr, [], ◌∷◌, true, false, arith}
use openplatform_rdk_aamp.IsoBmff.{mdat, is_type}
use openplatform_rdk_aamp.IsoBmff.Tree.{
  leaf, Trees, encode, encode_all, body, WellFormed, tree_size,
}
use openplatform_rdk_aamp.IsoBmff.Parse.{is_container_type}
use openplatform_rdk_aamp.IsoBmff.Query.Times.{times_all}
use openplatform_rdk_aamp.IsoBmff.Examples.{
  init_trees, media_trees, init_trees-AllWellFormed, media_trees-AllWellFormed, init_length,
  media_length, init_scales, single,
}
use openplatform_rdk_aamp.IsoBmff.Processor.{
  video, audio, Processor, new_processor, other_set_base_pts, other_abort, going, blocked,
  send_segment, abort,
}
use openplatform_rdk_aamp.IsoBmff.Processor.Fragments.{IsInit, IsMedia, IsFragment, has_ftyp}
use openplatform_rdk_aamp.IsoBmff.Processor.Start.{
  video_start, audio_start, started, start_events, audio_started, audio_events,
}
use openplatform_rdk_aamp.IsoBmff.Processor.Timed.{Holds, AllTimed, send_segment-AllTimed}
use openplatform_rdk_aamp.IsoBmff.Processor.Abort.{abort_lost}

is_init : IsInit init_trees 90000
unfolding has_ftyp is_type
is_init =
    ((init_trees-AllWellFormed, omega (arith, init_length)), refl, ([], init_scales), omega arith)

media-IsFragment : IsFragment media_trees
media-IsFragment = (media_trees-AllWellFormed, omega (arith, media_length))

media_no_ftyp : has_ftyp media_trees ≡ false
unfolding has_ftyp is_type
media_no_ftyp = refl

is_media : IsMedia media_trees 180000
unfolding times_all
is_media = (media-IsFragment, media_no_ftyp, ([], refl))

video_start_example :
    (p : Processor) × (send_segment (new_processor video true) (encode_all init_trees) 2 4 [] []
      ≡ going (record { proc = p; ret = false; events = [] }))
    × (send_segment p (encode_all media_trees) 2 4 [] []
        ≡ going (record {
          proc = started true 180000 90000;
          ret = true;
          events =
              start_events true (encode_all init_trees) (encode_all media_trees) 180000 90000 2 4;
        }))
video_start_example = video_start init_trees media_trees 90000 180000 true 2 4 is_init is_media

audio_start_example :
    (p : Processor) × (send_segment (new_processor audio true) (encode_all init_trees) 2 4 [] []
      ≡ going (record { proc = p; ret = false; events = [] }))
    × (send_segment p (encode_all media_trees) 2 4 [] (other_set_base_pts 7 3 ∷ [])
        ≡ going (record {
          proc = audio_started 7 3;
          ret = true;
          events = audio_events (encode_all init_trees) (encode_all media_trees) 7 3 2 4;
        }))
audio_start_example =
    audio_start init_trees media_trees 90000 180000 3 7 2 4 [] (other_set_base_pts 7 3 ∷ []) is_init
      is_media (inr (refl, refl))

send_segment-AllTimed_example :
    Holds (send_segment (new_processor video true) (encode_all media_trees) 2 4 [] []) AllTimed
send_segment-AllTimed_example =
    send_segment-AllTimed (new_processor video true) (encode_all media_trees) 2 4 [] [] refl

abort_lost_example :
    send_segment
      (abort (new_processor audio true))
      (encode_all media_trees)
      2
      4
      (other_abort ∷ [])
      []
    ≡ blocked
abort_lost_example =
    abort_lost (new_processor audio true) media_trees 2 4 (other_abort ∷ []) refl refl
      media-IsFragment media_no_ftyp tt

abbrev untimed_trees : Trees
untimed_trees = single (leaf mdat (9 ∷ []))

untimed-IsFragment : IsFragment untimed_trees
unfolding WellFormed is_container_type is_type tree_size body encode
untimed-IsFragment = (((refl, (refl, refl, refl, refl), omega arith), tt), omega arith)
