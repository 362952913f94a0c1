-- ===== src/IsoBmff/Processor/Start.antt =====
-- The start of playback: an init segment and a first fragment of each track.
use openplatform_rdk_aamp.Prelude.{
  ℕ, ◌<◌, ◌≡◌, ◌⊎◌, inl, inr, refl, List, [], ◌∷◌, ◌++◌, Bool, true, false, arith, ◌==◌,
  if◌then◌else◌, Bool-cases,
}
use openplatform_rdk_aamp.IsoBmff.Tree.{Trees, encode_all}
use openplatform_rdk_aamp.IsoBmff.Processor.{
  video, audio, normal_play_rate, given, ratio, Processor, new_processor, Event, send_stream,
  flush_stream_sink, peer_set_base_pts, pushed, Other, other_set_base_pts, others, going,
  audio_wait, audio_push, video_part, first_fragment, ensure_scale, announce, send_segment,
  any_signal,
}
use openplatform_rdk_aamp.IsoBmff.Processor.Fragments.{
  IsInit, IsMedia, view-encode, is_init_segment-boxes_of, init-time_scale, media-first_pts,
}

-- The new video processor once it holds an init segment.
abbrev pub holding : Bool → List ℕ → ℕ → Processor
holding has_peer segment v = record (new_processor video has_peer) {
  time_scale = v;
  init_segment = segment ∷ [];
}

video-init :
    (init : Trees) (v : ℕ) (has_peer : Bool) (position duration : ℕ)
    → IsInit init v
    → send_segment (new_processor video has_peer) (encode_all init) position duration [] []
      ≡ going (record { proc = holding has_peer (encode_all init) v; ret = false; events = [] })
unfolding send_segment video_part
video-init init v has_peer position duration i =
    rw (view-encode init i.0, is_init_segment-boxes_of init 0, i.1, init-time_scale init v i) refl

-- The new video processor once the first PTS is known.
abbrev pub started : Bool → ℕ → ℕ → Processor
started has_peer t v = record (new_processor video has_peer) {
  base_pts = t;
  time_scale = v;
  process_pts_complete = true;
  init_segment_process_complete = true;
}

abbrev pub start_events : Bool → List ℕ → List ℕ → ℕ → ℕ → ℕ → ℕ → List Event
start_events has_peer init media t v position duration =
    flush_stream_sink (ratio t v) normal_play_rate
    ∷ ((if has_peer then peer_set_base_pts t v ∷ [] else [])
        ++ (send_stream video init (ratio t v) 0
            ∷ send_stream video media (given position) duration
            ∷ []))

scale_known : (v : ℕ) → 0 < v → (v == 0) ≡ false
scale_known v h = ground arith

video-media :
    (init : List ℕ) (media : Trees) (v t : ℕ) (has_peer : Bool) (position duration : ℕ)
    → 0 < v
    → IsMedia media t
    → send_segment (holding has_peer init v) (encode_all media) position duration [] []
      ≡ going (record {
        proc = started has_peer t v;
        ret = true;
        events = start_events has_peer init (encode_all media) t v position duration;
      })
unfolding send_segment video_part first_fragment ensure_scale announce pushed
video-media init media v t has_peer position duration pos m =
    rw
      (
        view-encode media m.0,
        is_init_segment-boxes_of media 0,
        m.1,
        media-first_pts media t m,
        scale_known v pos,
      )
      (elim (Bool-cases has_peer) [ inl e ↦ rw e refl | inr e ↦ rw e refl ])

-- A new video processor keeps a well-formed init segment back without a call, and sends it with the
-- first well-formed fragment: it first seeks the sink to that fragment's first decode time over the
-- init segment's time scale, tells both numbers to the peer if there is one, then sends the init
-- segment at that position and the fragment at its own.
pub video_start :
    (init media : Trees) (v t : ℕ) (has_peer : Bool) (position duration : ℕ)
    → IsInit init v
    → IsMedia media t
    → (p : Processor) × (send_segment
          (new_processor video has_peer)
          (encode_all init)
          position
          duration
          []
          []
        ≡ going (record { proc = p; ret = false; events = [] }))
      × (send_segment p (encode_all media) position duration [] []
          ≡ going (record {
            proc = started has_peer t v;
            ret = true;
            events =
                start_events has_peer (encode_all init) (encode_all media) t v position duration;
          }))
video_start init media v t has_peer position duration i m = (
  holding has_peer (encode_all init) v,
  video-init init v has_peer position duration i,
  video-media (encode_all init) media v t has_peer position duration i.3 m,
)

abbrev pub waiting : List ℕ → Processor
waiting segment = record (new_processor audio true) { init_segment = segment ∷ [] }

-- The video track's setBasePTS comes before the audio thread takes the lock, or while it waits.
abbrev pub Arrives : List Other → List Other → ℕ → ℕ → Type 0
Arrives early late t v =
    (early ≡ other_set_base_pts t v ∷ []) ⊎ ((early ≡ []) × (late ≡ other_set_base_pts t v ∷ []))

audio-init :
    (init : Trees) (v position duration : ℕ)
    → IsInit init v
    → send_segment (new_processor audio true) (encode_all init) position duration [] []
      ≡ going (record { proc = waiting (encode_all init); ret = false; events = [] })
unfolding send_segment audio_wait audio_push video_part
audio-init init v position duration i =
    rw (view-encode init i.0, is_init_segment-boxes_of init 0, i.1) refl

abbrev pub audio_started : ℕ → ℕ → Processor
audio_started t v = record (new_processor audio true) {
  base_pts = t;
  time_scale = v;
  process_pts_complete = true;
  init_segment_process_complete = true;
}

abbrev pub audio_events : List ℕ → List ℕ → ℕ → ℕ → ℕ → ℕ → List Event
audio_events init media t v position duration =
    send_stream audio init (ratio t v) 0 ∷ send_stream audio media (given position) duration ∷ []

audio-media :
    (init : List ℕ) (media : Trees) (v t a position duration : ℕ) (early late : List Other)
    → IsMedia media a
    → Arrives early late t v
    → send_segment (waiting init) (encode_all media) position duration early late
      ≡ going (record {
        proc = audio_started t v;
        ret = true;
        events = audio_events init (encode_all media) t v position duration;
      })
unfolding send_segment audio_wait audio_push video_part pushed others any_signal
audio-media init media v t a position duration early late m (inl before_lock) =
    rw (view-encode media m.0, is_init_segment-boxes_of media 0, m.1, before_lock) refl
audio-media init media v t a position duration early late m (inr (none_early, woken)) =
    rw (view-encode media m.0, is_init_segment-boxes_of media 0, m.1, none_early, woken) refl

-- A new audio processor keeps its init segment back, and holds its first fragment until the video
-- track's PTS and time scale arrive, before it takes the lock or while it waits; then it sends the
-- init segment at the position that they give, and the fragment at its own, whatever the audio track's
-- time scale and decode time.
pub audio_start :
    (init media : Trees) (s a v t position duration : ℕ) (early late : List Other)
    → IsInit init s
    → IsMedia media a
    → Arrives early late t v
    → (p : Processor) × (send_segment
          (new_processor audio true)
          (encode_all init)
          position
          duration
          []
          []
        ≡ going (record { proc = p; ret = false; events = [] }))
      × (send_segment p (encode_all media) position duration early late
          ≡ going (record {
            proc = audio_started t v;
            ret = true;
            events = audio_events (encode_all init) (encode_all media) t v position duration;
          }))
audio_start init media s a v t position duration early late i m arrives = (
  waiting (encode_all init),
  audio-init init s position duration i,
  audio-media (encode_all init) media v t a position duration early late m arrives,
)
