-- ===== src/IsoBmff/Processor/Abort.antt =====
-- abort() before and during sendSegment, and fragments without a decode time.
use openplatform_rdk_aamp.Prelude.{ℕ, ◌≡◌, refl, List, [], ◌∷◌, true, false}
use openplatform_rdk_aamp.IsoBmff.{Boxes}
use openplatform_rdk_aamp.IsoBmff.Tree.{Trees, encode_all}
use openplatform_rdk_aamp.IsoBmff.Query
use openplatform_rdk_aamp.IsoBmff.Query.{Answer, is_init_segment, get_time_scale, first_pts}
use openplatform_rdk_aamp.IsoBmff.Query.Times.{times_all, first_pts-boxes_of}
use openplatform_rdk_aamp.IsoBmff.Processor.{
  video, audio, normal_play_rate, given, Processor, abort, send_stream, Other, other_abort,
  other_reset, other_set_base_pts, spurious, other, others, going, blocked, Run, audio_wait,
  video_part, first_fragment, send_segment, view, any_signal, first_buffer, take_pts, take_scale,
  ◌>>=◌,
}
use openplatform_rdk_aamp.IsoBmff.Processor.Fragments.{
  IsFragment, has_ftyp, view-encode, is_init_segment-boxes_of,
}
use openplatform_rdk_aamp.IsoBmff.Processor.Timed.{Holds, Holds-bind, Holds-always, Holds-if}

abbrev Quiet : Run → Type 0
Quiet r = (r.ret ≡ false) × (r.events ≡ [])

abbrev IsAborted : Processor → Type 0
IsAborted p = p.abort_all ≡ true

take_pts-IsAborted : (a : Answer ℕ) (p : Processor) → IsAborted p → Holds (take_pts a p) IsAborted
take_pts-IsAborted (Query.found v) p h = h
take_pts-IsAborted Query.absent p h = h
take_pts-IsAborted Query.null_deref p h = tt
take_pts-IsAborted Query.overrun p h = tt

first_fragment-Quiet :
    (boxes : Boxes) (p : Processor)
    → IsAborted p
    → Holds (first_fragment boxes (record { proc = p; ret = true; events = [] })) Quiet
unfolding first_fragment
first_fragment-Quiet boxes p h =
    Holds-bind (take_pts (first_pts boxes) p) _ IsAborted Quiet
      (take_pts-IsAborted (first_pts boxes) p h) (λ q k. rw k (refl, refl))

first_buffer-Quiet :
    (segment : List ℕ) (boxes : Boxes) (p : Processor)
    → IsAborted p
    → Holds (first_buffer segment boxes (record { proc = p; ret = true; events = [] })) Quiet
first_buffer-Quiet segment boxes p h =
    Holds-if (is_init_segment boxes) _ _ Quiet
      (Holds-bind (take_scale (get_time_scale boxes 0) p) _ (λ q. Unit {0}) Quiet
        (Holds-always _ (λ q. Unit {0}) (λ q. tt)) (λ q u. (refl, refl)))
      (first_fragment-Quiet boxes p h)

-- While the PTS is not known, an aborted video processor at the normal rate makes no call, whatever it
-- is sent: it sends nothing, seeks nothing and tells its peer nothing.
send_segment-aborted :
    (p : Processor) (segment : List ℕ) (position duration : ℕ)
    → p.type ≡ video
    → p.process_pts_complete ≡ false
    → p.play_rate ≡ normal_play_rate
    → Holds (send_segment (abort p) segment position duration [] []) (λ r. r.events ≡ [])
unfolding send_segment video_part
send_segment-aborted p segment position duration v c n =
    rw (v, c, n)
      (Holds-bind (view segment >>= _) _ Quiet (λ r. r.events ≡ [])
        (Holds-bind (view segment) _ (λ boxes. Unit {0}) Quiet
          (Holds-always _ (λ boxes. Unit {0}) (λ boxes. tt))
          (λ boxes u. first_buffer-Quiet segment boxes _ refl))
        (λ r q. rw (q.0, q.1) refl))

-- What the other threads do as long as they bring no PTS: abort and reset.
abbrev NoPts : List Other → Type 0
NoPts [] = Unit {0}
NoPts (other_set_base_pts pts scale ∷ os) = ⊥
NoPts (other_abort ∷ os) = NoPts os
NoPts (other_reset ∷ os) = NoPts os
NoPts (spurious ∷ os) = NoPts os

others-NoPts :
    (os : List Other) (p : Processor)
    → NoPts os
    → p.process_pts_complete ≡ false
    → (others os p).process_pts_complete ≡ false
unfolding others
others-NoPts [] p h c = c
others-NoPts (other_set_base_pts pts scale ∷ os) p h c = elim h [ ]
others-NoPts (other_abort ∷ os) p h c = others-NoPts os (other other_abort p) h c
others-NoPts (other_reset ∷ os) p h c = others-NoPts os (other other_reset p) h refl
others-NoPts (spurious ∷ os) p h c = others-NoPts os p h c

-- An audio processor that was aborted before the fragment comes, and has no PTS: sent a media
-- fragment, with no PTS arriving before the lock is taken and no signal after it, its thread waits for
-- ever.
pub abort_lost :
    (p : Processor) (media : Trees) (position duration : ℕ) (early : List Other)
    → p.type ≡ audio
    → p.process_pts_complete ≡ false
    → IsFragment media
    → has_ftyp media ≡ false
    → NoPts early
    → send_segment (abort p) (encode_all media) position duration early [] ≡ blocked
unfolding send_segment audio_wait any_signal
abort_lost p media position duration early a c f no_ftyp h =
    let q : Processor = record p { type = audio; process_pts_complete = false; abort_all = true } in
    let still : (others early q).process_pts_complete ≡ false = others-NoPts early q h refl in
    rw (a, c) (rw (view-encode media f, is_init_segment-boxes_of media 0, no_ftyp) (rw still refl))

-- A media fragment without a decode time is sent while the init segment is still held back: the video
-- processor logs an error, keeps the init segment for later, and sends the fragment ahead of it.
sent_before_init :
    (p : Processor) (media : Trees) (position duration : ℕ)
    → p.type ≡ video
    → p.process_pts_complete ≡ false
    → p.abort_all ≡ false
    → p.play_rate ≡ normal_play_rate
    → IsFragment media
    → has_ftyp media ≡ false
    → times_all media ≡ []
    → send_segment p (encode_all media) position duration [] []
      ≡ going (record {
        proc = p;
        ret = true;
        events = send_stream video (encode_all media) (given position) duration ∷ [];
      })
unfolding send_segment video_part first_fragment
sent_before_init p media position duration v c a n f no_ftyp no_time =
    rw (v, c, a, n)
      (rw
        (
          view-encode media f,
          is_init_segment-boxes_of media 0,
          no_ftyp,
          first_pts-boxes_of media 0 f.0,
          no_time,
        )
        (rw v refl))
