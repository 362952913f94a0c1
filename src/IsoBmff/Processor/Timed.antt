-- ===== src/IsoBmff/Processor/Timed.antt =====
-- No position is the quotient by a time scale of 0.
use openplatform_rdk_aamp.Prelude.{
  ℕ, ◌≡◌, ◌≢◌, List, [], ◌∷◌, All, All-append, Bool, true, false, not, arith, ◌==◌, ◌&&◌,
  if◌then◌else◌, Bool-cases, inl, inr,
}
use openplatform_rdk_aamp.IsoBmff.{Boxes}
use openplatform_rdk_aamp.IsoBmff.Query.{first_pts, get_time_scale, is_init_segment}
use openplatform_rdk_aamp.IsoBmff.Processor.{
  TrackType, video, audio, Position, given, ratio, Processor, Event, send_stream, flush_stream_sink,
  send_error_init_fragment_missing, peer_set_base_pts, pushed, Other, Outcome, going, blocked,
  failed, ◌>>=◌, view, Run, position_of, take_scale, take_pts, missing_scale, ensure_scale,
  announce, first_fragment, first_buffer, video_part, send_segment, or_default, is_normal,
  send_rest, flush_event, peer_event,
}

abbrev pub IsTimedAt : Position → Type 0
IsTimedAt (given code) = Unit {0}
IsTimedAt (ratio pts scale) = scale ≢ 0

abbrev pub IsTimed : Event → Type 0
IsTimed (send_stream type segment position duration) = IsTimedAt position
IsTimed (flush_stream_sink position rate) = IsTimedAt position
IsTimed send_error_init_fragment_missing = Unit {0}
IsTimed (peer_set_base_pts pts scale) = scale ≢ 0

-- What holds of a run that goes on.
abbrev pub Holds {ℓ} : {A : Type ℓ} → Outcome A → (A → Type 0) → Type 0
Holds (going r) P = P r
Holds blocked P = Unit {0}
Holds failed P = Unit {0}

-- A rule for each step of the do blocks.
pub Holds-bind {ℓ κ} :
    {A : Type ℓ} {B : Type κ} (o : Outcome A) (f : A → Outcome B) (P : A → Type 0) (Q : B → Type 0)
    → Holds o P
    → ((a : A) → P a → Holds (f a) Q)
    → Holds (o >>= f) Q
Holds-bind (going a) f P Q h step = step a h
Holds-bind blocked f P Q h step = tt
Holds-bind failed f P Q h step = tt

pub Holds-always {ℓ} : {A : Type ℓ} (o : Outcome A) (P : A → Type 0) → ((a : A) → P a) → Holds o P
Holds-always (going a) P h = h a
Holds-always blocked P h = tt
Holds-always failed P h = tt

-- Both branches of a test.
pub Holds-if :
    (b : Bool) (x y : Outcome Run) (P : Run → Type 0)
    → Holds x P
    → Holds y P
    → Holds (if b then x else y) P
Holds-if true x y P h k = h
Holds-if false x y P h k = k

pushed-IsTimed :
    (type : TrackType) (segments : List (List ℕ)) (position : Position)
    → IsTimedAt position
    → All IsTimed (pushed type segments position)
unfolding pushed
pushed-IsTimed type [] position h = tt
pushed-IsTimed type (s ∷ ss) position h = (h, pushed-IsTimed type ss position h)

abbrev pub AllTimed : Run → Type 0
AllTimed r = All IsTimed r.events

-- Where the run still counts, its time scale is not 0.
abbrev Scaled : Run → Type 0
Scaled r = (r.ret ≡ true → r.proc.time_scale ≢ 0) × AllTimed r

or_default-time_scale : (p : Processor) → (or_default p).time_scale ≢ 0
or_default-time_scale p = ground arith

missing_scale-Scaled :
    (boxes : Boxes) (inits : List (List ℕ)) (r : Run)
    → AllTimed r
    → Holds (missing_scale boxes inits r) Scaled
missing_scale-Scaled boxes [] r h = (λ e. absurd (cc), All-append IsTimed r.events _ h (tt, tt))
missing_scale-Scaled boxes (s ∷ ss) r h =
    Holds-bind (take_scale (get_time_scale boxes 0) r.proc) _ (λ p. Unit {0}) Scaled
      (Holds-always _ (λ p. Unit {0}) (λ p. tt)) (λ p u. (λ e. or_default-time_scale p, h))

ensure_scale-Scaled : (boxes : Boxes) (r : Run) → AllTimed r → Holds (ensure_scale boxes r) Scaled
unfolding ensure_scale
ensure_scale-Scaled boxes r h = elim (Bool-cases (r.proc.time_scale == 0)) [
  | inl e ↦ rw e (missing_scale-Scaled boxes r.proc.init_segment r h)
  | inr e ↦ rw e (λ t. ground arith, h)
]

flush_event-IsTimed : (p : Processor) → p.time_scale ≢ 0 → All IsTimed (flush_event p)
flush_event-IsTimed p h =
    elim p.type
      as (λ (t : TrackType). All IsTimed (elim t as (λ x. List Event) [
        | video ↦ flush_stream_sink (position_of p) p.play_rate ∷ []
        | audio ↦ []
      ])) [ video ↦ (h, tt) | audio ↦ tt ]

peer_event-IsTimed : (p : Processor) → p.time_scale ≢ 0 → All IsTimed (peer_event p)
peer_event-IsTimed p h = elim (Bool-cases p.has_peer) [ inl e ↦ rw e (h, tt) | inr e ↦ rw e tt ]

announce-AllTimed : (r : Run) → Scaled r → AllTimed (announce r)
unfolding announce
announce-AllTimed r (scaled, h) = elim (Bool-cases r.ret) [
  | inl e ↦
      let s = scaled e in
      rw e (
        All-append IsTimed r.events _ h (
          All-append IsTimed (flush_event r.proc) _ (flush_event-IsTimed r.proc s) (
            All-append IsTimed (peer_event r.proc) _ (peer_event-IsTimed r.proc s)
              (pushed-IsTimed r.proc.type r.proc.init_segment (position_of r.proc) s))))
  | inr e ↦ rw e h
]

first_fragment-AllTimed :
    (boxes : Boxes) (r : Run) → AllTimed r → Holds (first_fragment boxes r) AllTimed
unfolding first_fragment
first_fragment-AllTimed boxes r h =
    Holds-bind (take_pts (first_pts boxes) r.proc) _ (λ p. Unit {0}) AllTimed
      (Holds-always _ (λ p. Unit {0}) (λ p. tt))
      (λ p u.
        Holds-if (r.ret && not p.abort_all && p.process_pts_complete) _ _ AllTimed
          (Holds-bind (ensure_scale boxes (record r { proc = p; ret = r.ret && not p.abort_all })) _
            Scaled AllTimed
            (ensure_scale-Scaled boxes (record r { proc = p; ret = r.ret && not p.abort_all }) h)
            (λ q k. announce-AllTimed q k))
          h)

first_buffer-AllTimed :
    (segment : List ℕ) (boxes : Boxes) (r : Run)
    → AllTimed r
    → Holds (first_buffer segment boxes r) AllTimed
first_buffer-AllTimed segment boxes r h =
    Holds-if (is_init_segment boxes) _ _ AllTimed
      (Holds-bind (take_scale (get_time_scale boxes 0) r.proc) _ (λ p. Unit {0}) AllTimed
        (Holds-always _ (λ p. Unit {0}) (λ p. tt)) (λ p u. h))
      (first_fragment-AllTimed boxes r h)

pub video_part-AllTimed :
    (segment : List ℕ) (r : Run) → AllTimed r → Holds (video_part segment r) AllTimed
unfolding video_part
video_part-AllTimed segment r h =
    Holds-if (r.ret && not r.proc.process_pts_complete && is_normal r.proc.play_rate) _ _ AllTimed
      (Holds-bind (view segment) _ (λ boxes. Unit {0}) AllTimed
        (Holds-always _ (λ boxes. Unit {0}) (λ boxes. tt))
        (λ boxes u. first_buffer-AllTimed segment boxes r h))
      h

send_rest-AllTimed :
    (segment : List ℕ) (position duration : ℕ) (r : Run)
    → AllTimed r
    → AllTimed (send_rest segment position duration r)
send_rest-AllTimed segment position duration r h = elim (Bool-cases r.ret) [
  | inl e ↦ rw e (All-append IsTimed r.events _ h (tt, tt))
  | inr e ↦ rw e h
]

-- Whatever the video processor is sent, and in whatever state it is, it never seeks the sink, tells the
-- peer or sends a segment with a time scale of 0.
pub send_segment-AllTimed :
    (p : Processor) (segment : List ℕ) (position duration : ℕ) (early late : List Other)
    → p.type ≡ video
    → Holds (send_segment p segment position duration early late) AllTimed
unfolding send_segment
send_segment-AllTimed p segment position duration early late is_video =
    let start : Run = record { proc = p; ret = true; events = [] } in
    rw is_video (
      Holds-bind (video_part segment start) _ AllTimed AllTimed
        (video_part-AllTimed segment start tt)
        (λ r h. send_rest-AllTimed segment position duration r h))
