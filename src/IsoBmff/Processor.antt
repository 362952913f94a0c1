-- ===== src/IsoBmff/Processor.antt =====
-- isobmff/isobmffprocessor.cpp: the processor that finds the first PTS of the video track, seeks the
-- sink to it, and holds the audio track back until it is known.
pub mod Fragments
pub mod Start
pub mod Timed
pub mod Abort
pub mod Examples
use openplatform_rdk_aamp.Prelude.{
  ℕ, zero, suc, List, [], ◌∷◌, ◌++◌, length, Bool, true, false, ◌==◌, ◌&&◌, ◌||◌, if◌then◌else◌,
  not,
}
use openplatform_rdk_aamp.IsoBmff.{Boxes}
use openplatform_rdk_aamp.IsoBmff.Parse
use openplatform_rdk_aamp.IsoBmff.Parse.{Parsed, parse_buffer}
use openplatform_rdk_aamp.IsoBmff.Query
use openplatform_rdk_aamp.IsoBmff.Query.{Answer, Scan, first_pts, get_time_scale, is_init_segment}

-- IsoBmffProcessorType
pub data TrackType : Type 0 where
  video : TrackType
  audio : TrackType

-- The play rate is a double that the processor compares with AAMP_NORMAL_PLAY_RATE and passes on.
pub data Rate : Type 0 where
  normal_play_rate : Rate
  other_rate : ℕ → Rate

abbrev pub is_normal : Rate → Bool
is_normal normal_play_rate = true
is_normal (other_rate code) = false

-- A position is a double: the caller's, or `(double)basePTS / (double)timeScale`, written unevaluated.
pub data Position : Type 0 where
  given : ℕ → Position
  ratio : ℕ → ℕ → Position

-- The members of IsoBmffProcessor; has_peer says that peerProcessor is not NULL.
pub record Processor : Type 0 where
  pub type : TrackType
  pub has_peer : Bool
  pub base_pts : ℕ
  pub process_pts_complete : Bool
  pub time_scale : ℕ
  pub init_segment : List (List ℕ)
  pub play_rate : Rate
  pub abort_all : Bool
  pub init_segment_process_complete : Bool

-- The calls that the processor makes, in their order. The fields of a SendStream are the track, the
-- bytes, the position and the duration; setBasePTS goes to the peer.
pub data Event : Type 0 where
  send_stream : TrackType → List ℕ → Position → ℕ → Event
  flush_stream_sink : Position → Rate → Event
  send_error_init_fragment_missing : Event
  peer_set_base_pts : ℕ → ℕ → Event

-- The constructor; the peer learns of it by setPeerProcessor.
abbrev pub new_processor : TrackType → Bool → Processor
new_processor type has_peer = record {
  type = type;
  has_peer = has_peer;
  base_pts = 0;
  process_pts_complete = false;
  time_scale = 0;
  init_segment = [];
  play_rate = normal_play_rate;
  abort_all = false;
  init_segment_process_complete = false;
}

abbrev pub abort : Processor → Processor
abort p = record p { abort_all = true }

abbrev pub clear_init_segment : Processor → Processor
clear_init_segment p = record p { init_segment = [] }

abbrev pub reset : Processor → Processor
reset p = record (clear_init_segment p) {
  base_pts = 0;
  time_scale = 0;
  process_pts_complete = false;
  abort_all = false;
  init_segment_process_complete = false;
}

abbrev pub set_rate : Rate → Processor → Processor
set_rate rate p = record p { play_rate = rate }

abbrev pub set_base_pts : ℕ → ℕ → Processor → Processor
set_base_pts pts scale p = record p {
  base_pts = pts;
  time_scale = scale;
  process_pts_complete = true;
}

abbrev pub cache_init_segment : List ℕ → Processor → Processor
cache_init_segment segment p = record p { init_segment = p.init_segment ++ (segment ∷ []) }

-- The calls of pushInitSegment: one for each cached segment, of duration 0.
unfoldable pub pushed : TrackType → List (List ℕ) → Position → List Event
pushed type [] position = []
pushed type (segment ∷ segments) position =
    send_stream type segment position 0 ∷ pushed type segments position

-- What other threads do to a processor whose thread is in sendSegment. `spurious` is a wake-up of
-- pthread_cond_wait without a signal.
pub data Other : Type 0 where
  other_set_base_pts : ℕ → ℕ → Other
  other_abort : Other
  other_reset : Other
  spurious : Other

abbrev pub other : Other → Processor → Processor
other (other_set_base_pts pts scale) p = set_base_pts pts scale p
other other_abort p = abort p
other other_reset p = reset p
other spurious p = p

unfoldable pub others : List Other → Processor → Processor
others [] p = p
others (o ∷ os) p = others os (other o p)

-- reset does not signal the condition.
abbrev pub signals : Other → Bool
signals (other_set_base_pts pts scale) = true
signals other_abort = true
signals other_reset = false
signals spurious = true

unfoldable pub any_signal : List Other → Bool
any_signal [] = false
any_signal (o ∷ os) = signals o || any_signal os

-- sendSegment goes on, waits for ever, or fails in the parser or in a query.
pub data Outcome {ℓ} (A : Type ℓ) : Type ℓ where
  going : A → Outcome A
  blocked : Outcome A
  failed : Outcome A

infixl 5 ◌>>=◌
abbrev pub ◌>>=◌ {ℓ κ} : {A : Type ℓ} {B : Type κ} → Outcome A → (A → Outcome B) → Outcome B
going a >>= f = f a
blocked >>= f = blocked
failed >>= f = failed

-- setBuffer and parseBuffer on a fragment.
abbrev pub parsed : Parsed Boxes → Outcome Boxes
parsed (Parse.ok boxes) = going boxes
parsed Parse.overrun = failed
parsed Parse.stuck = failed

unfoldable pub view : List ℕ → Outcome Boxes
view segment = parsed (parse_buffer (suc (length segment)) segment)

-- The variables of sendSegment and the calls that it has made.
pub record Run : Type 0 where
  pub proc : Processor
  pub ret : Bool
  pub events : List Event

-- pthread_mutex_lock, the test, pthread_cond_wait: `early` happens before the lock is taken, `late`
-- while the thread waits.
abbrev pub wait_for_pts : List Other → List Other → Processor → Outcome Processor
wait_for_pts early late p =
    if (others early p).process_pts_complete
    then going (others early p)
    else (if any_signal late then going (others late (others early p)) else blocked)

abbrev pub audio_first : List ℕ → List Other → List Other → Run → Boxes → Outcome Run
audio_first segment early late r boxes =
    if is_init_segment boxes
    then going (record r { proc = cache_init_segment segment r.proc; ret = false })
    else (do
      p ← wait_for_pts early late r.proc
      going (record r { proc = p; ret = not p.abort_all }))

-- `if (!processPTSComplete)` of the audio track
unfoldable pub audio_wait : List ℕ → List Other → List Other → Run → Outcome Run
audio_wait segment early late r =
    if r.proc.process_pts_complete
    then going r
    else (do boxes ← view segment; audio_first segment early late r boxes)

abbrev pub position_of : Processor → Position
position_of p = ratio p.base_pts p.time_scale

-- pushInitSegment, or the fragment itself where no init segment is cached.
abbrev pub push_or_send : List ℕ → ℕ → List (List ℕ) → Run → Run
push_or_send segment duration [] r = record {
  proc = record r.proc { init_segment_process_complete = true };
  ret = false;
  events = r.events ++ (send_stream r.proc.type segment (position_of r.proc) duration ∷ []);
}
push_or_send segment duration (s ∷ ss) r = record r {
  proc = record r.proc { init_segment = []; init_segment_process_complete = true };
  events = r.events ++ pushed r.proc.type (s ∷ ss) (position_of r.proc);
}

-- `if (ret && !initSegmentProcessComplete)` of the audio track
unfoldable pub audio_push : List ℕ → ℕ → Run → Run
audio_push segment duration r =
    if r.ret && not r.proc.init_segment_process_complete && r.proc.process_pts_complete
    then push_or_send segment duration r.proc.init_segment r
    else r

abbrev pub audio_part : List ℕ → ℕ → List Other → List Other → Run → Outcome Run
audio_part segment duration early late r = do
  q ← audio_wait segment early late r
  going (audio_push segment duration q)

-- `if (buffer.getTimeScale(tScale)) timeScale = tScale;`
abbrev pub take_scale : Answer Scan → Processor → Outcome Processor
take_scale (Query.found s) p = going (if s.ret then record p { time_scale = s.time_scale } else p)
take_scale Query.absent p = going p
take_scale Query.null_deref p = failed
take_scale Query.overrun p = failed

-- `if (buffer.getFirstPTS(fPts))`
abbrev pub take_pts : Answer ℕ → Processor → Outcome Processor
take_pts (Query.found v) p = going (record p { base_pts = v; process_pts_complete = true })
take_pts Query.absent p = going p
take_pts Query.null_deref p = failed
take_pts Query.overrun p = failed

abbrev pub or_default : Processor → Processor
or_default p = if p.time_scale == 0 then record p { time_scale = 1 } else p

-- `if (timeScale == 0)`: an error without an init segment, else the fragment's own time scale or 1.
abbrev pub missing_scale : Boxes → List (List ℕ) → Run → Outcome Run
missing_scale boxes [] r =
    going (record r { ret = false; events = r.events ++ (send_error_init_fragment_missing ∷ []) })
missing_scale boxes (s ∷ ss) r = do
  p ← take_scale (get_time_scale boxes 0) r.proc
  going (record r { proc = or_default p })

unfoldable pub ensure_scale : Boxes → Run → Outcome Run
ensure_scale boxes r =
    if r.proc.time_scale == 0 then missing_scale boxes r.proc.init_segment r else going r

abbrev pub flush_event : Processor → List Event
flush_event p = elim p.type [
  | video ↦ flush_stream_sink (position_of p) p.play_rate ∷ []
  | audio ↦ []
]

abbrev pub peer_event : Processor → List Event
peer_event p = if p.has_peer then peer_set_base_pts p.base_pts p.time_scale ∷ [] else []

-- The flushing seek, the peer's setBasePTS and pushInitSegment.
unfoldable pub announce : Run → Run
announce r =
    if r.ret
    then record r {
      proc = record r.proc { init_segment = []; init_segment_process_complete = true };
      events =
          r.events
          ++ (flush_event r.proc
              ++ (peer_event r.proc
                  ++ pushed r.proc.type r.proc.init_segment (position_of r.proc)));
    }
    else r

-- A fragment while the first PTS is not known.
unfoldable pub first_fragment : Boxes → Run → Outcome Run
first_fragment boxes r = do
  p ← take_pts (first_pts boxes) r.proc
  let ret = r.ret && not p.abort_all
  if ret && p.process_pts_complete
      then (do q ← ensure_scale boxes (record r { proc = p; ret = ret }); going (announce q))
      else going (record r { proc = p; ret = ret })

abbrev pub first_buffer : List ℕ → Boxes → Run → Outcome Run
first_buffer segment boxes r =
    if is_init_segment boxes
    then (do
      p ← take_scale (get_time_scale boxes 0) r.proc
      going (record r { proc = cache_init_segment segment p; ret = false }))
    else first_fragment boxes r

-- `if (ret && !processPTSComplete && playRate == AAMP_NORMAL_PLAY_RATE)`
unfoldable pub video_part : List ℕ → Run → Outcome Run
video_part segment r =
    if r.ret && not r.proc.process_pts_complete && is_normal r.proc.play_rate
    then (do boxes ← view segment; first_buffer segment boxes r)
    else going r

abbrev pub send_rest : List ℕ → ℕ → ℕ → Run → Run
send_rest segment position duration r =
    if r.ret
    then record r {
      events = r.events ++ (send_stream r.proc.type segment (given position) duration ∷ []);
    }
    else r

abbrev pub by_track : List ℕ → ℕ → List Other → List Other → Run → Outcome Run
by_track segment duration early late r = elim r.proc.type [
  | video ↦ going r
  | audio ↦ audio_part segment duration early late r
]

-- IsoBmffProcessor::sendSegment
unfoldable pub send_segment : Processor → List ℕ → ℕ → ℕ → List Other → List Other → Outcome Run
send_segment p segment position duration early late = do
  q ← by_track segment duration early late (record { proc = p; ret = true; events = [] })
  r ← video_part segment q
  going (send_rest segment position duration r)
