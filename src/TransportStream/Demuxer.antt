-- ===== src/TransportStream/Demuxer.antt =====
-- Demuxer of tsprocessor.cpp: it collects the elementary stream of one PID from transport packets and
-- sends it with restamped times. The calls of the player are events. Logging and the count for it are
-- left out.
pub mod Pes
pub mod Feed
pub mod Chunks
pub mod Base
pub mod Units
pub mod Packets
pub mod Steps
pub mod Delivery
pub mod Sent
use openplatform_rdk_aamp.Prelude.{
  ℕ, zero, suc, ◌+◌, ◌-◌, ◌/◌, ◌%◌, ◌^◌, List, [], ◌∷◌, ◌++◌, Bool, true, false, not, ltb, leb,
  ◌==◌, ◌&&◌, ◌||◌, if◌then◌else◌, Option, none, some, get_elem?, take, drop, length,
}
use openplatform_rdk_aamp.TransportStream.TimeStamps.{pes_time_stamp}
use openplatform_rdk_aamp.TransportStream.Demuxer.Pes.{
  PesParser, waiting_for_header, getting_header, pes_loop,
}

-- `none` is a read behind the segment.
infixl 5 ◌>>=◌
abbrev pub ◌>>=◌ {ℓ κ} : {A : Type ℓ} {B : Type κ} → Option A → (A → Option B) → Option B
none >>= f = none
some a >>= f = f a

-- `b & (1 << k)`
abbrev pub bit : ℕ → ℕ → Bool
bit b k = b / 2 ^ k % 2 == 1

abbrev pub packet_size : ℕ
packet_size = 188

abbrev pub max_first_pts_offset : ℕ
max_first_pts_offset = 45000

-- `-1` as an unsigned long long.
abbrev pub no_pts : ℕ
no_pts = 2 ^ 64 - 1

-- A double `start + ticks / 90000`.
pub record Instant : Type 0 where
  pub start : ℕ
  pub ticks : ℕ

pub data Event : Type 0 where
  send_stream : List ℕ → Instant → Instant → ℕ → Event
  notify_first_video_pts : ℕ → Event
  notify_video_base_pts : ℕ → Event

-- The members of Demuxer. `pes` holds pes_state, pes_header, pes_header_ext_len, pes_header_ext_read and
-- es; `is_video` is `type == eMEDIATYPE_VIDEO`.
pub record Demuxer : Type 0 where
  pub pes : PesParser
  pub position : ℕ
  pub duration : ℕ
  pub base_pts : ℕ
  pub current_pts : ℕ
  pub current_dts : ℕ
  pub first_pts : ℕ
  pub is_video : Bool
  pub trickmode : Bool
  pub finalized_base_pts : Bool
  pub allow_pts_rewind : Bool

-- The condition under which send discards the elementary stream.
abbrev pub is_discarded : Demuxer → Bool
is_discarded d =
    ltb d.current_pts d.base_pts || (not (d.current_dts == 0) && ltb d.current_dts d.base_pts)

abbrev pub pts_of : Demuxer → Instant
pts_of d = record {
  start = d.position;
  ticks = if d.trickmode then 0 else d.current_pts - d.base_pts;
}

abbrev pub dts_of : Demuxer → Instant
dts_of d =
    if not d.trickmode && not (d.current_dts == 0)
    then record { start = d.position; ticks = d.current_dts - d.base_pts }
    else pts_of d

-- send
unfoldable pub send : Demuxer → Demuxer × List Event
send d = (
  record d { pes = record d.pes { es = [] } },
  if is_discarded d then [] else send_stream d.pes.es (pts_of d) (dts_of d) d.duration ∷ [],
)

-- `if (es.len > 0) send();`
unfoldable pub send_rest : Demuxer → Demuxer × List Event
send_rest d = if length d.pes.es == 0 then (d, []) else send d

-- reset
abbrev pub reset : Demuxer → Demuxer
reset d = record d { pes = record d.pes { pes_header = []; es = [] } }

-- flush
unfoldable pub flush : Demuxer → Demuxer × List Event
flush d = let (sent, events) = send_rest d in (reset sent, events)

-- init; `rewind` is the configured value of dmx.allowPtsRewind.
unfoldable pub init : ℕ → ℕ → Bool → Bool → Bool → Demuxer → Demuxer
init position duration trickmode reset_base_pts rewind d = record d {
  pes = record d.pes { pes_state = waiting_for_header; pes_header = []; es = [] };
  position = position;
  duration = duration;
  base_pts = if reset_base_pts then no_pts else d.base_pts;
  current_pts = 0;
  current_dts = 0;
  first_pts = 0;
  trickmode = trickmode;
  finalized_base_pts = false;
  allow_pts_rewind = rewind;
}

-- setBasePTS
abbrev pub set_base_pts : ℕ → Bool → Demuxer → Demuxer
set_base_pts base is_final d = record d { base_pts = base; finalized_base_pts = is_final }

-- `current_pts - base_pts` as a long long: the word, negative from 2 ^ 63 on.
abbrev pub minus_word : ℕ → ℕ → ℕ
minus_word a b = (a + 2 ^ 64 - b) % 2 ^ 64

-- The base that a first PTS leaves outside trick mode.
unfoldable pub near_base : ℕ → ℕ → ℕ
near_base base pts =
    if base == no_pts
    then minus_word pts max_first_pts_offset
    else (let delta = minus_word pts base in
        if ltb delta (2 ^ 63)
        then (if ltb max_first_pts_offset delta then minus_word pts max_first_pts_offset else base)
        else pts)

-- `if (-1 == base_pts) ... else if (base_pts > timeStamp) ...`
abbrev pub lowered_base : ℕ → ℕ → ℕ
lowered_base base pts = if base == no_pts then pts else (if ltb pts base then pts else base)

-- The block under `if(!finalized_base_pts)`, and basePtsUpdated.
unfoldable pub finalize_base : Demuxer → Demuxer × Bool
finalize_base d = if d.finalized_base_pts then (d, false) else (
  record d {
    finalized_base_pts = true;
    base_pts =
        lowered_base (if d.trickmode then d.base_pts else near_base d.base_pts d.current_pts)
          d.current_pts;
  },
  true,
)

-- The time stamp at byte `i` of the PES header.
abbrev pub time_at : List ℕ → ℕ → Option ℕ
time_at pes_start i = do
  p0 ← get_elem? pes_start i
  p1 ← get_elem? pes_start (i + 1)
  p2 ← get_elem? pes_start (i + 2)
  p3 ← get_elem? pes_start (i + 3)
  p4 ← get_elem? pes_start (i + 4)
  some (pes_time_stamp p0 p1 p2 p3 p4)

-- `a && b`, where `b` reads.
abbrev pub and_read : Bool → Option Bool → Option Bool
and_read a b = if a then b else some false

-- IS_PES_PACKET_START
abbrev pub is_pes_packet_start : List ℕ → Option Bool
is_pes_packet_start s = do
  p0 ← get_elem? s 0
  and_read (p0 == 0)
      (do p1 ← get_elem? s 1; and_read (p1 == 0) (do p2 ← get_elem? s 2; some (p2 == 1)))

abbrev pub store_pts : Demuxer → List ℕ → Option (Demuxer × Bool)
store_pts d s = do
  flags ← get_elem? s 7
  present ← and_read (bit flags 7) (do mark ← get_elem? s 9; some (bit mark 5))
  (if present
      then (do ts ← time_at s 9; some (finalize_base (record d { current_pts = ts })))
      else some (d, false))

abbrev pub store_dts : Demuxer → List ℕ → Option Demuxer
store_dts d s = do
  flags ← get_elem? s 7
  present ← and_read (bit flags 7 && bit flags 6) (do mark ← get_elem? s 14; some (bit mark 0))
  (if present then (do ts ← time_at s 14; some (record d { current_dts = ts })) else some d)

-- `/*Store the pts/dts*/`: the demuxer and basePtsUpdated.
unfoldable pub store_times : Demuxer → List ℕ → Option (Demuxer × Bool)
store_times d s = do
  start ← is_pes_packet_start s
  optional ← and_read start (do p6 ← get_elem? s 6; some (p6 / 64 % 4 == 2))
  (if optional
      then (do (timed, updated) ← store_pts d s; both ← store_dts timed s; some (both, updated))
      else some (d, false))

-- The offset of the PES data in a packet.
unfoldable pub pes_offset : List ℕ → Option ℕ
pes_offset packet = do
  p3 ← get_elem? packet 3
  (if bit p3 5 then (do len ← get_elem? packet 4; some (5 + len)) else some 4)

-- `if (first_pts == 0)`, and the notifications.
unfoldable pub note_first_pts : Demuxer → Demuxer × List Event
note_first_pts d =
    if d.first_pts == 0
    then (
      record d { first_pts = d.current_pts },
      if not d.trickmode && d.is_video
          then notify_first_video_pts d.current_pts ∷ notify_video_base_pts d.base_pts ∷ []
          else [],
    )
    else (d, [])

-- What processPacket leaves: the members, its calls, and its two reference arguments.
pub record Outcome : Type 0 where
  pub demuxer : Demuxer
  pub events : List Event
  pub base_pts_updated : Bool
  pub pts_error : Bool

-- `/*PARSE PES*/`: the rounds that pes_loop is given are enough by Demuxer/Chunks.
unfoldable pub parse_pes : Demuxer → Bool → List ℕ → Option Demuxer
parse_pes d start payload = do
  pes ←
      pes_loop 4
        (if start then record d.pes { pes_state = getting_header; pes_header = [] } else d.pes)
        payload
  some (record d { pes = pes })

-- What follows the time stamps.
unfoldable pub take_payload : Demuxer → Bool → List Event → Bool → List ℕ → Option Outcome
take_payload d start events updated payload =
    if ltb d.current_pts d.base_pts && (d.finalized_base_pts && not d.allow_pts_rewind)
    then some
        (record { demuxer = d; events = events; base_pts_updated = updated; pts_error = true })
    else (do
      (noted, more) ← some (
          note_first_pts (record d {
            base_pts = if ltb d.current_pts d.base_pts then d.current_pts else d.base_pts;
          }))
      parsed ← parse_pes noted start payload
      some (record {
        demuxer = parsed;
        events = events ++ more;
        base_pts_updated = updated;
        pts_error = false;
      }))

-- processPacket; `packet` is the segment from packetStart on, at least 188 bytes as demuxAndSend sees to.
unfoldable pub process_packet : Demuxer → List ℕ → Option Outcome
process_packet d packet = do
  p1 ← get_elem? packet 1
  p3 ← get_elem? packet 3
  offset ← pes_offset packet
  let payload = drop offset (take packet_size packet)
  (if not (bit p3 4)
      then some (record { demuxer = d; events = []; base_pts_updated = false; pts_error = false })
      else (if bit p1 6
          then (do
            (sent, events) ← some (send_rest d)
            (timed, updated) ← store_times sent (drop offset packet)
            take_payload timed true events updated payload)
          else take_payload d false [] false payload))
