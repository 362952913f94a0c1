-- ===== src/TransportStream/Demux.antt =====
-- TSProcessor::demuxAndSend of tsprocessor.cpp: it gives the packets of a segment to the demuxers of their
-- PIDs and settles the base PTS that they share. Logging is left out.
pub mod Alone
pub mod Rounds
pub mod Routing
pub mod Examples
use openplatform_rdk_aamp.Prelude.{
  ℕ, zero, suc, ◌+◌, ◌*◌, ◌/◌, ◌%◌, ◌^◌, List, [], ◌∷◌, ◌++◌, map, Bool, true, false, not, ◌==◌,
  ◌&&◌, ◌||◌, if◌then◌else◌, Option, none, some, get_elem?, drop,
}
use openplatform_rdk_aamp.TransportStream.Demuxer.{
  ◌>>=◌, bit, packet_size, Demuxer, Event, flush, init, set_base_pts, process_packet,
}
use openplatform_rdk_aamp.TransportStream.Pmt.{Component, pid_of, first_component}

pub data StreamOperation : Type 0 where
  demux_audio demux_video demux_all : StreamOperation

abbrev pub is_demux_audio : StreamOperation → Bool
is_demux_audio demux_audio = true
is_demux_audio _ = false

abbrev pub is_demux_video : StreamOperation → Bool
is_demux_video demux_video = true
is_demux_video _ = false

-- Which demuxer; also TrackToDemux, where `none` is both.
pub data Track : Type 0 where
  video audio dsmcc : Track

abbrev pub is_dsmcc : Track → Bool
is_dsmcc dsmcc = true
is_dsmcc _ = false

abbrev pub is_video_track : Track → Bool
is_video_track video = true
is_video_track _ = false

abbrev pub is_audio_track : Track → Bool
is_audio_track audio = true
is_audio_track _ = false

-- The calls: those of a demuxer, and setBasePTS of the peer with position and base.
pub data Call : Type 0 where
  from_demuxer : Track → Event → Call
  peer_set_base_pts : ℕ → ℕ → Call

-- The members of TSProcessor that demuxAndSend uses. A demuxer that is `none` is a null pointer;
-- `normal_rate` is `1.0 == m_playRate`; `rewind` is the configuration that init reads.
pub record Processor : Type 0 where
  pub operation : StreamOperation
  pub vid : Option Demuxer
  pub aud : Option Demuxer
  pub dsm : Option Demuxer
  pub video_components : List Component
  pub audio_components : List Component
  pub dsmcc_component : Option Component
  pub pcr_pid : Option ℕ
  pub demux_initialized : Bool
  pub normal_rate : Bool
  pub has_peer : Bool
  pub rewind : Bool

-- The local variables; `none` is the PID -1.
pub record Pids : Type 0 where
  pub video_pid : Option ℕ
  pub audio_pid : Option ℕ
  pub dsmcc_pid : Option ℕ

pub record Run : Type 0 where
  pub processor : Processor
  pub first_pcr : ℕ
  pub notify_peer : Bool
  pub updated_in_segment : Bool
  pub calls : List Call
  pub ret : Bool

abbrev pub exists {ℓ} : {A : Type ℓ} → Option A → Bool
exists none = false
exists (some a) = true

abbrev pub on_demuxer : (Demuxer → Demuxer) → Option Demuxer → Option Demuxer
on_demuxer f none = none
on_demuxer f (some d) = some (f d)

-- flush, then init, of one demuxer.
abbrev pub restart :
    Track → ℕ → ℕ → Bool → Bool → Bool → Option Demuxer → Option Demuxer × List Call
restart track position duration trick reset_base rewind none = (none, [])
restart track position duration trick reset_base rewind (some d) =
    let (flushed, events) = flush d in
    (some (init position duration trick reset_base rewind flushed), map (from_demuxer track) events)

-- `trackToDemux == ePC_Track_Both || trackToDemux == ...`
abbrev pub wants : Option Track → (Track → Bool) → Bool
wants none is_it = true
wants (some track) is_it = is_it track

-- The lines before the loop: the PIDs, and a restart where the stream is discontinuous or new.
unfoldable pub prepare : Processor → ℕ → ℕ → Bool → Option Track → Processor × Pids × List Call
prepare p position duration discontinuous tracks =
    let wants_video = exists p.vid && wants tracks is_video_track in
    let wants_audio = exists p.aud && wants tracks is_audio_track in
    let fresh = discontinuous || not p.demux_initialized in
    let trick = not p.normal_rate in
    let vid =
      if wants_video && fresh
      then restart video position duration trick true p.rewind p.vid
      else (p.vid, []) in
    let dsm =
      if wants_video && fresh
      then restart dsmcc position duration trick true p.rewind p.dsm
      else (p.dsm, []) in
    let aud =
      if wants_audio && fresh
      then restart audio position duration trick (not (is_demux_audio p.operation)) p.rewind p.aud
      else (p.aud, []) in
    (
      record p {
        vid = vid.0;
        aud = aud.0;
        dsm = dsm.0;
        demux_initialized = if is_demux_audio p.operation then true else p.demux_initialized;
      },
      record {
        video_pid = if wants_video then pid_of (first_component p.video_components) else none;
        audio_pid = if wants_audio then pid_of (first_component p.audio_components) else none;
        dsmcc_pid = if wants_video then pid_of p.dsmcc_component else none;
      },
      vid.1 ++ (dsm.1 ++ aud.1),
    )

abbrev pub is_pid : ℕ → Option ℕ → Bool
is_pid pid none = false
is_pid pid (some other) = pid == other

-- `(packetStart[1] & 0x1f) << 8 | packetStart[2]`
abbrev pub pid_at : List ℕ → Option ℕ
pid_at packet = do p1 ← get_elem? packet 1; p2 ← get_elem? packet 2; some (p1 % 32 * 256 + p2)

-- The demuxer of a packet.
unfoldable pub route : Processor → Pids → ℕ → Option (Track × Demuxer)
route p pids pid = elim (if is_pid pid pids.video_pid then p.vid else none) [
  | some d ↦ some (video, d)
  | none ↦ elim (if is_pid pid pids.audio_pid then p.aud else none) [
    | some d ↦ some (audio, d)
    | none ↦ elim (if is_pid pid pids.dsmcc_pid then p.dsm else none) [
      | some d ↦ some (dsmcc, d)
      | none ↦ none
    ]
  ]
]

abbrev pub set_all_bases : ℕ → Processor → Processor
set_all_bases base p = record p {
  vid = on_demuxer (set_base_pts base false) p.vid;
  aud = on_demuxer (set_base_pts base false) p.aud;
  dsm = on_demuxer (set_base_pts base false) p.dsm;
  demux_initialized = true;
}

-- The PCR of a packet, where it has one.
abbrev pub pcr_at : List ℕ → Option (Option ℕ)
pcr_at packet = do
  p3 ← get_elem? packet 3
  len ← get_elem? packet 4
  p5 ← get_elem? packet 5
  p6 ← get_elem? packet 6
  p7 ← get_elem? packet 7
  p8 ← get_elem? packet 8
  p9 ← get_elem? packet 9
  p10 ← get_elem? packet 10
  some (
      if bit p3 5 && (not (len == 0) && bit p5 4)
      then some (p6 * 2 ^ 25 + p7 * 2 ^ 17 + p8 * 2 ^ 9 + p9 * 2 + p10 / 2 ^ 7)
      else none)

-- The block that looks for the first PCR.
unfoldable pub take_pcr : Bool → ℕ → List ℕ → Run → Option Run
take_pcr discontinuous pid packet r =
    if (discontinuous || not r.processor.demux_initialized)
      && (r.first_pcr == 0 && is_pid pid r.processor.pcr_pid)
    then (do
      found ← pcr_at packet
      some (elim found [
        | none ↦ r
        | some pcr ↦ record r {
          processor = set_all_bases pcr r.processor;
          first_pcr = pcr;
          notify_peer = true;
        }
      ]))
    else some r

abbrev pub store_demuxer : Track → Demuxer → Processor → Processor
store_demuxer video d p = record p { vid = some d }
store_demuxer audio d p = record p { aud = some d }
store_demuxer dsmcc d p = record p { dsm = some d }

-- The block under `if( basePTSUpdated && notifyPeerBasePTS && !dsmccDemuxerUsed)`.
unfoldable pub share_base : Track → ℕ → ℕ → Run → Run
share_base track position base r =
    let p = r.processor in
    let to_audio =
      exists p.aud && (not (is_audio_track track) && not (is_demux_audio p.operation)) in
    let to_video =
      exists p.vid && (not (is_video_track track) && not (is_demux_video p.operation)) in
    record r {
      processor = record p {
        aud = if to_audio then on_demuxer (set_base_pts base true) p.aud else p.aud;
        vid = if not to_audio && to_video then on_demuxer (set_base_pts base true) p.vid else p.vid;
        dsm = on_demuxer (set_base_pts base true) p.dsm;
      };
      calls = r.calls ++ (if p.has_peer then peer_set_base_pts position base ∷ [] else []);
      notify_peer = false;
    }

-- `if(!m_demuxInitialized && !dsmccDemuxerUsed)`
abbrev pub late_pcr : Track → ℕ → Run → Run
late_pcr track base r =
    if not r.processor.demux_initialized && not (is_dsmcc track)
    then record r {
      processor = record r.processor { demux_initialized = true };
      notify_peer = true;
      first_pcr = base;
    }
    else r

-- The block under `if (demuxer)`; with `ret` false the loop breaks.
unfoldable pub run_demuxer : ℕ → Track → Demuxer → List ℕ → Run → Option Run
run_demuxer position track d packet r = do
  o ← process_packet d packet
  let stored = record r {
    processor = store_demuxer track o.demuxer r.processor;
    calls = r.calls ++ map (from_demuxer track) o.events;
  }
  let late = late_pcr track o.demuxer.base_pts stored
  let shared =
      if late.notify_peer && (o.base_pts_updated && not (is_dsmcc track))
      then share_base track position o.demuxer.base_pts late
      else late
  some (
      if o.pts_error && (not (is_dsmcc track) && not r.updated_in_segment)
      then record shared { ret = false }
      else record shared { updated_in_segment = r.updated_in_segment || o.base_pts_updated })

-- One round of the loop.
unfoldable pub demux_packet : Pids → ℕ → Bool → List ℕ → Run → Option Run
demux_packet pids position discontinuous packet r = do
  pid ← pid_at packet
  with_pcr ← take_pcr discontinuous pid packet r
  elim (route with_pcr.processor pids pid) [
    | none ↦ some with_pcr
    | some (track, d) ↦ run_demuxer position track d packet with_pcr
  ]

-- `while (len >= PACKET_SIZE)`, by its rounds; `none` is a read behind the segment.
unfoldable pub demux_loop : ℕ → Pids → ℕ → Bool → List ℕ → Run → Option Run
demux_loop zero pids position discontinuous memory r = some r
demux_loop (suc rounds) pids position discontinuous memory r = do
  next ← demux_packet pids position discontinuous memory r
  let rest = demux_loop rounds pids position discontinuous (drop packet_size memory) next
  (if next.ret then rest else some next)

-- demuxAndSend on a segment of `len` bytes.
unfoldable pub demux_and_send : Processor → List ℕ → ℕ → ℕ → ℕ → Bool → Option Track → Option Run
demux_and_send p memory len position duration discontinuous tracks =
    let (prepared, pids, calls) = prepare p position duration discontinuous tracks in
    demux_loop (len / packet_size) pids position discontinuous memory (record {
      processor = prepared;
      first_pcr = 0;
      notify_peer = false;
      updated_in_segment = false;
      calls = calls;
      ret = true;
    })
