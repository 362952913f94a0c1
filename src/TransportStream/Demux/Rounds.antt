-- ===== src/TransportStream/Demux/Rounds.antt =====
-- One round of demuxAndSend on a stream that goes on, by the PID of the packet.
use openplatform_rdk_aamp.Prelude.{
  ℕ, ◌≡◌, ◌≢◌, refl, List, ◌++◌, map, Bool, true, false, ◌||◌, some, Bool-cases, inl, inr, ==_iff,
  ==_ne,
}
use openplatform_rdk_aamp.TransportStream.Demuxer.{Demuxer, Outcome, process_packet}
use openplatform_rdk_aamp.TransportStream.Demux.{
  video, audio, dsmcc, Call, from_demuxer, Processor, Pids, Run, pid_at, route, take_pcr,
  run_demuxer, demux_packet,
}

-- A started processor with its three demuxers.
abbrev pub with_demuxers : Processor → Demuxer → Demuxer → Demuxer → Processor
with_demuxers base dv da dc = record base {
  vid = some dv;
  aud = some da;
  dsm = some dc;
  demux_initialized = true;
}

abbrev pub pids : ℕ → ℕ → ℕ → Pids
pids v a c = record { video_pid = some v; audio_pid = some a; dsmcc_pid = some c }

abbrev pub going_on : Processor → Demuxer → Demuxer → Demuxer → ℕ → Bool → List Call → Run
going_on base dv da dc pcr updated calls = record {
  processor = with_demuxers base dv da dc;
  first_pcr = pcr;
  notify_peer = false;
  updated_in_segment = updated;
  calls = calls;
  ret = true;
}

module _ (base : Processor) (v a c : ℕ) (a_ne_v : a ≢ v) (c_ne_v : c ≢ v) (c_ne_a : c ≢ a) where
  module _ (position pid pcr : ℕ) (memory : List ℕ) (updated : Bool) (calls : List Call)
      (dv da dc : Demuxer) (at_pid : pid_at memory ≡ some pid) where
    pub packet_video :
        (o : Outcome)
        → pid ≡ v
        → process_packet dv memory ≡ some o
        → o.pts_error ≡ false
        → demux_packet (pids v a c) position false memory (going_on base dv da dc pcr updated calls)
          ≡ some (
              going_on base o.demuxer da dc pcr
                (updated || o.base_pts_updated)
                (calls ++ map (from_demuxer video) o.events))
    unfolding demux_packet take_pcr run_demuxer route
    packet_video o h e fine = rw (at_pid, (==_iff pid v).1 h, e, fine) refl

    pub packet_audio :
        (o : Outcome)
        → pid ≡ a
        → process_packet da memory ≡ some o
        → o.pts_error ≡ false
        → demux_packet (pids v a c) position false memory (going_on base dv da dc pcr updated calls)
          ≡ some (
              going_on base dv o.demuxer dc pcr
                (updated || o.base_pts_updated)
                (calls ++ map (from_demuxer audio) o.events))
    unfolding demux_packet take_pcr run_demuxer route
    packet_audio o h e fine =
        rw (at_pid, ==_ne pid v (rw h a_ne_v), (==_iff pid a).1 h, e, fine) refl

    pub packet_dsmcc :
        (o : Outcome)
        → pid ≡ c
        → process_packet dc memory ≡ some o
        → demux_packet (pids v a c) position false memory (going_on base dv da dc pcr updated calls)
          ≡ some (
              going_on base dv da o.demuxer pcr
                (updated || o.base_pts_updated)
                (calls ++ map (from_demuxer dsmcc) o.events))
    unfolding demux_packet take_pcr run_demuxer route
    packet_dsmcc o h e = elim (Bool-cases o.pts_error) [
      | inl wrong ↦
          rw
            (
              at_pid,
              ==_ne pid v (rw h c_ne_v),
              ==_ne pid a (rw h c_ne_a),
              (==_iff pid c).1 h,
              e,
              wrong,
            )
            refl
      | inr fine ↦
          rw
            (
              at_pid,
              ==_ne pid v (rw h c_ne_v),
              ==_ne pid a (rw h c_ne_a),
              (==_iff pid c).1 h,
              e,
              fine,
            )
            refl
    ]

    pub packet_other :
        pid ≢ v
        → pid ≢ a
        → pid ≢ c
        → demux_packet (pids v a c) position false memory (going_on base dv da dc pcr updated calls)
          ≡ some (going_on base dv da dc pcr updated calls)
    unfolding demux_packet take_pcr route
    packet_other nv na nc = rw (at_pid, ==_ne pid v nv, ==_ne pid a na, ==_ne pid c nc) refl
