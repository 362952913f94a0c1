-- ===== src/TransportStream/Demux/Examples.antt =====
-- demuxAndSend at a concrete segment.
use openplatform_rdk_aamp.Prelude.{
  ℕ, ◌≡◌, refl, List, [], ◌∷◌, ◌++◌, none, some, replicate, true, false, arith,
}
use openplatform_rdk_aamp.TransportStream.TimeStamps.{pes_time_stamp}
use openplatform_rdk_aamp.TransportStream.Demuxer.Pes.{getting_es, header_read, pes_case, pes_loop}
use openplatform_rdk_aamp.TransportStream.Demuxer.Packets.{encode_packet}
use openplatform_rdk_aamp.TransportStream.Demuxer.{
  process_packet, pes_offset, store_times, take_payload, note_first_pts, parse_pes, Demuxer,
  send_rest, finalize_base, near_base,
}
use openplatform_rdk_aamp.TransportStream.Pmt.{Component}
use openplatform_rdk_aamp.TransportStream.Demux.{
  Processor, Run, Track, audio, dsmcc, demux_all, demux_and_send,
}
use openplatform_rdk_aamp.TransportStream.Demux.Alone.{alone, events_of}
use openplatform_rdk_aamp.TransportStream.Demux.Rounds.{with_demuxers}
use openplatform_rdk_aamp.TransportStream.Demux.Routing.{demux_and_send-alone}
use openplatform_rdk_aamp.TransportStream.Examples.{first_packet, second_packet, timed_video}

-- A processor of video, audio and DSM-CC, and a segment of a video packet, a packet of another PID, a DSM-CC
-- packet without payload, and a second video packet.
abbrev component : ℕ → Component
component pid = record { pid = pid; elem_stream_type = 0x1b; language = none }

abbrev processor : Processor
processor = record {
  operation = demux_all;
  vid = none;
  aud = none;
  dsm = none;
  video_components = component 256 ∷ [];
  audio_components = component 1 ∷ [];
  dsmcc_component = some (component 2);
  pcr_pid = some 256;
  demux_initialized = true;
  normal_rate = true;
  has_peer = true;
  rewind = false;
}

abbrev empty_packet : ℕ → List ℕ
empty_packet pid = 0x47 ∷ 0 ∷ pid ∷ 0x20 ∷ 183 ∷ replicate 183 255

abbrev mixed_segment : List ℕ
mixed_segment =
    encode_packet first_packet
    ++ (empty_packet 9 ++ (empty_packet 2 ++ encode_packet second_packet))

abbrev idle : Demuxer
idle = record timed_video { is_video = false }

abbrev after_segment : Demuxer
after_segment = record timed_video {
  pes = record {
    pes_state = getting_es;
    pes_header = 0 ∷ 0 ∷ 1 ∷ 224 ∷ 0 ∷ 0 ∷ 132 ∷ 192 ∷ 10 ∷ [];
    pes_header_ext_len = 10;
    pes_header_ext_read = 10;
    es = 0 ∷ replicate 164 1 ++ replicate 100 2;
  };
  current_pts = 903600;
  current_dts = 900000;
}

video_alone : alone 256 4 mixed_segment timed_video ≡ some (after_segment, [], true)
unfolding alone process_packet pes_offset store_times send_rest pes_time_stamp finalize_base
    near_base take_payload note_first_pts parse_pes pes_loop pes_case header_read
video_alone = refl

audio_alone : alone 1 4 mixed_segment idle ≡ some (idle, [], true)
unfolding alone
audio_alone = refl

dsmcc_alone : alone 2 4 mixed_segment idle ≡ some (idle, [], true)
unfolding alone process_packet pes_offset
dsmcc_alone = refl

demux_and_send-alone_example :
    (r : Run) × (demux_and_send
        (with_demuxers processor timed_video idle idle)
        mixed_segment
        752
        10
        2
        false
        none
      ≡ some r)
    × (r.ret ≡ true)
    × (r.processor ≡ with_demuxers processor after_segment idle idle)
    × (events_of Track.video r.calls ≡ [])
    × (events_of audio r.calls ≡ [])
    × (events_of dsmcc r.calls ≡ [])
demux_and_send-alone_example =
    demux_and_send-alone processor 256 1 2 (λ e. absurd (omega arith)) (λ e. absurd (omega arith))
      (λ e. absurd (omega arith)) mixed_segment 752 10 2 timed_video idle idle after_segment idle
      idle [] [] [] true refl refl refl video_alone audio_alone dsmcc_alone
