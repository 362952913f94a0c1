-- ===== src/TransportStream/Examples.antt =====
-- The theorems on time stamps and on Demuxer at concrete packets, and tests.
use openplatform_rdk_aamp.Prelude.{
  ℕ, ◌+◌, ◌-◌, ◌%◌, ◌^◌, ◌<◌, ◌≤◌, ◌≡◌, refl, List, [], ◌∷◌, ◌++◌, none, some, replicate, true,
  false, arith, ltb, if◌then◌else◌,
}
use openplatform_rdk_aamp.TransportStream.TimeStamps.{
  read_time_stamp, write_time_stamp, known_prefix, has_markers, pes_time_stamp, pes_time_stamp-read,
  read_time_stamp-write,
}
use openplatform_rdk_aamp.TransportStream.Demuxer.Pes.{waiting_for_header, getting_header, pes_loop}
use openplatform_rdk_aamp.TransportStream.Demuxer.Feed.{feed, parser}
use openplatform_rdk_aamp.TransportStream.Demuxer.Chunks.{pes_loop-feed}
use openplatform_rdk_aamp.TransportStream.Demuxer.Base.{finalize_base-bounds}
use openplatform_rdk_aamp.TransportStream.Demuxer.Units.{PesHeader, IsHeader, encode_header}
use openplatform_rdk_aamp.TransportStream.Demuxer.Packets.{
  Packet, IsPacket, payloads, process_packets,
}
use openplatform_rdk_aamp.TransportStream.Demuxer.Delivery.{settled_base}
use openplatform_rdk_aamp.TransportStream.Demuxer.Sent.{
  at_ticks, first_notices, process_packets-sent, process_packets-stale, process_packets-error,
}
use openplatform_rdk_aamp.TransportStream.Demuxer.{
  Demuxer, send_stream, no_pts, flush, send_rest, finalize_base, near_base,
}

read_time_stamp-write_example :
    (written : List ℕ) × (write_time_stamp (7 ∷ 7 ∷ 7 ∷ 7 ∷ 7 ∷ 9 ∷ []) 3 (2 ^ 33 + 123456)
      ≡ some written)
    × (read_time_stamp written ≡ some (known_prefix 3, (2 ^ 33 + 123456) % 2 ^ 33))
read_time_stamp-write_example = read_time_stamp-write 7 7 7 7 7 3 (2 ^ 33 + 123456) (9 ∷ [])

pes_time_stamp-read_example :
    (read_time_stamp (0x2f ∷ 0x12 ∷ 0x35 ∷ 0xff ∷ 0x80 ∷ [])
      ≡ some (has_markers 0x2f 0x35 0x80, pes_time_stamp 0x2f 0x12 0x35 0xff 0x80))
    × (pes_time_stamp 0x2f 0x12 0x35 0xff 0x80 < 2 ^ 33)
pes_time_stamp-read_example = pes_time_stamp-read 0x2f 0x12 0x35 0xff 0x80 [] (omega arith)

-- Seven bytes of a header, one byte of its extension and two of the elementary stream.
pes_loop-feed_example :
    pes_loop 4
      (parser getting_header (0 ∷ 0 ∷ []) 0 0 [])
      (1 ∷ 224 ∷ 0 ∷ 0 ∷ 128 ∷ 0 ∷ 1 ∷ 9 ∷ 5 ∷ 6 ∷ [])
    ≡ some (
        feed
          (parser getting_header (0 ∷ 0 ∷ []) 0 0 [])
          (1 ∷ 224 ∷ 0 ∷ 0 ∷ 128 ∷ 0 ∷ 1 ∷ 9 ∷ 5 ∷ 6 ∷ []))
pes_loop-feed_example =
    pes_loop-feed (parser getting_header (0 ∷ 0 ∷ []) 0 0 [])
      (1 ∷ 224 ∷ 0 ∷ 0 ∷ 128 ∷ 0 ∷ 1 ∷ 9 ∷ 5 ∷ 6 ∷ []) (omega arith)

-- A video demuxer at position 10 that has a base PTS from a PCR.
abbrev video : Demuxer
video = record {
  pes = parser waiting_for_header [] 0 0 [];
  position = 10;
  duration = 2;
  base_pts = 899000;
  current_pts = 0;
  current_dts = 0;
  first_pts = 0;
  is_video = true;
  trickmode = false;
  finalized_base_pts = false;
  allow_pts_rewind = false;
}

finalize_base-bounds_example :
    (let d : Demuxer = record video { current_pts = 20000; base_pts = no_pts } in
      ((finalize_base d).0.finalized_base_pts ≡ true)
      × ((finalize_base d).0.current_pts ≡ d.current_pts)
      × ((finalize_base d).0.base_pts ≤ d.current_pts)
      × (d.current_pts ≤ (finalize_base d).0.base_pts + 45000))
finalize_base-bounds_example =
    finalize_base-bounds (record video { current_pts = 20000; base_pts = no_pts }) refl
      (omega arith) (omega arith) refl

abbrev header : PesHeader
header = record {
  id = 224;
  len_high = 0;
  len_low = 0;
  marks = 4;
  flags = 0;
  pts = 903600;
  dts = some 900000;
  more = [];
}

header-IsHeader : IsHeader header
header-IsHeader = record {
  marks_small = omega arith;
  flags_small = omega arith;
  pts_small = omega arith;
  dts_small = omega arith;
  optional_small = omega arith;
}

abbrev start_packet : PesHeader → List ℕ → Packet
start_packet x begin = record {
  p1 = 0x41;
  p2 = 0;
  p3 = 0x17;
  adaptation = none;
  payload = encode_header x ++ begin;
}

abbrev pub first_packet : Packet
first_packet = start_packet header (0 ∷ replicate 164 1)

abbrev pub second_packet : Packet
second_packet = record {
  p1 = 1;
  p2 = 0;
  p3 = 0x38;
  adaptation = some (replicate 83 255);
  payload = replicate 100 2;
}

first_packet-IsPacket : IsPacket true first_packet
first_packet-IsPacket = record { starts = refl; has_payload = refl; flagged = refl; full = refl }

second_packet-IsPacket : IsPacket false second_packet
second_packet-IsPacket = record { starts = refl; has_payload = refl; flagged = refl; full = refl }

video_base : settled_base video 903600 ≡ 899000
unfolding near_base
video_base = refl

video_base_le_pts : settled_base video 903600 ≤ 903600
unfolding near_base
video_base_le_pts = omega arith

video_base_le_dts : settled_base video 903600 ≤ 900000
unfolding near_base
video_base_le_dts = omega arith

process_packets-sent_example :
    (e : Demuxer) × (process_packets video (first_packet ∷ second_packet ∷ [])
      ≡ some
          (e, (send_rest video).1 ++ first_notices video 903600 (settled_base video 903600), false))
    × ((flush e).1
        ≡ send_stream
            (0 ∷ replicate 164 1 ++ payloads (second_packet ∷ []))
            (at_ticks 10 (903600 - settled_base video 903600))
            (at_ticks 10 (900000 - settled_base video 903600))
            2
          ∷ [])
process_packets-sent_example =
    process_packets-sent video header first_packet (second_packet ∷ []) 0 (replicate 164 1)
      header-IsHeader (omega arith) refl video_base_le_pts first_packet-IsPacket refl
      (second_packet-IsPacket, tt) 900000 refl (omega arith) video_base_le_dts

-- A PES packet without a DTS, after one with the DTS 860000.
abbrev late : PesHeader
late = record header { dts = none; more = replicate 5 255 }

abbrev late_packet : Packet
late_packet = start_packet late (0 ∷ replicate 164 1)

late-IsHeader : IsHeader late
late-IsHeader = record {
  marks_small = omega arith;
  flags_small = omega arith;
  pts_small = omega arith;
  dts_small = tt;
  optional_small = omega arith;
}

late_packet-IsPacket : IsPacket true late_packet
late_packet-IsPacket = record { starts = refl; has_payload = refl; flagged = refl; full = refl }

abbrev pub timed_video : Demuxer
timed_video = record video {
  current_pts = 860000;
  current_dts = 860000;
  base_pts = 850000;
  first_pts = 855000;
  finalized_base_pts = true;
}

process_packets-stale_example :
    (e : Demuxer) × (process_packets timed_video (late_packet ∷ second_packet ∷ [])
      ≡ some (
        e,
        (send_rest timed_video).1
            ++ first_notices timed_video 903600 (settled_base timed_video 903600),
        false,
      ))
    × ((flush e).1 ≡ (
        if ltb 860000 (settled_base timed_video 903600)
        then []
        else send_stream
            (0 ∷ replicate 164 1 ++ payloads (second_packet ∷ []))
            (at_ticks 10 (903600 - settled_base timed_video 903600))
            (at_ticks 10 (860000 - settled_base timed_video 903600))
            2
          ∷ []))
process_packets-stale_example =
    process_packets-stale timed_video late late_packet (second_packet ∷ []) 0 (replicate 164 1)
      late-IsHeader (omega arith) refl (omega arith) late_packet-IsPacket refl
      (second_packet-IsPacket, tt) 860000 refl refl (λ z. absurd (omega arith))

-- A final base PTS above the PTS.
abbrev ahead : Demuxer
ahead = record timed_video { base_pts = 910000 }

process_packets-error_example :
    (e : Demuxer) × (process_packets ahead (first_packet ∷ second_packet ∷ [])
      ≡ some (e, (send_rest ahead).1, true))
    × (e.pes.es ≡ [])
    × (e.base_pts ≡ 910000)
process_packets-error_example =
    process_packets-error ahead header first_packet (second_packet ∷ []) (0 ∷ replicate 164 1)
      header-IsHeader first_packet-IsPacket refl refl refl (omega arith)
