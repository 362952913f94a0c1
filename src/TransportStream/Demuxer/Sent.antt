-- ===== src/TransportStream/Demuxer/Sent.antt =====
-- The call of SendStream that a PES packet ends in, and the one that a PTS error prevents.
use openplatform_rdk_aamp.Prelude.{
  ℕ, suc, ◌-◌, ◌<◌, ◌≤◌, ◌≡◌, ◌≢◌, refl, List, [], ◌∷◌, ◌++◌, none, some, length, arith, ap, true,
  false, if◌then◌else◌, All, ◌∙◌, ltb, ==_ne, ◌==◌, Bool-cases, inl, inr,
}
use mathlib.Core.List.{append_assoc}
use openplatform_rdk_aamp.TransportStream.Demuxer.Units.{
  PesHeader, IsHeader, encode_header, feed-header,
}
use openplatform_rdk_aamp.TransportStream.Demuxer.Packets.{
  Packet, IsPacket, segment, payloads, process_packets, process_start,
}
use openplatform_rdk_aamp.TransportStream.Demuxer.Steps.{dts_after, not_below, take_payload-error}
use openplatform_rdk_aamp.TransportStream.Demuxer.Delivery.{
  settled_base, delivered, process_packets-delivered, timed, store_times-timed,
}
use openplatform_rdk_aamp.TransportStream.Demuxer.{
  Demuxer, Event, Instant, send_stream, notify_first_video_pts, notify_video_base_pts, send_rest,
  send, flush, note_first_pts,
}

-- A start and the 90 kHz ticks behind it.
abbrev pub at_ticks : ℕ → ℕ → Instant
at_ticks start ticks = record { start = start; ticks = ticks }

-- The notifications of the first PTS of a demuxer.
abbrev pub first_notices : Demuxer → ℕ → ℕ → List Event
first_notices d pts base =
    if d.first_pts == 0
    then (if d.is_video then notify_first_video_pts pts ∷ notify_video_base_pts base ∷ [] else [])
    else []

flush_sends :
    (d : Demuxer) (b : ℕ) (bytes : List ℕ)
    → d.pes.es ≡ b ∷ bytes
    → d.trickmode ≡ false
    → d.base_pts ≤ d.current_pts
    → d.current_dts ≢ 0
    → (flush d).1 ≡ (
        if ltb d.current_dts d.base_pts
        then []
        else send_stream
            (b ∷ bytes)
            (at_ticks d.position (d.current_pts - d.base_pts))
            (at_ticks d.position (d.current_dts - d.base_pts))
            d.duration
          ∷ [])
unfolding flush send_rest send
flush_sends d b bytes e normal ordered timed_dts =
    rw
      (
        e,
        ==_ne (suc (length bytes)) 0 (λ z. absurd (omega arith)),
        normal,
        not_below d.current_pts d.base_pts ordered,
        ==_ne d.current_dts 0 timed_dts,
      )
      refl

module _ (d : Demuxer) (x : PesHeader) (k : Packet) (ks : List Packet) (b : ℕ) (begin : List ℕ)
    (well_formed : IsHeader x) (positive : 0 < x.pts) (normal : d.trickmode ≡ false)
    (ordered : settled_base d x.pts ≤ x.pts) (first_packet : IsPacket true k)
    (carries : k.payload ≡ encode_header x ++ b ∷ begin)
    (later_packets : All (IsPacket false) ks) where
  notices : (note_first_pts (timed d x)).1 ≡ first_notices d x.pts (settled_base d x.pts)
  unfolding note_first_pts
  notices = elim (Bool-cases (d.first_pts == 0)) [ inl e ↦ rw (e, normal) refl | inr e ↦ rw e refl ]

  -- What a flush sends then.
  flush-delivered :
      (dts : ℕ)
      → dts_after x.dts d.current_dts ≡ dts
      → dts ≢ 0
      → (flush (delivered d x (encode_header x ++ (b ∷ begin ++ payloads ks)))).1 ≡ (
          if ltb dts (settled_base d x.pts)
          then []
          else send_stream
              (b ∷ begin ++ payloads ks)
              (at_ticks d.position (x.pts - settled_base d x.pts))
              (at_ticks d.position (dts - settled_base d x.pts))
              d.duration
            ∷ [])
  flush-delivered dts e positive = rw (← e) (
      flush_sends (delivered d x (encode_header x ++ (b ∷ begin ++ payloads ks))) b
        (begin ++ payloads ks)
        (feed-header (timed d x).pes x (b ∷ begin ++ payloads ks) well_formed) normal ordered
        (rw e positive))

  -- A PES packet with a well-formed header, a PTS and a DTS above 0 comes in the payloads of well-formed
  -- transport packets, its header and at least one byte behind it in the first one, which alone has the unit
  -- start flag; the base PTS that it leaves is at most the PTS and the DTS, and it is not trick mode. The
  -- packets send what an earlier PES packet left, and the notifications if there was no PTS yet; the next
  -- flush sends exactly the bytes behind the header, in order, with both times counted from the base PTS.
  pub process_packets-sent :
      (dts : ℕ)
      → x.dts ≡ some dts
      → 0 < dts
      → settled_base d x.pts ≤ dts
      → (e : Demuxer) × (process_packets d (k ∷ ks)
          ≡ some (e, (send_rest d).1 ++ first_notices d x.pts (settled_base d x.pts), false))
        × ((flush e).1
            ≡ send_stream
                (b ∷ begin ++ payloads ks)
                (at_ticks d.position (x.pts - settled_base d x.pts))
                (at_ticks d.position (dts - settled_base d x.pts))
                d.duration
              ∷ [])
  process_packets-sent dts e dts_positive dts_ordered = (
    delivered d x (encode_header x ++ (b ∷ begin ++ payloads ks)),
    rw (← notices) (
        process_packets-delivered d x k ks (b ∷ begin) well_formed positive ordered first_packet
          carries later_packets),
    rw (not_below dts (settled_base d x.pts) dts_ordered) at
        (flush-delivered dts (ap (λ o. dts_after o d.current_dts) e) (λ z. absurd (omega arith))),
  )

  -- A PES packet with a well-formed header, a PTS above 0 and no DTS, while the demuxer has a DTS above 0
  -- from an earlier PES packet. It comes in the payloads of well-formed transport packets, its header and at
  -- least one byte behind it in the first one, which alone has the unit start flag; the base PTS that it
  -- leaves is at most the PTS, and it is not trick mode. The next flush sends its bytes with that old DTS,
  -- and does not send them when the old DTS is below the base PTS.
  pub process_packets-stale :
      (old : ℕ)
      → x.dts ≡ none
      → d.current_dts ≡ old
      → old ≢ 0
      → (e : Demuxer) × (process_packets d (k ∷ ks)
          ≡ some (e, (send_rest d).1 ++ first_notices d x.pts (settled_base d x.pts), false))
        × ((flush e).1 ≡ (
            if ltb old (settled_base d x.pts)
            then []
            else send_stream
                (b ∷ begin ++ payloads ks)
                (at_ticks d.position (x.pts - settled_base d x.pts))
                (at_ticks d.position (old - settled_base d x.pts))
                d.duration
              ∷ []))
  process_packets-stale old e stale positive_dts = (
    delivered d x (encode_header x ++ (b ∷ begin ++ payloads ks)),
    rw (← notices) (
        process_packets-delivered d x k ks (b ∷ begin) well_formed positive ordered first_packet
          carries later_packets),
    flush-delivered old (ap (λ o. dts_after o d.current_dts) e ∙ stale) positive_dts,
  )

-- A demuxer with a final base PTS that may not rewind, and a PES packet with a PTS below it, whose header is
-- well-formed and stands in the first transport packet, which has the unit start flag: that packet ends the
-- run with a PTS error. Nothing but what an earlier PES packet left is sent, and no byte of the new one
-- reaches the elementary stream.
pub process_packets-error :
    (d : Demuxer) (x : PesHeader) (k : Packet) (ks : List Packet) (begin : List ℕ)
    → IsHeader x
    → IsPacket true k
    → k.payload ≡ encode_header x ++ begin
    → d.finalized_base_pts ≡ true
    → d.allow_pts_rewind ≡ false
    → x.pts < d.base_pts
    → (e : Demuxer) × (process_packets d (k ∷ ks) ≡ some (e, (send_rest d).1, true))
      × (e.pes.es ≡ [])
      × (e.base_pts ≡ d.base_pts)
unfolding process_packets
process_packets-error d x k ks begin w kw e final strict below =
    let stored = store_times-timed d x (begin ++ segment ks) w in
    let below_settled : x.pts < settled_base d x.pts = rw final below in
    (
      timed d x,
      rw
          (
            process_start k (segment ks) d kw,
            e,
            append_assoc (encode_header x) begin (segment ks),
            stored.1,
            take_payload-error (timed d x) true (send_rest d).1 stored.0 (encode_header x ++ begin)
                below_settled refl strict,
          )
          refl,
      refl,
      rw final refl,
    )
