-- ===== src/TransportStream/Demuxer/Delivery.antt =====
-- What Demuxer sends for a PES packet that comes in transport packets.
use openplatform_rdk_aamp.Prelude.{
  ℕ, ◌<◌, ◌≤◌, ◌≡◌, ◌≢◌, refl, List, [], ◌∷◌, ◌++◌, some, length, arith, ap, Bool, true, false,
  if◌then◌else◌, All, sym, ◌∙◌, ◌==◌, Bool-cases, inl, inr,
}
use mathlib.Core.List.{append_assoc, append-nil}
use openplatform_rdk_aamp.TransportStream.Demuxer.Pes.{PesParser}
use openplatform_rdk_aamp.TransportStream.Demuxer.Feed.{feed, feed-append}
use openplatform_rdk_aamp.TransportStream.Demuxer.Chunks.{feed-IsParser}
use openplatform_rdk_aamp.TransportStream.Demuxer.Units.{PesHeader, IsHeader, encode_header}
use openplatform_rdk_aamp.TransportStream.Demuxer.Packets.{
  Packet, IsPacket, segment, payloads, process_packets, process_start,
}
use openplatform_rdk_aamp.TransportStream.Demuxer.Steps.{
  started, take_payload-feed, process_packets-feed, store_times-header, dts_after,
}
use openplatform_rdk_aamp.TransportStream.Demuxer.{
  Demuxer, Event, send_rest, send, store_times, note_first_pts, finalize_base, lowered_base,
  near_base,
}

-- The base PTS after a unit with this PTS.
abbrev pub settled_base : Demuxer → ℕ → ℕ
settled_base d pts =
    if d.finalized_base_pts
    then d.base_pts
    else lowered_base (if d.trickmode then d.base_pts else near_base d.base_pts pts) pts

length_zero : (xs : List ℕ) → (length xs == 0) ≡ true → xs ≡ []
length_zero [] h = refl
length_zero (x ∷ xs) h = absurd (ground arith)

send_rest-demuxer : (d : Demuxer) → (send_rest d).0 ≡ record d { pes = record d.pes { es = [] } }
unfolding send_rest send
send_rest-demuxer d = elim (Bool-cases (length d.pes.es == 0)) [
  | inl e ↦
      rw e
        (ap (λ (xs : List ℕ). record d { pes = record d.pes { es = xs } }) (length_zero d.pes.es e))
  | inr e ↦ rw e refl
]

finalize_base-demuxer :
    (d : Demuxer)
    → (finalize_base d).0
      ≡ record d { base_pts = settled_base d d.current_pts; finalized_base_pts = true }
unfolding finalize_base
finalize_base-demuxer d = elim (Bool-cases d.finalized_base_pts) [
  | inl e ↦ rw e refl
  | inr e ↦ rw e refl
]

note_first_pts-demuxer :
    (d : Demuxer)
    → (note_first_pts d).0
      ≡ record d { first_pts = if d.first_pts == 0 then d.current_pts else d.first_pts }
unfolding note_first_pts
note_first_pts-demuxer d = elim (Bool-cases (d.first_pts == 0)) [
  | inl e ↦ rw e refl
  | inr e ↦ rw e refl
]

module _ (d : Demuxer) (x : PesHeader) where
  -- The demuxer with the times of a unit, before its data.
  abbrev pub timed : Demuxer
  timed = record d {
    pes = record d.pes { es = [] };
    base_pts = settled_base d x.pts;
    current_pts = x.pts;
    current_dts = dts_after x.dts d.current_dts;
    finalized_base_pts = true;
  }

  pub store_times-timed :
      (rest : List ℕ)
      → IsHeader x
      → (updated : Bool) × (store_times (send_rest d).0 (encode_header x ++ rest)
          ≡ some (timed, updated))
  store_times-timed rest w = (
    (finalize_base (record d { pes = record d.pes { es = [] }; current_pts = x.pts })).1,
    rw
        (
          send_rest-demuxer d,
          store_times-header (record d { pes = record d.pes { es = [] } }) x x.dts rest refl w,
          finalize_base-demuxer (record d { pes = record d.pes { es = [] }; current_pts = x.pts }),
        )
        refl,
  )

  -- The demuxer after the packets of the unit.
  abbrev pub delivered_by : PesParser → Demuxer
  delivered_by parser = record timed {
    pes = parser;
    first_pts = if d.first_pts == 0 then x.pts else d.first_pts;
  }

  abbrev pub delivered : List ℕ → Demuxer
  delivered bytes = delivered_by (feed (started timed.pes) bytes)

  first_pts_set : 0 < x.pts → (if d.first_pts == 0 then x.pts else d.first_pts) ≢ 0
  first_pts_set positive = ground arith

  pub process_packets-delivered :
      (k : Packet) (ks : List Packet) (begin : List ℕ)
      → IsHeader x
      → 0 < x.pts
      → settled_base d x.pts ≤ x.pts
      → IsPacket true k
      → k.payload ≡ encode_header x ++ begin
      → All (IsPacket false) ks
      → process_packets d (k ∷ ks)
        ≡ some (
          delivered (encode_header x ++ (begin ++ payloads ks)),
          (send_rest d).1 ++ (note_first_pts timed).1,
          false,
        )
  unfolding process_packets
  process_packets-delivered k ks begin w positive ordered kw e ws =
      let stored = store_times-timed (begin ++ segment ks) w in
      rw
        (
          process_start k (segment ks) d kw,
          e,
          append_assoc (encode_header x) begin (segment ks),
          stored.1,
          take_payload-feed timed true (send_rest d).1 stored.0 (encode_header x ++ begin) ordered
              (omega arith),
          note_first_pts-demuxer timed,
          process_packets-feed (delivered (encode_header x ++ begin)) ks ordered
              (first_pts_set positive)
              (feed-IsParser (started timed.pes) (encode_header x ++ begin) (omega arith)) ws,
        )
        (ap
            (λ (events : List Event). some (
              delivered_by
                  (feed (feed (started timed.pes) (encode_header x ++ begin)) (payloads ks)),
              events,
              false,
            ))
            (append-nil ((send_rest d).1 ++ (note_first_pts timed).1))
          ∙ ap
              (λ (p : PesParser).
                some (delivered_by p, (send_rest d).1 ++ (note_first_pts timed).1, false))
              (sym (feed-append (started timed.pes) (encode_header x ++ begin) (payloads ks))
                ∙ ap (feed (started timed.pes))
                    (append_assoc (encode_header x) begin (payloads ks))))
