-- ===== src/TransportStream/Demuxer/Steps.antt =====
-- The parts of Demuxer::processPacket on the packets that carry one PES packet.
use openplatform_rdk_aamp.Prelude.{
  ℕ, ◌+◌, ◌*◌, ◌/◌, ◌<◌, ◌≤◌, ◌^◌, ◌≡◌, ◌≢◌, refl, List, [], ◌∷◌, ◌++◌, Option, none, some, arith,
  ap, Bool, true, false, if◌then◌else◌, All, subst, sym, ltb, ==_ne, ==_iff, ◌==◌, Bool-cases, inl,
  inr, lt→ltb,
}
use openplatform_rdk_aamp.TransportStream.Demuxer.Pes.{getting_header, PesParser}
use openplatform_rdk_aamp.TransportStream.Demuxer.Feed.{feed, feed-append, IsParser}
use openplatform_rdk_aamp.TransportStream.Demuxer.Chunks.{pes_loop-feed, feed-IsParser}
use openplatform_rdk_aamp.TransportStream.Demuxer.Units.{
  PesHeader, IsHeader, encode_header, pes_time_stamp-stamp, optional_marks, IsTime,
}
use openplatform_rdk_aamp.TransportStream.Demuxer.Packets.{
  Packet, IsPacket, segment, payloads, process_packets, process_next,
}
use openplatform_rdk_aamp.TransportStream.Demuxer.{
  bit, Demuxer, Event, store_times, take_payload, note_first_pts, parse_pes, finalize_base,
}

-- The parser at the start of a PES packet.
abbrev pub started : PesParser → PesParser
started p = record p { pes_state = getting_header; pes_header = [] }

abbrev pub parser_at : Bool → Demuxer → PesParser
parser_at start d = if start then started d.pes else d.pes

parser_at-IsParser : (start : Bool) (d : Demuxer) → IsParser d.pes → IsParser (parser_at start d)
parser_at-IsParser true d inv = omega arith
parser_at-IsParser false d inv = inv

parse_pes-feed :
    (d : Demuxer) (start : Bool) (payload : List ℕ)
    → IsParser (parser_at start d)
    → parse_pes d start payload ≡ some (record d { pes = feed (parser_at start d) payload })
unfolding parse_pes
parse_pes-feed d start payload inv = rw (pes_loop-feed (parser_at start d) payload inv) refl

note_first_pts-pes : (d : Demuxer) → (note_first_pts d).0.pes ≡ d.pes
unfolding note_first_pts
note_first_pts-pes d = elim (Bool-cases (d.first_pts == 0)) [
  | inl e ↦ rw e refl
  | inr e ↦ rw e refl
]

pub not_below : (a b : ℕ) → b ≤ a → ltb a b ≡ false
not_below a b h = ground arith

pub take_payload-feed :
    (d : Demuxer) (start : Bool) (events : List Event) (updated : Bool) (payload : List ℕ)
    → d.base_pts ≤ d.current_pts
    → IsParser (parser_at start d)
    → take_payload d start events updated payload
      ≡ some (record {
        demuxer = record (note_first_pts d).0 { pes = feed (parser_at start d) payload };
        events = events ++ (note_first_pts d).1;
        base_pts_updated = updated;
        pts_error = false;
      })
unfolding take_payload
take_payload-feed d start events updated payload ordered inv =
    let same : parser_at start (note_first_pts d).0 ≡ parser_at start d =
      ap (λ p. if start then started p else p) (note_first_pts-pes d) in
    rw
      (
        not_below d.current_pts d.base_pts ordered,
        parse_pes-feed (note_first_pts d).0 start payload (subst IsParser (sym same) inv),
        same,
      )
      refl

pub take_payload-error :
    (d : Demuxer) (start : Bool) (events : List Event) (updated : Bool) (payload : List ℕ)
    → d.current_pts < d.base_pts
    → d.finalized_base_pts ≡ true
    → d.allow_pts_rewind ≡ false
    → take_payload d start events updated payload
      ≡ some (record { demuxer = d; events = events; base_pts_updated = updated; pts_error = true })
unfolding take_payload
take_payload-error d start events updated payload below final strict =
    rw (lt→ltb d.current_pts d.base_pts below, final, strict) refl

note_first_pts-noted : (d : Demuxer) → d.first_pts ≢ 0 → note_first_pts d ≡ (d, [])
unfolding note_first_pts
note_first_pts-noted d noted = rw (==_ne d.first_pts 0 noted) refl

-- The packets behind the first one only feed the parser.
pub process_packets-feed :
    (d : Demuxer) (ks : List Packet)
    → d.base_pts ≤ d.current_pts
    → d.first_pts ≢ 0
    → IsParser d.pes
    → All (IsPacket false) ks
    → process_packets d ks ≡ some (record d { pes = feed d.pes (payloads ks) }, [], false)
unfolding process_packets feed
process_packets-feed d [] ordered noted inv w = refl
process_packets-feed d (k ∷ ks) ordered noted inv (w, ws) =
    rw
      (
        process_next k (segment ks) d w,
        take_payload-feed d false [] false k.payload ordered inv,
        note_first_pts-noted d noted,
        process_packets-feed (record d { pes = feed d.pes k.payload }) ks ordered noted
            (feed-IsParser d.pes k.payload inv) ws,
      )
      (ap (λ (p : PesParser). some (record d { pes = p }, [], false))
        (sym (feed-append d.pes k.payload (payloads ks))))

-- The DTS that a header leaves.
abbrev pub dts_after : Option ℕ → ℕ → ℕ
dts_after none old = old
dts_after (some dts) old = dts

flag_bits :
    (flags : ℕ)
    → flags < 64
    → (bit (128 + flags) 7 ≡ true)
      × (bit (128 + flags) 6 ≡ false)
      × (bit (192 + flags) 7 ≡ true)
      × (bit (192 + flags) 6 ≡ true)
flag_bits flags small = (
  (==_iff _ 1).1 (omega arith),
  ==_ne _ 1 (λ same. absurd (omega arith)),
  (==_iff _ 1).1 (omega arith),
  (==_iff _ 1).1 (omega arith),
)

-- The prefixes of a PTS alone, of a PTS before a DTS, and of a DTS.
prefix_bits :
    (ts : ℕ)
    → ts < 2 ^ 33
    → (bit (32 + ts / 2 ^ 30 * 2 + 1) 5 ≡ true)
      × (bit (48 + ts / 2 ^ 30 * 2 + 1) 5 ≡ true)
      × (bit (16 + ts / 2 ^ 30 * 2 + 1) 0 ≡ true)
prefix_bits ts small =
    ((==_iff _ 1).1 (omega arith), (==_iff _ 1).1 (omega arith), (==_iff _ 1).1 (omega arith))

pub store_times-header :
    (d : Demuxer) (x : PesHeader) (dts : Option ℕ) (rest : List ℕ)
    → x.dts ≡ dts
    → IsHeader x
    → (let pts_stored = finalize_base (record d { current_pts = x.pts }) in
        store_times d (encode_header (record x { dts = dts }) ++ rest)
        ≡ some (
          record pts_stored.0 { current_dts = dts_after dts pts_stored.0.current_dts },
          pts_stored.1,
        ))
unfolding store_times
store_times-header d x none rest e w =
    rw
      (
        optional_marks x.marks w.marks_small,
        (flag_bits x.flags w.flags_small).0,
        (prefix_bits x.pts w.pts_small).0,
        (flag_bits x.flags w.flags_small).1,
        pes_time_stamp-stamp 2 x.pts w.pts_small,
      )
      refl
store_times-header d x (some dts) rest e w =
    let small : dts < 2 ^ 33 = subst IsTime e w.dts_small in
    rw
      (
        optional_marks x.marks w.marks_small,
        (flag_bits x.flags w.flags_small).2,
        (prefix_bits x.pts w.pts_small).1,
        (flag_bits x.flags w.flags_small).3,
        (prefix_bits dts small).2,
        pes_time_stamp-stamp 3 x.pts w.pts_small,
        pes_time_stamp-stamp 1 dts small,
      )
      refl
