-- ===== src/TransportStream/Demuxer/Packets.antt =====
-- Transport packets, described by their bytes, and Demuxer::processPacket on a run of them.
use openplatform_rdk_aamp.Prelude.{
  ℕ, suc, ◌+◌, ◌≡◌, refl, List, [], ◌∷◌, ◌++◌, Option, none, some, length, arith, ap, Bool, true,
  false, if◌then◌else◌, take, drop, take-append, drop-append, sym, ◌∙◌,
}
use mathlib.Core.List.{append_assoc}
use openplatform_rdk_aamp.TransportStream.Demuxer.{
  ◌>>=◌, bit, Demuxer, Event, send_rest, store_times, take_payload, process_packet, pes_offset,
  packet_size,
}

-- A packet: its three header bytes behind the sync byte, the adaptation field without its length, and
-- the payload.
pub record Packet : Type 0 where
  pub p1 : ℕ
  pub p2 : ℕ
  pub p3 : ℕ
  pub adaptation : Option (List ℕ)
  pub payload : List ℕ

abbrev pub adaptation_bytes : Option (List ℕ) → List ℕ
adaptation_bytes none = []
adaptation_bytes (some field) = length field ∷ field

abbrev pub encode_packet : Packet → List ℕ
encode_packet k = 0x47 ∷ k.p1 ∷ k.p2 ∷ k.p3 ∷ adaptation_bytes k.adaptation ++ k.payload

-- The adaptation flag of the fourth byte.
abbrev pub has_adaptation : Option (List ℕ) → Bool
has_adaptation none = false
has_adaptation (some field) = true

pub record IsPacket (start : Bool) (k : Packet) : Type 0 where
  pub starts : bit k.p1 6 ≡ start
  pub has_payload : bit k.p3 4 ≡ true
  pub flagged : bit k.p3 5 ≡ has_adaptation k.adaptation
  pub full : length (encode_packet k) ≡ 188

abbrev pub segment : List Packet → List ℕ
segment [] = []
segment (k ∷ ks) = encode_packet k ++ segment ks

abbrev pub payloads : List Packet → List ℕ
payloads [] = []
payloads (k ∷ ks) = k.payload ++ payloads ks

-- The loop of demuxAndSend over packets that all go to one demuxer: a PTS error ends it.
unfoldable pub process_packets : Demuxer → List Packet → Option (Demuxer × List Event × Bool)
process_packets d [] = some (d, [], false)
process_packets d (k ∷ ks) = do
  o ← process_packet d (segment (k ∷ ks))
  (if o.pts_error then some (o.demuxer, o.events, true) else (do
    (e, events, error) ← process_packets o.demuxer ks
    some (e, o.events ++ events, error)))

abbrev offset_of : Option (List ℕ) → ℕ
offset_of none = 4
offset_of (some field) = 5 + length field

pes_offset-encode :
    (p1 p2 p3 : ℕ) (a : Option (List ℕ)) (rest memory : List ℕ)
    → bit p3 5 ≡ has_adaptation a
    → pes_offset ((0x47 ∷ p1 ∷ p2 ∷ p3 ∷ adaptation_bytes a ++ rest) ++ memory) ≡ some (offset_of a)
unfolding pes_offset
pes_offset-encode p1 p2 p3 none rest memory flagged = rw flagged refl
pes_offset-encode p1 p2 p3 (some field) rest memory flagged = rw flagged refl

drop-offset_of :
    (p1 p2 p3 : ℕ) (a : Option (List ℕ)) (rest : List ℕ)
    → drop (offset_of a) (0x47 ∷ p1 ∷ p2 ∷ p3 ∷ adaptation_bytes a ++ rest) ≡ rest
drop-offset_of p1 p2 p3 none rest = refl
drop-offset_of p1 p2 p3 (some field) rest =
    let e : 5 + length field ≡ suc (suc (suc (suc (suc (length field))))) = omega arith in
    rw e (drop-append field rest)

module _ (k : Packet) (memory : List ℕ) where
  whole_packet :
      length (encode_packet k) ≡ 188
      → take packet_size (encode_packet k ++ memory) ≡ encode_packet k
  whole_packet full =
      ap (λ (n : ℕ). take n (encode_packet k ++ memory)) (sym full)
      ∙ take-append (encode_packet k) memory

  pub process_next :
      (d : Demuxer)
      → IsPacket false k
      → process_packet d (encode_packet k ++ memory) ≡ take_payload d false [] false k.payload
  unfolding process_packet
  process_next d w =
      rw
        (
          pes_offset-encode k.p1 k.p2 k.p3 k.adaptation k.payload memory w.flagged,
          w.has_payload,
          w.starts,
          whole_packet w.full,
          drop-offset_of k.p1 k.p2 k.p3 k.adaptation k.payload,
        )
        refl

  pub process_start :
      (d : Demuxer)
      → IsPacket true k
      → process_packet d (encode_packet k ++ memory) ≡ (
          store_times (send_rest d).0 (k.payload ++ memory) >>= λ (t : Demuxer × Bool).
          take_payload t.0 true (send_rest d).1 t.1 k.payload)
  unfolding process_packet
  process_start d w =
      rw
        (
          pes_offset-encode k.p1 k.p2 k.p3 k.adaptation k.payload memory w.flagged,
          w.has_payload,
          w.starts,
          whole_packet w.full,
          drop-offset_of k.p1 k.p2 k.p3 k.adaptation k.payload,
          append_assoc (adaptation_bytes k.adaptation) k.payload memory,
          drop-offset_of k.p1 k.p2 k.p3 k.adaptation (k.payload ++ memory),
        )
        refl
