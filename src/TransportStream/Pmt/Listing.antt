-- ===== src/TransportStream/Pmt/Listing.antt =====
-- processPMTSection on the bytes of a section: it lists the components that the section describes.
use openplatform_rdk_aamp.Prelude.{
  ℕ, zero, suc, ◌+◌, ◌-◌, ◌*◌, ◌/◌, ◌%◌, ◌<◌, ◌≤◌, ◌≡◌, refl, List, [], ◌∷◌, ◌++◌, Bool, Option,
  none, take, length, All, arith, ap, length-append, drop-append, ◌∙◌,
}
use mathlib.Core.List.{append_assoc}
use openplatform_rdk_aamp.TransportStream.Pmt.{
  ok, ◌>>=◌, Component, Tables, program_loop, process_pmt_section, finish_pmt, Pmt, pid_of,
  first_component, invalid,
}
use openplatform_rdk_aamp.TransportStream.Pmt.Streams.{encode_descriptors}
use openplatform_rdk_aamp.TransportStream.Pmt.Expected.{
  Stream, info_len, IsStream, encode_streams, is_video, is_audio, video_component, audio_component,
  one_if, videos, audios, first_dsmcc,
}
use openplatform_rdk_aamp.TransportStream.Pmt.Growth.{Added, Fits, take_none}
use openplatform_rdk_aamp.TransportStream.Pmt.Kinds.{added_stream}

take-take_append :
    {A : Type 0} (n : ℕ) (xs ys : List A) → take n (take n xs ++ ys) ≡ take n (xs ++ ys)
take-take_append zero xs ys = refl
take-take_append (suc n) [] ys = refl
take-take_append (suc n) (x ∷ xs) ys = ap (◌∷◌ x) (take-take_append n xs ys)

length-take_le : {A : Type 0} (n : ℕ) (xs : List A) → length (take n xs) ≤ n
length-take_le zero xs = omega arith
length-take_le (suc n) [] = omega arith
length-take_le (suc n) (x ∷ xs) = omega (arith, length-take_le n xs)

pub pid_bytes : (marks pid : ℕ) → pid < 8192 → (marks * 32 + pid / 256) % 32 * 256 + pid % 256 ≡ pid
pid_bytes marks pid small = omega arith

pub len_bytes : (marks len : ℕ) → len < 4096 → (marks * 16 + len / 256) % 16 * 256 + len % 256 ≡ len
len_bytes marks len small = omega arith

-- The components behind those already there, up to eight of each kind.
record Lists (ss : List Stream) (t next : Tables) : Type 0 where
  video : next.video ≡ take 8 (t.video ++ videos ss)
  audio : next.audio ≡ take 8 (t.audio ++ audios ss)
  dsmcc : next.dsmcc ≡ first_dsmcc t.dsmcc ss

-- One stream, then the others.
Lists-cons :
    (s : Stream) (ss : List Stream) (t mid next : Tables)
    → Added s t mid
    → Lists ss mid next
    → Lists (s ∷ ss) t next
unfolding videos audios first_dsmcc
Lists-cons s ss t mid next a l = record {
  video =
      l.video
      ∙ ap (λ (cs : List Component). take 8 (cs ++ videos ss)) a.video
      ∙ take-take_append 8 (t.video ++ one_if (is_video s) (video_component s)) (videos ss)
      ∙ ap (take 8) (append_assoc t.video (one_if (is_video s) (video_component s)) (videos ss));
  audio =
      l.audio
      ∙ ap (λ (cs : List Component). take 8 (cs ++ audios ss)) a.audio
      ∙ take-take_append 8 (t.audio ++ one_if (is_audio s) (audio_component s)) (audios ss)
      ∙ ap (take 8) (append_assoc t.audio (one_if (is_audio s) (audio_component s)) (audios ss));
  dsmcc = l.dsmcc ∙ ap (λ (o : Option Component). first_dsmcc o ss) a.dsmcc;
}

mid-Fits : (s : Stream) (t mid : Tables) → Added s t mid → Fits mid
mid-Fits s t mid added = (
  rw added.video (length-take_le 8 (t.video ++ one_if (is_video s) (video_component s))),
  rw added.audio (length-take_le 8 (t.audio ++ one_if (is_audio s) (audio_component s))),
)

left_behind :
    (infos streams : List ℕ)
    → suc (suc (suc (suc (suc (length (infos ++ streams)))))) - (5 + length infos) ≡ length streams
left_behind infos streams = omega (arith, length-append infos streams)

program_loop-encode :
    (crc : List ℕ) (ss : List Stream) (fuel : ℕ) (t : Tables)
    → All IsStream ss
    → Fits t
    → length (encode_streams ss) ≤ fuel
    → (next : Tables) × (program_loop fuel (encode_streams ss ++ crc) (length (encode_streams ss)) t
        ≡ ok next)
      × Lists ss t next
unfolding program_loop videos audios first_dsmcc
program_loop-encode crc [] fuel t w fits enough = (
  t,
  refl,
  record { video = take_none 8 t.video fits.0; audio = take_none 8 t.audio fits.1; dsmcc = refl },
)
program_loop-encode crc (s ∷ ss) zero t w fits enough = absurd (omega arith)
program_loop-encode crc (s ∷ ss) (suc fuel) t (w, ws) fits enough =
    let rest = encode_streams ss ++ crc in
    let (mid, e, added) = added_stream s rest t w fits in
    let (next, later, lists) =
      program_loop-encode crc ss fuel mid ws (mid-Fits s t mid added)
        (omega (arith, length-append (encode_descriptors s.descriptors) (encode_streams ss))) in
    (
      next,
      rw
          (
            pid_bytes s.pid_marks s.pid w.pid_small,
            len_bytes s.len_marks (info_len s) w.info_small,
            append_assoc (encode_descriptors s.descriptors) (encode_streams ss) crc,
            e,
            drop-append (encode_descriptors s.descriptors) rest,
            left_behind (encode_descriptors s.descriptors) (encode_streams ss),
          )
          later,
      Lists-cons s ss t mid next added lists,
    )

-- A section: the bytes before the version, the PID of the PCR, the descriptors of the program, the streams
-- and four bytes of CRC.
pub record Section : Type 0 where
  pub program_high : ℕ
  pub program_low : ℕ
  pub version_marks : ℕ
  pub version : ℕ
  pub current : ℕ
  pub section_number : ℕ
  pub last_section_number : ℕ
  pub pcr_marks : ℕ
  pub pcr_pid : ℕ
  pub info_marks : ℕ
  pub info : List ℕ
  pub streams : List Stream
  pub crc0 : ℕ
  pub crc1 : ℕ
  pub crc2 : ℕ
  pub crc3 : ℕ

pub record IsSection (p : Section) : Type 0 where
  pub version_small : p.version < 32
  pub current_small : p.current < 2
  pub pcr_small : p.pcr_pid < 8192
  pub info_small : length p.info < 4096

abbrev pub encode_crc : Section → List ℕ
encode_crc p = p.crc0 ∷ p.crc1 ∷ p.crc2 ∷ p.crc3 ∷ []

abbrev pub encode_section : Section → List ℕ
encode_section p =
    p.program_high
      ∷ p.program_low
      ∷ (p.version_marks * 64 + p.version * 2 + p.current)
      ∷ p.section_number
      ∷ p.last_section_number
      ∷ (p.pcr_marks * 32 + p.pcr_pid / 256)
      ∷ p.pcr_pid % 256
      ∷ (p.info_marks * 16 + length p.info / 256)
      ∷ length p.info % 256
      ∷ p.info
    ++ (encode_streams p.streams ++ encode_crc p)

pub version_byte :
    (marks v current : ℕ) → v < 32 → current < 2 → (marks * 64 + v * 2 + current) / 2 % 32 ≡ v
version_byte marks v current hv hc = omega arith

pub streams_left :
    (info streams crc : List ℕ)
    → length crc ≡ 4
    → suc (suc (suc (suc (suc (suc (suc (suc (suc (length (info ++ (streams ++ crc)))))))))))
        - 4
        - (9 + length info)
      ≡ length streams
streams_left info streams crc four =
    omega (arith, length-append info (streams ++ crc), length-append streams crc)

abbrev pub empty_tables : Bool → Tables
empty_tables was_h264 = record {
  video = [];
  audio = [];
  dsmcc = none;
  is_h264 = was_h264;
  audio_format = invalid;
}

-- The loop starts at the streams.
pub process_pmt_section-loop :
    (p : Section) (memory : List ℕ) (was_h264 : Bool)
    → IsSection p
    → process_pmt_section (encode_section p ++ memory) (length (encode_section p)) was_h264 ≡ (
        program_loop
          (length (encode_section p))
          (encode_streams p.streams ++ (encode_crc p ++ memory))
          (length (encode_streams p.streams))
          (empty_tables was_h264)
        >>= λ t. ok (finish_pmt p.pcr_pid p.version t))
unfolding process_pmt_section
process_pmt_section-loop p memory was_h264 w =
    rw
      (
        version_byte p.version_marks p.version p.current w.version_small w.current_small,
        pid_bytes p.pcr_marks p.pcr_pid w.pcr_small,
        len_bytes p.info_marks (length p.info) w.info_small,
        streams_left p.info (encode_streams p.streams) (encode_crc p) refl,
        append_assoc p.info (encode_streams p.streams ++ encode_crc p) memory,
        drop-append p.info ((encode_streams p.streams ++ encode_crc p) ++ memory),
        append_assoc (encode_streams p.streams) (encode_crc p) memory,
      )
      refl

first_component-take : (cs : List Component) → first_component (take 8 cs) ≡ first_component cs
first_component-take [] = refl
first_component-take (c ∷ cs) = refl

-- On the bytes of a well-formed section: the video components are the first eight video streams in the
-- order of the section, the audio components the first eight audio streams, private streams with an AC-3
-- or E-AC-3 descriptor among them, each with the text of its last language descriptor, and the DSM-CC
-- component is the first stream of that type. The video PID is that of the first video stream, and version
-- and PCR PID are those of the section.
pub process_pmt_section-encode :
    (p : Section) (memory : List ℕ) (was_h264 : Bool)
    → IsSection p
    → All IsStream p.streams
    → (pmt : Pmt) × (process_pmt_section
          (encode_section p ++ memory)
          (length (encode_section p))
          was_h264
        ≡ ok pmt)
      × (pmt.tables.video ≡ take 8 (videos p.streams))
      × (pmt.tables.audio ≡ take 8 (audios p.streams))
      × (pmt.tables.dsmcc ≡ first_dsmcc none p.streams)
      × (pmt.video_pid ≡ pid_of (first_component (videos p.streams)))
      × (pmt.version ≡ p.version)
      × (pmt.pcr_pid ≡ p.pcr_pid)
unfolding finish_pmt
process_pmt_section-encode p memory was_h264 w are_streams =
    let (t, e, lists) =
      program_loop-encode (encode_crc p ++ memory) p.streams (length (encode_section p))
        (empty_tables was_h264) are_streams (omega arith, omega arith)
        (omega (
          arith,
          length-append p.info (encode_streams p.streams ++ encode_crc p),
          length-append (encode_streams p.streams) (encode_crc p),
        )) in
    (
      finish_pmt p.pcr_pid p.version t,
      process_pmt_section-loop p memory was_h264 w
          ∙ ap (λ r. r >>= λ u. ok (finish_pmt p.pcr_pid p.version u)) e,
      lists.video,
      lists.audio,
      lists.dsmcc,
      rw lists.video (ap pid_of (first_component-take (videos p.streams))),
      refl,
      refl,
    )
