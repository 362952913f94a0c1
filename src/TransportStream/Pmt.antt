-- ===== src/TransportStream/Pmt.antt =====
-- TSProcessor::processPMTSection of tsprocessor.cpp: the components that a program map section lists.
-- strdup succeeds. Logging is left out.
pub mod Terminates
pub mod Streams
pub mod Expected
pub mod Growth
pub mod Kinds
pub mod Listing
pub mod Overflow
pub mod Examples
use openplatform_rdk_aamp.Prelude.{
  ℕ, zero, suc, ◌+◌, ◌-◌, ◌*◌, ◌/◌, ◌%◌, List, [], ◌∷◌, ◌++◌, Bool, true, false, ltb, leb, ◌==◌,
  ◌&&◌, ◌||◌, if◌then◌else◌, Option, none, some, get_elem?, take, drop, length,
}

-- A result, a read behind the memory, a write behind `work`, or no outcome of the code: the fuel ran out.
pub data Scanned {ℓ} (A : Type ℓ) : Type ℓ where
  ok : A → Scanned A
  overrun : Scanned A
  overflow : Scanned A
  stuck : Scanned A

infixl 5 ◌>>=◌
abbrev pub ◌>>=◌ {ℓ κ} : {A : Type ℓ} {B : Type κ} → Scanned A → (A → Scanned B) → Scanned B
ok a >>= f = f a
overrun >>= f = overrun
overflow >>= f = overflow
stuck >>= f = stuck

abbrev pub read : List ℕ → ℕ → Scanned ℕ
read memory i = elim (get_elem? memory i) [ none ↦ overrun | some b ↦ ok b ]

-- StreamType, by groups.
abbrev pub is_mpeg_video : ℕ → Bool
is_mpeg_video type = type == 0x02 || (type == 0x24 || type == 0x80)

abbrev pub h264 : ℕ
h264 = 0x1b

abbrev pub pes_private : ℕ
pes_private = 0x06

abbrev pub dsm_cc : ℕ
dsm_cc = 0x15

abbrev pub is_plain_audio : ℕ → Bool
is_plain_audio type =
    type == 0x03
    || (type == 0x04
        || (type == 0x0f
            || (type == 0x11
                || (type == 0x81
                    || (type == 0x82
                        || (type == 0x83
                            || (type == 0x84
                                || (type == 0x86
                                    || (type == 0x87
                                        || (type == 0x8a || (type == 0x91 || type == 0x94)))))))))))

-- StreamOutputFormat, as far as it is used here.
pub data Format : Type 0 where
  invalid unknown video_es_mpeg2 video_es_h264 video_es_hevc : Format
  audio_es_aac audio_es_ac3 audio_es_ec3 : Format

-- getStreamFormatForCodecType
unfoldable pub format_for_codec_type : ℕ → Format
format_for_codec_type type =
    if type == 0x02
    then video_es_mpeg2
    else if type == 0x03 || (type == 0x04 || (type == 0x0f || type == 0x11))
    then audio_es_aac
    else if type == 0x1b
    then video_es_h264
    else if type == 0x24
    then video_es_hevc
    else if type == 0x81
    then audio_es_ac3
    else if type == 0x84 || type == 0x87
    then audio_es_ec3
    else unknown

-- RecordingComponent; `language` is associatedLanguage.
pub record Component : Type 0 where
  pub pid : ℕ
  pub elem_stream_type : ℕ
  pub language : Option (List ℕ)

-- What the loop changes. The arrays are their used parts; `dsmcc` is m_dsmccComponent with
-- m_dsmccComponentFound.
pub record Tables : Type 0 where
  pub video : List Component
  pub audio : List Component
  pub dsmcc : Option Component
  pub is_h264 : Bool
  pub audio_format : Format

abbrev pub max_pids : ℕ
max_pids = 8

-- A string ends at the first NUL.
unfoldable pub c_string : List ℕ → List ℕ
c_string [] = []
c_string (c ∷ cs) = let rest = c_string cs in if c == 0 then [] else c ∷ rest

-- `memcpy(work, ..., descrLen); work[descrLen] = '\0'; strdup(work)` with `char work[32]`.
unfoldable pub copy_language : ℕ → List ℕ → Scanned (List ℕ)
copy_language len memory =
    if leb 32 len
    then overflow
    else if leb len (length memory)
    then ok (c_string (take len memory))
    else overrun

-- The loop over the descriptors of an audio stream; `left` is `maxIdx - descIdx`.
unfoldable pub find_language : ℕ → List ℕ → ℕ → Option (List ℕ) → Scanned (Option (List ℕ))
find_language fuel memory zero found = ok found
find_language zero memory (suc left) found = stuck
find_language (suc fuel) memory (suc left) found = do
  tag ← read memory 0
  len ← read memory 1
  now ←
      (if tag == 0x0a
        then (do text ← copy_language len (drop 2 memory); ok (some text))
        else ok found)
  find_language fuel (drop (suc (suc len)) memory) (suc left - (2 + len)) now

-- The loop over the descriptors of a private stream.
unfoldable pub find_private_audio : ℕ → List ℕ → ℕ → Scanned (Option Format)
find_private_audio fuel memory zero = ok none
find_private_audio zero memory (suc left) = stuck
find_private_audio (suc fuel) memory (suc left) = do
  tag ← read memory 0
  len ← read memory 1
  let rest = find_private_audio fuel (drop (suc (suc len)) memory) (suc left - (2 + len))
  (if tag == 0x6a
      then ok (some audio_es_ac3)
      else if tag == 0x7a
      then ok (some audio_es_ec3)
      else rest)

abbrev pub add_video : ℕ → ℕ → Tables → Tables
add_video type pid t =
    if ltb (length t.video) max_pids
    then record t {
      video = t.video ++ (record { pid = pid; elem_stream_type = type; language = none }) ∷ [];
    }
    else t

abbrev pub add_h264 : ℕ → ℕ → Tables → Tables
add_h264 type pid t =
    if ltb (length t.video) max_pids then record (add_video type pid t) { is_h264 = true } else t

-- The shared case of the audio types; `memory` starts at the descriptors.
unfoldable pub add_audio : ℕ → ℕ → ℕ → List ℕ → Tables → Scanned Tables
add_audio type pid len memory t =
    if ltb (length t.audio) max_pids
    then (do
      language ← (if ltb 2 len then find_language len memory len none else ok none)
      ok (record t {
        audio =
            t.audio ++ (record { pid = pid; elem_stream_type = type; language = language }) ∷ [];
      }))
    else ok t

-- The case of PES_PRIVATE, which falls through where it finds audio.
unfoldable pub add_private : ℕ → ℕ → ℕ → List ℕ → Tables → Scanned Tables
add_private type pid len memory t = do
  found ← (if ltb 2 len then find_private_audio len memory len else ok none)
  elim found [
    | none ↦ ok t
    | some format ↦ add_audio type pid len memory (record t { audio_format = format })
  ]

abbrev pub add_dsmcc : ℕ → ℕ → Tables → Tables
add_dsmcc type pid t = elim t.dsmcc [
  | none ↦ record t {
    dsmcc = some (record { pid = pid; elem_stream_type = type; language = none });
  }
  | some component ↦ t
]

-- `switch (streamType)`
unfoldable pub add_stream : ℕ → ℕ → ℕ → List ℕ → Tables → Scanned Tables
add_stream type pid len memory t =
    if is_mpeg_video type
    then ok (add_video type pid t)
    else if type == h264
    then ok (add_h264 type pid t)
    else if type == pes_private
    then add_private type pid len memory t
    else if is_plain_audio type
    then add_audio type pid len memory t
    else if type == dsm_cc
    then ok (add_dsmcc type pid t)
    else ok t

-- `while (programInfo < programInfoEnd)`; `left` is their difference.
unfoldable pub program_loop : ℕ → List ℕ → ℕ → Tables → Scanned Tables
program_loop fuel memory zero t = ok t
program_loop zero memory (suc left) t = stuck
program_loop (suc fuel) memory (suc left) t = do
  type ← read memory 0
  p1 ← read memory 1
  p2 ← read memory 2
  p3 ← read memory 3
  p4 ← read memory 4
  let len = p3 % 16 * 256 + p4
  next ← add_stream type (p1 % 32 * 256 + p2) len (drop 5 memory) t
  program_loop fuel (drop len (drop 5 memory)) (suc left - (5 + len)) next

-- What processPMTSection leaves; `formats` are the arguments of SetStreamFormat. `index_audio` says that
-- m_indexAudio is set.
pub record Pmt : Type 0 where
  pub tables : Tables
  pub video_pid : Option ℕ
  pub video_format : Format
  pub audio_format : Format
  pub index_audio : Bool
  pub pcr_pid : ℕ
  pub version : ℕ

abbrev pub has_pid : ℕ → List Component → Bool
has_pid pid [] = false
has_pid pid (c ∷ cs) = pid == c.pid || has_pid pid cs

abbrev pub first_component : List Component → Option Component
first_component [] = none
first_component (c ∷ cs) = some c

abbrev pub video_format_of : Option Component → Format
video_format_of none = invalid
video_format_of (some c) = format_for_codec_type c.elem_stream_type

abbrev pub audio_format_of : Option Component → Format → Format
audio_format_of none found = found
audio_format_of (some c) found =
    if c.elem_stream_type == pes_private then found else format_for_codec_type c.elem_stream_type

abbrev pub pid_of : Option Component → Option ℕ
pid_of none = none
pid_of (some c) = some c.pid

abbrev pub is_empty : List Component → Bool
is_empty [] = true
is_empty (c ∷ cs) = false

-- The lines behind the loop.
unfoldable pub finish_pmt : ℕ → ℕ → Tables → Pmt
finish_pmt pcr_pid version t = record {
  tables = t;
  video_pid = pid_of (first_component t.video);
  video_format = video_format_of (first_component t.video);
  audio_format = audio_format_of (first_component t.audio) t.audio_format;
  index_audio = is_empty t.video && has_pid pcr_pid t.audio;
  pcr_pid = pcr_pid;
  version = version;
}

-- processPMTSection: `section` is the memory behind section_length. `was_h264` is m_isH264 before.
unfoldable pub process_pmt_section : List ℕ → ℕ → Bool → Scanned Pmt
process_pmt_section section section_length was_h264 = do
  s2 ← read section 2
  s5 ← read section 5
  s6 ← read section 6
  s7 ← read section 7
  s8 ← read section 8
  let info_length = s7 % 16 * 256 + s8
  t ←
      program_loop section_length (drop info_length (drop 9 section))
        (section_length - 4 - (9 + info_length))
        (record {
          video = [];
          audio = [];
          dsmcc = none;
          is_h264 = was_h264;
          audio_format = invalid;
        })
  ok (finish_pmt (s5 % 32 * 256 + s6) (s2 / 2 % 32) t)
