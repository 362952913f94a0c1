-- ===== src/TransportStream/Pmt/Expected.antt =====
-- The streams of a program map section, their bytes, and the components that they stand for.
use openplatform_rdk_aamp.Prelude.{
  ℕ, ◌+◌, ◌*◌, ◌/◌, ◌%◌, ◌<◌, List, [], ◌∷◌, ◌++◌, Bool, true, false, ◌==◌, ◌&&◌, ◌||◌,
  if◌then◌else◌, Option, none, some, length, All,
}
use openplatform_rdk_aamp.TransportStream.Pmt.{
  Component, is_mpeg_video, h264, pes_private, is_plain_audio, dsm_cc,
}
use openplatform_rdk_aamp.TransportStream.Pmt.Streams.{
  Descriptor, IsDescriptor, encode_descriptors, last_language, private_format,
}

-- An elementary stream; the marks are the reserved bits beside the PID and the length.
pub record Stream : Type 0 where
  pub type : ℕ
  pub pid : ℕ
  pub pid_marks : ℕ
  pub len_marks : ℕ
  pub descriptors : List Descriptor

abbrev pub info_len : Stream → ℕ
info_len s = length (encode_descriptors s.descriptors)

pub record IsStream (s : Stream) : Type 0 where
  pub pid_small : s.pid < 8192
  pub info_small : info_len s < 4096
  pub are_descriptors : All IsDescriptor s.descriptors

abbrev pub encode_stream : Stream → List ℕ
encode_stream s =
    s.type
    ∷ (s.pid_marks * 32 + s.pid / 256)
    ∷ s.pid % 256
    ∷ (s.len_marks * 16 + info_len s / 256)
    ∷ info_len s % 256
    ∷ encode_descriptors s.descriptors

abbrev pub encode_streams : List Stream → List ℕ
encode_streams [] = []
encode_streams (s ∷ ss) = encode_stream s ++ encode_streams ss

abbrev pub is_video : Stream → Bool
is_video s = is_mpeg_video s.type || s.type == h264

abbrev pub is_some {ℓ} : {A : Type ℓ} → Option A → Bool
is_some none = false
is_some (some a) = true

-- Audio by its type, or a private stream with a descriptor for AC-3 or E-AC-3.
abbrev pub is_audio : Stream → Bool
is_audio s =
    is_plain_audio s.type || (s.type == pes_private && is_some (private_format s.descriptors))

abbrev pub video_component : Stream → Component
video_component s = record { pid = s.pid; elem_stream_type = s.type; language = none }

abbrev pub audio_component : Stream → Component
audio_component s = record {
  pid = s.pid;
  elem_stream_type = s.type;
  language = last_language s.descriptors none;
}

abbrev pub one_if {ℓ} : {A : Type ℓ} → Bool → A → List A
one_if c a = if c then a ∷ [] else []

unfoldable pub videos : List Stream → List Component
videos [] = []
videos (s ∷ ss) = one_if (is_video s) (video_component s) ++ videos ss

unfoldable pub audios : List Stream → List Component
audios [] = []
audios (s ∷ ss) = one_if (is_audio s) (audio_component s) ++ audios ss

-- The first stream of DSM-CC stays.
abbrev pub or_dsmcc : Option Component → Stream → Option Component
or_dsmcc (some c) s = some c
or_dsmcc none s = if s.type == dsm_cc then some (video_component s) else none

unfoldable pub first_dsmcc : Option Component → List Stream → Option Component
first_dsmcc before [] = before
first_dsmcc before (s ∷ ss) = first_dsmcc (or_dsmcc before s) ss
