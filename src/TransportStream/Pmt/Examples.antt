-- ===== src/TransportStream/Pmt/Examples.antt =====
-- The theorems on processPMTSection at concrete sections, and a test.
use openplatform_rdk_aamp.Prelude.{
  ℕ, ◌<◌, ◌≡◌, ◌≢◌, refl, List, [], ◌∷◌, ◌++◌, none, some, replicate, true, false, take, length,
  arith, All, inr,
}
use openplatform_rdk_aamp.TransportStream.Pmt.{
  Pmt, ok, overflow, stuck, process_pmt_section, pid_of, first_component, c_string,
}
use openplatform_rdk_aamp.TransportStream.Pmt.Streams.{
  Descriptor, IsDescriptor, encode_descriptors, private_format,
}
use openplatform_rdk_aamp.TransportStream.Pmt.Expected.{
  Stream, IsStream, videos, audios, first_dsmcc,
}
use openplatform_rdk_aamp.TransportStream.Pmt.Terminates.{process_pmt_section-ne_stuck}
use openplatform_rdk_aamp.TransportStream.Pmt.Listing.{
  Section, IsSection, encode_section, process_pmt_section-encode,
}
use openplatform_rdk_aamp.TransportStream.Pmt.Overflow.{process_pmt_section_overflow}

abbrev english : Descriptor
english = record { tag = 0x0a; body = b'e' ∷ b'n' ∷ b'g' ∷ 0 ∷ [] }

abbrev ac3 : Descriptor
ac3 = record { tag = 0x6a; body = 0 ∷ [] }

abbrev stream : ℕ → ℕ → List Descriptor → Stream
stream type pid ds = record {
  type = type;
  pid = pid;
  pid_marks = 7;
  len_marks = 15;
  descriptors = ds;
}

abbrev section : List Stream → Section
section streams = record {
  program_high = 0;
  program_low = 1;
  version_marks = 3;
  version = 5;
  current = 1;
  section_number = 0;
  last_section_number = 0;
  pcr_marks = 7;
  pcr_pid = 481;
  info_marks = 15;
  info = 9 ∷ 1 ∷ 0 ∷ [];
  streams = streams;
  crc0 = 1;
  crc1 = 2;
  crc2 = 3;
  crc3 = 4;
}

section-IsSection : (streams : List Stream) → IsSection (section streams)
section-IsSection streams = record {
  version_small = omega arith;
  current_small = omega arith;
  pcr_small = omega arith;
  info_small = omega arith;
}

abbrev programme : List Stream
programme =
    stream 0x1b 481 []
    ∷ stream 0x0f 482 (english ∷ [])
    ∷ stream 0x06 483 (english ∷ ac3 ∷ [])
    ∷ stream 0x15 484 []
    ∷ []

english-IsDescriptor : IsDescriptor english
english-IsDescriptor = record {
  some_bytes = omega arith;
  byte_length = omega arith;
  language_fits = inr (omega arith);
}

ac3-IsDescriptor : IsDescriptor ac3
ac3-IsDescriptor = record {
  some_bytes = omega arith;
  byte_length = omega arith;
  language_fits = inr (omega arith);
}

stream-IsStream :
    (type pid : ℕ) (ds : List Descriptor)
    → pid < 8192
    → length (encode_descriptors ds) < 4096
    → All IsDescriptor ds
    → IsStream (stream type pid ds)
stream-IsStream type pid ds pid_small info_small w = record {
  pid_small = pid_small;
  info_small = info_small;
  are_descriptors = w;
}

programme-IsStream : All IsStream programme
programme-IsStream = (
  stream-IsStream 0x1b 481 [] (omega arith) (omega arith) (tt),
  (
    stream-IsStream 0x0f 482 (english ∷ []) (omega arith) (omega arith) (english-IsDescriptor, tt),
    (
      stream-IsStream 0x06 483 (english ∷ ac3 ∷ []) (omega arith) (omega arith)
          (english-IsDescriptor, (ac3-IsDescriptor, tt)),
      (stream-IsStream 0x15 484 [] (omega arith) (omega arith) (tt), tt),
    ),
  ),
)

process_pmt_section-encode_example :
    (pmt : Pmt) × (process_pmt_section
        (encode_section (section programme) ++ 255 ∷ [])
        (length (encode_section (section programme)))
        false
      ≡ ok pmt)
    × (pmt.tables.video ≡ take 8 (videos programme))
    × (pmt.tables.audio ≡ take 8 (audios programme))
    × (pmt.tables.dsmcc ≡ first_dsmcc none programme)
    × (pmt.video_pid ≡ pid_of (first_component (videos programme)))
    × (pmt.version ≡ 5)
    × (pmt.pcr_pid ≡ 481)
process_pmt_section-encode_example =
    process_pmt_section-encode (section programme) (255 ∷ []) false (section-IsSection programme)
      programme-IsStream

-- The components of that section.
programme-audios :
    audios programme
    ≡ record { pid = 482; elem_stream_type = 0x0f; language = some (b'e' ∷ b'n' ∷ b'g' ∷ []) }
      ∷ record { pid = 483; elem_stream_type = 0x06; language = some (b'e' ∷ b'n' ∷ b'g' ∷ []) }
      ∷ []
unfolding audios private_format c_string
programme-audios = refl

abbrev long_language : Descriptor
long_language = record { tag = 0x0a; body = replicate 40 b'x' }

abbrev faulty : List Stream
faulty = stream 0x0f 482 (long_language ∷ []) ∷ []

process_pmt_section_overflow_example :
    process_pmt_section
      (encode_section (section faulty) ++ [])
      (length (encode_section (section faulty)))
      false
    ≡ overflow
process_pmt_section_overflow_example =
    process_pmt_section_overflow (section faulty) (stream 0x0f 482 (long_language ∷ [])) []
      long_language [] [] false (section-IsSection faulty) refl (omega arith) refl refl refl
      (omega arith)

process_pmt_section-ne_stuck_example :
    process_pmt_section (encode_section (section faulty)) 70 true ≢ stuck
process_pmt_section-ne_stuck_example =
    process_pmt_section-ne_stuck (encode_section (section faulty)) 70 true
