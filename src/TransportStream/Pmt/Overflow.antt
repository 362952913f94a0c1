-- ===== src/TransportStream/Pmt/Overflow.antt =====
-- A language descriptor that does not fit the 32 bytes of `work` in processPMTSection.
use openplatform_rdk_aamp.Prelude.{
  ℕ, suc, ◌<◌, ◌≤◌, ◌≡◌, refl, List, ◌∷◌, ◌++◌, Bool, true, false, ltb, leb, ◌==◌, Option, none,
  length, arith, ap, length-append, ◌∙◌, lt→ltb, ==_iff,
}
use mathlib.Core.List.{append_assoc}
use openplatform_rdk_aamp.TransportStream.Pmt.{
  ok, ◌>>=◌, finish_pmt, overflow, Tables, is_mpeg_video, h264, pes_private, is_plain_audio,
  copy_language, find_language, add_audio, add_stream, program_loop, process_pmt_section,
}
use openplatform_rdk_aamp.TransportStream.Pmt.Streams.{Descriptor, encode_descriptors}
use openplatform_rdk_aamp.TransportStream.Pmt.Expected.{Stream, info_len, encode_streams}
use openplatform_rdk_aamp.TransportStream.Pmt.Listing.{
  Section, IsSection, encode_section, encode_crc, len_bytes, process_pmt_section-loop, empty_tables,
}

plain_audio_kind :
    (type : ℕ)
    → is_plain_audio type ≡ true
    → (is_mpeg_video type ≡ false) × ((type == h264) ≡ false) × ((type == pes_private) ≡ false)
plain_audio_kind type h = (ground arith, ground arith, ground arith)

find_language-overflow :
    (d : Descriptor) (rest : List ℕ) (fuel left : ℕ) (found : Option (List ℕ))
    → d.tag ≡ 0x0a
    → 32 ≤ length d.body
    → find_language (suc fuel) (d.tag ∷ length d.body ∷ rest) (suc left) found ≡ overflow
unfolding find_language copy_language
find_language-overflow d rest fuel left found is_language long =
    let too_long : leb 32 (length d.body) ≡ true = ground arith in
    rw ((==_iff d.tag 0x0a).1 is_language, too_long) refl

module _ (d : Descriptor) (ds : List Descriptor) (is_language : d.tag ≡ 0x0a)
    (long : 32 ≤ length d.body) where
  add_stream-overflow :
      (type pid : ℕ) (rest : List ℕ) (t : Tables)
      → is_plain_audio type ≡ true
      → length t.audio < 8
      → add_stream type pid
          (length (encode_descriptors (d ∷ ds)))
          (encode_descriptors (d ∷ ds) ++ rest)
          t
        ≡ overflow
  unfolding add_stream add_audio
  add_stream-overflow type pid rest t audio room =
      let kind = plain_audio_kind type audio in
      let longer : ltb 2 (length (encode_descriptors (d ∷ ds))) ≡ true =
        lt→ltb 2 _ (omega (arith, length-append d.body (encode_descriptors ds))) in
      rw
        (
          kind.0,
          kind.1,
          kind.2,
          audio,
          lt→ltb (length t.audio) 8 room,
          longer,
          find_language-overflow d ((d.body ++ encode_descriptors ds) ++ rest) _ _ none is_language
              long,
        )
        refl

  program_loop-overflow :
      (s : Stream) (ss : List Stream) (crc : List ℕ) (fuel : ℕ) (t : Tables)
      → info_len s < 4096
      → s.descriptors ≡ d ∷ ds
      → is_plain_audio s.type ≡ true
      → length t.audio < 8
      → program_loop
          (suc fuel)
          (encode_streams (s ∷ ss) ++ crc)
          (length (encode_streams (s ∷ ss)))
          t
        ≡ overflow
  unfolding program_loop
  program_loop-overflow s ss crc fuel t small f audio room =
      rw
        (
          len_bytes s.len_marks (info_len s) small,
          append_assoc (encode_descriptors s.descriptors) (encode_streams ss) crc,
          f,
          add_stream-overflow s.type _ (encode_streams ss ++ crc) t audio room,
        )
        refl

-- A section whose first stream is an audio stream by its type, with a first descriptor that is a language
-- descriptor of 32 bytes or more: processPMTSection writes behind its buffer of 32 bytes.
pub process_pmt_section_overflow :
    (p : Section) (s : Stream) (ss : List Stream) (d : Descriptor) (ds : List Descriptor)
    (memory : List ℕ) (was_h264 : Bool)
    → IsSection p
    → p.streams ≡ s ∷ ss
    → info_len s < 4096
    → s.descriptors ≡ d ∷ ds
    → is_plain_audio s.type ≡ true
    → d.tag ≡ 0x0a
    → 32 ≤ length d.body
    → process_pmt_section (encode_section p ++ memory) (length (encode_section p)) was_h264
      ≡ overflow
process_pmt_section_overflow p s ss d ds memory was_h264 w e small f audio is_language long =
    process_pmt_section-loop p memory was_h264 w
    ∙ rw e (
        ap (λ r. r >>= λ t. ok (finish_pmt p.pcr_pid p.version t))
          (program_loop-overflow d ds is_language long s ss (encode_crc p ++ memory) _
            (empty_tables was_h264) small f audio (omega arith)))
