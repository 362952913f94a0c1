-- ===== src/TransportStream/Pmt/Terminates.antt =====
-- The loops of processPMTSection end on every section.
use openplatform_rdk_aamp.Prelude.{
  ℕ, zero, suc, ◌+◌, ◌-◌, ◌*◌, ◌%◌, subst, ◌≤◌, ◌≢◌, List, Option, none, some, get_elem?, drop,
  Bool, true, false, ltb, ◌==◌, arith, if◌then◌else◌, leb, length,
}
use openplatform_rdk_aamp.TransportStream.Pmt.{
  Scanned, ok, overrun, overflow, stuck, ◌>>=◌, read, Tables, copy_language, find_language,
  find_private_audio, add_audio, add_private, add_stream, program_loop, process_pmt_section, Format,
  h264, pes_private, dsm_cc, is_mpeg_video, is_plain_audio,
}

-- An outcome that is no lack of fuel.
abbrev Ends {ℓ} : {A : Type ℓ} → Scanned A → Type 0
Ends (ok a) = Unit
Ends overrun = Unit
Ends overflow = Unit
Ends stuck = ⊥

Ends-bind {ℓ κ} :
    {A : Type ℓ} {B : Type κ} (m : Scanned A) (f : A → Scanned B)
    → Ends m
    → ((a : A) → Ends (f a))
    → Ends (m >>= f)
Ends-bind (ok a) f e h = h a
Ends-bind overrun f e h = e
Ends-bind overflow f e h = e
Ends-bind stuck f e h = e

Ends-if {ℓ} :
    {A : Type ℓ} (c : Bool) (m n : Scanned A) → Ends m → Ends n → Ends (if c then m else n)
Ends-if true m n h k = h
Ends-if false m n h k = k

read-Ends : (memory : List ℕ) (i : ℕ) → Ends (read memory i)
read-Ends memory i =
    elim (get_elem? memory i)
      as (λ (o : Option ℕ). Ends (elim o [ none ↦ overrun | some b ↦ ok b ])) [
        | none ↦ tt
        | some b ↦ tt
      ]

copy_language-Ends : (len : ℕ) (memory : List ℕ) → Ends (copy_language len memory)
unfolding copy_language
copy_language-Ends len memory =
    Ends-if (leb 32 len) overflow _ (tt) (Ends-if (leb len (length memory)) _ overrun (tt) (tt))

find_language-Ends :
    (fuel : ℕ) (memory : List ℕ) (left : ℕ) (found : Option (List ℕ))
    → left ≤ fuel
    → Ends (find_language fuel memory left found)
unfolding find_language
find_language-Ends fuel memory zero found h = tt
find_language-Ends zero memory (suc left) found h = absurd (omega arith)
find_language-Ends (suc fuel) memory (suc left) found h =
    Ends-bind (read memory 0) _ (read-Ends memory 0) λ tag.
      Ends-bind (read memory 1) _ (read-Ends memory 1) λ len.
        Ends-bind _ _
          (Ends-if (tag == 0x0a) _ _
            (Ends-bind (copy_language len (drop 2 memory)) _
              (copy_language-Ends len (drop 2 memory)) (λ text. tt))
            (tt))
          λ now.
            find_language-Ends fuel (drop (suc (suc len)) memory) (suc left - (2 + len)) now
              (omega arith)

find_private_audio-Ends :
    (fuel : ℕ) (memory : List ℕ) (left : ℕ)
    → left ≤ fuel
    → Ends (find_private_audio fuel memory left)
unfolding find_private_audio
find_private_audio-Ends fuel memory zero h = tt
find_private_audio-Ends zero memory (suc left) h = absurd (omega arith)
find_private_audio-Ends (suc fuel) memory (suc left) h =
    Ends-bind (read memory 0) _ (read-Ends memory 0) λ tag.
      Ends-bind (read memory 1) _ (read-Ends memory 1) λ len. Ends-if (tag == 0x6a) _ _ (tt) (
        Ends-if (tag == 0x7a) _ _ (tt) (
          find_private_audio-Ends fuel (drop (suc (suc len)) memory) (suc left - (2 + len))
            (omega arith)))

module _ (pid len : ℕ) (memory : List ℕ) where
  add_audio-Ends : (type : ℕ) (t : Tables) → Ends (add_audio type pid len memory t)
  unfolding add_audio
  add_audio-Ends type t =
      Ends-if (ltb (length t.audio) 8) _ _
        (Ends-bind _ _
          (Ends-if (ltb 2 len) _ _ (find_language-Ends len memory len none (omega arith)) (tt))
          (λ language. tt))
        (tt)

  add_found-Ends :
      (type : ℕ) (found : Option Format) (t : Tables)
      → Ends (elim found [
        | none ↦ ok t
        | some format ↦ add_audio type pid len memory (record t { audio_format = format })
      ])
  add_found-Ends type none t = tt
  add_found-Ends type (some format) t = add_audio-Ends type (record t { audio_format = format })

  add_private-Ends : (type : ℕ) (t : Tables) → Ends (add_private type pid len memory t)
  unfolding add_private
  add_private-Ends type t =
      Ends-bind _ _
        (Ends-if (ltb 2 len) _ _ (find_private_audio-Ends len memory len (omega arith)) (tt))
        (λ found. add_found-Ends type found t)

  add_stream-Ends : (type : ℕ) (t : Tables) → Ends (add_stream type pid len memory t)
  unfolding add_stream
  add_stream-Ends type t = Ends-if (is_mpeg_video type) _ _ (tt) (
      Ends-if (type == h264) _ _ (tt) (
        Ends-if (type == pes_private) _ _ (add_private-Ends type t) (
          Ends-if (is_plain_audio type) _ _ (add_audio-Ends type t)
            (Ends-if (type == dsm_cc) _ _ (tt) (tt)))))

program_loop-Ends :
    (fuel : ℕ) (memory : List ℕ) (left : ℕ) (t : Tables)
    → left ≤ fuel
    → Ends (program_loop fuel memory left t)
unfolding program_loop
program_loop-Ends fuel memory zero t h = tt
program_loop-Ends zero memory (suc left) t h = absurd (omega arith)
program_loop-Ends (suc fuel) memory (suc left) t h =
    Ends-bind (read memory 0) _ (read-Ends memory 0) λ type.
      Ends-bind (read memory 1) _ (read-Ends memory 1) λ p1.
        Ends-bind (read memory 2) _ (read-Ends memory 2) λ p2.
          Ends-bind (read memory 3) _ (read-Ends memory 3) λ p3.
            Ends-bind (read memory 4) _ (read-Ends memory 4) λ p4.
              let len = p3 % 16 * 256 + p4 in
              let pid = p1 % 32 * 256 + p2 in
              Ends-bind (add_stream type pid len (drop 5 memory) t) _
                (add_stream-Ends pid len (drop 5 memory) type t)
                λ next.
                  program_loop-Ends fuel (drop len (drop 5 memory)) (suc left - (5 + len)) next
                    (omega arith)

process_pmt_section-Ends :
    (section : List ℕ) (section_length : ℕ) (was_h264 : Bool)
    → Ends (process_pmt_section section section_length was_h264)
unfolding process_pmt_section
process_pmt_section-Ends section section_length was_h264 =
    Ends-bind (read section 2) _ (read-Ends section 2) λ s2.
      Ends-bind (read section 5) _ (read-Ends section 5) λ s5.
        Ends-bind (read section 6) _ (read-Ends section 6) λ s6.
          Ends-bind (read section 7) _ (read-Ends section 7) λ s7.
            Ends-bind (read section 8) _ (read-Ends section 8) λ s8.
              Ends-bind _ _
                (program_loop-Ends section_length (drop (s7 % 16 * 256 + s8) (drop 9 section))
                  (section_length - 4 - (9 + (s7 % 16 * 256 + s8))) _ (omega arith))
                (λ t. tt)

ne_stuck {ℓ} : {A : Type ℓ} (m : Scanned A) → Ends m → m ≢ stuck
ne_stuck m h e = subst Ends e h

-- The loops of processPMTSection end on every section, whatever its length and its bytes: as many rounds
-- as the section length are enough for each of them.
pub process_pmt_section-ne_stuck :
    (section : List ℕ) (section_length : ℕ) (was_h264 : Bool)
    → process_pmt_section section section_length was_h264 ≢ stuck
process_pmt_section-ne_stuck section section_length was_h264 =
    ne_stuck _ (process_pmt_section-Ends section section_length was_h264)
