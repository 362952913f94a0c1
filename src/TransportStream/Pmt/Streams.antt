-- ===== src/TransportStream/Pmt/Streams.antt =====
-- The bytes of the streams of a program map section, described without the code, and the loops of
-- processPMTSection over the descriptors of a stream.
use openplatform_rdk_aamp.Prelude.{
  ℕ, zero, suc, ◌+◌, ◌-◌, ◌<◌, ◌≤◌, ◌≡◌, ◌≢◌, refl, List, [], ◌∷◌, ◌++◌, true, false, leb, ◌==◌,
  if◌then◌else◌, Option, none, some, length, All, arith, Bool-cases, inl, inr, ◌⊎◌, length-append,
  take-append, drop-append, ==_iff,
}
use mathlib.Core.List.{append_assoc}
use openplatform_rdk_aamp.TransportStream.Pmt.{
  ok, c_string, copy_language, find_language, find_private_audio, Format, audio_es_ac3,
  audio_es_ec3,
}

pub record Descriptor : Type 0 where
  pub tag : ℕ
  pub body : List ℕ

pub record IsDescriptor (d : Descriptor) : Type 0 where
  pub some_bytes : 0 < length d.body
  pub byte_length : length d.body < 256
  pub language_fits : (d.tag ≢ 0x0a) ⊎ (length d.body < 32)

abbrev pub encode_descriptors : List Descriptor → List ℕ
encode_descriptors [] = []
encode_descriptors (d ∷ ds) = d.tag ∷ length d.body ∷ (d.body ++ encode_descriptors ds)

-- The text of the last language descriptor, else `before`.
abbrev pub last_language : List Descriptor → Option (List ℕ) → Option (List ℕ)
last_language [] before = before
last_language (d ∷ ds) before =
    last_language ds (if d.tag == 0x0a then some (c_string d.body) else before)

-- The format of the first descriptor for AC-3 or E-AC-3.
unfoldable pub private_format : List Descriptor → Option Format
private_format [] = none
private_format (d ∷ ds) =
    let rest = private_format ds in
    if d.tag == 0x6a then some audio_es_ac3 else if d.tag == 0x7a then some audio_es_ec3 else rest

leb-length : (xs rest : List ℕ) → leb (length xs) (length (xs ++ rest)) ≡ true
leb-length xs rest = ground (arith, length-append xs rest)

copy_language-body :
    (body rest : List ℕ)
    → length body < 32
    → copy_language (length body) (body ++ rest) ≡ ok (c_string body)
unfolding copy_language
copy_language-body body rest small =
    let fits : leb 32 (length body) ≡ false = ground arith in
    rw (fits, leb-length body rest, take-append body rest) refl

-- What is left behind a descriptor.
left_after :
    (body rest : List ℕ) → suc (suc (length (body ++ rest))) - (2 + length body) ≡ length rest
left_after body rest = omega (arith, length-append body rest)

language_small : (d : Descriptor) → IsDescriptor d → (d.tag == 0x0a) ≡ true → length d.body < 32
language_small d w e = elim w.language_fits [
  | inl other ↦ absurd (other ((==_iff d.tag 0x0a).0 e))
  | inr small ↦ small
]

module _ (rest : List ℕ) where
  pub find_language-encode :
      (ds : List Descriptor) (fuel : ℕ) (before : Option (List ℕ))
      → All IsDescriptor ds
      → length (encode_descriptors ds) ≤ fuel
      → find_language fuel (encode_descriptors ds ++ rest) (length (encode_descriptors ds)) before
        ≡ ok (last_language ds before)
  unfolding find_language
  find_language-encode [] fuel before w enough = refl
  find_language-encode (d ∷ ds) zero before w enough = absurd (omega arith)
  find_language-encode (d ∷ ds) (suc fuel) before (w, ws) enough =
      rw
        (
          left_after d.body (encode_descriptors ds),
          append_assoc d.body (encode_descriptors ds) rest,
          drop-append d.body (encode_descriptors ds ++ rest),
        )
        (elim (Bool-cases (d.tag == 0x0a)) [
          | inl e ↦
              rw
                (
                  e,
                  copy_language-body d.body (encode_descriptors ds ++ rest) (language_small d w e),
                )
                (find_language-encode ds fuel (some (c_string d.body)) ws
                  (omega (arith, length-append d.body (encode_descriptors ds))))
          | inr e ↦ rw e (
              find_language-encode ds fuel before ws
                (omega (arith, length-append d.body (encode_descriptors ds))))
        ])

  pub find_private_audio-encode :
      (ds : List Descriptor) (fuel : ℕ)
      → length (encode_descriptors ds) ≤ fuel
      → find_private_audio fuel (encode_descriptors ds ++ rest) (length (encode_descriptors ds))
        ≡ ok (private_format ds)
  unfolding find_private_audio private_format
  find_private_audio-encode [] fuel enough = refl
  find_private_audio-encode (d ∷ ds) zero enough = absurd (omega arith)
  find_private_audio-encode (d ∷ ds) (suc fuel) enough =
      rw
        (
          left_after d.body (encode_descriptors ds),
          append_assoc d.body (encode_descriptors ds) rest,
          drop-append d.body (encode_descriptors ds ++ rest),
          find_private_audio-encode ds fuel
              (omega (arith, length-append d.body (encode_descriptors ds))),
        )
        (elim (Bool-cases (d.tag == 0x6a)) [
          | inl e ↦ rw e refl
          | inr e ↦ elim (Bool-cases (d.tag == 0x7a)) [
            | inl f ↦ rw (e, f) refl
            | inr f ↦ rw (e, f) refl
          ]
        ])
