-- ===== src/TransportStream/Pmt/Growth.antt =====
-- What one stream does to the tables of processPMTSection.
use openplatform_rdk_aamp.Prelude.{
  ℕ, zero, suc, ◌≤◌, ◌≡◌, refl, List, [], ◌∷◌, ◌++◌, true, ltb, if◌then◌else◌, none, take, length,
  All, arith, ap, Bool-cases, inl, inr, length-append, take-append, sym, ltb-false, ltb→lt, lt→ltb,
}
use mathlib.Core.List.{append-nil}
use openplatform_rdk_aamp.TransportStream.Pmt.{
  ok, Component, Tables, add_audio, find_language, find_private_audio,
}
use openplatform_rdk_aamp.TransportStream.Pmt.Streams.{
  Descriptor, IsDescriptor, encode_descriptors, last_language, private_format, find_language-encode,
  find_private_audio-encode,
}
use openplatform_rdk_aamp.TransportStream.Pmt.Expected.{
  Stream, is_video, is_audio, video_component, audio_component, one_if, or_dsmcc,
}

-- What a stream does to the tables.
pub record Added (s : Stream) (t next : Tables) : Type 0 where
  pub video : next.video ≡ take 8 (t.video ++ one_if (is_video s) (video_component s))
  pub audio : next.audio ≡ take 8 (t.audio ++ one_if (is_audio s) (audio_component s))
  pub dsmcc : next.dsmcc ≡ or_dsmcc t.dsmcc s

abbrev pub Fits : Tables → Type 0
Fits t = (length t.video ≤ 8) × (length t.audio ≤ 8)

pub take_all : {A : Type 0} (n : ℕ) (xs : List A) → length xs ≤ n → take n xs ≡ xs
take_all zero [] h = refl
take_all zero (x ∷ xs) h = absurd (omega arith)
take_all (suc n) [] h = refl
take_all (suc n) (x ∷ xs) h = ap (◌∷◌ x) (take_all n xs (omega arith))

pub take_none : {A : Type 0} (n : ℕ) (xs : List A) → length xs ≤ n → xs ≡ take n (xs ++ [])
take_none n xs h = sym (rw (append-nil xs) (take_all n xs h))

-- The new component behind a table that is not full, and no change of a full one.
pub take_room :
    {A : Type 0} (n : ℕ) (xs : List A) (x : A)
    → length xs ≤ n
    → (if ltb (length xs) n then xs ++ x ∷ [] else xs) ≡ take n (xs ++ x ∷ [])
take_room n xs x h = elim (Bool-cases (ltb (length xs) n)) [
  | inl room ↦ rw room (
      sym (
        take_all n (xs ++ x ∷ [])
          (omega (arith, length-append xs (x ∷ []), ltb→lt (length xs) n room))))
  | inr full ↦
      let e : n ≡ length xs = omega (arith, ltb-false (length xs) n full) in
      rw (full, e) (sym (take-append xs (x ∷ [])))
]

longer_than_two :
    (d : Descriptor) (ds : List Descriptor)
    → IsDescriptor d
    → ltb 2 (length (encode_descriptors (d ∷ ds))) ≡ true
longer_than_two d ds w =
    lt→ltb 2 _ (omega (arith, length-append d.body (encode_descriptors ds), w.some_bytes))

-- `if (len > 2)` passes exactly where there is a descriptor.
pub guarded_language :
    (ds : List Descriptor) (rest : List ℕ)
    → All IsDescriptor ds
    → (let len = length (encode_descriptors ds) in
        if ltb 2 len then find_language len (encode_descriptors ds ++ rest) len none else ok none)
      ≡ ok (last_language ds none)
guarded_language [] rest w = refl
guarded_language (d ∷ ds) rest w =
    rw (longer_than_two d ds w.0) (
      find_language-encode rest (d ∷ ds) (length (encode_descriptors (d ∷ ds))) none w
        (omega arith))

pub guarded_private :
    (ds : List Descriptor) (rest : List ℕ)
    → All IsDescriptor ds
    → (let len = length (encode_descriptors ds) in
        if ltb 2 len then find_private_audio len (encode_descriptors ds ++ rest) len else ok none)
      ≡ ok (private_format ds)
unfolding private_format
guarded_private [] rest w = refl
guarded_private (d ∷ ds) rest w =
    rw (longer_than_two d ds w.0)
      (find_private_audio-encode rest (d ∷ ds) (length (encode_descriptors (d ∷ ds))) (omega arith))

abbrev pub added_audio : ℕ → ℕ → List Descriptor → Component
added_audio type pid ds = record {
  pid = pid;
  elem_stream_type = type;
  language = last_language ds none;
}

pub add_audio-encode :
    (type pid : ℕ) (ds : List Descriptor) (rest : List ℕ) (t : Tables)
    → All IsDescriptor ds
    → length t.audio ≤ 8
    → (next : Tables) × (add_audio type pid
          (length (encode_descriptors ds))
          (encode_descriptors ds ++ rest)
          t
        ≡ ok next)
      × (next.video ≡ t.video)
      × (next.dsmcc ≡ t.dsmcc)
      × (next.audio ≡ take 8 (t.audio ++ added_audio type pid ds ∷ []))
unfolding add_audio
add_audio-encode type pid ds rest t w fits = elim (Bool-cases (ltb (length t.audio) 8)) [
  | inl room ↦ (
    record t { audio = t.audio ++ added_audio type pid ds ∷ [] },
    rw (room, guarded_language ds rest w) refl,
    refl,
    refl,
    rw room at (take_room 8 t.audio (added_audio type pid ds) fits),
  )
  | inr full ↦
      (t, rw full refl, refl, refl, rw full at (take_room 8 t.audio (added_audio type pid ds) fits))
]
