-- ===== src/TransportStream/Pmt/Kinds.antt =====
-- Each kind of stream in the switch of processPMTSection.
use openplatform_rdk_aamp.Prelude.{
  ℕ, ◌≤◌, ◌≡◌, refl, List, [], ◌∷◌, ◌++◌, Bool, true, false, ltb, ◌==◌, ◌&&◌, ◌||◌, if◌then◌else◌,
  Option, none, some, take, length, arith, Bool-cases, inl, inr, Option-cases,
}
use openplatform_rdk_aamp.TransportStream.Pmt.{
  ok, Component, Tables, is_mpeg_video, h264, pes_private, is_plain_audio, dsm_cc, add_private,
  add_stream, add_video, add_h264, add_dsmcc,
}
use openplatform_rdk_aamp.TransportStream.Pmt.Streams.{encode_descriptors, private_format}
use openplatform_rdk_aamp.TransportStream.Pmt.Expected.{
  Stream, info_len, IsStream, is_video, is_audio, one_if, or_dsmcc,
}
use openplatform_rdk_aamp.TransportStream.Pmt.Growth.{
  Added, Fits, take_none, take_room, guarded_private, add_audio-encode,
}

module _ {A : Type 0} (c : Bool) (a : A) (xs next : List A) where
  unchanged : c ≡ false → length xs ≤ 8 → next ≡ xs → next ≡ take 8 (xs ++ one_if c a)
  unchanged no_new fits e = rw (no_new, e) (take_none 8 xs fits)

  grown :
      c ≡ true
      → length xs ≤ 8
      → next ≡ (if ltb (length xs) 8 then xs ++ a ∷ [] else xs)
      → next ≡ take 8 (xs ++ one_if c a)
  grown new fits e = rw (new, e) (take_room 8 xs a fits)

no_dsmcc :
    (s : Stream) (before next : Option Component)
    → (s.type == dsm_cc) ≡ false
    → next ≡ before
    → next ≡ or_dsmcc before s
no_dsmcc s none next other e = rw other e
no_dsmcc s (some c) next other e = e

module _ (type : ℕ) (private : Bool) where
  abbrev NoAudio : Type 0
  NoAudio =
      ((is_plain_audio type || (type == pes_private && private)) ≡ false)
      × ((type == dsm_cc) ≡ false)

  mpeg_video_kind : is_mpeg_video type ≡ true → NoAudio
  mpeg_video_kind h = (ground arith, ground arith)

  h264_kind : (type == h264) ≡ true → NoAudio
  h264_kind h = (ground arith, ground arith)

  private_kind :
      (type == pes_private) ≡ true → (is_plain_audio type ≡ false) × ((type == dsm_cc) ≡ false)
  private_kind h = (ground arith, ground arith)

  plain_kind : is_plain_audio type ≡ true → (type == dsm_cc) ≡ false
  plain_kind h = ground arith

module _ (type pid : ℕ) (t : Tables) where
  abbrev added_video : Component
  added_video = record { pid = pid; elem_stream_type = type; language = none }

  add_video_fields :
      ((add_video type pid t).video
        ≡ (if ltb (length t.video) 8 then t.video ++ added_video ∷ [] else t.video))
      × ((add_video type pid t).audio ≡ t.audio)
      × ((add_video type pid t).dsmcc ≡ t.dsmcc)
  add_video_fields = elim (Bool-cases (ltb (length t.video) 8)) [
    | inl e ↦ rw e (refl, refl, refl)
    | inr e ↦ rw e (refl, refl, refl)
  ]

  add_h264_fields :
      ((add_h264 type pid t).video
        ≡ (if ltb (length t.video) 8 then t.video ++ added_video ∷ [] else t.video))
      × ((add_h264 type pid t).audio ≡ t.audio)
      × ((add_h264 type pid t).dsmcc ≡ t.dsmcc)
  add_h264_fields = elim (Bool-cases (ltb (length t.video) 8)) [
    | inl e ↦ rw e (refl, refl, refl)
    | inr e ↦ rw e (refl, refl, refl)
  ]

add_dsmcc_fields :
    (s : Stream) (t : Tables)
    → (s.type == dsm_cc) ≡ true
    → ((add_dsmcc s.type s.pid t).video ≡ t.video)
      × ((add_dsmcc s.type s.pid t).audio ≡ t.audio)
      × ((add_dsmcc s.type s.pid t).dsmcc ≡ or_dsmcc t.dsmcc s)
add_dsmcc_fields s t is_dsmcc = elim (Option-cases t.dsmcc) [
  | inl e ↦ rw (e, is_dsmcc) (refl, refl, refl)
  | inr (c, e) ↦ rw e (refl, refl, refl)
]

-- Each kind of stream, by its type.
module _ (s : Stream) (rest : List ℕ) (t : Tables) (w : IsStream s) (fits : Fits t) where
  abbrev pub Goal : Type 0
  Goal =
      (next : Tables) × (add_stream s.type s.pid (info_len s)
          (encode_descriptors s.descriptors ++ rest) t
        ≡ ok next)
      × Added s t next

  video_fits : length t.video ≤ 8
  video_fits = fits.0

  added_mpeg_video : is_mpeg_video s.type ≡ true → Goal
  unfolding add_stream
  added_mpeg_video h = (
    add_video s.type s.pid t,
    rw h refl,
    record {
      video = grown (is_video s) _ t.video _ (rw h refl) fits.0 (add_video_fields s.type s.pid t).0;
      audio =
          unchanged (is_audio s) _ t.audio _ (mpeg_video_kind s.type _ h).0 fits.1
            (add_video_fields s.type s.pid t).1;
      dsmcc =
          no_dsmcc s t.dsmcc _ (mpeg_video_kind s.type true h).1
            (add_video_fields s.type s.pid t).2;
    },
  )

  module _ (h : is_mpeg_video s.type ≡ false) where
    added_h264 : (s.type == h264) ≡ true → Goal
    unfolding add_stream
    added_h264 e = (
      add_h264 s.type s.pid t,
      rw (h, e) refl,
      record {
        video =
            grown (is_video s) _ t.video _ (rw (h, e) refl) fits.0
              (add_h264_fields s.type s.pid t).0;
        audio =
            unchanged (is_audio s) _ t.audio _ (h264_kind s.type _ e).0 fits.1
              (add_h264_fields s.type s.pid t).1;
        dsmcc = no_dsmcc s t.dsmcc _ (h264_kind s.type true e).1 (add_h264_fields s.type s.pid t).2;
      },
    )

    module _ (k : (s.type == h264) ≡ false) where
      no_video : is_video s ≡ false
      no_video = rw (h, k) refl

      added_private : (s.type == pes_private) ≡ true → Goal
      unfolding add_stream add_private
      added_private e = elim (Option-cases (private_format s.descriptors)) [
        | inl none_found ↦ (
          t,
          rw (h, k, e, guarded_private s.descriptors rest w.are_descriptors, none_found) refl,
          record {
            video = unchanged (is_video s) _ t.video _ no_video fits.0 refl;
            audio =
                unchanged (is_audio s) _ t.audio _
                  (rw ((private_kind s.type true e).0, e, none_found) refl) fits.1 refl;
            dsmcc = no_dsmcc s t.dsmcc _ (private_kind s.type true e).1 refl;
          },
        )
        | inr (format, found) ↦
            let with_format : Tables = record t { audio_format = format } in
            let added =
              add_audio-encode s.type s.pid s.descriptors rest with_format w.are_descriptors
                fits.1 in
            (
              added.0,
              rw (h, k, e, guarded_private s.descriptors rest w.are_descriptors, found) added.1,
              record {
                video = unchanged (is_video s) _ t.video _ no_video fits.0 added.2;
                audio = rw ((private_kind s.type true e).0, e, found) added.4;
                dsmcc = no_dsmcc s t.dsmcc _ (private_kind s.type true e).1 added.3;
              },
            )
      ]

      module _ (l : (s.type == pes_private) ≡ false) where
        added_plain : is_plain_audio s.type ≡ true → Goal
        unfolding add_stream
        added_plain e =
            let added =
              add_audio-encode s.type s.pid s.descriptors rest t w.are_descriptors fits.1 in
            (
              added.0,
              rw (h, k, l, e) added.1,
              record {
                video = unchanged (is_video s) _ t.video _ no_video fits.0 added.2;
                audio = rw e added.4;
                dsmcc = no_dsmcc s t.dsmcc _ (plain_kind s.type true e) added.3;
              },
            )

        added_rest : is_plain_audio s.type ≡ false → Goal
        unfolding add_stream
        added_rest e = elim (Bool-cases (s.type == dsm_cc)) [
          | inl d ↦ (
            add_dsmcc s.type s.pid t,
            rw (h, k, l, e, d) refl,
            record {
              video = unchanged (is_video s) _ t.video _ no_video fits.0 (add_dsmcc_fields s t d).0;
              audio =
                  unchanged (is_audio s) _ t.audio _ (rw (e, l) refl) fits.1
                    (add_dsmcc_fields s t d).1;
              dsmcc = (add_dsmcc_fields s t d).2;
            },
          )
          | inr d ↦ (
            t,
            rw (h, k, l, e, d) refl,
            record {
              video = unchanged (is_video s) _ t.video _ no_video fits.0 refl;
              audio = unchanged (is_audio s) _ t.audio _ (rw (e, l) refl) fits.1 refl;
              dsmcc = no_dsmcc s t.dsmcc _ d refl;
            },
          )
        ]

  pub added_stream : Goal
  added_stream = elim (Bool-cases (is_mpeg_video s.type)) [
    | inl h ↦ added_mpeg_video h
    | inr h ↦ elim (Bool-cases (s.type == h264)) [
      | inl k ↦ added_h264 h k
      | inr k ↦ elim (Bool-cases (s.type == pes_private)) [
        | inl l ↦ added_private h k l
        | inr l ↦ elim (Bool-cases (is_plain_audio s.type)) [
          | inl e ↦ added_plain h k l e
          | inr e ↦ added_rest h k l e
        ]
      ]
    ]
  ]
