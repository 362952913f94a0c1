-- ===== src/TransportStream/Demuxer/Chunks.antt =====
-- The loop of processPacket under `/*PARSE PES*/` does not see how the bytes are cut into packets.
use mathlib.Core.List.{append-nil, append_assoc}
use openplatform_rdk_aamp.Prelude.{
  ℕ, suc, ◌-◌, ◌<◌, ◌≤◌, ◌≡◌, refl, List, [], ◌∷◌, ◌++◌, ◌==◌, if◌then◌else◌, some, take, length,
  arith, Bool-cases, inl, inr, false, length-append, take-nil, drop-nil, get_or, ◌∙◌, ==_ne, ==_iff,
}
use openplatform_rdk_aamp.TransportStream.Demuxer.Pes.{
  PesState, waiting_for_header, getting_header, getting_header_extension, getting_es, PesParser,
  header_read, pes_case, pes_loop,
}
use openplatform_rdk_aamp.TransportStream.Demuxer.Feed.{
  byte_case, byte_step, feed, StateInv, IsParser, parser, header_read-cases, loop_waiting, loop_es,
  loop_round, feed_byte, loop_extension,
}

ne_nine : (k : ℕ) → (k == 9) ≡ false → k ≤ 9 → k < 9
ne_nine k h le = ground arith

module _ (len n : ℕ) (es : List ℕ) where
  abbrev in_header : List ℕ → PesParser
  in_header h = parser getting_header h len n es

  header_byte :
      (h : List ℕ) (b : ℕ)
      → byte_step (in_header h) b ≡ (
          if length (h ++ b ∷ []) == 9
          then header_read (in_header (h ++ b ∷ []))
          else in_header (h ++ b ∷ []))
  unfolding byte_case
  header_byte h b = refl

  header_last :
      (h : List ℕ) (b : ℕ) (bytes : List ℕ)
      → length (h ++ b ∷ []) ≡ 9
      → pes_case getting_header (in_header h) (b ∷ bytes)
        ≡ (header_read (in_header (h ++ b ∷ [])), bytes)
  unfolding pes_case
  header_last h b bytes last =
      let e : 9 - length h ≡ 1 = omega (arith, length-append h (b ∷ [])) in rw (e, last) refl

  header_more :
      (h : List ℕ) (b : ℕ) (bytes : List ℕ)
      → length (h ++ b ∷ []) < 9
      → pes_case getting_header (in_header h) (b ∷ bytes)
        ≡ pes_case getting_header (in_header (h ++ b ∷ [])) bytes
  unfolding pes_case
  header_more h b bytes more =
      let e : 9 - length h ≡ suc (9 - length (h ++ b ∷ [])) =
        omega (arith, length-append h (b ∷ [])) in
      rw (e, ← append_assoc h (b ∷ []) (take (9 - length (h ++ b ∷ [])) bytes)) refl

  header_next :
      (rounds : ℕ) (h bytes : List ℕ)
      → length h < 9
      → (let (q, left) = pes_case getting_header (in_header h) bytes in
          pes_loop (suc (suc rounds)) q left)
        ≡ pes_loop (suc (suc (suc rounds))) (in_header h) bytes
  unfolding pes_case pes_loop
  header_next rounds h [] more =
      rw
        (
          take-nil {A = ℕ} (9 - length h),
          drop-nil {A = ℕ} (9 - length h),
          append-nil h,
          ==_ne (length h) 9 (λ same. absurd (omega arith)),
        )
        refl
  header_next rounds h (b ∷ bytes) more = refl

  loop_read_header :
      (rounds : ℕ) (h bytes : List ℕ)
      → pes_loop (suc (suc rounds)) (header_read (in_header h)) bytes
        ≡ some (feed (header_read (in_header h)) bytes)
  loop_read_header rounds h bytes = elim (header_read-cases getting_header h len n es) [
    | inl e ↦ rw e (loop_extension h (get_or h 8 0) es rounds 0 bytes (omega arith))
    | inr e ↦ rw e (loop_waiting h len n (suc rounds) es bytes)
  ]

  loop_header :
      (rounds : ℕ) (h bytes : List ℕ)
      → length h < 9
      → pes_loop (suc (suc (suc rounds))) (in_header h) bytes ≡ some (feed (in_header h) bytes)
  unfolding pes_loop feed
  loop_header rounds h [] short = refl
  loop_header rounds h (b ∷ bytes) short = elim (Bool-cases (length (h ++ b ∷ []) == 9)) [
    | inl last ↦
        loop_round (suc (suc rounds)) (in_header h) b bytes
          (header_last h b bytes ((==_iff _ _).0 last))
        ∙ loop_read_header rounds (h ++ b ∷ []) bytes
        ∙ feed_byte (in_header h) _ b bytes (rw last at (header_byte h b))
    | inr more ↦
        let below : length (h ++ b ∷ []) < 9 =
          omega (arith, length-append h (b ∷ []), ne_nine (length (h ++ b ∷ [])) more) in
        loop_round (suc (suc rounds)) (in_header h) b bytes (header_more h b bytes below)
        ∙ header_next rounds (h ++ b ∷ []) bytes below
        ∙ loop_header rounds (h ++ b ∷ []) bytes below
        ∙ feed_byte (in_header h) _ b bytes (rw more at (header_byte h b))
  ]

loop-feed_case :
    (s : PesState) (h : List ℕ) (len n : ℕ) (es bytes : List ℕ)
    → StateInv s (parser s h len n es)
    → pes_loop 4 (parser s h len n es) bytes ≡ some (feed (parser s h len n es) bytes)
loop-feed_case waiting_for_header h len n es bytes inv = loop_waiting h len n 3 es bytes
loop-feed_case getting_header h len n es bytes inv = loop_header len n es 1 h bytes inv
loop-feed_case getting_header_extension h len n es bytes inv = loop_extension h len es 2 n bytes inv
loop-feed_case getting_es h len n es bytes inv = loop_es h len n 3 es bytes

-- Four rounds end the loop on any data, and leave what the machine leaves that takes the data byte by
-- byte: in a state with fewer than nine header bytes while it reads the header, and no more extension
-- bytes read than there are.
pub pes_loop-feed :
    (p : PesParser) (bytes : List ℕ) → IsParser p → pes_loop 4 p bytes ≡ some (feed p bytes)
pes_loop-feed p bytes inv =
    loop-feed_case p.pes_state p.pes_header p.pes_header_ext_len p.pes_header_ext_read p.es bytes
      inv

byte_case-IsParser :
    (s : PesState) (h : List ℕ) (len n : ℕ) (es : List ℕ) (b : ℕ)
    → StateInv s (parser s h len n es)
    → IsParser (byte_case s (parser s h len n es) b)
unfolding byte_case
byte_case-IsParser waiting_for_header h len n es b inv = tt
byte_case-IsParser getting_header h len n es b inv = elim (Bool-cases (length (h ++ b ∷ []) == 9)) [
  | inl last ↦ rw last (elim (header_read-cases getting_header (h ++ b ∷ []) len n es) [
    | inl e ↦ rw e (omega arith)
    | inr e ↦ rw e (tt)
  ])
  | inr more ↦
      rw more (omega (arith, length-append h (b ∷ []), ne_nine (length (h ++ b ∷ [])) more))
]
byte_case-IsParser getting_header_extension h len n es b inv = elim (Bool-cases (n == len)) [
  | inl full ↦ rw full (tt)
  | inr open_yet ↦ elim (Bool-cases (suc n == len)) [
    | inl last ↦ rw (open_yet, last) (tt)
    | inr more ↦ rw (open_yet, more) (ground arith)
  ]
]
byte_case-IsParser getting_es h len n es b inv = tt

pub feed-IsParser : (p : PesParser) (bytes : List ℕ) → IsParser p → IsParser (feed p bytes)
unfolding feed
feed-IsParser p [] inv = inv
feed-IsParser p (b ∷ bytes) inv = feed-IsParser (byte_step p b) bytes (
    byte_case-IsParser p.pes_state p.pes_header p.pes_header_ext_len p.pes_header_ext_read p.es b
      inv)
