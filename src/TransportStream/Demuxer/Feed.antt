-- ===== src/TransportStream/Demuxer/Feed.antt =====
-- The loop of processPacket under `/*PARSE PES*/` against a machine that takes one byte at a time.
use openplatform_rdk_aamp.Prelude.{
  ℕ, suc, ◌+◌, ◌-◌, ◌<◌, ◌≤◌, ◌≡◌, refl, List, [], ◌∷◌, ◌++◌, ◌==◌, if◌then◌else◌, some, length,
  arith, ap, min, Bool-cases, inl, inr, get_or, ◌&&◌, ◌⊎◌, sym, ==_refl, ==_ne, ==_iff, ◌∙◌,
}
use native.Mathlib.Nat.{add-zero}
use mathlib.Core.List.{append-nil, append_assoc}
use openplatform_rdk_aamp.TransportStream.Demuxer.Pes.{
  PesState, waiting_for_header, getting_header, getting_header_extension, getting_es, PesParser,
  is_start, has_optional_header, header_read, pes_case, pes_loop, pes_min_data,
}

-- One byte, by the state.
unfoldable pub byte_case : PesState → PesParser → ℕ → PesParser
byte_case waiting_for_header p b = p
byte_case getting_header p b =
    let q = record p { pes_header = p.pes_header ++ b ∷ [] } in
    if length q.pes_header == pes_min_data then header_read q else q
byte_case getting_header_extension p b =
    if p.pes_header_ext_read == p.pes_header_ext_len
    then record p { pes_state = getting_es; es = p.es ++ b ∷ [] }
    else (let q = record p { pes_header_ext_read = suc p.pes_header_ext_read } in
        if q.pes_header_ext_read == q.pes_header_ext_len
        then record q { pes_state = getting_es }
        else q)
byte_case getting_es p b = record p { es = p.es ++ b ∷ [] }

abbrev pub byte_step : PesParser → ℕ → PesParser
byte_step p b = byte_case p.pes_state p b

unfoldable pub feed : PesParser → List ℕ → PesParser
feed p [] = p
feed p (b ∷ bytes) = feed (byte_step p b) bytes

-- What the states know of the members.
abbrev pub StateInv : PesState → PesParser → Type 0
StateInv waiting_for_header p = Unit
StateInv getting_header p = length p.pes_header < 9
StateInv getting_header_extension p = p.pes_header_ext_read ≤ p.pes_header_ext_len
StateInv getting_es p = Unit

abbrev pub IsParser : PesParser → Type 0
IsParser p = StateInv p.pes_state p

pub feed-append : (p : PesParser) (xs ys : List ℕ) → feed p (xs ++ ys) ≡ feed (feed p xs) ys
unfolding feed
feed-append p [] ys = refl
feed-append p (b ∷ xs) ys = feed-append (byte_step p b) xs ys

-- A parser by its members.
abbrev pub parser : PesState → List ℕ → ℕ → ℕ → List ℕ → PesParser
parser s h len n es = record {
  pes_state = s;
  pes_header = h;
  pes_header_ext_len = len;
  pes_header_ext_read = n;
  es = es;
}

pub header_read-cases :
    (s : PesState) (h : List ℕ) (len n : ℕ) (es : List ℕ)
    → (header_read (parser s h len n es) ≡ parser getting_header_extension h (get_or h 8 0) 0 es)
      ⊎ (header_read (parser s h len n es) ≡ parser waiting_for_header h len n es)
unfolding header_read
header_read-cases s h len n es = elim (Bool-cases (is_start h && has_optional_header h)) [
  | inl optional ↦ inl (rw optional)
  | inr other ↦ inr (rw other)
]

module _ (h : List ℕ) (len n : ℕ) where
  feed_waiting :
      (es bytes : List ℕ)
      → feed (parser waiting_for_header h len n es) bytes ≡ parser waiting_for_header h len n es
  unfolding feed byte_case
  feed_waiting es [] = refl
  feed_waiting es (b ∷ bytes) = feed_waiting es bytes

  pub feed_es :
      (es bytes : List ℕ)
      → feed (parser getting_es h len n es) bytes ≡ parser getting_es h len n (es ++ bytes)
  unfolding feed byte_case
  feed_es es [] = ap (λ (xs : List ℕ). parser getting_es h len n xs) (sym (append-nil es))
  feed_es es (b ∷ bytes) =
      feed_es (es ++ b ∷ []) bytes
      ∙ ap (λ (xs : List ℕ). parser getting_es h len n xs) (append_assoc es (b ∷ []) bytes)

  pub loop_waiting :
      (rounds : ℕ) (es bytes : List ℕ)
      → pes_loop (suc rounds) (parser waiting_for_header h len n es) bytes
        ≡ some (feed (parser waiting_for_header h len n es) bytes)
  unfolding feed byte_case pes_case pes_loop
  loop_waiting rounds es [] = refl
  loop_waiting rounds es (b ∷ bytes) = ap (λ p. some p) (sym (feed_waiting es bytes))

  pub loop_es :
      (rounds : ℕ) (es bytes : List ℕ)
      → pes_loop (suc rounds) (parser getting_es h len n es) bytes
        ≡ some (feed (parser getting_es h len n es) bytes)
  unfolding pes_case pes_loop feed
  loop_es rounds es [] = refl
  loop_es rounds es (b ∷ bytes) = ap (λ p. some p) (sym (feed_es es (b ∷ bytes)))

-- One round, and one byte.
pub loop_round :
    (rounds : ℕ) (p : PesParser) (b : ℕ) (bytes : List ℕ) {q : PesParser} {left : List ℕ}
    → pes_case p.pes_state p (b ∷ bytes) ≡ (q, left)
    → pes_loop (suc rounds) p (b ∷ bytes) ≡ pes_loop rounds q left
unfolding pes_loop
loop_round rounds p b bytes e = ap (λ (r : PesParser × List ℕ). pes_loop rounds r.0 r.1) e

pub feed_byte :
    (p q : PesParser) (b : ℕ) (bytes : List ℕ)
    → byte_step p b ≡ q
    → some (feed q bytes) ≡ some (feed p (b ∷ bytes))
unfolding feed
feed_byte p q b bytes e = ap (λ r. some (feed r bytes)) (sym e)

module _ (h : List ℕ) (len : ℕ) (es : List ℕ) where
  abbrev pub in_extension : ℕ → PesParser
  in_extension n = parser getting_header_extension h len n es

  extension_full :
      (b : ℕ) (bytes : List ℕ)
      → pes_case getting_header_extension (in_extension len) (b ∷ bytes)
        ≡ (parser getting_es h len len es, b ∷ bytes)
  unfolding pes_case
  extension_full b bytes =
      let e : min (len - len) (suc (length bytes)) ≡ 0 = ground arith in
      rw (e, add-zero len, ==_refl len) refl

  extension_last :
      (n b : ℕ) (bytes : List ℕ)
      → suc n ≡ len
      → pes_case getting_header_extension (in_extension n) (b ∷ bytes)
        ≡ (parser getting_es h len len es, bytes)
  unfolding pes_case
  extension_last n b bytes last =
      let e : min (len - n) (suc (length bytes)) ≡ 1 = ground arith in
      let f : n + 1 ≡ len = omega arith in rw (e, f, ==_refl len) refl

  extension_more :
      (n b : ℕ) (bytes : List ℕ)
      → suc n < len
      → pes_case getting_header_extension (in_extension n) (b ∷ bytes)
        ≡ pes_case getting_header_extension (in_extension (suc n)) bytes
  unfolding pes_case
  extension_more n b bytes more =
      let e : min (len - n) (suc (length bytes)) ≡ suc (min (len - suc n) (length bytes)) =
        ground arith in
      let f : n + suc (min (len - suc n) (length bytes))
          ≡ suc n + min (len - suc n) (length bytes) =
        omega arith in
      rw (e, f) refl

  extension_next :
      (rounds n : ℕ) (bytes : List ℕ)
      → n < len
      → (let (q, left) = pes_case getting_header_extension (in_extension n) bytes in
          pes_loop (suc rounds) q left)
        ≡ pes_loop (suc (suc rounds)) (in_extension n) bytes
  unfolding pes_case pes_loop
  extension_next rounds n [] more =
      let e : min (len - n) 0 ≡ 0 = ground arith in
      rw (e, add-zero n, ==_ne n len (λ same. absurd (omega arith))) refl
  extension_next rounds n (b ∷ bytes) more = refl

  pub extension_byte :
      (n b : ℕ)
      → n < len
      → byte_step (in_extension n) b
        ≡ (if suc n == len then parser getting_es h len (suc n) es else in_extension (suc n))
  unfolding byte_case
  extension_byte n b more = rw (==_ne n len (λ same. absurd (omega arith))) refl

  extension_byte_full :
      (b : ℕ) → byte_step (in_extension len) b ≡ byte_step (parser getting_es h len len es) b
  unfolding byte_case
  extension_byte_full b = rw (==_refl len) refl

  pub loop_extension :
      (rounds n : ℕ) (bytes : List ℕ)
      → n ≤ len
      → pes_loop (suc (suc rounds)) (in_extension n) bytes ≡ some (feed (in_extension n) bytes)
  unfolding pes_loop feed
  loop_extension rounds n [] h = refl
  loop_extension rounds n (b ∷ bytes) room = elim (Bool-cases (n == len)) [
    | inl full ↦ rw ((==_iff n len).0 full) (
        loop_round (suc rounds) (in_extension len) b bytes (extension_full b bytes)
        ∙ loop_es h len len rounds es (b ∷ bytes)
        ∙ feed_byte (in_extension len) _ b bytes (extension_byte_full b))
    | inr open_yet ↦ elim (Bool-cases (suc n == len)) [
      | inl last ↦
          let e : suc n ≡ len = (==_iff (suc n) len).0 last in
          loop_round (suc rounds) (in_extension n) b bytes (extension_last n b bytes e)
          ∙ loop_es h len len rounds es bytes
          ∙ feed_byte (in_extension n) _ b bytes
              (rw (last, e) at (extension_byte n b (omega arith)))
      | inr more ↦
          let below : suc n < len = ground arith in
          loop_round (suc rounds) (in_extension n) b bytes (extension_more n b bytes below)
          ∙ extension_next rounds (suc n) bytes below
          ∙ loop_extension rounds (suc n) bytes (omega arith)
          ∙ feed_byte (in_extension n) _ b bytes (rw more at (extension_byte n b (omega arith)))
    ]
  ]
