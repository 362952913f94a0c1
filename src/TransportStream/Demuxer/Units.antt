-- ===== src/TransportStream/Demuxer/Units.antt =====
-- PES packets, described by their bytes, and what the machine of Demuxer/Feed makes of them.
use openplatform_rdk_aamp.Prelude.{
  ℕ, suc, ◌+◌, ◌*◌, ◌/◌, ◌%◌, ◌^◌, ◌<◌, ◌≡◌, List, [], ◌∷◌, ◌++◌, Option, none, some, length, arith,
  ap, true, false, sym, ◌∙◌, ==_ne, ◌==◌, ==_iff, if◌then◌else◌,
}
use mathlib.Core.List.{append_assoc, append-nil}
use openplatform_rdk_aamp.TransportStream.TimeStamps.{pes_time_stamp}
use openplatform_rdk_aamp.TransportStream.Demuxer.Pes.{
  getting_header, getting_es, PesParser, header_read,
}
use openplatform_rdk_aamp.TransportStream.Demuxer.Feed.{
  byte_case, byte_step, feed, parser, feed_es, extension_byte, in_extension,
}

-- The header of a PES packet with a PTS and perhaps a DTS. `id` and the length bytes are any, `marks` and
-- `flags` are the low six bits of the two flag bytes, `more` is the rest of the optional header.
pub record PesHeader : Type 0 where
  pub id : ℕ
  pub len_high : ℕ
  pub len_low : ℕ
  pub marks : ℕ
  pub flags : ℕ
  pub pts : ℕ
  pub dts : Option ℕ
  pub more : List ℕ

-- Five bytes with a prefix, the 33 bits of a time, and the marker bits.
abbrev pub stamp : ℕ → ℕ → List ℕ
stamp prefix ts =
    (prefix * 16 + ts / 2 ^ 30 * 2 + 1)
    ∷ ts / 2 ^ 22 % 256
    ∷ (ts / 2 ^ 15 % 128 * 2 + 1)
    ∷ ts / 2 ^ 7 % 256
    ∷ (ts % 128 * 2 + 1)
    ∷ []

abbrev pub stamps : ℕ → Option ℕ → List ℕ
stamps pts none = stamp 2 pts
stamps pts (some dts) = stamp 3 pts ++ stamp 1 dts

abbrev pub time_flags : Option ℕ → ℕ
time_flags none = 128
time_flags (some dts) = 192

abbrev pub optional_header : PesHeader → List ℕ
optional_header x = stamps x.pts x.dts ++ x.more

abbrev pub encode_header : PesHeader → List ℕ
encode_header x =
    0
    ∷ 0
    ∷ 1
    ∷ x.id
    ∷ x.len_high
    ∷ x.len_low
    ∷ (128 + x.marks)
    ∷ (time_flags x.dts + x.flags)
    ∷ length (optional_header x)
    ∷ optional_header x

abbrev pub IsTime : Option ℕ → Type 0
IsTime none = Unit
IsTime (some dts) = dts < 2 ^ 33

pub record IsHeader (x : PesHeader) : Type 0 where
  pub marks_small : x.marks < 64
  pub flags_small : x.flags < 64
  pub pts_small : x.pts < 2 ^ 33
  pub dts_small : IsTime x.dts
  pub optional_small : length (optional_header x) < 256

pub pes_time_stamp-stamp :
    (prefix ts : ℕ)
    → ts < 2 ^ 33
    → pes_time_stamp
        (prefix * 16 + ts / 2 ^ 30 * 2 + 1)
        (ts / 2 ^ 22 % 256)
        (ts / 2 ^ 15 % 128 * 2 + 1)
        (ts / 2 ^ 7 % 256)
        (ts % 128 * 2 + 1)
      ≡ ts
unfolding pes_time_stamp
pes_time_stamp-stamp prefix ts small = omega arith

full_byte :
    (h : List ℕ) (len : ℕ) (es : List ℕ) (n b : ℕ)
    → n ≡ len
    → byte_step (in_extension h len es n) b ≡ parser getting_es h len n (es ++ b ∷ [])
unfolding byte_case
full_byte h len es n b full = rw ((==_iff n len).1 full)

-- The bytes of the extension are skipped.
feed_extension :
    (h : List ℕ) (len : ℕ) (es : List ℕ) (n : ℕ) (xs rest : List ℕ)
    → n + length xs ≡ len
    → (feed (in_extension h len es n) (xs ++ rest)).es ≡ es ++ rest
unfolding feed byte_case
feed_extension h len es n [] [] full = sym (append-nil es)
feed_extension h len es n [] (b ∷ rest) full =
    ap (λ (q : PesParser). (feed q rest).es) (full_byte h len es n b (omega arith))
    ∙ ap (λ (q : PesParser). q.es) (feed_es h len n (es ++ b ∷ []) rest)
    ∙ append_assoc es (b ∷ []) rest
feed_extension h len es n (x ∷ []) rest full =
    let e : (suc n == len) ≡ true = (==_iff (suc n) len).1 (omega arith) in
    ap (λ (q : PesParser). (feed q rest).es)
      (extension_byte h len es n x (omega arith)
        ∙ ap (λ c. if c then parser getting_es h len (suc n) es else in_extension h len es (suc n))
            e)
    ∙ ap (λ (q : PesParser). q.es) (feed_es h len (suc n) es rest)
feed_extension h len es n (x ∷ y ∷ xs) rest full =
    let e : (suc n == len) ≡ false = ==_ne (suc n) len (λ same. absurd (omega arith)) in
    ap (λ (q : PesParser). (feed q ((y ∷ xs) ++ rest)).es)
      (extension_byte h len es n x (omega arith)
        ∙ ap (λ c. if c then parser getting_es h len (suc n) es else in_extension h len es (suc n))
            e)
    ∙ feed_extension h len es (suc n) (y ∷ xs) rest (omega arith)

pub optional_marks : (marks : ℕ) → marks < 64 → ((128 + marks) / 64 % 4 == 2) ≡ true
optional_marks marks small = (==_iff _ 2).1 (omega arith)

header_read_start :
    (id high low marks flags optional len n : ℕ) (es : List ℕ)
    → marks < 64
    → (let h = 0 ∷ 0 ∷ 1 ∷ id ∷ high ∷ low ∷ (128 + marks) ∷ flags ∷ optional ∷ [] in
        header_read (parser getting_header h len n es) ≡ in_extension h optional es 0)
unfolding header_read
header_read_start id high low marks flags optional len n es small = rw (optional_marks marks small)

-- A machine at the start of a PES packet with such a header appends what follows the header to the
-- elementary stream, and nothing else.
pub feed-header :
    (p : PesParser) (x : PesHeader) (rest : List ℕ)
    → IsHeader x
    → (feed (record p { pes_state = getting_header; pes_header = [] }) (encode_header x ++ rest)).es
      ≡ p.es ++ rest
unfolding feed byte_case header_read
feed-header p x rest w =
    ap (λ (q : PesParser). (feed q (optional_header x ++ rest)).es)
      (header_read_start x.id x.len_high x.len_low x.marks (time_flags x.dts + x.flags)
        (length (optional_header x)) p.pes_header_ext_len p.pes_header_ext_read p.es w.marks_small)
    ∙ feed_extension _ (length (optional_header x)) p.es 0 (optional_header x) rest (omega arith)
