-- ===== src/Codec/Base64/RoundTrip.antt =====
-- base64_Decode reads back what base64_Encode wrote, and reports its length.
use openplatform_rdk_aamp.Prelude.{
  ℕ, suc, ◌+◌, ◌-◌, ◌*◌, ◌/◌, ◌%◌, ◌^◌, ◌≤◌, ◌<◌, ◌≡◌, refl, ap, ◌∙◌, List, [], ◌∷◌, ◌++◌, length,
  All, some, arith,
}
use openplatform_rdk_aamp.Prelude.Bits.{and_three, and_fifteen, and_sixty_three}
use openplatform_rdk_aamp.Codec.{IsByte}
use openplatform_rdk_aamp.Codec.Base64.{
  size_mod, minus_size, base64_round, base64_encode, base64_out_len, base64_decode_loop,
  base64_decode,
}
use openplatform_rdk_aamp.Codec.Base64.Groups.{
  index_of-char_at, byte0_lem, byte1_lem, byte2_lem, sextet1, sextet2,
}

pub length-base64_encode :
    (bytes : List ℕ) → length (base64_encode bytes) ≡ base64_out_len (length bytes)
unfolding base64_encode base64_out_len
length-base64_encode [] = refl
length-base64_encode (a ∷ []) = refl
length-base64_encode (a ∷ b ∷ []) = refl
length-base64_encode (a ∷ b ∷ c ∷ bytes) = omega (arith, length-base64_encode bytes)

-- How many `=` end the encoding.
unfoldable pub padding : List ℕ → ℕ
padding [] = 0
padding (a ∷ []) = 2
padding (a ∷ b ∷ []) = 1
padding (a ∷ b ∷ c ∷ bytes) = padding bytes

-- One full round on four valid sextets.
full_round :
    (d0 d1 d2 d3 n : ℕ) (written : List ℕ) (len : ℕ)
    → d0 < 64
    → d1 < 64
    → d2 < 64
    → d3 < 64
    → base64_round d0 d1 d2 d3 n (some (written, len))
      ≡ some ((d0 * 4 + d1 / 16) ∷ (d1 % 16 * 16 + d2 / 4) ∷ (d2 % 4 * 64 + d3) ∷ written, len)
full_round d0 d1 d2 d3 n written len h0 h1 h2 h3 =
    ground (arith, byte0_lem d0 d1, byte1_lem d1 d2, byte2_lem d2 d3)

one_byte :
    (a n : ℕ)
    → a < 256
    → base64_round (a / 4) (a % 4 * 16) 255 255 n (some ([], n)) ≡ some (a ∷ [], minus_size n 2)
one_byte a n h = ground (arith, byte0_lem (a / 4) (a % 4 * 16))

two_bytes :
    (a b n : ℕ)
    → a < 256
    → b < 256
    → base64_round (a / 4) (a % 4 * 16 + b / 16) (b % 16 * 4) 255 n (some ([], n))
      ≡ some (a ∷ b ∷ [], minus_size n 1)
two_bytes a b n ha hb =
    ground
      (arith, byte0_lem (a / 4) (a % 4 * 16 + b / 16), byte1_lem (a % 4 * 16 + b / 16) (b % 16 * 4))

pub three_bytes :
    (a b c n : ℕ) (written : List ℕ) (len : ℕ)
    → a < 256
    → b < 256
    → c < 256
    → base64_round
        (a / 4)
        (a % 4 * 16 + b / 16)
        (b % 16 * 4 + c / 64)
        (c % 64)
        n
        (some (written, len))
      ≡ some (a ∷ b ∷ c ∷ written, len)
three_bytes a b c n written len ha hb hc =
    full_round (a / 4) (a % 4 * 16 + b / 16) (b % 16 * 4 + c / 64) (c % 64) n written len
      (omega arith) (omega arith) (omega arith) (omega arith)
    ∙ ground arith

pub minus_three : (n : ℕ) → suc (suc (suc n)) - 3 ≡ n
minus_three n = omega arith

pub length-padding : (bytes : List ℕ) → (length bytes + padding bytes) % 3 ≡ 0
unfolding padding
length-padding [] = refl
length-padding (a ∷ []) = refl
length-padding (a ∷ b ∷ []) = refl
length-padding (a ∷ b ∷ c ∷ bytes) = omega (arith, length-padding bytes)

pub padding-le : (bytes : List ℕ) → padding bytes ≤ 2
unfolding padding
padding-le [] = omega arith
padding-le (a ∷ []) = omega arith
padding-le (a ∷ b ∷ []) = omega arith
padding-le (a ∷ b ∷ c ∷ bytes) = padding-le bytes

pub out_len : (bytes : List ℕ) → length (base64_encode bytes) ≡ (length bytes + 2) / 3 * 4
out_len bytes = length-base64_encode bytes ∙ unfold base64_out_len in refl

capacity_small :
    (bytes : List ℕ) → length bytes < 2 ^ 62 → length (base64_encode bytes) / 4 * 3 < size_mod
capacity_small bytes h = omega (arith, out_len bytes)

pub decode_loop-encode :
    (bytes tail : List ℕ) (n : ℕ)
    → All IsByte bytes
    → n < 2 ^ 64
    → base64_decode_loop (base64_encode bytes ++ tail) (length (base64_encode bytes)) n
      ≡ some (bytes, minus_size n (padding bytes))
unfolding base64_encode base64_decode_loop padding
decode_loop-encode [] tail n h hn = ap (λ (m : ℕ). some ([], m)) (omega arith)
decode_loop-encode (a ∷ []) tail n h hn =
    rw
      (
        and_three a h.0,
        index_of-char_at (a / 4) (omega arith),
        index_of-char_at (a % 4 * 16) (omega arith),
      )
      (one_byte a n h.0)
decode_loop-encode (a ∷ b ∷ []) tail n h hn =
    rw
      (
        sextet1 a b h.0 h.1.0,
        and_fifteen b h.1.0,
        index_of-char_at (a / 4) (omega arith),
        index_of-char_at (a % 4 * 16 + b / 16) (omega arith),
        index_of-char_at (b % 16 * 4) (omega arith),
      )
      (two_bytes a b n h.0 h.1.0)
decode_loop-encode (a ∷ b ∷ c ∷ bytes) tail n h hn =
    rw
      (
        sextet1 a b h.0 h.1.0,
        sextet2 b c h.1.0 h.1.1.0,
        and_sixty_three c h.1.1.0,
        index_of-char_at (a / 4) (omega arith),
        index_of-char_at (a % 4 * 16 + b / 16) (omega arith),
        index_of-char_at (b % 16 * 4 + c / 64) (omega arith),
        index_of-char_at (c % 64) (omega arith),
        minus_three (length (base64_encode bytes)),
        decode_loop-encode bytes tail n h.1.1.1 hn,
      )
      (three_bytes a b c n bytes (minus_size n (padding bytes)) h.0 h.1.0 h.1.1.0)

base64_num_chars :
    (bytes : List ℕ)
    → length bytes < 2 ^ 62
    → minus_size (length (base64_encode bytes) / 4 * 3) (padding bytes) ≡ length bytes
base64_num_chars bytes h = omega (arith, out_len bytes, length-padding bytes, padding-le bytes)

-- base64_Decode on what base64_Encode wrote, whatever memory follows: every byte is back, no read
-- leaves the string, and the length reported is the number of bytes, for fewer than 2 ^ 62 bytes.
pub base64_decode-encode :
    (bytes tail : List ℕ)
    → All IsByte bytes
    → length bytes < 2 ^ 62
    → base64_decode (base64_encode bytes ++ tail) (length (base64_encode bytes))
      ≡ some (bytes, length bytes)
unfolding base64_decode
base64_decode-encode bytes tail h small =
    decode_loop-encode bytes tail _ h (capacity_small bytes small)
    ∙ ap (λ (m : ℕ). some (bytes, m)) (base64_num_chars bytes small)
