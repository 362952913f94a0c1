-- ===== src/Codec/Base64/Groups.antt =====
-- One group of base64: three bytes as four sextets, in plain arithmetic.
use openplatform_rdk_aamp.Prelude.{
  ℕ, ◌+◌, ◌*◌, ◌/◌, ◌%◌, ◌<◌, ◌≡◌, refl, bit_and, bit_or, arith, ◌==◌, ==_iff, true,
}
use openplatform_rdk_aamp.Prelude.Bits.{
  all_below, all_below_sound, and_three, and_fifteen, or_shl_two, or_shl_four, or_shl_six,
}
use openplatform_rdk_aamp.Codec.Base64.{char_at, index_of, base64_byte0, base64_byte1, base64_byte2}

index_table : all_below 64 (λ i. index_of (char_at i) == i) ≡ true
unfolding all_below
index_table = refl

-- The two tables are inverse on sextets.
pub index_of-char_at : (i : ℕ) → i < 64 → index_of (char_at i) ≡ i
index_of-char_at i h =
    (==_iff _ _).0 (all_below_sound 64 (λ i. index_of (char_at i) == i) i index_table h)

pub byte0_lem : (d e : ℕ) → d < 64 → e < 64 → base64_byte0 d e ≡ d * 4 + e / 16
unfolding base64_byte0
byte0_lem d e hd he = ground (arith, or_shl_two d (e / 16))

pub byte1_lem : (d e : ℕ) → d < 64 → e < 64 → base64_byte1 d e ≡ d % 16 * 16 + e / 4
unfolding base64_byte1
byte1_lem d e hd he = ground (arith, or_shl_four (d % 16) (e / 4))

pub byte2_lem : (d e : ℕ) → d < 64 → e < 64 → base64_byte2 d e ≡ d % 4 * 64 + e
unfolding base64_byte2
byte2_lem d e hd he = ground (arith, or_shl_six (d % 4) e)

-- The sextets that the encoder computes with masks and shifts.
pub sextet1 :
    (a b : ℕ) → a < 256 → b < 256 → bit_or (bit_and a 0x3 * 16) (b / 16) ≡ a % 4 * 16 + b / 16
sextet1 a b ha hb = rw (and_three a ha) (or_shl_four (a % 4) (b / 16) (omega arith) (omega arith))

pub sextet2 :
    (b c : ℕ) → b < 256 → c < 256 → bit_or (bit_and b 0xf * 4) (c / 64) ≡ b % 16 * 4 + c / 64
sextet2 b c hb hc = rw (and_fifteen b hb) (or_shl_two (b % 16) (c / 64) (omega arith) (omega arith))
