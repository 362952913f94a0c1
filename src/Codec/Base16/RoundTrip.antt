-- ===== src/Codec/Base16/RoundTrip.antt =====
-- What base16 encoding writes, and that decoding reads it back inside its buffer.
use openplatform_rdk_aamp.Prelude.{
  ℕ, ◌+◌, ◌*◌, ◌/◌, ◌%◌, ◌<◌, ◌≡◌, refl, bit_and, Bool, List, [], ◌∷◌, get_or, length, All, arith,
  ◌==◌, ==_iff, leb, ◌&&◌, ◌||◌, true,
}
use openplatform_rdk_aamp.Prelude.Bits.{all_below, all_below_sound, and_fifteen}
use openplatform_rdk_aamp.Codec.{IsByte}
use openplatform_rdk_aamp.Codec.Base16.{
  base16_index_to_char, base16_encode, base16_byte, base16_writes, base16_num_chars,
}

byte_table :
    all_below 256 (λ c.
      base16_byte
        (get_or base16_index_to_char (c / 16) 0)
        (get_or base16_index_to_char (bit_and c 0xf) 0)
      == c)
    ≡ true
unfolding all_below base16_byte
byte_table = refl

byte_back :
    (c : ℕ)
    → c < 256
    → base16_byte
        (get_or base16_index_to_char (c / 16) 0)
        (get_or base16_index_to_char (bit_and c 0xf) 0)
      ≡ c
byte_back c h = (==_iff _ _).0 (
    all_below_sound 256
      (λ c.
        base16_byte (get_or base16_index_to_char (c / 16) 0)
          (get_or base16_index_to_char (bit_and c 0xf) 0)
        == c)
      c byte_table h)

-- Decoding what base16_Encode wrote gives back the bytes.
pub base16_writes-encode :
    (bytes : List ℕ) → All IsByte bytes → base16_writes (base16_encode bytes) ≡ bytes
unfolding base16_encode base16_writes
base16_writes-encode [] h = refl
base16_writes-encode (c ∷ bytes) h = cc (byte_back c h.0, base16_writes-encode bytes h.1)

pub length-base16_encode : (bytes : List ℕ) → length (base16_encode bytes) ≡ 2 * length bytes
unfolding base16_encode
length-base16_encode [] = omega arith
length-base16_encode (c ∷ bytes) = omega (arith, length-base16_encode bytes)

-- The decoder reports as many bytes as were encoded.
pub base16_num_chars-encode :
    (bytes : List ℕ) → base16_num_chars (base16_encode bytes) ≡ length bytes
unfolding base16_num_chars
base16_num_chars-encode bytes = omega (arith, length-base16_encode bytes)

length-base16_writes : (src : List ℕ) → length (base16_writes src) ≡ (length src + 1) / 2
unfolding base16_writes
length-base16_writes [] = omega arith
length-base16_writes (hi ∷ []) = omega arith
length-base16_writes (hi ∷ lo ∷ src) = omega (arith, length-base16_writes src)

-- The decoder writes one byte more than it allocates exactly when the length is odd.
base16_writes-num_chars :
    (src : List ℕ) → length (base16_writes src) ≡ base16_num_chars src + length src % 2
unfolding base16_num_chars
base16_writes-num_chars src = omega (arith, length-base16_writes src)

abbrev is_hex : ℕ → Bool
is_hex c = (leb b'0' c && leb c b'9') || (leb b'a' c && leb c b'f')

abbrev pub IsHexDigit : ℕ → Type 0
IsHexDigit c = is_hex c ≡ true

digit_table : all_below 16 (λ i. is_hex (get_or base16_index_to_char i 0)) ≡ true
unfolding all_below
digit_table = refl

digit-IsHexDigit : (i : ℕ) → i < 16 → IsHexDigit (get_or base16_index_to_char i 0)
digit-IsHexDigit i h =
    all_below_sound 16 (λ i. is_hex (get_or base16_index_to_char i 0)) i digit_table h

-- The encoding is lowercase hexadecimal digits only.
pub base16_encode-IsHexDigit :
    (bytes : List ℕ) → All IsByte bytes → All IsHexDigit (base16_encode bytes)
unfolding base16_encode
base16_encode-IsHexDigit [] h = tt
base16_encode-IsHexDigit (c ∷ bytes) h = (
  digit-IsHexDigit (c / 16) (omega arith),
  (
    digit-IsHexDigit (bit_and c 0xf) (omega (arith, and_fifteen c h.0)),
    base16_encode-IsHexDigit bytes h.1,
  ),
)
