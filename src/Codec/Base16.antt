-- ===== src/Codec/Base16.antt =====
-- base16.cpp: base16_Encode and base16_Decode.
pub mod RoundTrip
use openplatform_rdk_aamp.Prelude.{
  ℕ, suc, ◌+◌, ◌*◌, ◌/◌, ◌%◌, bit_and, bit_or, List, [], ◌∷◌, get_or, length, replicate, ◌++◌,
}

-- "0123456789abcdef"
abbrev pub base16_index_to_char : List ℕ
base16_index_to_char =
    b'0' ∷ b'1' ∷ b'2' ∷ b'3' ∷ b'4' ∷ b'5' ∷ b'6' ∷ b'7' ∷ b'8' ∷ b'9' ∷ b'a' ∷ b'b' ∷ b'c' ∷ b'd'
    ∷ b'e' ∷ b'f' ∷ []

-- mBase16CharToIndex in its sixteen rows. A `signed char` -1 is the byte 255.
abbrev pub base16_char_to_index : List ℕ
base16_char_to_index =
    replicate 48 255
    ++ (0 ∷ 1 ∷ 2 ∷ 3 ∷ 4 ∷ 5 ∷ 6 ∷ 7 ∷ 8 ∷ 9 ∷ replicate 6 255)
    ++ (255 ∷ 10 ∷ 11 ∷ 12 ∷ 13 ∷ 14 ∷ 15 ∷ replicate 9 255)
    ++ replicate 16 255
    ++ (255 ∷ 10 ∷ 11 ∷ 12 ∷ 13 ∷ 14 ∷ 15 ∷ replicate 9 255)
    ++ replicate 144 255

-- The loop of base16_Encode, without the terminating NUL: the high digit, then the low one.
pub base16_encode : List ℕ → List ℕ
base16_encode [] = []
base16_encode (c ∷ src) =
    get_or base16_index_to_char (c / 16) 0
    ∷ get_or base16_index_to_char (bit_and c 0xf) 0
    ∷ base16_encode src

-- `*dst = index[hi] << 4; *dst++ |= index[lo]` in an `unsigned char`.
pub base16_byte : ℕ → ℕ → ℕ
base16_byte hi lo =
    bit_or (get_or base16_char_to_index hi 255 * 16 % 256) (get_or base16_char_to_index lo 255)

-- The bytes that the loop of base16_Decode writes. With an odd number of characters the last round
-- reads the NUL that ends the string.
pub base16_writes : List ℕ → List ℕ
base16_writes [] = []
base16_writes (hi ∷ []) = base16_byte hi 0 ∷ []
base16_writes (hi ∷ lo ∷ src) = base16_byte hi lo ∷ base16_writes src

-- `srcLen / 2`: the size of the allocated buffer, and the length that is reported.
pub base16_num_chars : List ℕ → ℕ
base16_num_chars src = length src / 2
