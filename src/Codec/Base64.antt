-- ===== src/Codec/Base64.antt =====
-- _base64.cpp: base64_Encode and base64_Decode.
pub mod Groups
pub mod RoundTrip
pub mod Unpadded
pub mod Url
use openplatform_rdk_aamp.Prelude.{
  ℕ, zero, suc, ◌+◌, ◌-◌, ◌*◌, ◌/◌, ◌%◌, ◌^◌, bit_and, bit_or, List, [], ◌∷◌, ◌++◌, get_or, length,
  replicate, Option, none, some, Bool, ltb, leb, if◌then◌else◌,
}

-- `count` successive numbers from `first`.
abbrev pub series : ℕ → ℕ → List ℕ
series first zero = []
series first (suc count) = first ∷ series (suc first) count

-- "ABC…Zabc…z0123456789+/"
abbrev pub base64_index_to_char : List ℕ
base64_index_to_char = series b'A' 26 ++ series b'a' 26 ++ series b'0' 10 ++ (b'+' ∷ b'/' ∷ [])

-- mBase64CharToIndex, row by row. A `signed char` -1 is the byte 255.
abbrev pub base64_char_to_index : List ℕ
base64_char_to_index =
    replicate 32 255
    ++ (replicate 11 255 ++ (62 ∷ 255 ∷ 63 ∷ 255 ∷ 63 ∷ []))
    ++ (series 52 10 ++ replicate 6 255)
    ++ (255 ∷ series 0 15)
    ++ (series 15 11 ++ replicate 5 255)
    ++ (255 ∷ series 26 15)
    ++ (series 41 11 ++ replicate 5 255)
    ++ replicate 128 255

abbrev pub char_at : ℕ → ℕ
char_at i = get_or base64_index_to_char i 0

abbrev pub index_of : ℕ → ℕ
index_of c = get_or base64_char_to_index c 255

-- The four loop exits and rounds of base64_Encode, without the terminating NUL.
unfoldable pub base64_encode : List ℕ → List ℕ
base64_encode [] = []
base64_encode (a ∷ []) = char_at (a / 4) ∷ char_at (bit_and a 0x3 * 16) ∷ b'=' ∷ b'=' ∷ []
base64_encode (a ∷ b ∷ []) =
    char_at (a / 4)
    ∷ char_at (bit_or (bit_and a 0x3 * 16) (b / 16))
    ∷ char_at (bit_and b 0xf * 4)
    ∷ b'='
    ∷ []
base64_encode (a ∷ b ∷ c ∷ src) =
    char_at (a / 4)
    ∷ char_at (bit_or (bit_and a 0x3 * 16) (b / 16))
    ∷ char_at (bit_or (bit_and b 0xf * 4) (c / 64))
    ∷ char_at (bit_and c 0x3f)
    ∷ base64_encode src

-- `outLen` of base64_Encode: what is allocated, less the NUL.
pub base64_out_len : ℕ → ℕ
base64_out_len len = (len + 2) / 3 * 4

-- A sextet is an `int` that is cut to a byte after the shifts. `x << k` keeps its low eight bits,
-- and `x >> k` is arithmetic: the sign of -1 is shifted in.
abbrev pub shl8 : ℕ → ℕ → ℕ
shl8 x k = x * 2 ^ k % 256

abbrev pub sar8 : ℕ → ℕ → ℕ
sar8 x k = if ltb x 128 then x / 2 ^ k else x / 2 ^ k + (256 - 2 ^ (8 - k))

abbrev pub is_negative : ℕ → Bool
is_negative x = leb 128 x

abbrev pub size_mod : ℕ
size_mod = 2 ^ 64

-- `numChars -= k` on a size_t.
abbrev pub minus_size : ℕ → ℕ → ℕ
minus_size n k = (n + size_mod - k) % size_mod

-- One round's three stores.
pub base64_byte0 : ℕ → ℕ → ℕ
base64_byte0 data0 data1 = bit_or (shl8 data0 2) (sar8 data1 4)

pub base64_byte1 : ℕ → ℕ → ℕ
base64_byte1 data1 data2 = bit_or (shl8 data1 4) (sar8 data2 2)

pub base64_byte2 : ℕ → ℕ → ℕ
base64_byte2 data2 data3 = bit_or (shl8 data2 6) data3

abbrev pub prepend : List ℕ → Option (List ℕ × ℕ) → Option (List ℕ × ℕ)
prepend bytes none = none
prepend bytes (some (written, len)) = some (bytes ++ written, len)

-- One round, given what the rounds after it do.
abbrev pub base64_round : ℕ → ℕ → ℕ → ℕ → ℕ → Option (List ℕ × ℕ) → Option (List ℕ × ℕ)
base64_round data0 data1 data2 data3 num_chars rest =
    if is_negative data2
    then some (base64_byte0 data0 data1 ∷ [], minus_size num_chars 2)
    else (if is_negative data3
        then some (base64_byte0 data0 data1 ∷ base64_byte1 data1 data2 ∷ [], minus_size num_chars 1)
        else prepend
            (base64_byte0 data0 data1 ∷ base64_byte1 data1 data2 ∷ base64_byte2 data2 data3 ∷ [])
            rest)

-- The loop of base64_Decode. The list is the readable memory from `src` on, `left` is
-- `finish - src`. The result is what was written and the reported length; `none` is a read past the
-- memory.
pub base64_decode_loop : List ℕ → ℕ → ℕ → Option (List ℕ × ℕ)
base64_decode_loop memory zero num_chars = some ([], num_chars)
base64_decode_loop (c0 ∷ c1 ∷ c2 ∷ c3 ∷ memory) (suc left) num_chars =
    let rest = base64_decode_loop memory (left - 3) num_chars in
    base64_round (index_of c0) (index_of c1) (index_of c2) (index_of c3) num_chars rest
base64_decode_loop _ (suc left) num_chars = none

-- `(srcLen / 4) * 3`: the size of the allocated buffer.
abbrev pub base64_capacity : ℕ → ℕ
base64_capacity src_len = src_len / 4 * 3

pub base64_decode : List ℕ → ℕ → Option (List ℕ × ℕ)
unfolding base64_decode_loop
base64_decode memory src_len = base64_decode_loop memory src_len (base64_capacity src_len)
