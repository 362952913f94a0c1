-- ===== src/Codec/Base64/Url.antt =====
-- AampUtils.cpp: aamp_Base64_URL_Encode and aamp_Base64_URL_Decode.
pub mod Padded
pub mod RoundTrip
pub mod Garbage
use openplatform_rdk_aamp.Prelude.{
  ℕ, suc, ◌+◌, ◌-◌, ◌*◌, ◌/◌, ◌%◌, ◌^◌, List, [], ◌∷◌, ◌++◌, map, length, drop, Option, none, Bool,
  true, ltb, ◌&&◌, ◌==◌, ◌<◌, ◌≡◌, refl, arith, lt→ltb, if◌then◌else◌,
}
use openplatform_rdk_aamp.Codec.Base64.{base64_encode, base64_decode}

pub url_char : ℕ → ℕ
url_char c = if c == b'+' then b'-' else if c == b'/' then b'_' else c

-- The copy loop of aamp_Base64_URL_Encode, which stops at the first `=`.
unfoldable pub url_text : List ℕ → List ℕ
url_text [] = []
url_text (c ∷ text) = if c == b'=' then [] else url_char c ∷ url_text text

unfoldable pub base64_url_encode : List ℕ → List ℕ
base64_url_encode bytes = url_text (base64_encode bytes)

pub plain_char : ℕ → ℕ
plain_char c = if c == b'-' then b'+' else if c == b'_' then b'/' else c

-- `int b64Len`, as its pattern of 32 bits.
abbrev pub b64_len : ℕ → ℕ
b64_len src_len = ((src_len / 4 + 1) * 4 + 1) % 2 ^ 32

-- Whether malloc gets the size meant, and the stores before and in the loop stay inside: `b64Len` is not
-- negative and above the number of characters. `iter` is then an int too.
abbrev pub stores_inside : ℕ → Bool
stores_inside src_len = ltb (b64_len src_len) (2 ^ 31) && ltb src_len (b64_len src_len)

-- The part of the buffer in front of the two `=` and the terminating NUL.
unfoldable pub url_junk_len : ℕ → ℕ
url_junk_len src_len = b64_len src_len - 3

-- `b64Src` up to its NUL: the converted text over what malloc left there and the two `=`.
pub url_buffer : List ℕ → List ℕ → List ℕ
url_buffer junk src = map plain_char src ++ drop (length src) (junk ++ b'=' ∷ b'=' ∷ [])

unfoldable pub strlen : List ℕ → ℕ
strlen [] = 0
strlen (c ∷ text) = if c == 0 then 0 else suc (strlen text)

-- aamp_Base64_URL_Decode with the length of `src` as srcLen. `junk` is what the allocated buffer holds before
-- the stores, url_junk_len of it. `none` is an access outside the buffer.
pub base64_url_decode : List ℕ → List ℕ → Option (List ℕ × ℕ)
base64_url_decode junk src =
    let buffer = url_buffer junk src in
    if stores_inside (length src) then base64_decode (buffer ++ 0 ∷ []) (strlen buffer) else none

-- A text of fewer than 2 ^ 31 - 5 characters is converted inside the buffer.
pub stores_inside_small : (n : ℕ) → n < 2 ^ 31 - 5 → stores_inside n ≡ true
stores_inside_small n h =
    rw (lt→ltb (b64_len n) (2 ^ 31) (omega arith), lt→ltb n (b64_len n) (omega arith)) refl
