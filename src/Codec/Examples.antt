-- ===== src/Codec/Examples.antt =====
-- Tests of the codecs, and their theorems at concrete bytes.
use openplatform_rdk_aamp.Prelude.{
  ℕ, ◌-◌, ◌%◌, ◌<◌, ◌≡◌, ◌≢◌, refl, List, [], ◌∷◌, ◌++◌, length, All, some, inl, arith,
}
use openplatform_rdk_aamp.Codec.{IsByte}
use openplatform_rdk_aamp.Codec.Base16.{base16_encode}
use openplatform_rdk_aamp.Codec.Base16.RoundTrip.{base16_encode-IsHexDigit, IsHexDigit}
use openplatform_rdk_aamp.Codec.Base64.{base64_encode, base64_decode, base64_capacity, minus_size}
use openplatform_rdk_aamp.Codec.Base64.RoundTrip.{base64_decode-encode}
use openplatform_rdk_aamp.Codec.Base64.Unpadded.{base64_decode_unpadded, IsSextet}
use openplatform_rdk_aamp.Codec.Base64.Url.{
  base64_url_encode, base64_url_decode, url_junk_len, url_text,
}
use openplatform_rdk_aamp.Codec.Base64.Url.RoundTrip.{base64_url_decode-encode}

abbrev two_bytes : List ℕ
two_bytes = 251 ∷ 240 ∷ []

abbrev three_bytes : List ℕ
three_bytes = 251 ∷ 240 ∷ 1 ∷ []

two_bytes-IsByte : All IsByte two_bytes
two_bytes-IsByte = omega arith

three_bytes-IsByte : All IsByte three_bytes
three_bytes-IsByte = omega arith

base16_encode-IsHexDigit_example : All IsHexDigit (base16_encode two_bytes)
base16_encode-IsHexDigit_example = base16_encode-IsHexDigit two_bytes two_bytes-IsByte

base64_decode-encode_example :
    base64_decode (base64_encode two_bytes ++ 0 ∷ []) (length (base64_encode two_bytes))
    ≡ some (two_bytes, length two_bytes)
base64_decode-encode_example =
    base64_decode-encode two_bytes (0 ∷ []) two_bytes-IsByte (omega arith)

abbrev two_chars : List ℕ
two_chars = b'Q' ∷ b'Q' ∷ []

two_chars-IsSextet : All IsSextet two_chars
two_chars-IsSextet = omega arith

base64_decode_unpadded_example :
    (written : List ℕ) × (base64_decode (two_chars ++ 0 ∷ 7 ∷ []) (length two_chars)
      ≡ some (written, minus_size (base64_capacity (length two_chars)) (4 - length two_chars % 4)))
    × (base64_capacity (length two_chars) < length written)
base64_decode_unpadded_example = base64_decode_unpadded two_chars 7 [] two_chars-IsSextet (inl refl)

two_bytes_partial : length two_bytes % 3 ≢ 0
two_bytes_partial = omega arith

abbrev junk : List ℕ
junk = 7 ∷ 7 ∷ []

junk_len : length junk ≡ url_junk_len (length (base64_url_encode two_bytes))
unfolding url_junk_len base64_url_encode url_text base64_encode
junk_len = refl

abbrev stale : List ℕ
stale = 1 ∷ 1 ∷ 1 ∷ 1 ∷ []

stale_len : length stale ≡ length (base64_url_encode three_bytes)
unfolding base64_url_encode url_text base64_encode
stale_len = refl

base64_url_decode-encode_example :
    base64_url_decode junk (base64_url_encode two_bytes) ≡ some (two_bytes, length two_bytes)
base64_url_decode-encode_example =
    base64_url_decode-encode two_bytes junk two_bytes-IsByte two_bytes_partial (omega arith)
      junk_len
