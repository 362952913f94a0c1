-- ===== src/Codec/Base64/Url/RoundTrip.antt =====
-- aamp_Base64_URL_Decode on what aamp_Base64_URL_Encode wrote.
use openplatform_rdk_aamp.Prelude.{
  ℕ, suc, ◌+◌, ◌*◌, ◌/◌, ◌%◌, ◌≤◌, ◌-◌, ◌≡◌, refl, ap, ◌^◌, List, [], ◌∷◌, ◌++◌, map, ◌∙◌, ◌≢◌,
  length, All, replicate, arith, some, length-append, length-map, length-replicate, drop,
  drop-append, ◌⊎◌, inl, inr,
}
use openplatform_rdk_aamp.Codec.{IsByte}
use openplatform_rdk_aamp.Codec.Base64.{base64_encode}
use openplatform_rdk_aamp.Codec.Base64.RoundTrip.{
  padding, length-padding, padding-le, out_len, base64_decode-encode,
}
use openplatform_rdk_aamp.Codec.Base64.Url.{
  base64_url_encode, plain_char, url_junk_len, url_buffer, stores_inside_small, base64_url_decode,
}
use openplatform_rdk_aamp.Codec.Base64.Url.Padded.{encode-Restores}

pub text_back :
    (bytes : List ℕ)
    → All IsByte bytes
    → map plain_char (base64_url_encode bytes) ++ replicate (padding bytes) b'='
      ≡ base64_encode bytes
unfolding base64_url_encode
text_back bytes h = (encode-Restores bytes h).0

pub length-url_encode :
    (bytes : List ℕ)
    → All IsByte bytes
    → length (base64_url_encode bytes) + padding bytes ≡ (length bytes + 2) / 3 * 4
length-url_encode bytes h =
    let text = base64_url_encode bytes in
    omega (
      arith,
      out_len bytes,
      ap length (text_back bytes h),
      length-append (map plain_char text) (replicate (padding bytes) b'='),
      length-map text plain_char,
      length-replicate {A = ℕ} (padding bytes) b'=',
    )

drop_one :
    (junk : List ℕ) (x : ℕ) (rest : List ℕ) → drop (suc (length junk)) (junk ++ x ∷ rest) ≡ rest
drop_one [] x rest = refl
drop_one (j ∷ junk) x rest = drop_one junk x rest

-- The stores of `=` stand behind the text where it needs padding.
fill_eq :
    (junk : List ℕ) (n pad : ℕ)
    → ((pad ≡ 1) × (n ≡ suc (length junk))) ⊎ ((pad ≡ 2) × (n ≡ length junk))
    → drop n (junk ++ b'=' ∷ b'=' ∷ []) ≡ replicate pad b'='
fill_eq junk n pad (inl (p, e)) = rw (p, e) (drop_one junk b'=' (b'=' ∷ []))
fill_eq junk n pad (inr (p, e)) = rw (p, e) (drop-append junk (b'=' ∷ b'=' ∷ []))

module _ (bytes junk : List ℕ) (h : All IsByte bytes) (partial : length bytes % 3 ≢ 0)
    (small : length bytes ≤ 3 * 2 ^ 29 - 6)
    (allocated : length junk ≡ url_junk_len (length (base64_url_encode bytes))) where
  buffer_eq : url_buffer junk (base64_url_encode bytes) ≡ base64_encode bytes
  unfolding url_buffer url_junk_len
  buffer_eq =
      ap (◌++◌ (map plain_char (base64_url_encode bytes))) (
        fill_eq junk (length (base64_url_encode bytes)) (padding bytes) (
          omega (
            arith,
            small,
            allocated,
            length-padding bytes,
            padding-le bytes,
            length-url_encode bytes h,
          )))
      ∙ text_back bytes h

  -- The URL-safe decoder reads back what the encoder wrote, whatever malloc left in its buffer, when
  -- the number of bytes is no multiple of 3 and at most 3 * 2 ^ 29 - 6.
  pub base64_url_decode-encode :
      base64_url_decode junk (base64_url_encode bytes) ≡ some (bytes, length bytes)
  unfolding base64_url_decode
  base64_url_decode-encode =
      let inside =
        stores_inside_small (length (base64_url_encode bytes))
          (omega (arith, length-url_encode bytes h, length-padding bytes, padding-le bytes)) in
      rw (inside, buffer_eq, (encode-Restores bytes h).1)
        (base64_decode-encode bytes (0 ∷ []) h (omega arith))
