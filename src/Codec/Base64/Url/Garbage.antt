-- ===== src/Codec/Base64/Url/Garbage.antt =====
-- aamp_Base64_URL_Decode on a text of whole groups: two characters of the buffer stay unwritten.
use openplatform_rdk_aamp.Prelude.{
  ℕ, suc, ◌+◌, ◌-◌, ◌*◌, ◌/◌, ◌%◌, ◌<◌, ◌≡◌, refl, ap, ◌^◌, List, [], ◌∷◌, ◌++◌, ◌∙◌, ◌≢◌, length,
  All, arith, some, drop-append, ==_ne,
}
use mathlib.Core.List.{append_assoc, append-nil}
use openplatform_rdk_aamp.Prelude.Bits.{and_sixty_three}
use openplatform_rdk_aamp.Codec.{IsByte}
use openplatform_rdk_aamp.Codec.Base64.{
  base64_encode, base64_decode_loop, base64_decode, base64_byte0, index_of, minus_size,
}
use openplatform_rdk_aamp.Codec.Base64.Groups.{index_of-char_at, sextet1, sextet2}
use openplatform_rdk_aamp.Codec.Base64.RoundTrip.{
  padding, length-padding, padding-le, out_len, three_bytes,
}
use openplatform_rdk_aamp.Codec.Base64.Url.{
  base64_url_encode, url_buffer, strlen, base64_url_decode, stores_inside_small,
}
use openplatform_rdk_aamp.Codec.Base64.Url.Padded.{encode-Restores}
use openplatform_rdk_aamp.Codec.Base64.Url.RoundTrip.{text_back, length-url_encode}

group_more : (n : ℕ) → suc (suc (suc (suc n))) + 4 ≡ suc (suc (suc (suc (n + 4))))
group_more n = omega arith

group_less : (n : ℕ) → suc (suc (suc n)) - 3 ≡ n
group_less n = omega arith

module _ (j0 j1 : ℕ) where
  abbrev garbage_tail : List ℕ
  garbage_tail = j0 ∷ j1 ∷ b'=' ∷ b'=' ∷ 0 ∷ []

  abbrev pub garbage_byte : ℕ
  garbage_byte = base64_byte0 (index_of j0) (index_of j1)

  loop_garbage :
      (bytes : List ℕ) (n : ℕ)
      → All IsByte bytes
      → padding bytes ≡ 0
      → base64_decode_loop
          (base64_encode bytes ++ garbage_tail)
          (length (base64_encode bytes) + 4)
          n
        ≡ some (bytes ++ garbage_byte ∷ [], minus_size n 2)
  unfolding base64_encode base64_decode_loop padding
  loop_garbage [] n h p = refl
  loop_garbage (a ∷ []) n h p = absurd (omega arith)
  loop_garbage (a ∷ b ∷ []) n h p = absurd (omega arith)
  loop_garbage (a ∷ b ∷ c ∷ bytes) n h p =
      rw
        (
          group_more (length (base64_encode bytes)),
          sextet1 a b h.0 h.1.0,
          sextet2 b c h.1.0 h.1.1.0,
          and_sixty_three c h.1.1.0,
          index_of-char_at (a / 4) (omega arith),
          index_of-char_at (a % 4 * 16 + b / 16) (omega arith),
          index_of-char_at (b % 16 * 4 + c / 64) (omega arith),
          index_of-char_at (c % 64) (omega arith),
          group_less (length (base64_encode bytes) + 4),
          loop_garbage bytes n h.1.1.1 p,
        )
        (three_bytes a b c n (bytes ++ garbage_byte ∷ []) (minus_size n 2) h.0 h.1.0 h.1.1.0)

  strlen-garbage :
      (text : List ℕ)
      → j0 ≢ 0
      → j1 ≢ 0
      → strlen text ≡ length text
      → strlen (text ++ j0 ∷ j1 ∷ b'=' ∷ b'=' ∷ []) ≡ length text + 4
  unfolding strlen
  strlen-garbage [] h k e = rw (==_ne j0 0 h, ==_ne j1 0 k) refl
  strlen-garbage (c ∷ text) h k e = ground (arith, strlen-garbage text h k)

  garbage_buffer :
      (bytes before : List ℕ)
      → All IsByte bytes
      → padding bytes ≡ 0
      → length before ≡ length (base64_url_encode bytes)
      → url_buffer (before ++ j0 ∷ j1 ∷ []) (base64_url_encode bytes)
        ≡ base64_encode bytes ++ j0 ∷ j1 ∷ b'=' ∷ b'=' ∷ []
  unfolding url_buffer
  garbage_buffer bytes before h p alloc =
      rw (append_assoc, ← alloc, drop-append)
        (rw (← (rw (p, append-nil) at (text_back bytes h))) refl)

  decode_garbage :
      (bytes : List ℕ)
      → All IsByte bytes
      → padding bytes ≡ 0
      → length bytes % 3 ≡ 0
      → length bytes < 2 ^ 62
      → base64_decode (base64_encode bytes ++ garbage_tail) (length (base64_encode bytes) + 4)
        ≡ some (bytes ++ garbage_byte ∷ [], length bytes + 1)
  unfolding base64_decode
  decode_garbage bytes h p whole small =
      loop_garbage bytes _ h p
      ∙ ap (λ (m : ℕ). some (bytes ++ garbage_byte ∷ [], m)) (omega (arith, out_len bytes))

  -- When the number of bytes is a multiple of 3 below 3 * 2 ^ 29 - 6 and malloc left two characters other than NUL where
  -- the text ends, the decoder appends a byte made of them, and reports one byte too many.
  pub base64_url_decode_garbage :
      (bytes before : List ℕ)
      → All IsByte bytes
      → length bytes % 3 ≡ 0
      → length bytes < 3 * 2 ^ 29 - 6
      → length before ≡ length (base64_url_encode bytes)
      → j0 ≢ 0
      → j1 ≢ 0
      → base64_url_decode (before ++ j0 ∷ j1 ∷ []) (base64_url_encode bytes)
        ≡ some (bytes ++ garbage_byte ∷ [], length bytes + 1)
  unfolding base64_url_decode
  base64_url_decode_garbage bytes before h whole small alloc nz0 nz1 =
      let p : padding bytes ≡ 0 = omega (arith, length-padding bytes, padding-le bytes) in
      let inside =
        stores_inside_small (length (base64_url_encode bytes))
          (omega (arith, length-url_encode bytes h, p)) in
      rw
        (
          inside,
          garbage_buffer bytes before h p alloc,
          strlen-garbage (base64_encode bytes) nz0 nz1 (encode-Restores bytes h).1,
          append_assoc,
        )
        (decode_garbage bytes h p whole (omega arith))
