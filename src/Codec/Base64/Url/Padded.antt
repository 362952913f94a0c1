-- ===== src/Codec/Base64/Url/Padded.antt =====
-- The URL text is the base64 text without its padding, in another alphabet.
use openplatform_rdk_aamp.Prelude.{
  ℕ, zero, suc, ◌+◌, ◌*◌, ◌/◌, ◌%◌, ◌<◌, ◌≡◌, refl, ap, List, [], ◌∷◌, ◌++◌, map, length, All,
  replicate, arith, ◌==◌, ◌&&◌, not, Bool, true, false,
}
use openplatform_rdk_aamp.Prelude.Bits.{
  all_below, all_below_sound, and_three, and_fifteen, and_sixty_three,
}
use openplatform_rdk_aamp.Codec.{IsByte}
use openplatform_rdk_aamp.Codec.Base64.{char_at, base64_encode}
use openplatform_rdk_aamp.Codec.Base64.Groups.{sextet1, sextet2}
use openplatform_rdk_aamp.Codec.Base64.RoundTrip.{padding}
use openplatform_rdk_aamp.Codec.Base64.Url.{url_char, url_text, plain_char, strlen}

abbrev char_test : ℕ → Bool
char_test i =
    plain_char (url_char (char_at i)) == char_at i
    && not (char_at i == b'=')
    && not (char_at i == 0)

char_table : all_below 64 char_test ≡ true
unfolding all_below url_char plain_char
char_table = refl

-- A sextet's character survives the change of alphabet, and is neither `=` nor NUL.
char_facts :
    (i : ℕ)
    → i < 64
    → (plain_char (url_char (char_at i)) ≡ char_at i)
      × ((char_at i == b'=') ≡ false)
      × ((char_at i == 0) ≡ false)
char_facts i h = ground (arith, all_below_sound 64 char_test i char_table h)

-- One character of the text, and the rest.
abbrev Restores : List ℕ → List ℕ → Type 0
Restores text pad = (map plain_char (url_text text) ++ pad ≡ text) × (strlen text ≡ length text)

Restores-sextet :
    (i : ℕ) (text pad : List ℕ) → i < 64 → Restores text pad → Restores (char_at i ∷ text) pad
unfolding url_text strlen
Restores-sextet i text pad h r =
    let (p, q, z) = char_facts i h in (rw q (ap₂' p r.0), rw z (ap suc r.1))
  where
    ap₂' : {a b : ℕ} {xs ys : List ℕ} → a ≡ b → xs ≡ ys → a ∷ xs ≡ b ∷ ys
    ap₂' e f = cc

Restores-pad : (k : ℕ) → Restores (replicate k b'=') (replicate k b'=')
unfolding url_text strlen
Restores-pad zero = (refl, refl)
Restores-pad (suc k) = (refl, ap suc (Restores-pad k).1)

pub encode-Restores :
    (bytes : List ℕ)
    → All IsByte bytes
    → Restores (base64_encode bytes) (replicate (padding bytes) b'=')
unfolding base64_encode padding
encode-Restores [] h = Restores-pad 0
encode-Restores (a ∷ []) h = rw (and_three a h.0) (
    Restores-sextet (a / 4) _ _ (omega arith)
      (Restores-sextet (a % 4 * 16) _ _ (omega arith) (Restores-pad 2)))
encode-Restores (a ∷ b ∷ []) h =
    rw (sextet1 a b h.0 h.1.0, and_fifteen b h.1.0)
      (Restores-sextet (a / 4) _ _ (omega arith) (
        Restores-sextet (a % 4 * 16 + b / 16) _ _ (omega arith)
          (Restores-sextet (b % 16 * 4) _ _ (omega arith) (Restores-pad 1))))
encode-Restores (a ∷ b ∷ c ∷ bytes) h =
    rw (sextet1 a b h.0 h.1.0, sextet2 b c h.1.0 h.1.1.0, and_sixty_three c h.1.1.0)
      (Restores-sextet (a / 4) _ _ (omega arith) (
        Restores-sextet (a % 4 * 16 + b / 16) _ _ (omega arith) (
          Restores-sextet (b % 16 * 4 + c / 64) _ _ (omega arith)
            (Restores-sextet (c % 64) _ _ (omega arith) (encode-Restores bytes h.1.1.1)))))
