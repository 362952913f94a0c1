-- ===== src/Captions/Tracks/Service.antt =====
-- Tracks that are written in decimal digits, alone or behind SERVICE.
use openplatform_rdk_aamp.Prelude.{
  ℕ, ◌+◌, ◌-◌, ◌*◌, ◌%◌, ◌^◌, ◌≤◌, ◌<◌, ◌≡◌, refl, ap, List, [], ◌∷◌, ◌++◌, map, All, length, Bool,
  true, false, ltb, leb, lt→ltb, ◌==◌, ◌&&◌, if◌then◌else◌, some, arith, Bool-cases, inl, inr,
}
use openplatform_rdk_aamp.Captions.{
  ℤ, CcFormat, format_default, format_708, CcCall, set_digital_channel, Manager,
}
use openplatform_rdk_aamp.Captions.Tracks.{
  starts_with, is_digit, is_space, skip_spaces, digits_value, stoul, service_prefix, with_format,
  infer_track, override_format, channel_call, set_track,
}

abbrev pub IsDecimal : List ℕ → Type 0
IsDecimal ds = All (λ d. d < 10) ds

abbrev pub digit_char : ℕ → ℕ
digit_char d = 48 + d

-- The number that digits denote, the first one the most significant.
unfoldable pub decimal_from : ℕ → List ℕ → ℕ
decimal_from value [] = value
decimal_from value (d ∷ ds) = decimal_from (10 * value + d) ds

abbrev pub decimal : List ℕ → ℕ
decimal ds = decimal_from 0 ds

digit_is_digit : (d : ℕ) → d < 10 → is_digit (48 + d) ≡ true
digit_is_digit d h = ground arith

digits_value-decimal :
    (ds : List ℕ) (value : ℕ)
    → IsDecimal ds
    → digits_value value (map digit_char ds) ≡ decimal_from value ds
unfolding digits_value decimal_from
digits_value-decimal [] value h = refl
digits_value-decimal (d ∷ ds) value (h, hs) =
    let next : value * 10 + (48 + d - 48) ≡ 10 * value + d = omega arith in
    rw (digit_is_digit d h, next) (digits_value-decimal ds (10 * value + d) hs)

not_space : (d : ℕ) → d < 10 → is_space (48 + d) ≡ false
not_space d h = ground arith

not_minus : (d : ℕ) → (48 + d == 45) ≡ false
not_minus d = ground arith

not_plus : (d : ℕ) → (48 + d == 43) ≡ false
not_plus d = ground arith

stoul-decimal :
    (d : ℕ) (ds : List ℕ)
    → IsDecimal (d ∷ ds)
    → decimal (d ∷ ds) < 2 ^ 32
    → stoul (map digit_char (d ∷ ds)) ≡ some (decimal (d ∷ ds))
unfolding stoul skip_spaces
stoul-decimal d ds h small =
    let value = digits_value-decimal (d ∷ ds) 0 h in
    let fits : ltb (decimal (d ∷ ds)) (2 ^ 64) ≡ true = lt→ltb _ _ (omega (arith, small)) in
    rw (not_space d h.0) (rw (not_minus d, not_plus d, digit_is_digit d h.0, value, fits) refl)

decimal_from-le : (ds : List ℕ) (value : ℕ) → value ≤ decimal_from value ds
unfolding decimal_from
decimal_from-le [] value = omega arith
decimal_from-le (d ∷ ds) value = omega (arith, decimal_from-le ds (10 * value + d))

-- `(unsigned int)` keeps a number below 2 ^ 32.
as_unsigned :
    (format : CcFormat) (n : ℕ) → n < 2 ^ 32 → with_format format (some n) ≡ some (format, n)
as_unsigned format n h = let e : n % 2 ^ 32 ≡ n = omega arith in ap (λ (k : ℕ). some (format, k)) e

infer_track-service :
    (d : ℕ) (ds : List ℕ)
    → IsDecimal (d ∷ ds)
    → decimal (d ∷ ds) < 2 ^ 32
    → infer_track (service_prefix ++ map digit_char (d ∷ ds)) ≡ some (format_708, decimal (d ∷ ds))
unfolding infer_track starts_with
infer_track-service d ds h small =
    let long : ltb 7 (length (service_prefix ++ map digit_char (d ∷ ds))) ≡ true =
      lt→ltb _ _ (omega arith) in
    let more : ltb 2 (length (service_prefix ++ map digit_char (d ∷ ds))) ≡ true =
      lt→ltb _ _ (omega arith) in
    rw (long, more, stoul-decimal d ds h small) (as_unsigned format_708 _ small)

infer_track-number :
    (d : ℕ) (ds : List ℕ)
    → IsDecimal (d ∷ ds)
    → decimal (d ∷ ds) < 2 ^ 32
    → infer_track (map digit_char (d ∷ ds))
      ≡ some (format_default, if leb 1 d && leb d 6 then decimal (d ∷ ds) else 0)
unfolding infer_track starts_with
infer_track-number d ds h small =
    let low : leb 49 (48 + d) ≡ leb 1 d = ground arith in
    let high : leb (48 + d) 54 ≡ leb d 6 = ground arith in
    let no_c : (48 + d == 67) ≡ false = ground arith in
    let no_s : (48 + d == 83) ≡ false = ground arith in
    rw (low, high, no_c, no_s, stoul-decimal d ds h small)
      (elim (Bool-cases (leb 1 d && leb d 6)) [
        | inl e ↦ rw e (as_unsigned format_default _ small)
        | inr e ↦ rw e (ground arith)
      ])

-- The channel of a number that counts only under a test.
channel_call-if :
    (b : Bool) (n : ℕ)
    → (b ≡ true → 0 < n)
    → channel_call (format_708, if b then n else 0)
      ≡ (if b && leb n 63 then set_digital_channel n ∷ [] else [])
channel_call-if true n h = let e : ltb 0 n ≡ true = lt→ltb 0 n (h refl) in rw e refl
channel_call-if false n h = refl

-- SERVICE and a number below 2 ^ 32 in decimal digits, leading zeros or not, without a format: SetTrack
-- selects the digital channel of this number when it is from 1 to 63, and else calls nothing.
pub set_track-service :
    (cc_ret : CcCall → ℤ) (d : ℕ) (ds : List ℕ) (m : Manager)
    → IsDecimal (d ∷ ds)
    → decimal (d ∷ ds) < 2 ^ 32
    → (set_track cc_ret (service_prefix ++ map digit_char (d ∷ ds)) format_default m).2 ≡ (
        if ltb 0 (decimal (d ∷ ds)) && leb (decimal (d ∷ ds)) 63
        then set_digital_channel (decimal (d ∷ ds)) ∷ []
        else [])
unfolding set_track override_format
set_track-service cc_ret d ds m h small = rw (infer_track-service d ds h small) refl

-- A number without a letter, and the format 708: SetTrack looks at the first digit. From 1 to 6 it
-- selects the digital channel of the number when that is at most 63; from 7 on it calls nothing, also
-- for the services 7, 8 and 9.
set_track-number :
    (cc_ret : CcCall → ℤ) (d : ℕ) (ds : List ℕ) (m : Manager)
    → IsDecimal (d ∷ ds)
    → decimal (d ∷ ds) < 2 ^ 32
    → (set_track cc_ret (map digit_char (d ∷ ds)) format_708 m).2 ≡ (
        if (leb 1 d && leb d 6) && leb (decimal (d ∷ ds)) 63
        then set_digital_channel (decimal (d ∷ ds)) ∷ []
        else [])
unfolding set_track override_format decimal_from
set_track-number cc_ret d ds m h small = rw (infer_track-number d ds h small) (
    channel_call-if (leb 1 d && leb d 6) (decimal (d ∷ ds)) (λ e.
      let some_digit : 0 < d = ground arith in
      omega (arith, some_digit, decimal_from-le ds (10 * 0 + d))))
