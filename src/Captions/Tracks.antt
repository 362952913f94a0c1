-- ===== src/Captions/Tracks.antt =====
-- SetTrack of closedcaptions/rdk/AampRDKCCManager.cpp, with aamp_StartsWith of AampUtils.cpp and the
-- part of std::stoul that it meets. A track is its bytes.
pub mod Range
pub mod Service
use openplatform_rdk_aamp.Prelude.{
  ℕ, suc, zero, ◌+◌, ◌-◌, ◌*◌, ◌%◌, ◌^◌, List, [], ◌∷◌, ◌++◌, length, drop, get_or, Bool, true,
  false, not, ltb, leb, ◌==◌, ◌&&◌, ◌||◌, if◌then◌else◌, Option, none, some,
}
use openplatform_rdk_aamp.Captions.{
  ℤ, minus_one, CcFormat, format_default, format_608, format_708, CcCall, set_digital_channel,
  set_analog_channel, Manager,
}

-- aamp_StartsWith; the end of the input differs from every character of the prefix.
unfoldable pub starts_with : List ℕ → List ℕ → Bool
starts_with input [] = true
starts_with [] (p ∷ prefix) = false
starts_with (c ∷ input) (p ∷ prefix) =
    let rest = starts_with input prefix in if c == p then rest else false

abbrev pub is_digit : ℕ → Bool
is_digit c = leb b'0' c && leb c b'9'

-- std::isspace in the C locale.
abbrev pub is_space : ℕ → Bool
is_space c = c == 32 || (leb 9 c && leb c 13)

unfoldable pub skip_spaces : List ℕ → List ℕ
skip_spaces [] = []
skip_spaces (c ∷ text) = let rest = skip_spaces text in if is_space c then rest else c ∷ text

-- The value of the digits that a text begins with, behind those that were read.
unfoldable pub digits_value : ℕ → List ℕ → ℕ
digits_value value [] = value
digits_value value (c ∷ text) =
    let rest = digits_value (value * 10 + (c - 48)) text in if is_digit c then rest else value

-- A number of unsigned long, or an exception: no digit, or out of range.
abbrev pub unsigned_digits : List ℕ → Option ℕ
unsigned_digits [] = none
unsigned_digits (c ∷ text) =
    let value = digits_value 0 (c ∷ text) in
    if is_digit c then (if ltb value (2 ^ 64) then some value else none) else none

abbrev pub negated : Option ℕ → Option ℕ
negated none = none
negated (some value) = some ((2 ^ 64 - value) % 2 ^ 64)

abbrev pub signed_digits : List ℕ → Option ℕ
signed_digits [] = none
signed_digits (c ∷ text) =
    if c == b'-'
    then negated (unsigned_digits text)
    else (if c == b'+' then unsigned_digits text else unsigned_digits (c ∷ text))

-- std::stoul; `none` is an exception.
unfoldable pub stoul : List ℕ → Option ℕ
stoul text = signed_digits (skip_spaces text)

abbrev pub cc_prefix : List ℕ
cc_prefix = b'C' ∷ b'C' ∷ []

abbrev pub service_prefix : List ℕ
service_prefix = b'S' ∷ b'E' ∷ b'R' ∷ b'V' ∷ b'I' ∷ b'C' ∷ b'E' ∷ []

-- `(unsigned int) std::stoul(...)` with the format inferred.
abbrev pub with_format : CcFormat → Option ℕ → Option (CcFormat × ℕ)
with_format format none = none
with_format format (some value) = some (format, value % 2 ^ 32)

-- std::string::empty
abbrev pub is_empty : List ℕ → Bool
is_empty [] = true
is_empty (c ∷ text) = false

-- The branches on the text of the track: the format and the number inferred from it.
unfoldable pub infer_track : List ℕ → Option (CcFormat × ℕ)
infer_track track =
    if not (is_empty track) && leb 49 (get_or track 0 0) && leb (get_or track 0 0) 54
    then with_format format_default (stoul track)
    else (if ltb 2 (length track) && starts_with track cc_prefix
        then some (format_608, (get_or track 2 0 + 2 ^ 32 - 48) % 2 ^ 32)
        else (if ltb 7 (length track) && starts_with track service_prefix
            then with_format format_708 (stoul (drop 7 track))
            else some (format_default, 0)))

-- The format argument overrides what was inferred.
unfoldable pub override_format : CcFormat → CcFormat × ℕ → CcFormat × ℕ
override_format format_default (inferred, n) = (inferred, n)
override_format format_608 (format_608, n) = (format_608, n)
override_format format_608 (format_708, n) = (format_608, if ltb 8 n then 0 else n)
override_format format_608 (format_default, n) = (format_608, if ltb 8 n then 0 else n)
override_format format_708 (inferred, n) = (format_708, n)

abbrev pub channel_call : CcFormat × ℕ → List CcCall
channel_call (format_708, n) = if ltb 0 n && leb n 63 then set_digital_channel n ∷ [] else []
channel_call (format_608, n) = if ltb 0 n && leb n 8 then set_analog_channel (n - 1) ∷ [] else []
channel_call (format_default, n) = []

-- What SetTrack returns: what the call returned, or -1 without a call.
abbrev pub returned : (CcCall → ℤ) → List CcCall → ℤ
returned cc_ret [] = minus_one
returned cc_ret (c ∷ cs) = cc_ret c

abbrev pub select :
    (CcCall → ℤ) → CcFormat → Option (CcFormat × ℕ) → Manager → Option ℤ × Manager × List CcCall
select cc_ret format none m = (none, m, [])
select cc_ret format (some inferred) m =
    let calls = channel_call (override_format format inferred) in
    (some (returned cc_ret calls), m, calls)

-- SetTrack: `none` is an exception of std::stoul, which the manager does not catch. The first argument
-- is what the module returns for a call.
unfoldable pub set_track :
    (CcCall → ℤ) → List ℕ → CcFormat → Manager → Option ℤ × Manager × List CcCall
unfolding infer_track override_format
set_track cc_ret track format m =
    select cc_ret format (infer_track track) (record m { track = track })
