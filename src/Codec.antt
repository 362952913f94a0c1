-- ===== src/Codec.antt =====
-- Binary to text codecs: base16.cpp, _base64.cpp and the URL-safe base64 of AampUtils.cpp.
-- A byte buffer is a list of numbers below 256, a `char` is its byte.
pub mod Base16
pub mod Base64
pub mod Examples
use openplatform_rdk_aamp.Prelude.{ℕ, ◌<◌}

abbrev pub IsByte : ℕ → Type 0
IsByte b = b < 256
