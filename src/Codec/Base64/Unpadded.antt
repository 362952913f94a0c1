-- ===== src/Codec/Base64/Unpadded.antt =====
-- base64_Decode on a text whose padding was left out. The buffer is allocated for whole groups only.
use openplatform_rdk_aamp.Prelude.{
  ℕ, suc, ◌+◌, ◌-◌, ◌*◌, ◌/◌, ◌%◌, ◌<◌, ◌≡◌, refl, List, [], ◌∷◌, ◌++◌, length, All, some, arith,
  ◌⊎◌,
}
use openplatform_rdk_aamp.Codec.Base64.{
  index_of, minus_size, base64_round, base64_decode_loop, base64_decode, base64_capacity,
  base64_byte0, base64_byte1, base64_byte2,
}
use openplatform_rdk_aamp.Codec.Base64.RoundTrip.{minus_three}

abbrev pub IsSextet : ℕ → Type 0
IsSextet c = index_of c < 64

-- What the loop does from a whole number of groups before the end.
abbrev Overruns : List ℕ → List ℕ → ℕ → Type 0
Overruns src memory n =
    (written : List ℕ) × (base64_decode_loop memory (length src) n
      ≡ some (written, minus_size n (4 - length src % 4)))
    × (length written ≡ length src / 4 * 3 + (length src % 4 - 1))

last_round :
    (d0 d1 d2 n : ℕ)
    → d2 < 64
    → base64_round d0 d1 d2 255 n (some ([], n))
      ≡ some (base64_byte0 d0 d1 ∷ base64_byte1 d1 d2 ∷ [], minus_size n 1)
last_round d0 d1 d2 n h = ground arith

inner_round :
    (d0 d1 d2 d3 n len : ℕ) (written : List ℕ)
    → d2 < 64
    → d3 < 64
    → base64_round d0 d1 d2 d3 n (some (written, len))
      ≡ some (base64_byte0 d0 d1 ∷ base64_byte1 d1 d2 ∷ base64_byte2 d2 d3 ∷ written, len)
inner_round d0 d1 d2 d3 n len written h k = ground arith

four_more : (n : ℕ) → suc (suc (suc (suc n))) % 4 ≡ n % 4
four_more n = omega arith

loop_unpadded :
    (src : List ℕ) (x n : ℕ) (beyond : List ℕ)
    → All IsSextet src
    → (length src % 4 ≡ 2) ⊎ (length src % 4 ≡ 3)
    → Overruns src (src ++ 0 ∷ x ∷ beyond) n
unfolding base64_decode_loop
loop_unpadded [] x n beyond h r = absurd (omega arith)
loop_unpadded (a ∷ []) x n beyond h r = absurd (omega arith)
loop_unpadded (a ∷ b ∷ []) x n beyond h r =
    (base64_byte0 (index_of a) (index_of b) ∷ [], refl, refl)
loop_unpadded (a ∷ b ∷ c ∷ []) x n beyond h r = (
  base64_byte0 (index_of a) (index_of b) ∷ base64_byte1 (index_of b) (index_of c) ∷ [],
  last_round (index_of a) (index_of b) (index_of c) n h.1.1.0,
  refl,
)
loop_unpadded (a ∷ b ∷ c ∷ d ∷ src) x n beyond h r =
    let (w, e, l) = loop_unpadded src x n beyond h.1.1.1.1 (rw four_more at r) in
    (
      base64_byte0 (index_of a) (index_of b)
          ∷ base64_byte1 (index_of b) (index_of c)
          ∷ base64_byte2 (index_of c) (index_of d)
          ∷ w,
      rw (minus_three (length src), e, four_more (length src))
          (inner_round (index_of a) (index_of b) (index_of c) (index_of d) n _ w h.1.1.0 h.1.1.1.0),
      omega (arith, l),
    )

-- On any text of valid characters whose length is 2 or 3 more than a multiple of 4, with its NUL and one
-- more readable character behind it, base64_Decode writes more bytes than its buffer holds, and reports
-- the size of the buffer less the number of missing characters, as a size_t.
pub base64_decode_unpadded :
    (src : List ℕ) (x : ℕ) (beyond : List ℕ)
    → All IsSextet src
    → (length src % 4 ≡ 2) ⊎ (length src % 4 ≡ 3)
    → (written : List ℕ) × (base64_decode (src ++ 0 ∷ x ∷ beyond) (length src)
        ≡ some (written, minus_size (base64_capacity (length src)) (4 - length src % 4)))
      × (base64_capacity (length src) < length written)
unfolding base64_decode
base64_decode_unpadded src x beyond h r =
    let (w, e, l) = loop_unpadded src x (base64_capacity (length src)) beyond h r in
    (w, e, omega (arith, l, r))
