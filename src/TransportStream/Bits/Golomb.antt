-- ===== src/TransportStream/Bits/Golomb.antt =====
-- getUExpGolomb, getSExpGolomb and processPictureParameterSet on the codes of H.264.
use openplatform_rdk_aamp.Prelude.{
  ℕ, zero, suc, ◌+◌, ◌-◌, ◌*◌, ◌/◌, ◌%◌, ◌^◌, ◌<◌, ◌≤◌, ◌≡◌, refl, sym, ap, ◌∙◌, List, ◌∷◌, ◌++◌,
  Bool, true, false, ◌==◌, ltb, if◌then◌else◌, none, some, length, length-append, length-replicate,
  replicate, set, lt→ltb, arith,
}
use mathlib.Core.List.{append_assoc}
use native.Mathlib.Nat.{
  add-zero, zero-add, div-eq_of_lt-le, mod-eq_of_lt, mod-eq-sub-mod, pow-suc, pow-le-pow_right,
}
use openplatform_rdk_aamp.TransportStream.Demuxer.{bit}
use openplatform_rdk_aamp.TransportStream.Bits.{
  Cursor, half_int, finish_golomb, golomb_loop, get_u_exp_golomb, get_s_exp_golomb, signed_code,
  process_picture_parameter_set,
}
use openplatform_rdk_aamp.TransportStream.Bits.Sequence.{
  bits_at, bits_of, At, to_bits, length-bits_at, next_bit-At, get_bits-to_bits, pow_positive,
}

-- The code of `v`, where 2 ^ n is the highest power of 2 that is at most v + 1: n zeros, then v + 1 in
-- binary digits.
abbrev pub golomb_code : ℕ → ℕ → List Bool
golomb_code n v = replicate n false ++ to_bits (suc n) (suc v)

pub record IsLog (n v : ℕ) : Type 0 where
  pub at_least : 2 ^ n ≤ suc v
  pub below : suc v < 2 ^ suc n
  pub fits : n ≤ 30

module _ (n v : ℕ) (log : IsLog n v) where
  quotient : suc v / 2 ^ n ≡ 1
  quotient =
      div-eq_of_lt-le (2 ^ n) (omega (arith, log.at_least)) (omega (arith, log.below, pow-suc 2 n))

  high_bit : bit (suc v) n ≡ true
  high_bit = ap (λ q. q % 2 == 1) quotient

  low_bits : suc v % 2 ^ n ≡ suc v - 2 ^ n
  low_bits =
      mod-eq-sub-mod log.at_least
      ∙ mod-eq_of_lt (omega (arith, log.below, pow-suc 2 n, log.at_least))

half_int-pow : (z : ℕ) → z ≤ 29 → half_int (2 ^ suc z) ≡ 2 ^ z
half_int-pow z h =
    let small : 2 ^ z ≤ 2 ^ 29 = pow-le-pow_right (omega arith) h in
    rw (lt→ltb (2 ^ suc z) (2 ^ 31) (omega (arith, small, pow-suc 2 z)))
      (omega (arith, pow-suc 2 z))

next_code : (z : ℕ) → z ≤ 29 → (2 ^ z - 1 + half_int (2 ^ suc z)) % 2 ^ 32 ≡ 2 ^ suc z - 1
next_code z h =
    let small : 2 ^ z ≤ 2 ^ 29 = pow-le-pow_right (omega arith) h in
    rw (half_int-pow z h)
      (mod-eq_of_lt (omega (arith, small)) ∙ omega (arith, pow-suc 2 z, pow_positive z))

next_factor : (z : ℕ) → z ≤ 29 → 2 ^ suc z * 2 % 2 ^ 32 ≡ 2 ^ suc (suc z)
next_factor z h =
    let small : 2 ^ z ≤ 2 ^ 29 = pow-le-pow_right (omega arith) h in
    mod-eq_of_lt (omega (arith, small, pow-suc 2 z)) ∙ sym (pow-suc 2 (suc z))

-- The zeros and the one behind them.
golomb_loop-zeros :
    (m z rounds : ℕ) (xs : List Bool) (c : Cursor)
    → z + m ≤ 30
    → m < rounds
    → At c (replicate m false ++ true ∷ xs)
    → (next : Cursor) × (golomb_loop rounds z (2 ^ z - 1) (2 ^ suc z) c
        ≡ finish_golomb (z + m) (2 ^ (z + m) - 1) next)
      × At next xs
unfolding golomb_loop
golomb_loop-zeros m z zero xs c few enough h = absurd (omega arith)
golomb_loop-zeros zero z (suc rounds) xs c few enough h =
    let (next, e, left) = next_bit-At c true xs h in (next, rw (e, add-zero z) refl, left)
golomb_loop-zeros (suc m) z (suc rounds) xs c few enough h =
    let (next, e, left) = next_bit-At c false (replicate m false ++ true ∷ xs) h in
    let (last, f, done) =
      golomb_loop-zeros m (suc z) rounds xs next (omega arith) (omega arith) left in
    (
      last,
      rw (e, next_code z (omega arith), next_factor z (omega arith))
          (f ∙ ap (λ k. finish_golomb k (2 ^ k - 1) last) (omega arith)),
      done,
    )

-- The digits behind the one.
finish_golomb-bits :
    (n v : ℕ) (rest : List Bool) (c : Cursor)
    → IsLog n v
    → At c (to_bits n (suc v) ++ rest)
    → (next : Cursor) × (finish_golomb n (2 ^ n - 1) c ≡ some (v, next)) × At next rest
unfolding finish_golomb to_bits
finish_golomb-bits zero v rest c log h = (c, ap (λ x. some (x, c)) (omega (arith, log.below)), h)
finish_golomb-bits (suc n) v rest c log h =
    let (next, e, left) = get_bits-to_bits (suc n) (suc v) rest c (omega (arith, log.fits)) h in
    let small : 2 ^ suc n ≤ 2 ^ 30 = pow-le-pow_right (omega arith) log.fits in
    (
      next,
      rw (e, low_bits (suc n) v log)
          (ap (λ x. some (x, next))
            (mod-eq_of_lt (omega (arith, log.at_least, log.below, small, pow-suc 2 (suc n)))
              ∙ omega (arith, log.at_least, pow_positive (suc n)))),
      left,
    )

-- getUExpGolomb on the code of a number below 2 ^ 31 - 1 reads the number, and stops behind its code.
pub get_u_exp_golomb-code :
    (n v : ℕ) (rest : List Bool) (c : Cursor)
    → IsLog n v
    → At c (golomb_code n v ++ rest)
    → (next : Cursor) × (get_u_exp_golomb c ≡ some (v, next)) × At next rest
unfolding get_u_exp_golomb to_bits
get_u_exp_golomb-code n v rest c log (h, place) =
    let digits = to_bits n (suc v) ++ rest in
    let front : bits_of c ≡ replicate n false ++ true ∷ digits =
      rw (high_bit n v log) at
        (h ∙ append_assoc (replicate n false) (to_bits (suc n) (suc v)) rest) in
    let room : n < 8 * length c.memory = omega (
      arith,
      length-bits_at c.memory c.mask_bit place,
      ap length front,
      length-append (replicate n false) (true ∷ digits),
      length-replicate n false,
    ) in
    let (one, e, left) =
      golomb_loop-zeros n 0 (8 * length c.memory) digits c (omega (arith, log.fits)) room
        (front, place) in
    let (next, f, done) = finish_golomb-bits n v rest one log left in
    (next, e ∙ ap (λ k. finish_golomb k (2 ^ k - 1) one) (zero-add n) ∙ f, done)

-- getSExpGolomb on the code of a number u below 2 ^ 31 - 1: an odd u = 2 m - 1 stands for m, an even u = 2 m
-- for -m as an int, and the reader stops behind the code.
pub get_s_exp_golomb-code :
    (n u : ℕ) (rest : List Bool) (c : Cursor)
    → IsLog n u
    → At c (golomb_code n u ++ rest)
    → (next : Cursor) × (s : ℕ) × (get_s_exp_golomb c ≡ some (s, next))
      × At next rest
      × ((m : ℕ) → suc u ≡ 2 * m → s ≡ m)
      × ((m : ℕ) → u ≡ 2 * m → s ≡ (2 ^ 32 - m) % 2 ^ 32)
unfolding get_s_exp_golomb
get_s_exp_golomb-code n u rest c log h =
    let (next, e, left) = get_u_exp_golomb-code n u rest c log h in
    (next, signed_code u, rw e refl, left, odd, even)
  where
    small : u < 2 ^ 31
    small =
        let bound : 2 ^ n ≤ 2 ^ 30 = pow-le-pow_right (omega arith) log.fits in
        omega (arith, bound, log.below, pow-suc 2 n)

    lowest : (r : ℕ) → u % 2 ≡ r → u / 1 % 2 ≡ r
    lowest r e = omega (arith, e)

    odd : (m : ℕ) → suc u ≡ 2 * m → signed_code u ≡ m
    odd m f = rw (lowest 1 (omega (arith, small))) (omega (arith, small))

    even : (m : ℕ) → u ≡ 2 * m → signed_code u ≡ (2 ^ 32 - m) % 2 ^ 32
    even m f =
        rw (lowest 0 (omega (arith, small)))
          (ap (λ x. (2 ^ 32 - x) % 2 ^ 32) (omega (arith, small)))

-- processPictureParameterSet on a picture parameter set that begins with the codes of two numbers below
-- 2 ^ 31 - 1: the second becomes the sequence parameter set of the entry that the first names, and the
-- other entries stay; a first number that is no index of m_PPS is not refused, but written behind it.
pub process_picture_parameter_set-codes :
    (n a l b : ℕ) (rest : List Bool) (p pps : List ℕ)
    → IsLog n a
    → IsLog l b
    → bits_at p 7 ≡ golomb_code n a ++ (golomb_code l b ++ rest)
    → process_picture_parameter_set p pps
      ≡ (if ltb a (length pps) then some (set pps a b) else none)
unfolding process_picture_parameter_set
process_picture_parameter_set-codes n a l b rest p pps loga logb h =
    let start : Cursor = record { memory = p; mask_bit = 7 } in
    let (next, e, left) =
      get_u_exp_golomb-code n a (golomb_code l b ++ rest) start loga (h, omega arith) in
    let (last, f, done) = get_u_exp_golomb-code l b rest next logb left in rw (e, f) refl
