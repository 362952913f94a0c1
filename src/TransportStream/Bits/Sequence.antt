-- ===== src/TransportStream/Bits/Sequence.antt =====
-- The bits of memory as a sequence, and the numbers that sequences of bits stand for.
use openplatform_rdk_aamp.Prelude.{
  ℕ, zero, suc, ◌+◌, ◌-◌, ◌*◌, ◌/◌, ◌%◌, ◌^◌, ◌<◌, ◌≤◌, ◌≡◌, refl, sym, ap, ◌∙◌, List, [], ◌∷◌,
  ◌++◌, Bool, ◌==◌, some, length, length-append, arith, get_or, drop,
}
use native.Mathlib.Nat.{
  mod-eq-sub-div-mul, mod-add-div', div-div-eq-div-mul, one-le-pow, mod-eq_of_lt, mod-lt,
  lt_of_lt_of_le, pow-le-pow_right, zero-mul, zero-add, pow-suc, add-mul, mul_assoc, mul_comm,
}
use openplatform_rdk_aamp.TransportStream.Demuxer.{bit}
use openplatform_rdk_aamp.TransportStream.Bits.{Cursor, next_bit, one_of, get_bits_loop, get_bits}

-- The bits of a byte from bit `k` down.
unfoldable pub byte_bits : ℕ → ℕ → List Bool
byte_bits zero b = bit b 0 ∷ []
byte_bits (suc k) b = bit b (suc k) ∷ byte_bits k b

-- The bits of a memory from bit `k` of the first byte on.
unfoldable pub bits_at : List ℕ → ℕ → List Bool
bits_at [] k = []
bits_at (b ∷ memory) k = byte_bits k b ++ bits_at memory 7

abbrev pub bits_of : Cursor → List Bool
bits_of c = bits_at c.memory c.mask_bit

-- A place in memory from which on the bits are `bits`.
abbrev pub At : Cursor → List Bool → Type 0
At c bits = (bits_of c ≡ bits) × (c.mask_bit < 8)

-- A number after `acc` with the bits of `xs` shifted in.
unfoldable pub number_from : ℕ → List Bool → ℕ
number_from acc [] = acc
number_from acc (x ∷ xs) = number_from (acc * 2 + one_of x) xs

-- The low `n` bits of a number, the highest first.
unfoldable pub to_bits : ℕ → ℕ → List Bool
to_bits zero v = []
to_bits (suc n) v = bit v n ∷ to_bits n v

length-byte_bits : (k b : ℕ) → length (byte_bits k b) ≡ suc k
unfolding byte_bits
length-byte_bits zero b = refl
length-byte_bits (suc k) b = ap suc (length-byte_bits k b)

pub length-to_bits : (n v : ℕ) → length (to_bits n v) ≡ n
unfolding to_bits
length-to_bits zero v = refl
length-to_bits (suc n) v = ap suc (length-to_bits n v)

pub pow_positive : (n : ℕ) → 0 < 2 ^ n
pow_positive n = one-le-pow n 2 (omega arith)

one_of_odd : (q : ℕ) → one_of (q % 2 == 1) ≡ q % 2
one_of_odd q = ground arith

twice : (h e m : ℕ) → (e + h * 2) * m ≡ e * m + h * (m * 2)
twice h e m =
    add-mul e (h * 2) m ∙ ap (λ x. e * m + x) (mul_assoc h 2 m ∙ ap (λ x. h * x) (mul_comm 2 m))

less_twice : (h e m r v : ℕ) → r + (e + h * 2) * m ≡ v → v - h * (m * 2) ≡ e * m + r
less_twice h e m r v split = omega (arith, twice h e m)

double_mod : (m v : ℕ) → v % (m * 2) ≡ v / m % 2 * m + v % m
double_mod m v =
    mod-eq-sub-div-mul v (m * 2)
    ∙ ap (λ x. v - x * (m * 2)) (sym (div-div-eq-div-mul v m 2))
    ∙ less_twice (v / m / 2) (v / m % 2) m (v % m) v
        (ap (λ x. v % m + x * m) (mod-add-div' (v / m) 2) ∙ mod-add-div' v m)

shifted : (acc x m : ℕ) → (acc * 2 + x) * m ≡ acc * (m * 2) + x * m
shifted acc x m =
    add-mul (acc * 2) x m
    ∙ ap (λ y. y + x * m) (mul_assoc acc 2 m ∙ ap (λ y. acc * y) (mul_comm 2 m))

pub number_from-to_bits : (n v acc : ℕ) → number_from acc (to_bits n v) ≡ acc * 2 ^ n + v % 2 ^ n
unfolding number_from to_bits
number_from-to_bits zero v acc = omega arith
number_from-to_bits (suc n) v acc =
    number_from-to_bits n v (acc * 2 + one_of (bit v n))
    ∙ omega (
      arith,
      one_of_odd (v / 2 ^ n),
      shifted acc (one_of (bit v n)) (2 ^ n),
      double_mod (2 ^ n) v,
      pow-suc 2 n,
      ap (λ x. x * 2 ^ n) (one_of_odd (v / 2 ^ n)),
      ap (λ x. acc * x) (pow-suc 2 n),
      ap (λ x. v % x) (pow-suc 2 n),
    )

pub number_from_zero : (n v : ℕ) → number_from 0 (to_bits n v) ≡ v % 2 ^ n
number_from_zero n v =
    number_from-to_bits n v 0 ∙ ap (λ x. x + v % 2 ^ n) (zero-mul (2 ^ n)) ∙ zero-add (v % 2 ^ n)

pub length-bits_at :
    (memory : List ℕ) (k : ℕ) → k < 8 → length (bits_at memory k) ≤ 8 * length memory
unfolding bits_at
length-bits_at [] k h = omega arith
length-bits_at (b ∷ memory) k h = omega (
  arith,
  length-append (byte_bits k b) (bits_at memory 7),
  length-byte_bits k b,
  length-bits_at memory 7 (omega arith),
)

number_from_mod :
    (xs : List Bool) (acc : ℕ)
    → number_from acc xs % 2 ^ 32 ≡ number_from (acc % 2 ^ 32) xs % 2 ^ 32
unfolding number_from
number_from_mod [] acc = omega arith
number_from_mod (x ∷ xs) acc =
    number_from_mod xs (acc * 2 + one_of x)
    ∙ ap (λ y. number_from y xs % 2 ^ 32) (omega arith)
    ∙ sym (number_from_mod xs (acc % 2 ^ 32 * 2 + one_of x))

-- One bit is read off the front of the bits.
pub next_bit-At :
    (c : Cursor) (x : Bool) (rest : List Bool)
    → At c (x ∷ rest)
    → (next : Cursor) × (next_bit c.memory c.mask_bit ≡ some (x, next)) × At next rest
unfolding next_bit bits_at byte_bits
next_bit-At c x rest h = by_case c.memory c.mask_bit h.0 h.1
  where
    by_case :
        (memory : List ℕ) (k : ℕ)
        → bits_at memory k ≡ x ∷ rest
        → k < 8
        → (next : Cursor) × (next_bit memory k ≡ some (x, next)) × At next rest
    by_case [] k h place = cc
    by_case (b ∷ memory) zero h place = (
      _,
      ap (λ y. some (y, record { memory = memory; mask_bit = 7 })) (ap (λ bits. get_or bits 0 x) h),
      (ap (drop 1) h, omega arith),
    )
    by_case (b ∷ memory) (suc k) h place = (
      _,
      ap (λ y. some (y, record { memory = b ∷ memory; mask_bit = k }))
          (ap (λ bits. get_or bits 0 x) h),
      (ap (drop 1) h, omega arith),
    )

-- getBits reads a number off the front of the bits, as a word.
pub get_bits_loop-At :
    (xs rest : List Bool) (acc : ℕ) (c : Cursor)
    → At c (xs ++ rest)
    → (next : Cursor) × (get_bits_loop (length xs) (acc % 2 ^ 32) c
        ≡ some (number_from acc xs % 2 ^ 32, next))
      × At next rest
unfolding get_bits_loop number_from
get_bits_loop-At [] rest acc c h = (c, refl, h)
get_bits_loop-At (x ∷ xs) rest acc c h =
    let (next, e, left) = next_bit-At c x (xs ++ rest) h in
    let (last, f, done) = get_bits_loop-At xs rest (acc * 2 + one_of x) next left in
    (last, rw e (ap (λ y. get_bits_loop (length xs) y next) (omega arith) ∙ f), done)

below_word : (n value : ℕ) → n ≤ 32 → value % 2 ^ n < 2 ^ 32
below_word n value few =
    lt_of_lt_of_le (mod-lt value (pow_positive n)) (pow-le-pow_right (omega arith) few)

-- getBits on the bits of a number.
pub get_bits-to_bits :
    (n v : ℕ) (rest : List Bool) (c : Cursor)
    → n ≤ 32
    → At c (to_bits n v ++ rest)
    → (next : Cursor) × (get_bits n c ≡ some (v % 2 ^ n, next)) × At next rest
get_bits-to_bits n v rest c few h =
    let (next, e, left) = get_bits_loop-At (to_bits n v) rest 0 c h in
    (
      next,
      ap (λ m. get_bits_loop m 0 c) (sym (length-to_bits n v))
          ∙ e
          ∙ ap (λ m. some (m, next))
              (ap (λ m. m % 2 ^ 32) (number_from_zero n v) ∙ mod-eq_of_lt (below_word n v few)),
      left,
    )
