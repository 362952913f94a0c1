-- ===== src/Prelude/Bits.antt =====
-- Masks and shifts on bytes as arithmetic. Each fact is a table that evaluation checks.
use Prim.Native.Nat.{ℕ, zero, suc, ◌+◌, ◌*◌, ◌%◌, ◌<◌, bit_and, bit_or}
use mathlib.Core.Path.{◌≡◌, refl}
use mathlib.Core.Bool.{Bool, true, false}
use native.Mathlib.Omega.{arith}
use openplatform_rdk_aamp.Prelude.Tests.{◌==◌, ==_iff, if◌then◌else◌}

-- A test that every number below a bound passes.
unfoldable pub all_below : ℕ → (ℕ → Bool) → Bool
all_below zero test = true
all_below (suc k) test = let smaller = all_below k test in if test k then smaller else false

pub all_below_sound :
    (bound : ℕ) (test : ℕ → Bool) (v : ℕ) → all_below bound test ≡ true → v < bound → test v ≡ true
unfolding all_below
all_below_sound zero test v passed small = absurd (omega arith)
all_below_sound (suc k) test v passed small = ground (arith, all_below_sound k test v)

abbrev or_table : ℕ → ℕ → ℕ → Bool
or_table n m k = all_below n (λ a. all_below m (λ b. bit_or (a * k) b == a * k + b))

or_table_sound :
    (n m k : ℕ) → or_table n m k ≡ true → (a b : ℕ) → a < n → b < m → bit_or (a * k) b ≡ a * k + b
or_table_sound n m k e a b ha hb = (==_iff _ _).0 (
    all_below_sound m (λ b. bit_or (a * k) b == a * k + b) b
      (all_below_sound n (λ a. all_below m (λ b. bit_or (a * k) b == a * k + b)) a e ha) hb)

-- `(a << 2) | b`, `(a << 4) | b` and `(a << 6) | b` with `b` below the shifted bits.
pub or_shl_two : (a b : ℕ) → a < 64 → b < 4 → bit_or (a * 4) b ≡ a * 4 + b
unfolding all_below
or_shl_two = or_table_sound 64 4 4 refl

pub or_shl_four : (a b : ℕ) → a < 64 → b < 16 → bit_or (a * 16) b ≡ a * 16 + b
unfolding all_below
or_shl_four = or_table_sound 64 16 16 refl

pub or_shl_six : (a b : ℕ) → a < 64 → b < 64 → bit_or (a * 64) b ≡ a * 64 + b
unfolding all_below
or_shl_six = or_table_sound 64 64 64 refl

abbrev mask_table : ℕ → ℕ → Bool
mask_table m k = all_below 256 (λ a. bit_and a m == a % k)

mask_table_sound : (m k : ℕ) → mask_table m k ≡ true → (a : ℕ) → a < 256 → bit_and a m ≡ a % k
mask_table_sound m k e a h = (==_iff _ _).0 (all_below_sound 256 (λ a. bit_and a m == a % k) a e h)

-- `a & 0x3`, `a & 0xf` and `a & 0x3f` on a byte.
pub and_three : (a : ℕ) → a < 256 → bit_and a 0x3 ≡ a % 4
unfolding all_below
and_three = mask_table_sound 0x3 4 refl

pub and_fifteen : (a : ℕ) → a < 256 → bit_and a 0xf ≡ a % 16
unfolding all_below
and_fifteen = mask_table_sound 0xf 16 refl

pub and_sixty_three : (a : ℕ) → a < 256 → bit_and a 0x3f ≡ a % 64
unfolding all_below
and_sixty_three = mask_table_sound 0x3f 64 refl
