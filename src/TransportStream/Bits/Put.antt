-- ===== src/TransportStream/Bits/Put.antt =====
-- What putBits writes, and that getBits reads it back.
use openplatform_rdk_aamp.Prelude.{
  ℕ, zero, suc, ◌%◌, ◌^◌, ◌<◌, ◌≤◌, ◌≡◌, refl, ap, ◌∙◌, List, [], ◌∷◌, ◌++◌, Bool, true, false, not,
  ◌==◌, ◌&&◌, if◌then◌else◌, some, length, drop, All, arith, ltb, ltb→lt, ==_refl, ==_ne, ◌≢◌,
}
use openplatform_rdk_aamp.Prelude.Bits.{all_below, all_below_sound}
use openplatform_rdk_aamp.TransportStream.Demuxer.{bit}
use openplatform_rdk_aamp.TransportStream.Bits.{Cursor, get_bits, put_bit, put_bits, Written}
use openplatform_rdk_aamp.TransportStream.Bits.Sequence.{
  byte_bits, bits_at, bits_of, to_bits, get_bits-to_bits,
}

abbrev same : Bool → Bool → Bool
same true y = y
same false y = not y

and_true : (a b : Bool) → (a && b) ≡ true → (a ≡ true) × (b ≡ true)
and_true true b h = (refl, h)
and_true false b h = cc

same_sound : (x y : Bool) → same x y ≡ true → x ≡ y
same_sound true true h = refl
same_sound true false h = cc
same_sound false true h = cc
same_sound false false h = refl

-- Bit `j` of a byte after a write to bit `k`.
abbrev written_bit : ℕ → ℕ → Bool → ℕ → Bool
written_bit b k x j = if j == k then x else bit b j

abbrev put_test : Bool → ℕ → ℕ → Bool
put_test x k b =
    ltb (put_bit b k x) 256 && all_below 8 (λ j. same (bit (put_bit b k x) j) (written_bit b k x j))

abbrev put_table : Bool → ℕ → Bool
put_table x k = all_below 256 (put_test x k)

tables : (x : Bool) (k : ℕ) → k < 8 → put_table x k ≡ true
unfolding all_below put_bit
tables true k h = all_below_sound 8 (put_table true) k refl h
tables false k h = all_below_sound 8 (put_table false) k refl h

module _ (x : Bool) (k b : ℕ) (place : k < 8) (byte : b < 256) where
  passed : put_test x k b ≡ true
  passed = all_below_sound 256 (put_test x k) b (tables x k place) byte

  pub put_bit-byte : put_bit b k x < 256
  put_bit-byte = ltb→lt (put_bit b k x) 256 (and_true _ _ passed).0

  bit-put_bit : (j : ℕ) → j < 8 → bit (put_bit b k x) j ≡ written_bit b k x j
  bit-put_bit j h = same_sound (bit (put_bit b k x) j) (written_bit b k x j) (
      all_below_sound 8 (λ j. same (bit (put_bit b k x) j) (written_bit b k x j)) j
        (and_true _ _ passed).1 h)

  pub bit-put_self : bit (put_bit b k x) k ≡ x
  bit-put_self = rw (==_refl k) at (bit-put_bit k place)

  pub bit-put_ne : (j : ℕ) → j < 8 → j ≢ k → bit (put_bit b k x) j ≡ bit b j
  bit-put_ne j h other = rw (==_ne j k other) at (bit-put_bit j h)

  -- The bits below the written one.
  pub byte_bits-put : (j : ℕ) → j < k → byte_bits j (put_bit b k x) ≡ byte_bits j b
  unfolding byte_bits
  byte_bits-put zero h = ap (λ y. y ∷ []) (bit-put_ne 0 (omega arith) (λ e. absurd (omega arith)))
  byte_bits-put (suc j) h =
      rw
        (
          bit-put_ne (suc j) (omega arith) (λ e. absurd (omega arith)),
          byte_bits-put j (omega arith),
        )
        refl

abbrev pub first_bit : List ℕ → ℕ → Bool
first_bit [] j = false
first_bit (b ∷ memory) j = bit b j

-- What putBits leaves of `bit_count` bits of a number from bit `k` of a memory on.
pub record IsWritten (bit_count value : ℕ) (memory : List ℕ) (k : ℕ) : Type 0 where
  pub written : Written
  pub ran : put_bits bit_count value memory k ≡ some written
  pub bits : bits_at written.memory k ≡ to_bits bit_count value ++ drop bit_count (bits_at memory k)
  pub before : (j : ℕ) → k < j → j < 8 → first_bit written.memory j ≡ first_bit memory j
  pub behind :
      bits_at (drop written.bytes written.memory) written.mask_bit
      ≡ drop bit_count (bits_at memory k)
  pub keeps_length : length written.memory ≡ length memory

bits_at-first :
    (memory : List ℕ) (k : ℕ)
    → 0 < length memory
    → bits_at memory (suc k) ≡ first_bit memory (suc k) ∷ bits_at memory k
unfolding bits_at byte_bits
bits_at-first [] k h = absurd (omega arith)
bits_at-first (b ∷ memory) k h = refl

module _ (n value b k : ℕ) (memory : List ℕ) (place : suc k < 8) (byte : b < 256) where
  abbrev changed : List ℕ
  changed = put_bit b (suc k) (bit value n) ∷ memory

  bits_at-changed : bits_at changed k ≡ bits_at (b ∷ memory) k
  unfolding bits_at
  bits_at-changed =
      ap (λ bits. bits ++ bits_at memory 7)
        (byte_bits-put (bit value n) (suc k) b place byte k (omega arith))

  -- A bit within a byte, before the others.
  within_IsWritten : IsWritten n value changed k → IsWritten (suc n) value (b ∷ memory) (suc k)
  unfolding put_bits bits_at byte_bits to_bits
  within_IsWritten later = record {
    written = later.written;
    ran = later.ran;
    bits =
        bits_at-first later.written.memory k (omega (arith, later.keeps_length))
        ∙ rw
            (
              later.before (suc k) (omega arith) place,
              bit-put_self (bit value n) (suc k) b place byte,
            )
            (ap (λ bits. bit value n ∷ bits)
              (later.bits ∙ ap (λ bits. to_bits n value ++ drop n bits) bits_at-changed));
    before = λ j h l.
        later.before j (omega arith) l
        ∙ bit-put_ne (bit value n) (suc k) b place byte j l (λ e. absurd (omega arith));
    behind = later.behind ∙ ap (drop n) bits_at-changed;
    keeps_length = later.keeps_length;
  }

put_bits-IsWritten :
    (bit_count value : ℕ) (memory : List ℕ) (k : ℕ)
    → k < 8
    → All (λ b. b < 256) memory
    → bit_count ≤ length (bits_at memory k)
    → IsWritten bit_count value memory k
unfolding put_bits bits_at byte_bits to_bits
put_bits-IsWritten zero value memory k place bytes room = record {
  written = record { memory = memory; bytes = 0; mask_bit = k };
  ran = refl;
  bits = refl;
  before = λ j h l. refl;
  behind = refl;
  keeps_length = refl;
}
put_bits-IsWritten (suc n) value [] k place bytes room = absurd (omega arith)
put_bits-IsWritten (suc n) value (b ∷ memory) zero place bytes room =
    let x = bit value n in
    let later = put_bits-IsWritten n value memory 7 (omega arith) bytes.1 (omega arith) in
    record {
      written = record {
        memory = put_bit b 0 x ∷ later.written.memory;
        bytes = suc later.written.bytes;
        mask_bit = later.written.mask_bit;
      };
      ran = rw later.ran refl;
      bits = rw (bit-put_self x 0 b place bytes.0, later.bits) refl;
      before = λ j h l. bit-put_ne x 0 b place bytes.0 j l (λ e. absurd (omega arith));
      behind = later.behind;
      keeps_length = ap suc later.keeps_length;
    }
put_bits-IsWritten (suc n) value (b ∷ memory) (suc k) place bytes room =
    within_IsWritten n value b k memory place bytes.0 (
      put_bits-IsWritten n value (changed n value b k memory place bytes.0) k (omega arith)
        (put_bit-byte (bit value n) (suc k) b place bytes.0, bytes.1)
        (rw (bits_at-changed n value b k memory place bytes.0) (omega arith)))

-- getBits at the same place reads what putBits wrote: the low `bit_count` bits of the number, up to 32. The
-- bits before them in the same byte and all bits behind them are as before, and both calls step `p` and the
-- mask to the same bits.
pub get_bits-put :
    (bit_count value : ℕ) (memory : List ℕ) (k : ℕ)
    → bit_count ≤ 32
    → k < 8
    → All (λ b. b < 256) memory
    → bit_count ≤ length (bits_at memory k)
    → (w : Written) × (next : Cursor) × (put_bits bit_count value memory k ≡ some w)
      × (get_bits bit_count (record { memory = w.memory; mask_bit = k })
          ≡ some (value % 2 ^ bit_count, next))
      × ((j : ℕ) → k < j → j < 8 → first_bit w.memory j ≡ first_bit memory j)
      × (bits_of next ≡ drop bit_count (bits_at memory k))
      × (bits_at (drop w.bytes w.memory) w.mask_bit ≡ drop bit_count (bits_at memory k))
get_bits-put bit_count value memory k few place bytes room =
    let p = put_bits-IsWritten bit_count value memory k place bytes room in
    let (next, e, left) =
      get_bits-to_bits bit_count value (drop bit_count (bits_at memory k))
        (record { memory = p.written.memory; mask_bit = k }) few (p.bits, place) in
    (p.written, next, p.ran, e, p.before, left.0, p.behind)
