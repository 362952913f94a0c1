-- ===== src/TransportStream/Bits/Examples.antt =====
-- Tests of the bit reader and writer, and witnesses for the theorems about them.
use openplatform_rdk_aamp.Prelude.{
  ℕ, ◌%◌, ◌^◌, ◌-◌, ◌<◌, ◌≡◌, refl, List, [], ◌∷◌, true, false, some, replicate, drop, arith, set,
}
use openplatform_rdk_aamp.TransportStream.Bits.{
  Cursor, Written, get_bits, put_bits, get_u_exp_golomb, get_s_exp_golomb,
  process_picture_parameter_set, next_bit, get_bits_loop, put_bit, finish_golomb, golomb_loop,
}
use openplatform_rdk_aamp.TransportStream.Bits.Sequence.{byte_bits, bits_at, bits_of, to_bits, At}
use openplatform_rdk_aamp.TransportStream.Bits.Put.{first_bit, get_bits-put}
use openplatform_rdk_aamp.TransportStream.Bits.Golomb.{
  IsLog, get_u_exp_golomb-code, process_picture_parameter_set-codes,
}

abbrev bytes : List ℕ
bytes = 0xa6 ∷ 0x42 ∷ 0x98 ∷ []

abbrev from_start : Cursor
from_start = record { memory = bytes; mask_bit = 7 }

-- Twelve bits from the third bit on.
put_twelve :
    put_bits 12 0xabc bytes 5
    ≡ some (record { memory = 0xaa ∷ 0xf2 ∷ 0x98 ∷ []; bytes = 1; mask_bit = 1 })
unfolding put_bits put_bit
put_twelve = refl

-- The codes 1, 010, 011, 00100 of 0 to 3.
zero_read : get_u_exp_golomb from_start ≡ some (0, record { memory = bytes; mask_bit = 6 })
unfolding get_u_exp_golomb golomb_loop next_bit finish_golomb get_bits_loop
zero_read = refl

minus_one_read :
    get_s_exp_golomb (record { memory = 0x66 ∷ []; mask_bit = 7 })
    ≡ some (2 ^ 32 - 1, record { memory = 0x66 ∷ []; mask_bit = 4 })
unfolding get_s_exp_golomb get_u_exp_golomb golomb_loop next_bit finish_golomb get_bits_loop
minus_one_read = refl

get_bits-put_example :
    (w : Written) × (next : Cursor) × (put_bits 12 0xabc bytes 5 ≡ some w)
    × (get_bits 12 (record { memory = w.memory; mask_bit = 5 }) ≡ some (0xabc % 2 ^ 12, next))
    × ((j : ℕ) → 5 < j → j < 8 → first_bit w.memory j ≡ first_bit bytes j)
    × (bits_of next ≡ drop 12 (bits_at bytes 5))
    × (bits_at (drop w.bytes w.memory) w.mask_bit ≡ drop 12 (bits_at bytes 5))
get_bits-put_example =
    get_bits-put 12 0xabc bytes 5 (omega arith) (omega arith)
      (omega arith, (omega arith, (omega arith, tt))) (unfold bits_at byte_bits in omega arith)

abbrev log_zero : IsLog 0 0
log_zero = record { at_least = omega arith; below = omega arith; fits = omega arith }

abbrev log_three : IsLog 2 3
log_three = record { at_least = omega arith; below = omega arith; fits = omega arith }

abbrev two_codes : List ℕ
two_codes = 0x92 ∷ []

get_u_exp_golomb-code_example :
    (next : Cursor) × (get_u_exp_golomb (record { memory = two_codes; mask_bit = 6 })
      ≡ some (3, next))
    × At next (true ∷ false ∷ [])
get_u_exp_golomb-code_example =
    get_u_exp_golomb-code 2 3 (true ∷ false ∷ []) (record { memory = two_codes; mask_bit = 6 })
      log_three (unfold bits_at byte_bits to_bits in refl, omega arith)

process_picture_parameter_set-codes_example :
    process_picture_parameter_set two_codes (replicate 4 0) ≡ some (set (replicate 4 0) 0 3)
process_picture_parameter_set-codes_example =
    process_picture_parameter_set-codes 0 0 2 3 (true ∷ false ∷ []) two_codes (replicate 4 0)
      log_zero log_three (unfold bits_at byte_bits to_bits in refl)
