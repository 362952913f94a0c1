-- ===== src/TransportStream/Bits.antt =====
-- getBits, putBits, getUExpGolomb, getSExpGolomb and processPictureParameterSet of tsprocessor.cpp: the bits
-- of H.264 headers. The mask is a power of two below 2 ^ 8, given by its exponent; the memory from `p` on is
-- a list of bytes. An int is its pattern of 32 bits.
pub mod Sequence
pub mod Put
pub mod Golomb
pub mod Sps
pub mod Examples
use openplatform_rdk_aamp.Prelude.{
  ℕ, zero, suc, ◌+◌, ◌-◌, ◌*◌, ◌/◌, ◌%◌, ◌^◌, List, [], ◌∷◌, Bool, true, false, not, ltb, ◌==◌,
  if◌then◌else◌, Option, none, some, length, set,
}
use openplatform_rdk_aamp.TransportStream.Demuxer.{◌>>=◌, bit}

-- `p` and `mask`.
pub record Cursor : Type 0 where
  pub memory : List ℕ
  pub mask_bit : ℕ

-- `*p & mask`, then the mask is shifted, and `p` stepped where it is 0. `none` is a read behind the memory.
unfoldable pub next_bit : List ℕ → ℕ → Option (Bool × Cursor)
next_bit [] k = none
next_bit (b ∷ memory) zero = some (bit b 0, record { memory = memory; mask_bit = 7 })
next_bit (b ∷ memory) (suc k) = some (bit b (suc k), record { memory = b ∷ memory; mask_bit = k })

abbrev pub one_of : Bool → ℕ
one_of b = if b then 1 else 0

-- The loop of getBits; `bits` is the local variable.
unfoldable pub get_bits_loop : ℕ → ℕ → Cursor → Option (ℕ × Cursor)
get_bits_loop zero bits c = some (bits, c)
get_bits_loop (suc bit_count) bits c = do
  (is_set, next) ← next_bit c.memory c.mask_bit
  get_bits_loop bit_count ((bits * 2 + one_of is_set) % 2 ^ 32) next

-- getBits
abbrev pub get_bits : ℕ → Cursor → Option (ℕ × Cursor)
get_bits bit_count c = get_bits_loop bit_count 0 c

-- `*p &= ~mask; if (...) *p |= mask;`
unfoldable pub put_bit : ℕ → ℕ → Bool → ℕ
put_bit b k is_set =
    let cleared = if bit b k then b - 2 ^ k else b in if is_set then cleared + 2 ^ k else cleared

-- The memory that putBits leaves, by how many bytes it steps `p`, and the mask.
pub record Written : Type 0 where
  pub memory : List ℕ
  pub bytes : ℕ
  pub mask_bit : ℕ

-- putBits; in the round that leaves `bit_count`, `putmask` is 2 ^ bit_count.
unfoldable pub put_bits : ℕ → ℕ → List ℕ → ℕ → Option Written
put_bits zero value memory k = some (record { memory = memory; bytes = 0; mask_bit = k })
put_bits (suc bit_count) value [] k = none
put_bits (suc bit_count) value (b ∷ memory) zero = do
  w ← put_bits bit_count value memory 7
  some (record {
    memory = put_bit b 0 (bit value bit_count) ∷ w.memory;
    bytes = suc w.bytes;
    mask_bit = w.mask_bit;
  })
put_bits (suc bit_count) value (b ∷ memory) (suc k) =
    put_bits bit_count value (put_bit b (suc k) (bit value bit_count) ∷ memory) k

-- `factor >> 1` of an int.
abbrev pub half_int : ℕ → ℕ
half_int factor = if ltb factor (2 ^ 31) then factor / 2 else factor / 2 + 2 ^ 31

-- What follows the loop over the zeros.
unfoldable pub finish_golomb : ℕ → ℕ → Cursor → Option (ℕ × Cursor)
finish_golomb zero code_num c = some (code_num, c)
finish_golomb (suc zeros) code_num c = do
  (bits, next) ← get_bits (suc zeros) c
  some ((code_num + bits) % 2 ^ 32, next)

-- `do ... while (bitClear)`; each round reads a bit, so more rounds than bits are left only end in a read
-- behind the memory.
unfoldable pub golomb_loop : ℕ → ℕ → ℕ → ℕ → Cursor → Option (ℕ × Cursor)
golomb_loop zero leading_zeros code_num factor c = none
golomb_loop (suc rounds) leading_zeros code_num factor c = do
  (is_set, next) ← next_bit c.memory c.mask_bit
  let rest =
      golomb_loop rounds (suc leading_zeros) ((code_num + half_int factor) % 2 ^ 32)
        (factor * 2 % 2 ^ 32) next
  (if is_set then finish_golomb leading_zeros code_num next else rest)

-- getUExpGolomb
unfoldable pub get_u_exp_golomb : Cursor → Option (ℕ × Cursor)
get_u_exp_golomb c = golomb_loop (8 * length c.memory) 0 0 2 c

-- `int n = (u + 1) >> 1; if (!(u & 1)) n = -n;`
abbrev pub signed_code : ℕ → ℕ
signed_code u = let n = (u + 1) % 2 ^ 32 / 2 in if bit u 0 then n else (2 ^ 32 - n) % 2 ^ 32

-- getSExpGolomb
unfoldable pub get_s_exp_golomb : Cursor → Option (ℕ × Cursor)
get_s_exp_golomb c = do (u, next) ← get_u_exp_golomb c; some (signed_code u, next)

-- processPictureParameterSet: the spsId of each entry of m_PPS. `none` also stands for a write behind the
-- array.
unfoldable pub process_picture_parameter_set : List ℕ → List ℕ → Option (List ℕ)
process_picture_parameter_set p pps = do
  (pic_parameter_set_id, next) ← get_u_exp_golomb (record { memory = p; mask_bit = 7 })
  (seq_parameter_set_id, last) ← get_u_exp_golomb next
  (if ltb pic_parameter_set_id (length pps)
      then some (set pps pic_parameter_set_id seq_parameter_set_id)
      else none)
