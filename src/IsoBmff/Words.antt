-- ===== src/IsoBmff/Words.antt =====
-- READ_U32, WRITE_U32, ReadUint64 and WriteUint64 of isobmffbox.h and isobmffbox.cpp.
use openplatform_rdk_aamp.Prelude.{
  ℕ, ◌+◌, ◌*◌, ◌/◌, ◌%◌, ◌^◌, ◌<◌, ◌≡◌, refl, List, [], ◌∷◌, ◌++◌, Option, none, some, arith, ap,
  length, drop, leb, if◌then◌else◌, Bool-cases, inl, inr,
}
use mathlib.Core.Option.{some-injective}

-- `(b0 << 24) | (b1 << 16) | (b2 << 8) | b3` on bytes, as an unsigned word.
unfoldable pub be32 : ℕ → ℕ → ℕ → ℕ → ℕ
be32 b0 b1 b2 b3 = b0 * 2 ^ 24 + b1 * 2 ^ 16 + b2 * 2 ^ 8 + b3

abbrev pub bytes32 : ℕ → List ℕ
bytes32 v = v / 2 ^ 24 % 256 ∷ v / 2 ^ 16 % 256 ∷ v / 2 ^ 8 % 256 ∷ v % 256 ∷ []

-- ReadUint64: `(val << 32) | low`, in 64 bits. `none` is a read past the memory.
pub read_uint64 : List ℕ → Option ℕ
unfolding be32
read_uint64 (a0 ∷ a1 ∷ a2 ∷ a3 ∷ b0 ∷ b1 ∷ b2 ∷ b3 ∷ memory) =
    some (be32 a0 a1 a2 a3 * 2 ^ 32 % 2 ^ 64 + be32 b0 b1 b2 b3)
read_uint64 _ = none

-- WriteUint64: the high word, then the low word.
abbrev pub bytes64 : ℕ → List ℕ
bytes64 v = bytes32 (v / 2 ^ 32 % 2 ^ 32) ++ bytes32 (v % 2 ^ 32)

unfoldable pub write_uint64 : List ℕ → ℕ → Option (List ℕ)
write_uint64 memory v = if leb 8 (length memory) then some (bytes64 v ++ drop 8 memory) else none

pub be32-bytes32 :
    (v : ℕ)
    → v < 2 ^ 32
    → be32 (v / 2 ^ 24 % 256) (v / 2 ^ 16 % 256) (v / 2 ^ 8 % 256) (v % 256) ≡ v
unfolding be32
be32-bytes32 v h = omega arith

pub read_uint64-bytes64 :
    (v : ℕ) (memory : List ℕ) → v < 2 ^ 64 → read_uint64 (bytes64 v ++ memory) ≡ some v
unfolding read_uint64
read_uint64-bytes64 v memory h =
    rw (be32-bytes32 (v / 2 ^ 32 % 2 ^ 32) (omega arith), be32-bytes32 (v % 2 ^ 32) (omega arith))
      (ap (λ (n : ℕ). some n) (omega arith))

-- ReadUint64 reads what WriteUint64 wrote, and the memory behind the eight bytes is untouched.
read_uint64-write :
    (memory written : List ℕ) (v : ℕ)
    → v < 2 ^ 64
    → write_uint64 memory v ≡ some written
    → (read_uint64 written ≡ some v) × (drop 8 written ≡ drop 8 memory)
unfolding write_uint64
read_uint64-write memory written v h w = elim (Bool-cases (leb 8 (length memory))) [
  | inl room ↦
      let e : bytes64 v ++ drop 8 memory ≡ written = some-injective _ _ (rw room at w) in
      rw (← e) (read_uint64-bytes64 v (drop 8 memory) h, refl)
  | inr none_left ↦ absurd (cc (rw none_left at w))
]
