-- ===== src/TransportStream/TimeStamps.antt =====
-- readTimeStamp, writeTimeStamp, readPCR and writePCR of tsprocessor.cpp, and the decoder of time stamps
-- that Demuxer::processPacket has inline. A `long long` is its pattern of 64 bits; masks and shifts are
-- quotients and remainders, and an `|` of disjoint bits is a sum.
use openplatform_rdk_aamp.Prelude.{
  ℕ, ◌+◌, ◌*◌, ◌/◌, ◌%◌, ◌^◌, ◌<◌, ◌≡◌, refl, List, [], ◌∷◌, ◌++◌, map, drop, Bool, true, false,
  ◌&&◌, ◌||◌, ◌==◌, Option, none, some, arith, All, ap,
}

-- `switch ((p[0] & 0xF0) >> 4)`
abbrev pub known_prefix : ℕ → Bool
known_prefix y = y == 1 || y == 2 || y == 3

-- The three marker bits and the prefix.
abbrev pub has_markers : ℕ → ℕ → ℕ → Bool
has_markers p0 p2 p4 = p4 % 2 == 1 && (p2 % 2 == 1 && (p0 % 2 == 1 && known_prefix (p0 / 16 % 16)))

-- readTimeStamp: whether the marker bits and the prefix are those of a time stamp, and TS.
pub read_time_stamp : List ℕ → Option (Bool × ℕ)
read_time_stamp (p0 ∷ p1 ∷ p2 ∷ p3 ∷ p4 ∷ memory) = some (
  has_markers p0 p2 p4,
  p0 / 2 % 8 * 2 ^ 30 + p1 * 2 ^ 22 + p2 / 2 * 2 ^ 15 + p3 * 2 ^ 7 + p4 / 2,
)
read_time_stamp _ = none

-- writeTimeStamp
pub write_time_stamp : List ℕ → ℕ → ℕ → Option (List ℕ)
write_time_stamp (p0 ∷ p1 ∷ p2 ∷ p3 ∷ p4 ∷ memory) prefix ts = some (
    (prefix % 16 * 16 + ts / 2 ^ 30 % 8 * 2 + 1)
    ∷ ts / 2 ^ 22 % 256
    ∷ (ts / 2 ^ 15 % 128 * 2 + 1)
    ∷ ts / 2 ^ 7 % 256
    ∷ (ts % 128 * 2 + 1)
    ∷ memory)
write_time_stamp _ prefix ts = none

-- readPCR
pub read_pcr : List ℕ → Option ℕ
read_pcr (p0 ∷ p1 ∷ p2 ∷ p3 ∷ p4 ∷ memory) =
    some (p0 * 2 ^ 25 + p1 * 2 ^ 17 + p2 * 2 ^ 9 + p3 * 2 + p4 / 2 ^ 7)
read_pcr _ = none

abbrev pcr_bytes : ℕ → List ℕ
pcr_bytes pcr = pcr / 2 ^ 25 % 256 ∷ pcr / 2 ^ 17 % 256 ∷ pcr / 2 ^ 9 % 256 ∷ pcr / 2 % 256 ∷ []

-- writePCR
pub write_pcr : List ℕ → ℕ → Bool → Option (List ℕ)
write_pcr (p0 ∷ p1 ∷ p2 ∷ p3 ∷ p4 ∷ p5 ∷ memory) pcr true =
    some (pcr_bytes pcr ++ (pcr % 2 * 2 ^ 7 + 0x7e) ∷ 0 ∷ memory)
write_pcr (p0 ∷ p1 ∷ p2 ∷ p3 ∷ p4 ∷ memory) pcr false =
    some (pcr_bytes pcr ++ (pcr % 2 * 2 ^ 7 + p4 % 128) ∷ memory)
write_pcr _ pcr clear_extension = none

-- The time stamp that processPacket decodes from five bytes of a PES header.
unfoldable pub pes_time_stamp : ℕ → ℕ → ℕ → ℕ → ℕ → ℕ
pes_time_stamp p0 p1 p2 p3 p4 =
    let v = p0 % 16 * 2 ^ 32 + p1 * 2 ^ 24 + p2 * 2 ^ 16 + p3 * 2 ^ 8 + p4 in
    v / 2 ^ 33 % 8 * 2 ^ 30 + v / 2 ^ 17 % 2 ^ 15 * 2 ^ 15 + v / 2 % 2 ^ 15

-- The decoder of processPacket and readTimeStamp give the same number on any five bytes, whether
-- readTimeStamp accepts their marker bits or not, and it is below 2 ^ 33.
pub pes_time_stamp-read :
    (p0 p1 p2 p3 p4 : ℕ) (memory : List ℕ)
    → All (λ b. b < 256) (p0 ∷ p1 ∷ p2 ∷ p3 ∷ p4 ∷ [])
    → (read_time_stamp (p0 ∷ p1 ∷ p2 ∷ p3 ∷ p4 ∷ memory)
        ≡ some (has_markers p0 p2 p4, pes_time_stamp p0 p1 p2 p3 p4))
      × (pes_time_stamp p0 p1 p2 p3 p4 < 2 ^ 33)
unfolding read_time_stamp pes_time_stamp
pes_time_stamp-read p0 p1 p2 p3 p4 memory bytes =
    (ap (λ (n : ℕ). some (has_markers p0 p2 p4, n)) (omega arith), omega arith)

odd_mod : (n : ℕ) → (n * 2 + 1) % 2 ≡ 1
odd_mod n = omega arith

prefix_odd : (y n : ℕ) → (y * 16 + n * 2 + 1) % 2 ≡ 1
prefix_odd y n = omega arith

prefix_of : (y n : ℕ) → y < 16 → n < 8 → (y * 16 + n * 2 + 1) / 16 % 16 ≡ y
prefix_of y n hy hn = omega arith

-- Reading what writeTimeStamp wrote gives the low 33 bits of the number, and is accepted exactly when the
-- low four bits of the prefix are 1, 2 or 3.
pub read_time_stamp-write :
    (p0 p1 p2 p3 p4 prefix ts : ℕ) (memory : List ℕ)
    → (written : List ℕ) × (write_time_stamp (p0 ∷ p1 ∷ p2 ∷ p3 ∷ p4 ∷ memory) prefix ts
        ≡ some written)
      × (read_time_stamp written ≡ some (known_prefix (prefix % 16), ts % 2 ^ 33))
unfolding read_time_stamp write_time_stamp
read_time_stamp-write p0 p1 p2 p3 p4 prefix ts memory = (
  _,
  refl,
  rw
      (
        odd_mod (ts % 128),
        odd_mod (ts / 2 ^ 15 % 128),
        prefix_odd (prefix % 16) (ts / 2 ^ 30 % 8),
        prefix_of (prefix % 16) (ts / 2 ^ 30 % 8) (omega arith) (omega arith),
      )
      (ap (λ (n : ℕ). some (known_prefix (prefix % 16), n)) (omega arith)),
)

-- Reading what writePCR wrote gives the low 33 bits of the number. The bits of the fifth byte below it stay,
-- or are set to the reserved ones with an extension of 0; nothing behind the field changes.
pub read_pcr-write :
    (p0 p1 p2 p3 p4 p5 pcr : ℕ) (memory : List ℕ)
    → (kept : List ℕ) × (cleared : List ℕ) × (write_pcr
          (p0 ∷ p1 ∷ p2 ∷ p3 ∷ p4 ∷ p5 ∷ memory)
          pcr
          false
        ≡ some kept)
      × (write_pcr (p0 ∷ p1 ∷ p2 ∷ p3 ∷ p4 ∷ p5 ∷ memory) pcr true ≡ some cleared)
      × (read_pcr kept ≡ some (pcr % 2 ^ 33))
      × (read_pcr cleared ≡ some (pcr % 2 ^ 33))
      × (map (λ b. b % 128) (drop 4 kept) ≡ map (λ b. b % 128) (p4 ∷ p5 ∷ memory))
      × (drop 5 kept ≡ p5 ∷ memory)
      × (drop 5 cleared ≡ 0 ∷ memory)
unfolding read_pcr write_pcr
read_pcr-write p0 p1 p2 p3 p4 p5 pcr memory = (
  _,
  _,
  refl,
  refl,
  ap (λ (n : ℕ). some n) (omega arith),
  ap (λ (n : ℕ). some n) (omega arith),
  ap (λ (n : ℕ). n ∷ map (λ (b : ℕ). b % 128) (p5 ∷ memory)) (omega arith),
  refl,
  refl,
)
