-- ===== src/IsoBmff/Reads.antt =====
-- What the constructors of the boxes read from a box that is laid out as Tree says.
use openplatform_rdk_aamp.Prelude.{
  ℕ, suc, ◌+◌, ◌^◌, ◌<◌, ◌≡◌, refl, ap, List, [], ◌∷◌, ◌++◌, length, drop, drop-append, arith, ◌==◌,
  if◌then◌else◌, Bool-cases, inl, inr,
}
use mathlib.Core.List.{append_assoc}
use openplatform_rdk_aamp.IsoBmff.{Head, Full, Box, tfdt_box}
use openplatform_rdk_aamp.IsoBmff.Words.{bytes32, bytes64, be32, be32-bytes32}
use openplatform_rdk_aamp.IsoBmff.Parse.{
  ok, construct_box, construct_children, construct_by_type, construct_header_box,
  construct_tfdt_box, read_u32, read_u64,
}
use openplatform_rdk_aamp.IsoBmff.Tree.{
  Header, DecodeTime, header_body, time_body, header_full, time_full, framed, HeaderFits, TimeFits,
  flags_value,
}

-- The header of a box is read back, and constructBox goes on by its type.
pub construct_box-framed :
    (fuel max_size : ℕ) (type body rest : List ℕ)
    → length type ≡ 4
    → 8 + length body < 2 ^ 32
    → construct_box (suc fuel) (framed type body ++ rest) max_size
      ≡ construct_by_type
          (record { offset = 0; size = 8 + length body; type = type })
          max_size
          (body ++ rest)
          (construct_children fuel (body ++ rest) 8 (8 + length body))
unfolding construct_box
construct_box-framed fuel max_size [] body rest e h = absurd (omega arith)
construct_box-framed fuel max_size (t0 ∷ []) body rest e h = absurd (omega arith)
construct_box-framed fuel max_size (t0 ∷ t1 ∷ []) body rest e h = absurd (omega arith)
construct_box-framed fuel max_size (t0 ∷ t1 ∷ t2 ∷ []) body rest e h = absurd (omega arith)
construct_box-framed fuel max_size (t0 ∷ t1 ∷ t2 ∷ t3 ∷ []) body rest e h =
    rw (be32-bytes32 (8 + length body) h) refl
construct_box-framed fuel max_size (t0 ∷ t1 ∷ t2 ∷ t3 ∷ t4 ∷ more) body rest e h =
    absurd (omega arith)

read_u32-bytes32 : (v : ℕ) (memory : List ℕ) → v < 2 ^ 32 → read_u32 (bytes32 v ++ memory) ≡ ok v
read_u32-bytes32 v memory h = rw (be32-bytes32 v h) refl

read_u64-bytes64 : (v : ℕ) (memory : List ℕ) → v < 2 ^ 64 → read_u64 (bytes64 v ++ memory) ≡ ok v
unfolding be32
read_u64-bytes64 v memory h = ap (λ (n : ℕ). ok n) (omega arith)

drop_times :
    (n scale : ℕ) (times tail rest : List ℕ)
    → length times ≡ n
    → scale < 2 ^ 32
    → read_u32 (drop n ((times ++ (bytes32 scale ++ tail)) ++ rest)) ≡ ok scale
drop_times n scale times tail rest e h =
    rw (← e, append_assoc, drop-append) (read_u32-bytes32 scale (tail ++ rest) h)

header_reads :
    (build : Head → Full → ℕ → Box) (head : Head) (version : ℕ) (flags times : List ℕ) (scale : ℕ)
    (tail rest : List ℕ)
    → length flags ≡ 3
    → length times ≡ (if version == 1 then 16 else 8)
    → scale < 2 ^ 32
    → construct_header_box build head
        ((version ∷ (flags ++ (times ++ (bytes32 scale ++ tail)))) ++ rest)
      ≡ ok (build head (record { version = version; flags = flags_value flags }) scale)
header_reads build head version [] times scale tail rest e t h = absurd (omega arith)
header_reads build head version (f0 ∷ []) times scale tail rest e t h = absurd (omega arith)
header_reads build head version (f0 ∷ f1 ∷ []) times scale tail rest e t h = absurd (omega arith)
header_reads build head version (f0 ∷ f1 ∷ f2 ∷ []) times scale tail rest e t h =
    rw (drop_times (if version == 1 then 16 else 8) scale times tail rest t h) refl
header_reads build head version (f0 ∷ f1 ∷ f2 ∷ f3 ∷ more) times scale tail rest e t h =
    absurd (omega arith)

pub construct_header_box-body :
    (build : Head → Full → ℕ → Box) (head : Head) (h : Header) (rest : List ℕ)
    → HeaderFits h
    → construct_header_box build head (header_body h ++ rest)
      ≡ ok (build head (header_full h) h.time_scale)
construct_header_box-body build head h rest fits =
    header_reads build head h.version h.flags h.times h.time_scale h.rest rest fits.0 fits.1 fits.2

time_read :
    (version time : ℕ) (tail : List ℕ)
    → time < (if version == 1 then 2 ^ 64 else 2 ^ 32)
    → (if version == 1
        then read_u64 ((if version == 1 then bytes64 time else bytes32 time) ++ tail)
        else read_u32 ((if version == 1 then bytes64 time else bytes32 time) ++ tail))
      ≡ ok time
time_read version time tail h = elim (Bool-cases (version == 1)) [
  | inl one ↦ rw one (read_u64-bytes64 time tail (rw one at h))
  | inr zero_one ↦ rw zero_one (read_u32-bytes32 time tail (rw zero_one at h))
]

time_reads :
    (head : Head) (version : ℕ) (flags : List ℕ) (time : ℕ) (tail rest : List ℕ)
    → length flags ≡ 3
    → time < (if version == 1 then 2 ^ 64 else 2 ^ 32)
    → construct_tfdt_box head (
        (version ∷ (flags ++ ((if version == 1 then bytes64 time else bytes32 time) ++ tail)))
        ++ rest)
      ≡ ok (tfdt_box head (record { version = version; flags = flags_value flags }) time)
time_reads head version [] time tail rest e h = absurd (omega arith)
time_reads head version (f0 ∷ []) time tail rest e h = absurd (omega arith)
time_reads head version (f0 ∷ f1 ∷ []) time tail rest e h = absurd (omega arith)
time_reads head version (f0 ∷ f1 ∷ f2 ∷ []) time tail rest e h =
    rw (append_assoc, time_read version time (tail ++ rest) h) refl
time_reads head version (f0 ∷ f1 ∷ f2 ∷ f3 ∷ more) time tail rest e h = absurd (omega arith)

pub construct_tfdt_box-body :
    (head : Head) (d : DecodeTime) (rest : List ℕ)
    → TimeFits d
    → construct_tfdt_box head (time_body d ++ rest) ≡ ok (tfdt_box head (time_full d) d.time)
construct_tfdt_box-body head d rest fits =
    time_reads head d.version d.flags d.time d.rest rest fits.0 fits.1
