-- ===== src/TransportStream/Bits/Sps/Frames.antt =====
-- Sequence parameter sets without scaling matrices, their bits, and what processSeqParameterSet makes of them
-- outside the I-frame mode.
use openplatform_rdk_aamp.Prelude.{
  ℕ, ◌+◌, ◌*◌, ◌%◌, ◌^◌, ◌≤◌, ◌<◌, ◌≡◌, refl, ◌∙◌, List, [], ◌∷◌, ◌++◌, Bool, true, false, not,
  ◌==◌, if◌then◌else◌, Option, none, some, arith, length, set, get_elem?, lt→ltb, ==_ne, Bool-cases,
  inl, inr,
}
use mathlib.Core.List.{append_assoc}
use native.Mathlib.Nat.{pow-le-pow_right, pow-suc}
use openplatform_rdk_aamp.TransportStream.Bits.{Cursor, one_of, get_bits}
use openplatform_rdk_aamp.TransportStream.Bits.Sequence.{bits_at}
use openplatform_rdk_aamp.TransportStream.Bits.Sps.{
  Sps, Frame, is_high_profile, high_profile, pic_order, read_frame, returns,
  process_seq_parameter_set, ◌>>=◌,
}
use openplatform_rdk_aamp.TransportStream.Bits.Sps.Reads.{
  Code, code_bits, Reads, Reads-returns, after, Reads-code, Reads-signed, Reads-flag, codes_bits,
  Reads-codes,
}

abbrev pub zero_code : Code
zero_code = record {
  log = 0;
  value = 0;
  is_log = record { at_least = omega arith; below = omega arith; fits = omega arith };
}

abbrev pub one_code : Code
one_code = record {
  log = 1;
  value = 1;
  is_log = record { at_least = omega arith; below = omega arith; fits = omega arith };
}

-- What a high profile adds.
pub record High : Type 0 where
  pub chroma_format : Code
  pub separate : Bool
  pub luma_depth : Code
  pub chroma_depth : Code
  pub bypass : Bool

-- The flag for separate planes stands only in the chroma format 3.
abbrev pub separate_bits : High → List Bool
separate_bits h = if h.chroma_format.value == 3 then h.separate ∷ [] else []

abbrev pub separate_of : High → ℕ
separate_of h = if h.chroma_format.value == 3 then one_of h.separate else 0

abbrev pub high_bits : High → List Bool
high_bits h =
    code_bits h.chroma_format
    ++ (separate_bits h
        ++ (code_bits h.luma_depth ++ (code_bits h.chroma_depth ++ (h.bypass ∷ false ∷ []))))

-- The picture order count: of type 0, of type 1, or of another type.
pub data Order : Type 0 where
  by_lsb : Code → Order
  by_cycle : Bool → Code → Code → Code → List Code → Order
  by_output : Code → Order

abbrev pub IsOrder : Order → Type 0
IsOrder (by_lsb lsb) = lsb.value < 28
IsOrder (by_cycle always non_ref top_bottom count offsets) = count.value ≡ length offsets
IsOrder (by_output kind) = 2 ≤ kind.value

abbrev pub order_bits : Order → List Bool
order_bits (by_lsb lsb) = code_bits zero_code ++ (code_bits lsb ++ [])
order_bits (by_cycle always non_ref top_bottom count offsets) =
    code_bits one_code
    ++ (always
        ∷ (code_bits non_ref
            ++ (code_bits top_bottom ++ (code_bits count ++ (codes_bits offsets ++ [])))))
order_bits (by_output kind) = code_bits kind ++ []

abbrev pub with_order : Order → Sps → Sps
with_order (by_lsb lsb) sps = record sps {
  pic_order_count_type = 0;
  log2_max_pic_order_cnt_lsb_minus4 = lsb.value;
  max_pic_order_count = 2 * 2 ^ (lsb.value + 4) % 2 ^ 32;
}
with_order (by_cycle always non_ref top_bottom count offsets) sps = record sps {
  pic_order_count_type = 1;
}
with_order (by_output kind) sps = record sps { pic_order_count_type = kind.value }

Reads-separate :
    (h : High)
    → Reads
        (if h.chroma_format.value == 3 then get_bits 1 else returns 0)
        (separate_bits h)
        (separate_of h)
Reads-separate h = elim (Bool-cases (h.chroma_format.value == 3)) [
  | inl e ↦ rw e (Reads-flag h.separate)
  | inr e ↦ rw e (Reads-returns 0)
]

Reads-high : (h : High) → Reads high_profile (high_bits h) (separate_of h)
unfolding high_profile
Reads-high h = after (code_bits h.chroma_format) _ (Reads-code h.chroma_format) (
    after (separate_bits h) _ (Reads-separate h) (
      after (code_bits h.luma_depth) _ (Reads-code h.luma_depth) (
        after (code_bits h.chroma_depth) _ (Reads-code h.chroma_depth) (
          after (h.bypass ∷ []) _ (Reads-flag h.bypass) (
            after (false ∷ []) _ (Reads-flag false)
              (after [] _ (Reads-returns 0) (Reads-returns (separate_of h))))))))

code_small : (k : Code) → k.value < 2 ^ 31
code_small k =
    let bound : 2 ^ k.log ≤ 2 ^ 30 = pow-le-pow_right (omega arith) k.is_log.fits in
    omega (arith, bound, k.is_log.below, pow-suc 2 k.log)

Reads-order :
    (o : Order) (sps : Sps) → IsOrder o → Reads (pic_order sps) (order_bits o) (with_order o sps)
unfolding pic_order
Reads-order (by_lsb lsb) sps h =
    after (code_bits zero_code) _ (Reads-code zero_code)
      (after (code_bits lsb) _ (Reads-code lsb) (Reads-returns _))
Reads-order (by_cycle always non_ref top_bottom count offsets) sps h =
    after (code_bits one_code) _ (Reads-code one_code) (
      after (always ∷ []) _ (Reads-flag always) (
        after (code_bits non_ref) _ (Reads-signed non_ref) (
          after (code_bits top_bottom) _ (Reads-signed top_bottom) (
            after (code_bits count) _ (Reads-code count) (
              rw (lt→ltb count.value (2 ^ 31) (code_small count), h)
                (after (codes_bits offsets) _ (Reads-codes offsets) (Reads-returns _)))))))
Reads-order (by_output kind) sps h = after (code_bits kind) _ (Reads-code kind) (
    rw
      (
        ==_ne kind.value 0 (λ e. absurd (omega (arith, h))),
        ==_ne kind.value 1 (λ e. absurd (omega (arith, h))),
      )
      (Reads-returns _))

-- A sequence parameter set.
pub record Parameters : Type 0 where
  pub profile : ℕ
  pub constraints : ℕ
  pub level : ℕ
  pub id : Code
  pub high : Option High
  pub frame_num : Code
  pub order : Order
  pub num_refs : Code
  pub gaps : Bool
  pub width : Code
  pub height : Code
  pub mbs_only : Bool
  pub adaptive : Bool

abbrev pub has_high : Option High → Bool
has_high none = false
has_high (some h) = true

pub record IsParameters (s : Parameters) : Type 0 where
  pub by_profile : is_high_profile s.profile ≡ has_high s.high
  pub is_order : IsOrder s.order

abbrev pub profile_bits : Option High → List Bool
profile_bits none = []
profile_bits (some h) = high_bits h

abbrev pub separate_flag : Option High → ℕ
separate_flag none = 0
separate_flag (some h) = separate_of h

abbrev pub frame_bits : Parameters → List Bool
frame_bits s =
    profile_bits s.high
    ++ (code_bits s.frame_num
        ++ (order_bits s.order
            ++ (code_bits s.num_refs
                ++ (s.gaps
                    ∷ (code_bits s.width
                        ++ (code_bits s.height
                            ++ (s.mbs_only
                                ∷ ((if s.mbs_only then [] else s.adaptive ∷ []) ++ []))))))))

-- Macroblocks of 16 by 16; the height of an interlaced picture counts for both fields.
abbrev pub frame_of : Parameters → Sps → Frame
frame_of s old =
    let sps = with_order s.order (record old {
      separate_color_plane_flag = separate_flag s.high;
      log2_max_frame_num_minus4 = s.frame_num.value;
    }) in
    let map_units = (s.height.value + 1) * 16 in
    record {
      sps = record sps { frame_mbs_only_flag = one_of s.mbs_only };
      frame_width = (s.width.value + 1) * 16 % 2 ^ 32;
      frame_height = (if not s.mbs_only then map_units * 2 else map_units) % 2 ^ 32;
      is_interlaced = not s.mbs_only;
      time_scale_p = none;
    }

Reads-profile :
    (profile : ℕ) (high : Option High)
    → is_high_profile profile ≡ has_high high
    → Reads
        (if is_high_profile profile then high_profile else returns 0)
        (profile_bits high)
        (separate_flag high)
Reads-profile profile none e = rw e (Reads-returns 0)
Reads-profile profile (some h) e = rw e (Reads-high h)

one_of_zero : (x : Bool) → (one_of x == 0) ≡ not x
one_of_zero true = refl
one_of_zero false = refl

Reads-adaptive :
    (mbs_only adaptive : Bool)
    → Reads {A = Option Cursor}
        (if one_of mbs_only == 0
          then get_bits 1 >>= (λ mb_adaptive_frame_field_flag. returns none)
          else returns none)
        (if mbs_only then [] else adaptive ∷ [])
        none
Reads-adaptive true adaptive = Reads-returns none
Reads-adaptive false adaptive = after (adaptive ∷ []) _ (Reads-flag adaptive) (Reads-returns none)

Reads-frame :
    (s : Parameters) (old : Sps)
    → IsParameters s
    → Reads (read_frame s.profile false old) (frame_bits s) (frame_of s old)
unfolding read_frame
Reads-frame s old w = after (profile_bits s.high) _ (Reads-profile s.profile s.high w.by_profile) (
    after (code_bits s.frame_num) _ (Reads-code s.frame_num) (
      after (order_bits s.order) _ (Reads-order s.order _ w.is_order) (
        after (code_bits s.num_refs) _ (Reads-code s.num_refs) (
          after (s.gaps ∷ []) _ (Reads-flag s.gaps) (
            after (code_bits s.width) _ (Reads-code s.width) (
              after (code_bits s.height) _ (Reads-code s.height) (
                after (s.mbs_only ∷ []) _ (Reads-flag s.mbs_only) (
                  after (if s.mbs_only then [] else s.adaptive ∷ []) _
                    (Reads-adaptive s.mbs_only s.adaptive)
                    (rw (one_of_zero s.mbs_only) (Reads-returns _))))))))))

-- processSeqParameterSet outside the I-frame mode, on a sequence parameter set without scaling matrices: it
-- returns false and leaves the bytes as they are. The entry of m_SPS that the set names takes its flag for
-- separate planes, its frame number, its picture order count and its flag for frames, and keeps the rest;
-- width and height are those of the set in macroblocks, times 16, and twice that height for an interlaced
-- picture.
pub process_seq_parameter_set-frame :
    (s : Parameters) (rate : ℕ) (memory : List ℕ) (rest : List Bool) (table : List Sps) (old : Sps)
    → IsParameters s
    → bits_at memory 7 ≡ (code_bits s.id ++ frame_bits s) ++ rest
    → get_elem? table s.id.value ≡ some old
    → process_seq_parameter_set (s.profile ∷ s.constraints ∷ s.level ∷ memory) false rate table
      ≡ some (record {
        memory = s.profile ∷ s.constraints ∷ s.level ∷ memory;
        table = set table s.id.value (frame_of s old).sps;
        frame = frame_of s old;
        ret = false;
      })
unfolding process_seq_parameter_set
process_seq_parameter_set-frame s rate memory rest table old w h entry =
    let (next, e, left) =
      (Reads-code s.id).result (record { memory = memory; mask_bit = 7 }) (frame_bits s ++ rest)
        (h ∙ append_assoc (code_bits s.id) (frame_bits s) rest, omega arith) in
    let (last, f, done) = (Reads-frame s old w).result next rest left in rw (e, entry, f) refl
