-- ===== src/TransportStream/Bits/Sps.antt =====
-- processScalingList and processSeqParameterSet of tsprocessor.cpp: the frame size of an H.264 stream, and
-- the time scale that the I-frame mode writes over. An int is its pattern of 32 bits. Logging is left out.
pub mod Reads
pub mod Frames
pub mod Examples
use openplatform_rdk_aamp.Prelude.{
  ℕ, zero, suc, ◌+◌, ◌-◌, ◌*◌, ◌%◌, ◌^◌, List, [], ◌++◌, Bool, true, false, ltb, ◌==◌, ◌||◌,
  if◌then◌else◌, Option, none, some, get_elem?, length, take, drop, set,
}
use openplatform_rdk_aamp.TransportStream.Bits.{
  Cursor, Written, get_bits, put_bits, get_u_exp_golomb, get_s_exp_golomb,
}

-- A function with the arguments `p` and `mask` by reference.
abbrev pub Reader {ℓ} : Type ℓ → Type ℓ
Reader A = Cursor → Option (A × Cursor)

abbrev pub returns {ℓ} : {A : Type ℓ} → A → Reader A
returns a c = some (a, c)

infixl 5 ◌>>=◌
unfoldable pub ◌>>=◌ {ℓ κ} : {A : Type ℓ} {B : Type κ} → Reader A → (A → Reader B) → Reader B
r >>= f = λ c. elim (r c) [ none ↦ none | some (a, next) ↦ f a next ]

abbrev pub here : Reader Cursor
here c = some (c, c)

-- `if (flag) getBits(...)`
abbrev pub flagged : ℕ → Reader ℕ → Reader ℕ
flagged flag r = if flag == 1 then r else returns 0

-- `s % 256` of an int.
abbrev pub int_mod_256 : ℕ → ℕ
int_mod_256 s = if ltb s (2 ^ 31) then s % 256 else (2 ^ 32 - (2 ^ 32 - s) % 256) % 2 ^ 32

-- processScalingList from given scales on.
unfoldable pub scaling_loop : ℕ → ℕ → ℕ → Reader ℕ
scaling_loop zero last_scale next_scale = returns last_scale
scaling_loop (suc size) last_scale next_scale = do
  next ←
      (if next_scale == 0 then returns next_scale else (do
        delta_scale ← get_s_exp_golomb
        returns (int_mod_256 ((last_scale + delta_scale + 256) % 2 ^ 32))))
  scaling_loop size (if next == 0 then last_scale else next) next

abbrev pub process_scaling_list : ℕ → Reader ℕ
process_scaling_list size = scaling_loop size 8 8

-- The loop over the scaling lists from list `i` on.
unfoldable pub scaling_lists : ℕ → ℕ → Reader ℕ
scaling_lists zero i = returns i
scaling_lists (suc left) i = do
  present ← get_bits 1
  last_scale ← flagged present (process_scaling_list (if ltb i 6 then 16 else 64))
  scaling_lists left (suc i)

-- H264SPS
pub record Sps : Type 0 where
  pub pic_order_count_type : ℕ
  pub max_pic_order_count : ℕ
  pub log2_max_frame_num_minus4 : ℕ
  pub log2_max_pic_order_cnt_lsb_minus4 : ℕ
  pub separate_color_plane_flag : ℕ
  pub frame_mbs_only_flag : ℕ

abbrev pub is_high_profile : ℕ → Bool
is_high_profile p =
    p == 44
    || (p == 83
        || (p == 86
            || (p == 100 || (p == 110 || (p == 118 || (p == 122 || (p == 128 || p == 244)))))))

-- The case of the high profiles; what it reads is separateColorPlaneFlag.
unfoldable pub high_profile : Reader ℕ
high_profile = do
  chroma_format_idx ← get_u_exp_golomb
  separate ← (if chroma_format_idx == 3 then get_bits 1 else returns 0)
  bit_depth_luma_minus8 ← get_u_exp_golomb
  bit_depth_chroma_minus8 ← get_u_exp_golomb
  qpprime_y_zero_transform_bypass_flag ← get_bits 1
  seq_scaling_matrix_present_flag ← get_bits 1
  lists ←
      flagged seq_scaling_matrix_present_flag
        (scaling_lists (if chroma_format_idx == 3 then 12 else 8) 0)
  returns separate

-- The loop over offset_for_ref_frame.
unfoldable pub skip_codes : ℕ → Reader ℕ
skip_codes zero = returns 0
skip_codes (suc count) = do offset_for_ref_frame ← get_u_exp_golomb; skip_codes count

-- The lines on the picture order count.
unfoldable pub pic_order : Sps → Reader Sps
pic_order sps = do
  kind ← get_u_exp_golomb
  let typed = record sps { pic_order_count_type = kind }
  (if kind == 0
      then (do
        lsb ← get_u_exp_golomb
        returns (record typed {
          log2_max_pic_order_cnt_lsb_minus4 = lsb;
          max_pic_order_count = 2 * 2 ^ (lsb + 4) % 2 ^ 32;
        }))
      else if kind == 1
      then (do
        delta_pic_order_always_zero_flag ← get_bits 1
        offset_for_non_ref_pic ← get_s_exp_golomb
        offset_for_top_to_bottom_field ← get_s_exp_golomb
        num_ref_frames ← get_u_exp_golomb
        skipped ← skip_codes (if ltb num_ref_frames (2 ^ 31) then num_ref_frames else 0)
        returns typed)
      else returns typed)

-- The lines behind `if (vui_parameters_present_flag)`: where the time scale stands.
unfoldable pub vui : Reader (Option Cursor)
vui = do
  aspect_ratio_info_present_flag ← get_bits 1
  aspect_ratio_idc ← flagged aspect_ratio_info_present_flag (get_bits 8)
  overscan_info_present_flag ← get_bits 1
  overscan_appropriate_flag ← flagged overscan_info_present_flag (get_bits 1)
  video_signal_type_present_flag ← get_bits 1
  video_signal ← flagged video_signal_type_present_flag (do
    video_format ← get_bits 3
    video_full_range_flag ← get_bits 1
    color_description_present_flag ← get_bits 1
    flagged color_description_present_flag
        (do color_primaries ← get_bits 8; transfer_characteristics ← get_bits 8; get_bits 8))
  chroma_info_present_flag ← get_bits 1
  chroma_info ←
      flagged chroma_info_present_flag
        (do chroma_sample_loc_type_top_field ← get_u_exp_golomb; get_u_exp_golomb)
  timing_info_present_flag ← get_bits 1
  (if timing_info_present_flag == 1
      then (do
        num_units_in_tick ← get_bits 32
        time_scale_p ← here
        time_scale ← get_bits 32
        returns (some time_scale_p))
      else returns none)

-- The block under `if(m_playMode == PlayMode_retimestamp_Ionly)`.
unfoldable pub retimestamp_part : Reader (Option Cursor)
retimestamp_part = do
  direct_8x8_inference_flag ← get_bits 1
  frame_cropping_flag ← get_bits 1
  frame_crop ← flagged frame_cropping_flag (do
    frame_crop_left_offset ← get_u_exp_golomb
    frame_crop_right_offset ← get_u_exp_golomb
    frame_crop_top_offset ← get_u_exp_golomb
    get_u_exp_golomb)
  vui_parameters_present_flag ← get_bits 1
  (if vui_parameters_present_flag == 1 then vui else returns none)

-- What a sequence parameter set yields; `time_scale_p` is where the code writes.
pub record Frame : Type 0 where
  pub sps : Sps
  pub frame_width : ℕ
  pub frame_height : ℕ
  pub is_interlaced : Bool
  pub time_scale_p : Option Cursor

-- The lines behind seq_parameter_set_id. `sps` is the entry of m_SPS before, `i_only` the test of m_playMode.
unfoldable pub read_frame : ℕ → Bool → Sps → Reader Frame
read_frame profile_idc i_only sps = do
  separate ← (if is_high_profile profile_idc then high_profile else returns 0)
  frame_num ← get_u_exp_golomb
  ordered ←
      pic_order
        (record sps { separate_color_plane_flag = separate; log2_max_frame_num_minus4 = frame_num })
  max_num_ref_frames ← get_u_exp_golomb
  gaps_in_frame_num_value_allowed_flag ← get_bits 1
  width_in_mbs_minus1 ← get_u_exp_golomb
  height_in_map_units_minus1 ← get_u_exp_golomb
  frame_mbs_only ← get_bits 1
  place ←
      (if frame_mbs_only == 0
        then (do
          mb_adaptive_frame_field_flag ← get_bits 1
          (if i_only then retimestamp_part else returns none))
        else returns none)
  let height = (height_in_map_units_minus1 + 1) * 16
  returns (record {
    sps = record ordered { frame_mbs_only_flag = frame_mbs_only };
    frame_width = (width_in_mbs_minus1 + 1) * 16 % 2 ^ 32;
    frame_height = (if frame_mbs_only == 0 then height * 2 else height) % 2 ^ 32;
    is_interlaced = frame_mbs_only == 0;
    time_scale_p = place;
  })

-- What processSeqParameterSet leaves: the bytes, m_SPS, the members of the frame, and the result.
pub record Processed : Type 0 where
  pub memory : List ℕ
  pub table : List Sps
  pub frame : Frame
  pub ret : Bool

abbrev pub on_some {ℓ κ} : {A : Type ℓ} {B : Type κ} → Option A → (A → Option B) → Option B
on_some none f = none
on_some (some a) f = f a

-- `putBits(timeScaleP, timeScaleMask, 32, trick_time_scale)` in the bytes `p`.
unfoldable pub put_time_scale : List ℕ → ℕ → Cursor → Option (List ℕ)
put_time_scale p value place =
    on_some (put_bits 32 value place.memory place.mask_bit)
      λ w. some (take (length p - length place.memory) p ++ w.memory)

-- The write where there is a time scale, and the result.
abbrev pub trick_time_scale : List ℕ → ℕ → Option Cursor → Option (List ℕ × Bool)
trick_time_scale p apparent_frame_rate none = some (p, false)
trick_time_scale p apparent_frame_rate (some place) =
    on_some (put_time_scale p (apparent_frame_rate * 2 * 1000 % 2 ^ 32) place)
      λ memory. some (memory, true)

-- processSeqParameterSet; `none` is an access behind the memory or behind m_SPS.
unfoldable pub process_seq_parameter_set : List ℕ → Bool → ℕ → List Sps → Option Processed
process_seq_parameter_set p i_only apparent_frame_rate table =
    on_some (get_elem? p 0) λ profile_idc.
      on_some (get_u_exp_golomb (record { memory = drop 3 p; mask_bit = 7 })) λ (id, next).
        on_some (get_elem? table id) λ sps.
          on_some (read_frame profile_idc i_only sps next) λ (frame, last).
            on_some (trick_time_scale p apparent_frame_rate frame.time_scale_p) λ (memory, ret).
              some (record {
                memory = memory;
                table = set table id frame.sps;
                frame = frame;
                ret = ret;
              })
