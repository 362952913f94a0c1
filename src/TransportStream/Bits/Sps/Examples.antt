-- ===== src/TransportStream/Bits/Sps/Examples.antt =====
-- Witnesses for the theorems about sequence parameter sets.
use openplatform_rdk_aamp.Prelude.{
  ℕ, ◌≡◌, refl, List, [], ◌∷◌, true, false, none, some, arith, replicate, set,
}
use openplatform_rdk_aamp.TransportStream.Bits.Sequence.{byte_bits, bits_at, to_bits}
use openplatform_rdk_aamp.TransportStream.Bits.Sps.{Sps, process_seq_parameter_set}
use openplatform_rdk_aamp.TransportStream.Bits.Sps.Reads.{Code}
use openplatform_rdk_aamp.TransportStream.Bits.Sps.Frames.{
  zero_code, one_code, Parameters, by_lsb, frame_of, process_seq_parameter_set-frame,
}

abbrev four_code : Code
four_code = record {
  log = 2;
  value = 4;
  is_log = record { at_least = omega arith; below = omega arith; fits = omega arith };
}

-- A baseline stream of 5 by 2 macroblocks in frames.
abbrev small_set : Parameters
small_set = record {
  profile = 66;
  constraints = 0;
  level = 30;
  id = zero_code;
  high = none;
  frame_num = zero_code;
  order = by_lsb zero_code;
  num_refs = one_code;
  gaps = false;
  width = four_code;
  height = one_code;
  mbs_only = true;
  adaptive = false;
}

abbrev no_sps : Sps
no_sps = record {
  pic_order_count_type = 0;
  max_pic_order_count = 0;
  log2_max_frame_num_minus4 = 0;
  log2_max_pic_order_cnt_lsb_minus4 = 0;
  separate_color_plane_flag = 0;
  frame_mbs_only_flag = 0;
}

-- 1 1 1 1 010 0, 00101 010, 1 and the stop bit.
abbrev set_bytes : List ℕ
set_bytes = 0xf4 ∷ 0x2a ∷ 0xc0 ∷ []

process_seq_parameter_set-frame_example :
    process_seq_parameter_set (66 ∷ 0 ∷ 30 ∷ set_bytes) false 25 (replicate 32 no_sps)
    ≡ some (record {
      memory = 66 ∷ 0 ∷ 30 ∷ set_bytes;
      table = set (replicate 32 no_sps) 0 (frame_of small_set no_sps).sps;
      frame = frame_of small_set no_sps;
      ret = false;
    })
process_seq_parameter_set-frame_example =
    process_seq_parameter_set-frame small_set 25 set_bytes
      (true ∷ false ∷ false ∷ false ∷ false ∷ false ∷ false ∷ []) (replicate 32 no_sps) no_sps
      (record { by_profile = refl; is_order = omega arith })
      (unfold bits_at byte_bits to_bits in refl) refl
