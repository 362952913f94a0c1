-- ===== src/Captions/Tracks/Range.antt =====
-- The channels that SetTrack selects.
use openplatform_rdk_aamp.Prelude.{
  ℕ, ◌≤◌, ◌<◌, List, All, ltb, leb, ◌&&◌, arith, Bool-cases, Option-cases, inl, inr,
}
use openplatform_rdk_aamp.Captions.{
  ℤ, CcFormat, format_default, format_608, format_708, CcCall, gfx_init, manager_init,
  close_caption_start, close_caption_stop, set_cc_state, set_digital_channel, set_analog_channel,
  Manager,
}
use openplatform_rdk_aamp.Captions.Tracks.{infer_track, override_format, channel_call, set_track}

-- A digital channel is one of 1 to 63, an analog channel one of the eight from CC1 on.
abbrev pub IsChannel : CcCall → Type 0
IsChannel (set_digital_channel n) = (0 < n) × (n ≤ 63)
IsChannel (set_analog_channel n) = n < 8
IsChannel gfx_init = ⊥
IsChannel manager_init = ⊥
IsChannel (close_caption_start handle) = ⊥
IsChannel close_caption_stop = ⊥
IsChannel (set_cc_state on) = ⊥

channel_call-IsChannel : (chosen : CcFormat × ℕ) → All IsChannel (channel_call chosen)
channel_call-IsChannel (format_608, n) = elim (Bool-cases (ltb 0 n && leb n 8)) [
  | inl e ↦ rw e (ground arith, tt)
  | inr e ↦ rw e tt
]
channel_call-IsChannel (format_708, n) = elim (Bool-cases (ltb 0 n && leb n 63)) [
  | inl e ↦ rw e (ground arith, tt)
  | inr e ↦ rw e tt
]
channel_call-IsChannel (format_default, n) = tt

-- Whatever the track and the format, SetTrack calls the CC module only to select a channel, and only a
-- digital channel from 1 to 63 or one of the eight analog channels.
pub set_track-IsChannel :
    (cc_ret : CcCall → ℤ) (track : List ℕ) (format : CcFormat) (m : Manager)
    → All IsChannel (set_track cc_ret track format m).2
unfolding set_track
set_track-IsChannel cc_ret track format m = elim (Option-cases (infer_track track)) [
  | inl e ↦ rw e tt
  | inr (chosen, e) ↦ rw e (channel_call-IsChannel (override_format format chosen))
]
