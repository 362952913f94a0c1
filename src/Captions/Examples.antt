-- ===== src/Captions/Examples.antt =====
-- A CC module that does what the manager relies on, and the manager's theorems on it.
use openplatform_rdk_aamp.Prelude.{
  ◌<◌, ◌^◌, ◌≡◌, refl, List, [], ◌∷◌, ◌++◌, map, All, Bool, true, false, some, arith, ltb, leb,
  ◌&&◌, if◌then◌else◌,
}
use openplatform_rdk_aamp.Captions.{
  ℤ, pos, format_default, CcCall, gfx_init, manager_init, close_caption_start, close_caption_stop,
  set_cc_state, set_digital_channel, set_analog_channel, Manager, new_manager, init, Call,
  call_init, call_set_status, call_set_trickplay_status, step, release, set_status,
  set_trickplay_status,
}
use openplatform_rdk_aamp.Captions.Module.{CcModule, apply_all}
use openplatform_rdk_aamp.Captions.Visible.{AllAllowed, wanted, run, visible-wanted}
use openplatform_rdk_aamp.Captions.Lost.{trickplay_end_loses}
use openplatform_rdk_aamp.Captions.Tracks.{set_track, service_prefix}
use openplatform_rdk_aamp.Captions.Tracks.Range.{IsChannel, set_track-IsChannel}
use openplatform_rdk_aamp.Captions.Tracks.Service.{
  digit_char, decimal, decimal_from, set_track-service,
}

-- The state: started or not, visible or not.
abbrev apply_call : CcCall → Bool × Bool → Bool × Bool
apply_call gfx_init s = s
apply_call manager_init s = s
apply_call (close_caption_start handle) (started, shown) = (true, shown)
apply_call close_caption_stop s = (false, false)
apply_call (set_cc_state true) (started, shown) = (started, started)
apply_call (set_cc_state false) (started, shown) = (started, false)
apply_call (set_digital_channel n) s = s
apply_call (set_analog_channel n) s = s

open-set_state : (b : Bool) (s : Bool × Bool) → (apply_call (set_cc_state b) s).0 ≡ s.0
open-set_state true s = refl
open-set_state false s = refl

abbrev simple_module : CcModule
simple_module = record {
  State = Bool × Bool;
  apply = apply_call;
  is_open = λ s. s.0;
  visible = λ s. s.1;
  open-start = λ h s. refl;
  visible-start = λ h s. refl;
  open-stop = λ s. refl;
  visible-stop = λ s. refl;
  open-set_state = open-set_state;
  visible-on = λ s. refl;
  visible-off = λ s. refl;
  open-gfx_init = λ s. refl;
  visible-gfx_init = λ s. refl;
  open-manager_init = λ s. refl;
  visible-manager_init = λ s. refl;
}

-- An application that enables captions, tunes, winds forward and back to normal.
abbrev session : List Call
session =
    call_set_status true
    ∷ call_init (pos 0) (some 5)
    ∷ call_set_trickplay_status true
    ∷ call_set_trickplay_status false
    ∷ []

session-AllAllowed : AllAllowed session new_manager
unfolding step init release set_status set_trickplay_status
session-AllAllowed = (tt, (refl, (refl, (refl, tt))))

visible-wanted_example :
    (run simple_module session new_manager (false, false)).1.1
    ≡ wanted (run simple_module session new_manager (false, false)).0
visible-wanted_example =
    visible-wanted simple_module session (false, false) refl refl session-AllAllowed

session_shows : (run simple_module session new_manager (false, false)).1.1 ≡ true
unfolding run step init release set_status set_trickplay_status apply_all
session_shows = refl

-- An initialised manager with captions enabled and no handle.
abbrev released : Manager
released = record new_manager { enabled = true; init_status = true }

trickplay_end_loses_example :
    let calls = call_set_trickplay_status false ∷ call_init (pos 0) (some 5) ∷ [] in
    ((run simple_module calls released (false, false)).1.1 ≡ false)
    × (wanted (run simple_module calls released (false, false)).0 ≡ true)
trickplay_end_loses_example =
    trickplay_end_loses simple_module (pos 0) 5 released (false, false) refl refl refl refl refl
      refl

abbrev winding : Manager
winding = record released { trickplay_started = true }

abbrev all_well : CcCall → ℤ
all_well c = pos 0

set_track-IsChannel_example :
    All IsChannel (set_track all_well (b'C' ∷ b'C' ∷ b'3' ∷ []) format_default new_manager).2
set_track-IsChannel_example =
    set_track-IsChannel all_well (b'C' ∷ b'C' ∷ b'3' ∷ []) format_default new_manager

small_number : decimal (1 ∷ 2 ∷ []) < 2 ^ 32
unfolding decimal_from
small_number = omega arith

set_track-service_example :
    (set_track all_well
      (service_prefix ++ map digit_char (1 ∷ 2 ∷ []))
      format_default
      new_manager).2
    ≡ (if ltb 0 (decimal (1 ∷ 2 ∷ [])) && leb (decimal (1 ∷ 2 ∷ [])) 63
        then set_digital_channel (decimal (1 ∷ 2 ∷ [])) ∷ []
        else [])
set_track-service_example =
    set_track-service all_well 1 (2 ∷ []) new_manager (omega arith) small_number

small_digit : decimal (7 ∷ []) < 2 ^ 32
unfolding decimal_from
small_digit = omega arith
