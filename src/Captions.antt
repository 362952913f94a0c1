-- ===== src/Captions.antt =====
-- closedcaptions/rdk/AampRDKCCManager.cpp: the manager of the closed captions, without the styles. The
-- calls into the platform's CC module are a trace; what the module returns is an argument.
pub mod Module
pub mod Visible
pub mod Lost
pub mod Tracks
pub mod Examples
use openplatform_rdk_aamp.Prelude.{
  ℕ, suc, zero, ◌+◌, ◌-◌, ◌*◌, ◌%◌, ◌^◌, List, [], ◌∷◌, ◌++◌, length, drop, Bool, true, false, not,
  ltb, leb, ◌==◌, ◌&&◌, ◌||◌, if◌then◌else◌, Option, none, some,
}

-- An int.
pub data ℤ : Type 0 where
  pos : ℕ → ℤ
  negsuc : ℕ → ℤ

abbrev pub minus_one : ℤ
minus_one = negsuc 0

abbrev pub is_zero : ℤ → Bool
is_zero (pos n) = n == 0
is_zero (negsuc n) = false

-- CCFormat
pub data CcFormat : Type 0 where
  format_default : CcFormat
  format_608 : CcFormat
  format_708 : CcFormat

-- The calls into the CC module. The numbers are a decoder handle and the channels; an analog channel
-- counts from GSW_CC_ANALOG_SERVICE_CC1.
pub data CcCall : Type 0 where
  gfx_init : CcCall
  manager_init : CcCall
  close_caption_start : ℕ → CcCall
  close_caption_stop : CcCall
  set_cc_state : Bool → CcCall
  set_digital_channel : ℕ → CcCall
  set_analog_channel : ℕ → CcCall

-- The members of AampRDKCCManager, and the static initStatus of Init.
pub record Manager : Type 0 where
  pub cc_handle : Option ℕ
  pub enabled : Bool
  pub track : List ℕ
  pub trickplay_started : Bool
  pub rendering : Bool
  pub init_status : Bool

abbrev pub new_manager : Manager
new_manager = record {
  cc_handle = none;
  enabled = false;
  track = [];
  trickplay_started = false;
  rendering = false;
  init_status = false;
}

abbrev pub start : Manager → Manager × List CcCall
start m = if m.rendering then (m, []) else (record m { rendering = true }, set_cc_state true ∷ [])

abbrev pub stop : Manager → Manager × List CcCall
stop m = if m.rendering then (record m { rendering = false }, set_cc_state false ∷ []) else (m, [])

-- The calls of one step, then those of the next.
abbrev pub then_do :
    Manager × List CcCall → (Manager → Manager × List CcCall) → Manager × List CcCall
then_do (m, calls) next = ((next m).0, calls ++ (next m).1)

abbrev pub start_or_stop : Manager → Manager × List CcCall
start_or_stop m = if m.enabled then start m else stop m

-- Init behind its static initialisation: what it returns, the manager, the calls.
abbrev pub init_handle : ℤ → Option ℕ → Manager → ℤ × Manager × List CcCall
init_handle ret none m = (minus_one, m, [])
init_handle ret (some handle) m =
    let r = start_or_stop (record m { cc_handle = some handle }) in
    (ret, r.0, close_caption_start handle ∷ r.1)

abbrev pub after_calls : List CcCall → ℤ × Manager × List CcCall → ℤ × Manager × List CcCall
after_calls calls (ret, m, more) = (ret, m, calls ++ more)

-- Init; the first argument is what vlMpeosCCManagerInit returns.
unfoldable pub init : ℤ → Option ℕ → Manager → ℤ × Manager × List CcCall
init module_ret handle m =
    if m.init_status
    then init_handle minus_one handle m
    else after_calls (gfx_init ∷ manager_init ∷ []) (
        if is_zero module_ret
        then init_handle module_ret handle (record m { init_status = true })
        else (module_ret, m, []))

abbrev pub drop_handle : Option ℕ → Manager → Manager × List CcCall
drop_handle none m = (m, [])
drop_handle (some handle) m = (record m { cc_handle = none }, close_caption_stop ∷ [])

-- Release
unfoldable pub release : Manager → Manager × List CcCall
release m =
    let r = then_do (stop m) (λ (q : Manager). drop_handle q.cc_handle q) in
    (record (r.0) { trickplay_started = false }, r.1)

abbrev pub has_handle : Manager → Bool
has_handle m = elim m.cc_handle [ none ↦ false | some handle ↦ true ]

-- SetStatus, which returns 0.
unfoldable pub set_status : Bool → Manager → Manager × List CcCall
set_status enable m =
    let q : Manager = record m { enabled = enable } in
    if not m.trickplay_started && has_handle m then start_or_stop q else (q, [])

-- SetTrickplayStatus
unfoldable pub set_trickplay_status : Bool → Manager → Manager × List CcCall
set_trickplay_status on m =
    let r = if on then stop m else (if m.enabled then start m else (m, [])) in
    (record (r.0) { trickplay_started = on }, r.1)

-- The calls of a player, and what each does.
pub data Call : Type 0 where
  call_init : ℤ → Option ℕ → Call
  call_release : Call
  call_set_status : Bool → Call
  call_set_trickplay_status : Bool → Call

abbrev pub behind_ret : ℤ × Manager × List CcCall → Manager × List CcCall
behind_ret (ret, m, calls) = (m, calls)

unfoldable pub step : Call → Manager → Manager × List CcCall
unfolding init release set_status set_trickplay_status
step (call_init module_ret handle) m = behind_ret (init module_ret handle m)
step call_release m = release m
step (call_set_status enable) m = set_status enable m
step (call_set_trickplay_status on) m = set_trickplay_status on m
