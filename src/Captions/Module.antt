-- ===== src/Captions/Module.antt =====
-- What the manager relies on of the platform's CC module: rendering that is set before the module is
-- started is not honoured, as SetStatus of closedcaptions/rdk/AampRDKCCManager.cpp notes.
use openplatform_rdk_aamp.Prelude.{ℕ, ◌≡◌, List, [], ◌∷◌, Bool, true, false}
use openplatform_rdk_aamp.Captions.{
  CcCall, gfx_init, manager_init, close_caption_start, close_caption_stop, set_cc_state,
}

pub record CcModule : Type 1 where
  pub State : Type 0
  pub apply : CcCall → State → State
  pub is_open : State → Bool
  pub visible : State → Bool
  pub open-start : (h : ℕ) (s : State) → is_open (apply (close_caption_start h) s) ≡ true
  pub visible-start : (h : ℕ) (s : State) → visible (apply (close_caption_start h) s) ≡ visible s
  pub open-stop : (s : State) → is_open (apply close_caption_stop s) ≡ false
  pub visible-stop : (s : State) → visible (apply close_caption_stop s) ≡ false
  pub open-set_state : (b : Bool) (s : State) → is_open (apply (set_cc_state b) s) ≡ is_open s
  pub visible-on : (s : State) → visible (apply (set_cc_state true) s) ≡ is_open s
  pub visible-off : (s : State) → visible (apply (set_cc_state false) s) ≡ false
  pub open-gfx_init : (s : State) → is_open (apply gfx_init s) ≡ is_open s
  pub visible-gfx_init : (s : State) → visible (apply gfx_init s) ≡ visible s
  pub open-manager_init : (s : State) → is_open (apply manager_init s) ≡ is_open s
  pub visible-manager_init : (s : State) → visible (apply manager_init s) ≡ visible s

module _ (m : CcModule) where
  unfoldable pub apply_all : List CcCall → m.State → m.State
  apply_all [] s = s
  apply_all (c ∷ cs) s = apply_all cs (m.apply c s)
