-- ===== src/Captions/Lost.antt =====
-- Orders of calls that the caption manager does not handle, and what Init returns the second time.
use openplatform_rdk_aamp.Prelude.{ℕ, ◌≡◌, refl, [], ◌∷◌, true, false, none, some, arith, ◌∙◌}
use openplatform_rdk_aamp.Captions.{
  ℤ, minus_one, Manager, close_caption_start, set_cc_state, init, set_status, set_trickplay_status,
  call_init, call_set_status, call_set_trickplay_status, step,
}
use openplatform_rdk_aamp.Captions.Module.{CcModule, apply_all}
use openplatform_rdk_aamp.Captions.Visible.{run, wanted}

-- Once the module is initialised, Init with a handle takes it, and renders exactly when captions are
-- enabled, but returns -1.
init_again :
    (module_ret : ℤ) (handle : ℕ) (m : Manager)
    → m.init_status ≡ true
    → ((init module_ret (some handle) m).0 ≡ minus_one)
      × ((init module_ret (some handle) m).1.cc_handle ≡ some handle)
      × ((init module_ret (some handle) m).1.rendering ≡ m.enabled)
unfolding init
init_again module_ret handle m e = ground arith

module _ (cc : CcModule) where
  -- Captions are enabled and there is no decoder handle, as after Release. Trickplay ends, and then
  -- Init brings a handle: the captions stay invisible, although they are wanted.
  pub trickplay_end_loses :
      (module_ret : ℤ) (handle : ℕ) (m : Manager) (s : cc.State)
      → m.init_status ≡ true
      → m.enabled ≡ true
      → m.cc_handle ≡ none
      → m.rendering ≡ false
      → cc.is_open s ≡ false
      → cc.visible s ≡ false
      → let calls = call_set_trickplay_status false ∷ call_init module_ret (some handle) ∷ [] in
        (cc.visible (run cc calls m s).1 ≡ false) × (wanted (run cc calls m s).0 ≡ true)
  unfolding run step set_trickplay_status init apply_all
  trickplay_end_loses module_ret handle m s i e n r closed hidden =
      simp (i, e, n, r)
        (
          cc.visible-start handle (cc.apply (set_cc_state true) s) ∙ (cc.visible-on s ∙ closed),
          refl,
        )

  -- During trickplay Init shows enabled captions. SetStatus then takes note that they are disabled and
  -- no more, and the end of trickplay leaves them visible.
  pub disabled_stays_visible :
      (module_ret : ℤ) (handle : ℕ) (m : Manager) (s : cc.State)
      → m.init_status ≡ true
      → m.enabled ≡ true
      → m.trickplay_started ≡ true
      → m.rendering ≡ false
      → let calls =
          call_init module_ret (some handle)
          ∷ call_set_status false
          ∷ call_set_trickplay_status false
          ∷ [] in
        (cc.visible (run cc calls m s).1 ≡ true) × (wanted (run cc calls m s).0 ≡ false)
  unfolding run step set_trickplay_status set_status init apply_all
  disabled_stays_visible module_ret handle m s i e t r =
      simp (i, e, t, r)
        (cc.visible-on (cc.apply (close_caption_start handle) s) ∙ cc.open-start handle s, refl)
