-- ===== src/Captions/Visible.antt =====
-- When the captions are visible.
use openplatform_rdk_aamp.Prelude.{
  ℕ, ◌≡◌, refl, List, [], ◌∷◌, Bool, true, false, not, ◌&&◌, Option, arith, ◌∙◌, Bool-cases, inl,
  inr,
}
use openplatform_rdk_aamp.Captions.{
  ℤ, is_zero, minus_one, Manager, new_manager, gfx_init, manager_init, init, init_handle, release,
  set_status, set_trickplay_status, has_handle, Call, call_init, call_release, call_set_status,
  call_set_trickplay_status, step,
}
use openplatform_rdk_aamp.Captions.Module.{CcModule, apply_all}

-- The order of calls that the manager is written for: no Init during trickplay, and trickplay is
-- switched only while there is a decoder handle.
abbrev pub IsAllowed : Call → Manager → Type 0
IsAllowed (call_init module_ret handle) m = m.trickplay_started ≡ false
IsAllowed call_release m = Unit {0}
IsAllowed (call_set_status enable) m = Unit {0}
IsAllowed (call_set_trickplay_status on) m = has_handle m ≡ true

abbrev pub AllAllowed : List Call → Manager → Type 0
AllAllowed [] m = Unit {0}
AllAllowed (c ∷ cs) m = IsAllowed c m × AllAllowed cs (step c m).0

abbrev pub wanted : Manager → Bool
wanted m = m.enabled && has_handle m && not m.trickplay_started

module _ (cc : CcModule) where
  -- The manager and the module agree.
  record Agrees (m : Manager) (s : cc.State) : Type 0 where
    rendering_is : m.rendering ≡ wanted m
    open_is : cc.is_open s ≡ has_handle m
    visible_is : cc.visible s ≡ m.rendering

  init_handle-Agrees :
      (ret : ℤ) (handle : Option ℕ) (m : Manager) (s : cc.State)
      → m.trickplay_started ≡ false
      → Agrees m s
      → Agrees (init_handle ret handle m).1 (apply_all cc (init_handle ret handle m).2 s)
  unfolding apply_all
  init_handle-Agrees ret handle m s a g = record {
    rendering_is = grind arith;
    open_is =
        grind (
          arith, cc.open-start, cc.visible-start, cc.open-set_state, cc.visible-on, cc.visible-off,
        );
    visible_is =
        grind (
          arith, cc.open-start, cc.visible-start, cc.open-set_state, cc.visible-on, cc.visible-off,
        );
  }

  initialised :
      (m : Manager) (s : cc.State)
      → Agrees m s
      → Agrees m (cc.apply manager_init (cc.apply gfx_init s))
  initialised m s g = record {
    rendering_is = g.rendering_is;
    open_is = cc.open-manager_init _ ∙ (cc.open-gfx_init s ∙ g.open_is);
    visible_is = cc.visible-manager_init _ ∙ (cc.visible-gfx_init s ∙ g.visible_is);
  }

  init-Agrees :
      (ret : ℤ) (handle : Option ℕ) (m : Manager) (s : cc.State)
      → m.trickplay_started ≡ false
      → Agrees m s
      → Agrees (init ret handle m).1 (apply_all cc (init ret handle m).2 s)
  unfolding init apply_all
  init-Agrees ret handle m s a g = elim (Bool-cases m.init_status) [
    | inl e ↦ simp e (init_handle-Agrees minus_one handle m s a g)
    | inr e ↦ elim (Bool-cases (is_zero ret)) [
      | inl z ↦
          simp (e, z)
            (init_handle-Agrees ret handle (record m { init_status = true }) _ a
              (record {
                rendering_is = g.rendering_is;
                open_is = (initialised m s g).open_is;
                visible_is = (initialised m s g).visible_is;
              }))
      | inr z ↦ simp (e, z) (initialised m s g)
    ]
  ]

  step-Agrees :
      (c : Call) (m : Manager) (s : cc.State)
      → IsAllowed c m
      → Agrees m s
      → Agrees (step c m).0 (apply_all cc (step c m).1 s)
  unfolding step init release set_status set_trickplay_status apply_all
  step-Agrees (call_init module_ret handle) m s a g = init-Agrees module_ret handle m s a g
  step-Agrees call_release m s a g = record {
    rendering_is = grind arith;
    open_is = grind (arith, cc.open-stop, cc.visible-stop, cc.open-set_state, cc.visible-off);
    visible_is = grind (arith, cc.open-stop, cc.visible-stop, cc.open-set_state, cc.visible-off);
  }
  step-Agrees (call_set_status enable) m s a g = record {
    rendering_is = grind arith;
    open_is = grind (arith, cc.open-set_state, cc.visible-on, cc.visible-off);
    visible_is = grind (arith, cc.open-set_state, cc.visible-on, cc.visible-off);
  }
  step-Agrees (call_set_trickplay_status on) m s a g = record {
    rendering_is = grind arith;
    open_is = grind (arith, cc.open-set_state, cc.visible-on, cc.visible-off);
    visible_is = grind (arith, cc.open-set_state, cc.visible-on, cc.visible-off);
  }

  -- The state after a list of calls.
  unfoldable pub run : List Call → Manager → cc.State → Manager × cc.State
  unfolding step apply_all
  run [] m s = (m, s)
  run (c ∷ cs) m s = run cs (step c m).0 (apply_all cc (step c m).1 s)

  run-Agrees :
      (calls : List Call) (m : Manager) (s : cc.State)
      → AllAllowed calls m
      → Agrees m s
      → Agrees (run calls m s).0 (run calls m s).1
  unfolding run
  run-Agrees [] m s a g = g
  run-Agrees (c ∷ cs) m s a g =
      run-Agrees cs (step c m).0 (apply_all cc (step c m).1 s) a.1 (step-Agrees c m s a.0 g)

  -- From a new manager and a closed CC module, after any calls without an Init during trickplay and
  -- without a switch of trickplay while there is no decoder handle, the captions are visible exactly
  -- when the application has enabled them, there is a decoder handle, and no trickplay goes on.
  pub visible-wanted :
      (calls : List Call) (s : cc.State)
      → cc.is_open s ≡ false
      → cc.visible s ≡ false
      → AllAllowed calls new_manager
      → cc.visible (run calls new_manager s).1 ≡ wanted (run calls new_manager s).0
  visible-wanted calls s closed hidden a =
      let g =
        run-Agrees calls new_manager s a
          (record { rendering_is = refl; open_is = closed; visible_is = hidden }) in
      g.visible_is ∙ g.rendering_is
