-- ===== src/FragmentCache/Plain.antt =====
-- InjectFragment on a plain fragment, and with nothing cached.
use openplatform_rdk_aamp.Prelude.{
  ℕ, suc, ◌≡◌, refl, ap, ◌∙◌, List, [], ◌∷◌, Bool, true, false, ◌==◌, Option, none, some, arith,
  Bool-cases, ◌&&◌, inl, inr, ◌⊎◌,
}
use openplatform_rdk_aamp.FragmentCache.{
  Fragment, Track, TrackType, is_subtitle, Context, Call, sends, parses, inject_fragment,
  inject_data, send_part, discontinuity_part, counted, pts_error_after, is_set, fragment_to_inject,
  update_after_inject, nothing_to_inject, cached_fragment_available,
}

-- The fragment that an injection gives to the sink or to the parser.
unfoldable pub injected : List Call → Option Fragment
injected [] = none
injected (sends f ∷ calls) = some f
injected (parses f ∷ calls) = some f
injected (call ∷ calls) = injected calls

-- The injection thread is not aborted.
abbrev pub IsLive : Track → Type 0
IsLive t = (t.abort ≡ false) × (t.abort_inject ≡ false)

-- A fragment with data and without a discontinuity.
abbrev pub IsPlain : Fragment → Type 0
IsPlain f = (is_set f.ptr ≡ true) × (f.discontinuity ≡ false)

-- There is a sink without a PTS error, or a subtitle parser, to inject to.
abbrev pub CanInject : TrackType → Context → Type 0
CanInject type ctx =
    ((is_subtitle type ≡ false) × (ctx.sink_pts_error false ≡ false))
    ⊎ ((is_subtitle type ≡ true) × (ctx.has_parser ≡ true))

pts_error_after-false :
    (ctx : Context) (t : Track)
    → t.pts_error ≡ false
    → CanInject t.type ctx
    → pts_error_after ctx t ≡ false
pts_error_after-false ctx t fine (inl (sink, quiet)) = rw (sink, fine) quiet
pts_error_after-false ctx t fine (inr (sub, parser)) = rw (sub, fine) refl

injected-send_part :
    (ctx : Context) (f : Fragment) (t : Track)
    → CanInject t.type ctx
    → injected (send_part ctx f t).calls ≡ some f
unfolding send_part injected
injected-send_part ctx f t (inl (sink, quiet)) = rw sink refl
injected-send_part ctx f t (inr (sub, parser)) = rw (sub, parser) refl

-- An injection of a plain fragment: some counts, no PTS error, then UpdateTSAfterInject.
pub record Plainly (ctx : Context) (f : Fragment) (t : Track) : Type 0 where
  pub duration : ℕ
  pub fails : ℕ
  pub error : Bool
  pub no_error : error ≡ false
  pub gives : injected (inject_fragment ctx t).calls ≡ some f
  pub leaves : (inject_fragment ctx t).track ≡ update_after_inject (counted duration fails error t)

plain_part :
    (ctx : Context) (f : Fragment) (t : Track)
    → f.discontinuity ≡ false
    → t.pts_error ≡ false
    → discontinuity_part ctx f t ≡ record { calls = []; track = t; ret = true }
unfolding discontinuity_part
plain_part ctx f t plain fine = elim (Bool-cases (is_subtitle t.type)) [
  | inl sub ↦ rw (sub, plain, fine) refl
  | inr other ↦ rw (other, plain, fine) refl
]

inject_data-plain :
    (ctx : Context) (f : Fragment) (t : Track)
    → f.discontinuity ≡ false
    → t.pts_error ≡ false
    → fragment_to_inject t ≡ some f
    → inject_data ctx f t ≡ send_part ctx f t
unfolding inject_data
inject_data-plain ctx f t plain fine first = rw (plain_part ctx f t plain fine, first) refl

pub inject_fragment-data :
    (ctx : Context) (f : Fragment) (t : Track) (n : ℕ)
    → IsLive t
    → t.cached ≡ suc n
    → fragment_to_inject t ≡ some f
    → is_set f.ptr ≡ true
    → inject_fragment ctx t ≡ inject_data ctx f t
unfolding inject_fragment
inject_fragment-data ctx f t n (a, b) more first loaded =
    let filled : (t.cached == 0) ≡ false = ground arith in simp (a, b, filled, first, loaded) refl

pub inject_fragment-Plainly :
    (ctx : Context) (f : Fragment) (t : Track) (n : ℕ)
    → IsLive t
    → t.pts_error ≡ false
    → t.cached ≡ suc n
    → fragment_to_inject t ≡ some f
    → IsPlain f
    → CanInject t.type ctx
    → Plainly ctx f t
unfolding send_part
inject_fragment-Plainly ctx f t n live fine more first (loaded, plain) can =
    let e =
      inject_fragment-data ctx f t n live more first loaded
      ∙ inject_data-plain ctx f t plain fine first in
    record {
      duration = _;
      fails = _;
      error = pts_error_after ctx t;
      no_error = pts_error_after-false ctx t fine can;
      gives = rw e (injected-send_part ctx f t can);
      leaves = ap (λ done. done.track) e;
    }

unavailable : (t : Track) → t.cached ≡ 0 → cached_fragment_available t ≡ false
unavailable t empty = ground arith

injected-nothing : (ctx : Context) (t : Track) → injected (nothing_to_inject ctx t).calls ≡ none
unfolding injected
injected-nothing ctx t = elim (Bool-cases t.eos_reached) [
  | inl eos ↦ elim (Bool-cases (ctx.audio_disabled && ctx.normal_rate)) [
    | inl both ↦ rw (eos, both) refl
    | inr not_both ↦ rw (eos, not_both) refl
  ]
  | inr going ↦ rw going refl
]

pub inject_fragment-none :
    (ctx : Context) (t : Track) → t.cached ≡ 0 → injected (inject_fragment ctx t).calls ≡ none
unfolding inject_fragment injected
inject_fragment-none ctx t empty = rw (unavailable t empty) (injected-nothing ctx t)
