-- ===== src/FragmentCache/Queue.antt =====
-- The ring of a track is a bounded queue.
use openplatform_rdk_aamp.Prelude.{
  ℕ, suc, zero, ◌≡◌, refl, List, [], ◌∷◌, ◌++◌, map, ltb, if◌then◌else◌, Option, none, some, length,
  inl, inr, ◌⊎◌,
}
use openplatform_rdk_aamp.FragmentCache.{
  Fragment, Track, TrackType, Context, fetch_fragment, inject_fragment, flush_fragments,
}
use openplatform_rdk_aamp.FragmentCache.Ring.{contents}
use openplatform_rdk_aamp.FragmentCache.Plain.{injected, IsPlain, CanInject}
use openplatform_rdk_aamp.FragmentCache.Caches.{Caches}

-- What the two threads of a track and a flush do, in any order.
pub data Op : Type 0 where
  fetches : Fragment → Op
  injects : Context → Op
  flushes : Op

-- The fragments injected by a run, and where it ends. `none`: a fetch met a full cache, whose assert
-- fails, or an injection gave nothing.
abbrev pub Outcome : Type 0 → Type 0
Outcome S = Option (List Fragment × S)

abbrev pub output : {S : Type 0} → Fragment → Outcome S → Outcome S
output f none = none
output f (some (fs, s)) = some (f ∷ fs, s)

abbrev pub after_injection : {S : Type 0} → Option Fragment → Outcome S → Outcome S
after_injection none o = none
after_injection (some f) o = output f o

unfoldable pub run : List Op → Track → Outcome Track
run [] t = some ([], t)
run (fetches f ∷ ops) t = elim (fetch_fragment f t) [ none ↦ none | some u ↦ run ops u ]
run (injects ctx ∷ ops) t =
    let done = inject_fragment ctx t in
    let rest = run ops done.track in after_injection (injected done.calls) rest
run (flushes ∷ ops) t = run ops (flush_fragments t)

-- The queue: a fetch appends where there is room, an injection takes from the front.
unfoldable pub queue_run : ℕ → List Op → List Fragment → Outcome (List Fragment)
queue_run capacity [] q = some ([], q)
queue_run capacity (fetches f ∷ ops) q =
    let rest = queue_run capacity ops (q ++ f ∷ []) in
    if ltb (length q) capacity then rest else none
queue_run capacity (injects ctx ∷ ops) [] = none
queue_run capacity (injects ctx ∷ ops) (f ∷ q) = output f (queue_run capacity ops q)
queue_run capacity (flushes ∷ ops) q = queue_run capacity ops []

-- What a track caches, and the same of a queue.
abbrev pub with_contents : Outcome Track → Outcome (List (Option Fragment))
with_contents none = none
with_contents (some (fs, t)) = some (fs, contents t)

abbrev pub with_slots : Outcome (List Fragment) → Outcome (List (Option Fragment))
with_slots none = none
with_slots (some (fs, q)) = some (fs, map some q)

zero_or_suc : (n : ℕ) → (n ≡ 0) ⊎ ((m : ℕ) × (n ≡ suc m))
zero_or_suc zero = inl refl
zero_or_suc (suc m) = inr (m, refl)

abbrev pub IsPlainOp : TrackType → Op → Type 0
IsPlainOp type (fetches f) = IsPlain f
IsPlainOp type (injects ctx) = CanInject type ctx
IsPlainOp type flushes = Unit

module _ (type : TrackType) where
  abbrev Runs : List Op → Type 0
  Runs ops =
      (t : Track) (q : List Fragment)
      → Caches type t q
      → with_contents (run ops t) ≡ with_slots (queue_run t.capacity ops q)
