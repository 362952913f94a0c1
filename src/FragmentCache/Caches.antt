-- ===== src/FragmentCache/Caches.antt =====
-- A track that caches the plain fragments of a queue, and how an injection takes the first off.
use openplatform_rdk_aamp.Prelude.{
  ℕ, suc, zero, ◌≡◌, refl, ap, sym, ◌∙◌, List, ◌∷◌, map, Bool, false, Option, some, length,
  length-map, All,
}
use openplatform_rdk_aamp.FragmentCache.{
  Fragment, Track, TrackType, counted, fragment_to_inject, update_after_inject,
}
use openplatform_rdk_aamp.FragmentCache.Ring.{
  IsRing, contents, slots_from, update-IsRing, contents-update,
}
use openplatform_rdk_aamp.FragmentCache.Plain.{IsLive, IsPlain}

length-slots_from :
    (capacity : ℕ) (slots : List (Option Fragment)) (i n k : ℕ)
    → length (slots_from capacity slots i k n) ≡ n
unfolding slots_from
length-slots_from capacity slots i zero k = refl
length-slots_from capacity slots i (suc n) k = ap suc (length-slots_from capacity slots i n (suc k))

length-contents : (t : Track) → length (contents t) ≡ t.cached
length-contents t = length-slots_from t.capacity t.slots t.idx_to_inject t.cached 0

-- The track caches the plain fragments of a queue.
pub record Caches (type : TrackType) (t : Track) (q : List Fragment) : Type 0 where
  pub ring : IsRing t
  pub live : IsLive t
  pub same : contents t ≡ map some q
  pub plain : All IsPlain q
  pub fine : t.pts_error ≡ false
  pub typed : t.type ≡ type

pub cached-length : (t : Track) (q : List Fragment) → contents t ≡ map some q → t.cached ≡ length q
cached-length t q e = sym (length-contents t) ∙ (ap length e ∙ length-map q some)

pub Caches-counted :
    (type : TrackType) (t : Track) (q : List Fragment) (duration fails : ℕ) (error : Bool)
    → error ≡ false
    → Caches type t q
    → Caches type (counted duration fails error t) q
Caches-counted type t q duration fails error none_met c = record {
  ring = record {
    slots_len = c.ring.slots_len;
    in_range = c.ring.in_range;
    not_over = c.ring.not_over;
    fetch_place = c.ring.fetch_place;
  };
  live = c.live;
  same = c.same;
  plain = c.plain;
  fine = none_met;
  typed = c.typed;
}

-- UpdateTSAfterInject takes the first fragment off.
pub Caches-update :
    (type : TrackType) (t : Track) (f : Fragment) (q : List Fragment)
    → Caches type t (f ∷ q)
    → (fragment_to_inject t ≡ some f) × Caches type (update_after_inject t) q
Caches-update type t f q c =
    let more = cached-length t (f ∷ q) c.same in
    let split = sym (contents-update t c.ring (length q) more) ∙ c.same in
    (
      cc split,
      record {
        ring = update-IsRing t c.ring (length q) more;
        live = c.live;
        same = cc split;
        plain = c.plain.1;
        fine = c.fine;
        typed = c.typed;
      },
    )
