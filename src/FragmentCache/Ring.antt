-- ===== src/FragmentCache/Ring.antt =====
-- The ring as the list of the fragments that it holds.
use openplatform_rdk_aamp.Prelude.{
  ℕ, suc, zero, ◌+◌, ◌-◌, ◌≤◌, ◌<◌, ◌≡◌, ◌≢◌, refl, ap, sym, subst, ◌∙◌, List, [], ◌∷◌, ◌++◌, true,
  false, ltb, if◌then◌else◌, Option, none, some, get_or, set, length, length-set, get_or-set_self,
  get_or-set_ne, arith,
}
use openplatform_rdk_aamp.FragmentCache.{
  Fragment, Track, next_idx, fetch_fragment, update_after_inject, fragment_to_inject,
}

-- The slot k places behind slot i.
abbrev pub place : ℕ → ℕ → ℕ → ℕ
place capacity i k = if ltb (i + k) capacity then i + k else i + k - capacity

-- The slots from the k-th place on, n of them.
unfoldable pub slots_from : ℕ → List (Option Fragment) → ℕ → ℕ → ℕ → List (Option Fragment)
slots_from capacity slots i k zero = []
slots_from capacity slots i k (suc n) =
    get_or slots (place capacity i k) none ∷ slots_from capacity slots i (suc k) n

abbrev pub contents : Track → List (Option Fragment)
contents t = slots_from t.capacity t.slots t.idx_to_inject 0 t.cached

pub record IsRing (t : Track) : Type 0 where
  pub slots_len : length t.slots ≡ t.capacity
  pub in_range : t.idx_to_inject < t.capacity
  pub not_over : t.cached ≤ t.capacity
  pub fetch_place : t.idx_to_fetch ≡ place t.capacity t.idx_to_inject t.cached

module _ (capacity i : ℕ) (range : i < capacity) where
  place_range : (k : ℕ) → k ≤ capacity → place capacity i k < capacity
  place_range k h = ground arith

  place_ne : (k n : ℕ) → k < n → n < capacity → place capacity i k ≢ place capacity i n
  place_ne k n h m = ground arith

  next_place :
      (k : ℕ) → k < capacity → next_idx capacity (place capacity i k) ≡ place capacity i (suc k)
  next_place k h = ground arith

  place_next :
      (k : ℕ) → k < capacity → place capacity (next_idx capacity i) k ≡ place capacity i (suc k)
  place_next k h = ground arith

  next_range : next_idx capacity i < capacity
  next_range = ground arith

  place_zero : place capacity i 0 ≡ i
  place_zero = ground arith

  -- A store at a later place leaves the places before it.
  slots_from-set_later :
      (slots : List (Option Fragment)) (v : Option Fragment) (m n k : ℕ)
      → k + n ≤ m
      → m < capacity
      → slots_from capacity (set slots (place capacity i m) v) i k n
        ≡ slots_from capacity slots i k n
  unfolding slots_from
  slots_from-set_later slots v m zero k h l = refl
  slots_from-set_later slots v m (suc n) k h l =
      let apart = place_ne k m (omega arith) l in
      rw (slots_from-set_later slots v m n (suc k) (omega arith) l) (
        ap (λ x. x ∷ slots_from capacity slots i (suc k) n)
          (get_or-set_ne slots (place capacity i m) (place capacity i k) v none
            (λ e. apart (sym e))))

  -- A store at the first place leaves the places behind it.
  slots_from-set_first :
      (slots : List (Option Fragment)) (v : Option Fragment) (n k : ℕ)
      → suc k + n ≤ capacity
      → slots_from capacity (set slots i v) i (suc k) n ≡ slots_from capacity slots i (suc k) n
  unfolding slots_from
  slots_from-set_first slots v zero k h = refl
  slots_from-set_first slots v (suc n) k h =
      let apart = place_ne 0 (suc k) (omega arith) (omega arith) in
      rw (slots_from-set_first slots v n (suc k) (omega arith)) (
        ap (λ x. x ∷ slots_from capacity slots i (suc (suc k)) n)
          (get_or-set_ne slots i (place capacity i (suc k)) v none (λ e. apart (place_zero ∙ e))))

  slots_from-next :
      (slots : List (Option Fragment)) (n k : ℕ)
      → k + n ≤ capacity
      → slots_from capacity slots (next_idx capacity i) k n ≡ slots_from capacity slots i (suc k) n
  unfolding slots_from
  slots_from-next slots zero k h = refl
  slots_from-next slots (suc n) k h =
      rw (place_next k (omega arith), slots_from-next slots n (suc k) (omega arith)) refl

slots_from-snoc :
    (capacity i : ℕ) (slots : List (Option Fragment)) (n k : ℕ)
    → slots_from capacity slots i k (suc n)
      ≡ slots_from capacity slots i k n ++ get_or slots (place capacity i (k + n)) none ∷ []
unfolding slots_from
slots_from-snoc capacity i slots zero k = let e : k + 0 ≡ k = omega arith in rw e refl
slots_from-snoc capacity i slots (suc n) k =
    let e : k + suc n ≡ suc k + n = omega arith in
    rw e (
      ap (λ xs. get_or slots (place capacity i k) none ∷ xs)
        (slots_from-snoc capacity i slots n (suc k)))

-- The track after a fetch that found room.
abbrev pub fetched : Fragment → Track → Track
fetched f t = record t {
  slots = set t.slots t.idx_to_fetch (some f);
  total_fetched_duration = t.total_fetched_duration + f.duration;
  cached = suc t.cached;
  idx_to_fetch = next_idx t.capacity t.idx_to_fetch;
  total_fragments_downloaded = suc t.total_fragments_downloaded;
}

module _ (f : Fragment) (t : Track) (ring : IsRing t) where
  fetch_range : t.cached < t.capacity → t.idx_to_fetch < length t.slots
  fetch_range room =
      rw (ring.slots_len, ring.fetch_place)
        (place_range t.capacity t.idx_to_inject ring.in_range t.cached ring.not_over)

  pub fetch_fragment-room : t.cached < t.capacity → fetch_fragment f t ≡ some (fetched f t)
  unfolding fetch_fragment
  fetch_fragment-room room =
      let fits : ltb t.capacity (suc t.cached) ≡ false = ground arith in
      simp (fits, get_or-set_self t.slots t.idx_to_fetch (some f) none (fetch_range room)) refl

  pub fetched-IsRing : t.cached < t.capacity → IsRing (fetched f t)
  fetched-IsRing room = record {
    slots_len = length-set t.slots t.idx_to_fetch (some f) ∙ ring.slots_len;
    in_range = ring.in_range;
    not_over = omega arith;
    fetch_place =
        ap (next_idx t.capacity) ring.fetch_place
        ∙ next_place t.capacity t.idx_to_inject ring.in_range t.cached room;
  }

  pub contents-fetched : t.cached < t.capacity → contents (fetched f t) ≡ contents t ++ some f ∷ []
  contents-fetched room =
      let later =
        slots_from-set_later t.capacity t.idx_to_inject ring.in_range t.slots (some f) t.cached
          t.cached 0 (omega arith) room in
      let stored = set t.slots (place t.capacity t.idx_to_inject t.cached) (some f) in
      let no_more : 0 + t.cached ≡ t.cached = omega arith in
      let last : get_or stored (place t.capacity t.idx_to_inject (0 + t.cached)) none ≡ some f =
        rw no_more (
          get_or-set_self t.slots (place t.capacity t.idx_to_inject t.cached) (some f) none
            (subst (λ j. j < length t.slots) ring.fetch_place (fetch_range room))) in
      ap (λ j. slots_from t.capacity (set t.slots j (some f)) t.idx_to_inject 0 (suc t.cached))
        ring.fetch_place
      ∙ (slots_from-snoc t.capacity t.idx_to_inject stored t.cached 0
          ∙ (ap (λ x. slots_from t.capacity stored t.idx_to_inject 0 t.cached ++ x ∷ []) last
              ∙ ap (λ xs. xs ++ some f ∷ []) later))

pub fetch_fragment-full :
    (f : Fragment) (t : Track) → t.cached ≡ t.capacity → fetch_fragment f t ≡ none
unfolding fetch_fragment
fetch_fragment-full f t full =
    let over : ltb t.capacity (suc t.cached) ≡ true = ground arith in simp over refl

module _ (t : Track) (ring : IsRing t) (n : ℕ) (more : t.cached ≡ suc n) where
  one_less : n ≡ t.cached - 1
  one_less = omega arith

  pub update-IsRing : IsRing (update_after_inject t)
  update-IsRing = record {
    slots_len = length-set t.slots t.idx_to_inject none ∙ ring.slots_len;
    in_range = next_range t.capacity t.idx_to_inject ring.in_range;
    not_over = omega (arith, ring.not_over);
    fetch_place =
        ring.fetch_place
        ∙ (ap (place t.capacity t.idx_to_inject) more
            ∙ (sym (
                  place_next t.capacity t.idx_to_inject ring.in_range n
                    (omega (arith, ring.not_over)))
                ∙ ap (place t.capacity (next_idx t.capacity t.idx_to_inject)) one_less));
  }

  pub contents-update : contents t ≡ fragment_to_inject t ∷ contents (update_after_inject t)
  unfolding slots_from
  contents-update =
      let cleared = set t.slots t.idx_to_inject none in
      let first =
        ap (λ j. get_or t.slots j none) (place_zero t.capacity t.idx_to_inject ring.in_range) in
      let behind =
        slots_from-set_first t.capacity t.idx_to_inject ring.in_range t.slots none n 0
          (omega (arith, ring.not_over)) in
      let moved =
        slots_from-next t.capacity t.idx_to_inject ring.in_range cleared n 0
          (omega (arith, ring.not_over)) in
      ap (λ m. slots_from t.capacity t.slots t.idx_to_inject 0 m) more
      ∙ (ap (λ x. x ∷ slots_from t.capacity t.slots t.idx_to_inject 1 n) first
          ∙ (ap (λ xs. fragment_to_inject t ∷ xs) (sym behind ∙ sym moved)
              ∙ ap
                  (λ m.
                    fragment_to_inject t
                    ∷ slots_from t.capacity cleared (next_idx t.capacity t.idx_to_inject) 0 m)
                  one_less))
