-- ===== src/PlaylistCache/Table.antt =====
-- Laws of the table and of the heap.
use openplatform_rdk_aamp.Prelude.{
  ℕ, ◌≡◌, refl, ◌≢◌, List, [], ◌∷◌, none, some, false, arith, All, ==_ne, if◌then◌else◌, inl, inr,
  Bool-cases,
}
use Prim.Native.String.{String}
use mathlib.Core.Option.{some-injective}
use mathlib.Core.Path.{subst}
use text.Mathlib.Text.{◌==◌ as str_eq}
use text.Mathlib.TextEquality.{eq_iff}
use openplatform_rdk_aamp.PlaylistCache.{Entry, Heap, Table, allocate, release, find, remove, put}

pub release_ne : (heap : Heap) (a b : ℕ) → b ≢ a → release heap a b ≡ heap b
unfolding release
release_ne heap a b h = rw (==_ne b a h) refl

pub allocate_ne :
    (heap : Heap) (a b : ℕ) (bytes : List ℕ) → b ≢ a → allocate heap a bytes b ≡ heap b
unfolding allocate
allocate_ne heap a b bytes h = rw (==_ne b a h) refl

pub allocate_self : (heap : Heap) (a : ℕ) (bytes : List ℕ) → allocate heap a bytes a ≡ some bytes
unfolding allocate
allocate_self heap a bytes = ground arith

pub find-remove_ne :
    (url k : String) (table : Table)
    → str_eq url k ≡ false
    → find k (remove url table) ≡ find k table
unfolding find remove
find-remove_ne url k [] h = refl
find-remove_ne url k ((j, e) ∷ table) h =
    ground (arith, eq_iff j url, eq_iff j k, eq_iff url k, find-remove_ne url k table h)

pub find-put :
    (url k : String) (e : Entry) (table : Table)
    → find k (put url e table) ≡ (if str_eq url k then some e else find k table)
unfolding find put
find-put url k e table = ground (arith, find-remove_ne url k table)

pub remove_missing :
    (url : String) (table : Table) → find url table ≡ none → remove url table ≡ table
unfolding find remove
remove_missing url [] h = refl
remove_missing url ((k, e) ∷ table) h = ground (arith, remove_missing url table)

module _ {ℓ} (P : String × Entry → Type ℓ) where
  pub remove-All : (url : String) (table : Table) → All P table → All P (remove url table)
  unfolding remove
  remove-All url [] h = tt
  remove-All url ((k, e) ∷ table) h = ground (arith, remove-All url table h.1)

  pub put-All :
      (url : String) (e : Entry) (table : Table)
      → P (url, e)
      → All P table
      → All P (put url e table)
  unfolding put
  put-All url e table p h = (p, remove-All url table h)

  -- What holds of every entry holds of the one that is found.
  pub find-All :
      (url : String) (table : Table) (e : Entry)
      → All P table
      → find url table ≡ some e
      → (k : String) × P (k, e)
  unfolding find
  find-All url [] e h f = cc
  find-All url ((k, d) ∷ table) e h f = elim (Bool-cases (str_eq k url)) [
    | inl hit ↦ (k, subst (λ x. P (k, x)) (some-injective d e (rw hit at f)) h.0)
    | inr miss ↦ find-All url table e h.1 (rw miss at f)
  ]
