-- ===== src/PlaylistCache/Accounting.antt =====
-- mCacheStoredSize is what the owned buffers add up to, as long as no entry is overwritten.
use openplatform_rdk_aamp.Prelude.{
  ℕ, ◌+◌, ◌≡◌, refl, [], ◌∷◌, none, Bool, true, arith, All, ◌⊎◌, inl, inr, Bool-cases, ◌∙◌, ltb,
}
use Prim.Native.String.{String}
use openplatform_rdk_aamp.PlaylistCache.{
  MediaType, Entry, Heap, Table, Cache, evict, evict_passes, first_pass, second_pass, find,
}
use openplatform_rdk_aamp.PlaylistCache.Eviction.{
  keep, table-evict, owned_size, OwnsApart, Distinct, owned_size-evict,
}
use openplatform_rdk_aamp.PlaylistCache.Safety.{IsSound, NoDangling, typed, evict-IsSound}

pub record Accounted (c : Cache) : Type 0 where
  pub sound : NoDangling c
  pub distinct : Distinct c.table
  pub balance : owned_size c.heap c.table ≡ c.stored_size

keep-OwnsApart :
    (b : ℕ) (drop_type : MediaType → Bool) (table : Table)
    → All (OwnsApart b) table
    → All (OwnsApart b) (keep drop_type table)
unfolding keep
keep-OwnsApart b drop_type [] h = tt
keep-OwnsApart b drop_type ((k, e) ∷ table) h = elim (Bool-cases (drop_type e.file_type)) [
  | inl d ↦ rw d (keep-OwnsApart b drop_type table h.1)
  | inr d ↦ rw d (h.0, keep-OwnsApart b drop_type table h.1)
]

owner_kept :
    (e : Entry) (drop_type : MediaType → Bool) (table : Table)
    → (e.duplicate_entry ≡ true) ⊎ All (OwnsApart e.cached_buffer) table
    → (e.duplicate_entry ≡ true) ⊎ All (OwnsApart e.cached_buffer) (keep drop_type table)
owner_kept e drop_type table (inl d) = inl d
owner_kept e drop_type table (inr h) = inr (keep-OwnsApart e.cached_buffer drop_type table h)

keep-Distinct :
    (drop_type : MediaType → Bool) (table : Table)
    → Distinct table
    → Distinct (keep drop_type table)
unfolding keep
keep-Distinct drop_type [] h = tt
keep-Distinct drop_type ((k, e) ∷ table) h = elim (Bool-cases (drop_type e.file_type)) [
  | inl d ↦ rw d (keep-Distinct drop_type table h.1)
  | inr d ↦ rw d (owner_kept e drop_type table h.0, keep-Distinct drop_type table h.1)
]

pub find-keep-none :
    (url : String) (drop_type : MediaType → Bool) (table : Table)
    → find url table ≡ none
    → find url (keep drop_type table) ≡ none
unfolding find keep
find-keep-none url drop_type [] h = refl
find-keep-none url drop_type ((k, e) ∷ table) h = ground (arith, find-keep-none url drop_type table)

-- What a pass, or both, leave behind of a table without overwritten entries.
abbrev Leaves : Heap → Table → ℕ → Heap → Table → ℕ → Type 0
Leaves heap table freed heap' table' freed' =
    Distinct table' × (owned_size heap' table' + freed' ≡ owned_size heap table + freed)

evict-Leaves :
    (ty : ℕ → MediaType) (drop_type : MediaType → Bool) (heap : Heap) (next : ℕ) (table : Table)
    (freed : ℕ)
    → All (IsSound ty heap next) table
    → Distinct table
    → let done = evict drop_type heap table freed in
      Leaves heap table freed done.heap done.table done.freed
evict-Leaves ty drop_type heap next table freed h d = rw (table-evict drop_type heap table freed) (
  keep-Distinct drop_type table d,
  owned_size-evict ty drop_type heap table freed (typed ty heap next table h) d,
)

pub evict_passes-Leaves :
    (ty : ℕ → MediaType) (heap : Heap) (next : ℕ) (table : Table) (t : MediaType) (new_len : ℕ)
    → All (IsSound ty heap next) table
    → Distinct table
    → let done = evict_passes heap table t new_len in
      Leaves heap table 0 done.heap done.table done.freed
unfolding evict_passes
evict_passes-Leaves ty heap next table t new_len h d =
    let one = evict (first_pass t) heap table 0 in
    let left = evict-Leaves ty (first_pass t) heap next table 0 h d in
    elim (Bool-cases (ltb one.freed new_len)) [
      | inl more ↦
          let sound = evict-IsSound ty next (first_pass t) heap table 0 h in
          let rest = evict-Leaves ty second_pass one.heap next one.table one.freed sound left.0 in
          rw more (rest.0, rest.1 ∙ left.1)
      | inr enough ↦ rw enough left
    ]
