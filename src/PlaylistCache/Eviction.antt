-- ===== src/PlaylistCache/Eviction.antt =====
-- What one pass over the table erases, frees and leaves alone.
use openplatform_rdk_aamp.Prelude.{
  ℕ, ◌+◌, ◌≡◌, refl, ◌≢◌, [], ◌∷◌, Bool, true, false, arith, All, if◌then◌else◌, ◌⊎◌, inl, inr,
  Bool-cases, ap, ◌∙◌,
}
use Prim.Native.String.{String}
use openplatform_rdk_aamp.PlaylistCache.{
  MediaType, Entry, Heap, Table, release, size_of, evict, evict_heap, evict_freed,
}
use openplatform_rdk_aamp.PlaylistCache.Table.{release_ne}

-- The entries that a pass keeps, in their order.
unfoldable pub keep : (MediaType → Bool) → Table → Table
keep drop_type [] = []
keep drop_type ((k, e) ∷ table) =
    let rest = keep drop_type table in if drop_type e.file_type then rest else (k, e) ∷ rest

pub table-evict :
    (drop_type : MediaType → Bool) (heap : Heap) (table : Table) (freed : ℕ)
    → (evict drop_type heap table freed).table ≡ keep drop_type table
unfolding evict keep
table-evict drop_type heap [] freed = refl
table-evict drop_type heap ((k, e) ∷ table) freed =
    rw
      (table-evict drop_type (evict_heap drop_type heap e) table
        (evict_freed drop_type heap e freed))
      refl

-- A buffer has one file type: `ty` says which.
abbrev pub IsTyped : (ℕ → MediaType) → String × Entry → Type 0
IsTyped ty x = ty x.1.cached_buffer ≡ x.1.file_type

evict_heap_ne :
    (ty : ℕ → MediaType) (drop_type : MediaType → Bool) (heap : Heap) (e : Entry) (b : ℕ)
    → ty e.cached_buffer ≡ e.file_type
    → drop_type (ty b) ≡ false
    → evict_heap drop_type heap e b ≡ heap b
evict_heap_ne ty drop_type heap e b t d = elim (Bool-cases (drop_type e.file_type)) [
  | inl dropped ↦
      let apart : b ≢ e.cached_buffer =
        λ same. cc (ap (λ (a : ℕ). drop_type (ty a)) same, ap drop_type t) in
      ground (arith, release_ne heap e.cached_buffer b apart)
  | inr kept ↦ rw kept refl
]

-- A pass frees no buffer of a type that it does not drop.
pub heap-evict :
    (ty : ℕ → MediaType) (drop_type : MediaType → Bool) (heap : Heap) (table : Table) (freed b : ℕ)
    → All (IsTyped ty) table
    → drop_type (ty b) ≡ false
    → (evict drop_type heap table freed).heap b ≡ heap b
unfolding evict
heap-evict ty drop_type heap [] freed b h d = refl
heap-evict ty drop_type heap ((k, e) ∷ table) freed b h d =
    heap-evict ty drop_type (evict_heap drop_type heap e) table (evict_freed drop_type heap e freed)
      b h.1 d
    ∙ evict_heap_ne ty drop_type heap e b h.0 d

-- What the buffers of the entries that own one add up to.
unfoldable pub owned_size : Heap → Table → ℕ
owned_size heap [] = 0
owned_size heap ((k, e) ∷ table) =
    (if e.duplicate_entry then 0 else size_of (heap e.cached_buffer)) + owned_size heap table

-- No two entries own one buffer.
abbrev pub OwnsApart : ℕ → String × Entry → Type 0
OwnsApart b x = (x.1.duplicate_entry ≡ true) ⊎ (x.1.cached_buffer ≢ b)

abbrev pub Distinct : Table → Type 0
Distinct [] = Unit {0}
Distinct ((k, e) ∷ table) =
    ((e.duplicate_entry ≡ true) ⊎ All (OwnsApart e.cached_buffer) table) × Distinct table

pub owned_size-release :
    (heap : Heap) (b : ℕ) (table : Table)
    → All (OwnsApart b) table
    → owned_size (release heap b) table ≡ owned_size heap table
unfolding owned_size
owned_size-release heap b [] h = refl
owned_size-release heap b ((k, e) ∷ table) (inl d, h) =
    rw (d, owned_size-release heap b table h) refl
owned_size-release heap b ((k, e) ∷ table) (inr n, h) =
    rw (release_ne heap b e.cached_buffer n, owned_size-release heap b table h) refl

module _ (ty : ℕ → MediaType) (drop_type : MediaType → Bool) (heap : Heap) (k : String) (e : Entry)
    (table : Table) (freed : ℕ) (typed : All (IsTyped ty) ((k, e) ∷ table))
    (rest : let heap' = evict_heap drop_type heap e in
      let freed' = evict_freed drop_type heap e freed in
      let done = evict drop_type heap' table freed' in
      owned_size done.heap (keep drop_type table) + done.freed
      ≡ owned_size heap' table + freed') where
  abbrev Balanced : Type 0
  Balanced =
      let done = evict drop_type heap ((k, e) ∷ table) freed in
      owned_size done.heap (keep drop_type ((k, e) ∷ table)) + done.freed
      ≡ owned_size heap ((k, e) ∷ table) + freed

  balanced_kept : drop_type e.file_type ≡ false → Balanced
  unfolding evict keep owned_size
  balanced_kept kept =
      let spared : drop_type (ty e.cached_buffer) ≡ false = cc (ap drop_type typed.0) in
      let same = heap-evict ty drop_type heap ((k, e) ∷ table) freed e.cached_buffer typed spared in
      ground (arith, rest, same)

  balanced_duplicate : drop_type e.file_type ≡ true → e.duplicate_entry ≡ true → Balanced
  unfolding evict keep owned_size
  balanced_duplicate dropped dup = ground (arith, rest)

  balanced_owner :
      drop_type e.file_type ≡ true
      → e.duplicate_entry ≡ false
      → All (OwnsApart e.cached_buffer) table
      → Balanced
  unfolding evict keep owned_size
  balanced_owner dropped own apart =
      ground (arith, rest, owned_size-release heap e.cached_buffer table apart)

-- A pass over a table whose buffers have one owner, and the type of their entry, frees exactly the
-- owned buffers that it counts: the sizes of what is left and of what was freed add up.
pub owned_size-evict :
    (ty : ℕ → MediaType) (drop_type : MediaType → Bool) (heap : Heap) (table : Table) (freed : ℕ)
    → All (IsTyped ty) table
    → Distinct table
    → let done = evict drop_type heap table freed in
      owned_size done.heap (keep drop_type table) + done.freed ≡ owned_size heap table + freed
unfolding evict keep owned_size
owned_size-evict ty drop_type heap [] freed h d = refl
owned_size-evict ty drop_type heap ((k, e) ∷ table) freed h d =
    let rest =
      owned_size-evict ty drop_type (evict_heap drop_type heap e) table
        (evict_freed drop_type heap e freed) h.1 d.1 in
    elim (Bool-cases (drop_type e.file_type)) [
      | inr kept ↦ balanced_kept ty drop_type heap k e table freed h rest kept
      | inl dropped ↦ elim (Bool-cases e.duplicate_entry) [
        | inl dup ↦ balanced_duplicate ty drop_type heap k e table freed h rest dropped dup
        | inr own ↦
            balanced_owner ty drop_type heap k e table freed h rest dropped own (apart own d.0)
      ]
    ]
  where
    apart :
        e.duplicate_entry ≡ false
        → (e.duplicate_entry ≡ true) ⊎ All (OwnsApart e.cached_buffer) table
        → All (OwnsApart e.cached_buffer) table
    apart own (inl dup) = cc
    apart own (inr a) = a
