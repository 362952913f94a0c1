-- ===== src/PlaylistCache/Bound.antt =====
-- The size limit.
use openplatform_rdk_aamp.Prelude.{
  ℕ, ◌≤◌, ◌≡◌, refl, List, [], ◌∷◌, Option, none, some, Bool, true, false, not, arith, inl, inr,
  Bool-cases, length, ltb,
}
use Prim.Native.String.{String}
use openplatform_rdk_aamp.PlaylistCache.{
  MediaType, Table, Cache, Heap, evict_passes, is_empty, is_manifest, clear, allocate_slot, store,
  insert_sized, flush_for_manifest, insert, above_max, below_max, stored_sum, stored_plus,
  stored_minus,
}
use openplatform_rdk_aamp.PlaylistCache.Cases.{insert_sized_cases, flush_cases, insert_cases}
use openplatform_rdk_aamp.PlaylistCache.Eviction.{owned_size}
use openplatform_rdk_aamp.PlaylistCache.Accounting.{Accounted, evict_passes-Leaves}
use openplatform_rdk_aamp.PlaylistCache.Balance.{KeepsEntries, clear-Accounted}

-- mCacheStoredSize is within the limit, where there is one.
abbrev pub IsBounded : Cache → Type 0
IsBounded c = above_max c.max_size c.stored_size ≡ false

-- There is room for `new_len` more: the sum is within the limit as it is stored.
abbrev HasRoom : Cache → ℕ → Type 0
HasRoom c new_len = above_max c.max_size (stored_plus c.stored_size new_len) ≡ false

above_max_mono : (m : Option ℕ) (a b : ℕ) → a ≤ b → above_max m b ≡ false → above_max m a ≡ false
above_max_mono none a b h k = refl
above_max_mono (some m) a b h k = ground arith

below_max-above_max : (m : Option ℕ) (a : ℕ) → below_max m a ≡ true → above_max m a ≡ false
below_max-above_max none a h = refl
below_max-above_max (some m) a h = ground arith

empty_stored : (heap : Heap) (table : Table) → is_empty table ≡ true → owned_size heap table ≡ 0
unfolding owned_size
empty_stored heap [] h = refl
empty_stored heap (x ∷ table) h = cc

-- What is stored is at most the size_t that is compared.
sum_room :
    (c : Cache) (new_len : ℕ)
    → above_max c.max_size (stored_sum c.stored_size new_len) ≡ false
    → HasRoom c new_len
sum_room c new_len room =
    above_max_mono c.max_size (stored_plus c.stored_size new_len) (stored_sum c.stored_size new_len)
      (ground arith) room

-- A slot that AllocatePlaylistCacheSlot grants has room for the new playlist.
allocate_slot-HasRoom :
    (c : Cache) (t : MediaType) (new_len : ℕ)
    → Accounted c
    → IsBounded c
    → below_max c.max_size new_len ≡ true
    → (allocate_slot c t new_len).1 ≡ true
    → HasRoom (allocate_slot c t new_len).0 new_len
unfolding allocate_slot clear
allocate_slot-HasRoom c t new_len a bounded small ready = elim (Bool-cases (is_empty c.table)) [
  | inl e ↦ rw e (
      above_max_mono c.max_size (stored_plus c.stored_size new_len) new_len
        (omega (arith, a.balance, empty_stored c.heap c.table e))
        (below_max-above_max c.max_size new_len small))
  | inr e ↦ elim (Bool-cases (is_manifest t)) [
    | inl m ↦
        rw (e, m)
          (above_max_mono c.max_size (stored_plus 0 new_len) new_len (omega arith)
            (below_max-above_max c.max_size new_len small))
    | inr m ↦ rw (e, m) (evicted (rw (e, m) at ready))
  ]
]
  where
    freed : ℕ
    freed = (evict_passes c.heap c.table t new_len).freed

    evicted :
        not (ltb freed new_len) ≡ true
        → above_max c.max_size (stored_plus (stored_minus c.stored_size freed) new_len) ≡ false
    evicted enough =
        let (ty, h) = a.sound in
        let left =
          (evict_passes-Leaves ty c.heap c.next_address c.table t new_len h a.distinct).1 in
        above_max_mono c.max_size (stored_plus (stored_minus c.stored_size freed) new_len)
          c.stored_size (ground (arith, left, a.balance)) bounded

max_size-allocate_slot :
    (c : Cache) (t : MediaType) (new_len : ℕ) → (allocate_slot c t new_len).0.max_size ≡ c.max_size
unfolding allocate_slot clear
max_size-allocate_slot c t new_len = ground arith

module _ (url : String) (bytes : List ℕ) (effective_url : String) (t : MediaType) where
  store-IsBounded :
      (c : Cache) → HasRoom c (length bytes) → IsBounded (store c url bytes effective_url t)
  unfolding store
  store-IsBounded c room = room

  allocate_slot-IsBounded :
      (c : Cache) → Accounted c → IsBounded c → IsBounded (allocate_slot c t (length bytes)).0
  unfolding allocate_slot clear
  allocate_slot-IsBounded c a bounded = elim (Bool-cases (is_empty c.table)) [
    | inl e ↦ rw e bounded
    | inr e ↦ elim (Bool-cases (is_manifest t)) [
      | inl m ↦ rw (e, m) (above_max_mono c.max_size 0 c.stored_size (omega arith) bounded)
      | inr m ↦
          let (ty, h) = a.sound in
          let left =
            (evict_passes-Leaves ty c.heap c.next_address c.table t (length bytes) h
              a.distinct).1 in
          rw (e, m)
            (above_max_mono c.max_size
              (stored_minus c.stored_size (evict_passes c.heap c.table t (length bytes)).freed)
              c.stored_size (omega (arith, left, a.balance)) bounded)
    ]
  ]

  insert_sized-IsBounded :
      (c : Cache) → Accounted c → IsBounded c → IsBounded (insert_sized c url bytes effective_url t)
  insert_sized-IsBounded c a bounded =
      insert_sized_cases IsBounded url bytes effective_url t c bounded
        (λ _ room. store-IsBounded c (sum_room c (length bytes) room))
        (allocate_slot-IsBounded c a bounded)
        (λ small _ ready.
          store-IsBounded _ (allocate_slot-HasRoom c t (length bytes) a bounded small ready))

  -- An insertion keeps mCacheStoredSize within the limit, if it was, the cache is accounted, and no
  -- entry is overwritten.
  pub insert-IsBounded :
      (c : Cache) (live : Bool)
      → Accounted c
      → KeepsEntries c url effective_url
      → IsBounded c
      → IsBounded (insert c url bytes effective_url live t)
  unfolding clear
  insert-IsBounded c live a free bounded =
      insert_cases IsBounded url bytes effective_url t c live bounded λ missing.
        insert_sized-IsBounded (flush_for_manifest c t)
          (flush_cases Accounted url bytes effective_url t c a (clear-Accounted c a.sound))
          (flush_cases IsBounded url bytes effective_url t c bounded
            (above_max_mono c.max_size 0 c.stored_size (omega arith) bounded))
