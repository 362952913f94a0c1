-- ===== src/PlaylistCache/Leak.antt =====
-- An entry for the effective URL that overwrites an owner loses its buffer, but not its size.
use openplatform_rdk_aamp.Prelude.{
  ℕ, ◌+◌, ◌^◌, ◌<◌, ◌≤◌, ◌≡◌, List, [], ◌∷◌, none, some, false, arith, length,
}
use Prim.Native.String.{String}
use text.Mathlib.Text.{◌==◌ as str_eq}
use openplatform_rdk_aamp.PlaylistCache.{
  MediaType, Table, Cache, Heap, Entry, size_of, is_manifest, store, flush_for_manifest, insert,
  find, remove, put,
}
use openplatform_rdk_aamp.PlaylistCache.Table.{allocate_self, remove_missing, remove-All}
use openplatform_rdk_aamp.PlaylistCache.Safety.{IsSound}
use openplatform_rdk_aamp.PlaylistCache.Eviction.{owned_size}
use openplatform_rdk_aamp.PlaylistCache.Accounting.{Accounted}
use openplatform_rdk_aamp.PlaylistCache.Balance.{owned_size-allocate}
use openplatform_rdk_aamp.PlaylistCache.Lookup.{Fits, store_direct}

remove_shrinks :
    (url : String) (heap : Heap) (table : Table)
    → owned_size heap (remove url table) ≤ owned_size heap table
unfolding owned_size remove
remove_shrinks url heap [] = omega arith
remove_shrinks url heap ((k, e) ∷ table) = ground (arith, remove_shrinks url heap table)

-- Removing an owner takes its size away at least.
remove_owner :
    (url : String) (heap : Heap) (table : Table) (d : Entry)
    → find url table ≡ some d
    → d.duplicate_entry ≡ false
    → owned_size heap (remove url table) + size_of (heap d.cached_buffer) ≤ owned_size heap table
unfolding owned_size remove find
remove_owner url heap [] d f own = cc
remove_owner url heap ((k, e) ∷ table) d f own =
    ground (arith, remove_shrinks url heap table, remove_owner url heap table d)

module _ (url : String) (bytes : List ℕ) (effective_url : String) (t : MediaType) where
  store_leaks :
      (c : Cache) (d : Entry)
      → Accounted c
      → find url c.table ≡ none
      → str_eq url effective_url ≡ false
      → find effective_url c.table ≡ some d
      → d.duplicate_entry ≡ false
      → 0 < size_of (c.heap d.cached_buffer)
      → c.stored_size + length bytes < 2 ^ 31
      → let c' = store c url bytes effective_url t in owned_size c'.heap c'.table < c'.stored_size
  unfolding store owned_size put remove
  store_leaks c d a missing other f own full small =
      let (ty, h) = a.sound in
      let left = remove effective_url c.table in
      let rest =
        owned_size-allocate ty c.heap c.next_address bytes left
          (remove-All (IsSound ty c.heap c.next_address) effective_url c.table h) in
      rw (other, remove_missing url c.table missing, allocate_self c.heap c.next_address bytes)
        (omega (arith, rest, a.balance, remove_owner effective_url c.heap c.table d f own))

  -- When the effective URL of an insertion is the key of another entry that owns a buffer, the
  -- insertion loses that buffer and goes on counting it: mCacheStoredSize then exceeds what the
  -- entries own. (A playlist other than a main manifest, that fits without an eviction, with
  -- mCacheStoredSize and its size below 2 ^ 31 together.)
  pub insert_leaks :
      (c : Cache) (d : Entry)
      → Accounted c
      → is_manifest t ≡ false
      → find url c.table ≡ none
      → Fits c (length bytes)
      → str_eq url effective_url ≡ false
      → find effective_url c.table ≡ some d
      → d.duplicate_entry ≡ false
      → 0 < size_of (c.heap d.cached_buffer)
      → c.stored_size + length bytes < 2 ^ 31
      → let c' = insert c url bytes effective_url false t in
        owned_size c'.heap c'.table < c'.stored_size
  unfolding insert flush_for_manifest
  insert_leaks c d a plain missing fits other f own full small =
      rw (missing, insert)
        (rw (plain, store_direct url bytes effective_url t c fits)
          (store_leaks c d a missing other f own full small))
