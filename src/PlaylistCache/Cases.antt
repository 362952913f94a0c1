-- ===== src/PlaylistCache/Cases.antt =====
-- The branches of InsertToPlaylistCache, as one rule for a property of the cache.
use openplatform_rdk_aamp.Prelude.{
  ◌≡◌, ℕ, List, none, Bool, true, false, not, ◌&&◌, ◌||◌, Bool-cases, Option-cases, inl, inr,
  length,
}
use Prim.Native.String.{String}
use openplatform_rdk_aamp.PlaylistCache.{
  MediaType, Cache, is_empty, is_manifest, clear, allocate_slot, store, insert_sized,
  flush_for_manifest, insert, find, below_max, above_max, stored_sum,
}

module _ {ℓ} (P : Cache → Type ℓ) (url : String) (bytes : List ℕ) (effective_url : String)
    (t : MediaType) where
  pub insert_sized_cases :
      (c : Cache)
      → P c
      → (below_max c.max_size (length bytes) ≡ true
          → above_max c.max_size (stored_sum c.stored_size (length bytes)) ≡ false
          → P (store c url bytes effective_url t))
      → P (allocate_slot c t (length bytes)).0
      → (below_max c.max_size (length bytes) ≡ true
          → above_max c.max_size (stored_sum c.stored_size (length bytes)) ≡ true
          → (allocate_slot c t (length bytes)).1 ≡ true
          → P (store (allocate_slot c t (length bytes)).0 url bytes effective_url t))
      → P (insert_sized c url bytes effective_url t)
  unfolding insert_sized
  insert_sized_cases c kept direct refused evicted =
      elim (Bool-cases (below_max c.max_size (length bytes))) [
        | inr huge ↦ rw huge kept
        | inl small ↦
            elim (Bool-cases (above_max c.max_size (stored_sum c.stored_size (length bytes)))) [
              | inr room ↦ rw (small, room) (direct small room)
              | inl full ↦ elim (Bool-cases (allocate_slot c t (length bytes)).1) [
                | inl ready ↦ rw (small, full, ready) (evicted small full ready)
                | inr no_room ↦ rw (small, full, no_room) refused
              ]
            ]
      ]

  pub flush_cases : (c : Cache) → P c → P (clear c) → P (flush_for_manifest c t)
  unfolding flush_for_manifest
  flush_cases c kept cleared = elim (Bool-cases (is_manifest t && not (is_empty c.table))) [
    | inl flush ↦ rw flush cleared
    | inr no_flush ↦ rw no_flush kept
  ]

  pub insert_cases :
      (c : Cache) (live : Bool)
      → P c
      → (find url c.table ≡ none
          → P (insert_sized (flush_for_manifest c t) url bytes effective_url t))
      → P (insert c url bytes effective_url live t)
  unfolding insert
  insert_cases c live kept missing = elim (Bool-cases (not live || is_manifest t)) [
    | inr refused ↦ rw refused kept
    | inl allowed ↦ elim (Option-cases (find url c.table)) [
      | inl e ↦ rw (allowed, e, insert) (missing e)
      | inr (d, e) ↦ rw (allowed, e, insert) kept
    ]
  ]
