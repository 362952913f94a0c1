-- ===== src/PlaylistCache/Manifest.antt =====
-- A main manifest survives the insertion of any other playlist, evictions included.
use openplatform_rdk_aamp.Prelude.{
  ℕ, ◌<◌, ◌≡◌, refl, List, some, Bool, true, false, arith, inl, inr, Bool-cases, ◌∙◌, length, ltb,
  ap, All,
}
use Prim.Native.String.{String}
use text.Mathlib.Text.{◌==◌ as str_eq}
use openplatform_rdk_aamp.PlaylistCache.{
  MediaType, Table, Cache, Heap, Entry, evict_passes, evict, first_pass, second_pass, is_empty,
  is_manifest, allocate_slot, store, flush_for_manifest, insert, find, retrieve, found,
}
use openplatform_rdk_aamp.PlaylistCache.Table.{allocate_ne, find-All}
use openplatform_rdk_aamp.PlaylistCache.Cases.{insert_sized_cases, insert_cases}
use openplatform_rdk_aamp.PlaylistCache.Eviction.{table-evict, heap-evict}
use openplatform_rdk_aamp.PlaylistCache.Safety.{IsSound, NoDangling, typed, evict-IsSound}
use openplatform_rdk_aamp.PlaylistCache.Lookup.{find-keep, find-store, retrieve_hit}

module _ (k : String) (d : Entry) (bytes : List ℕ) where
  -- The key leads to the entry, and the entry to the bytes.
  abbrev Holds : Heap → Table → Type 0
  Holds heap table = (find k table ≡ some d) × (heap d.cached_buffer ≡ some bytes)

  module _ (ty : ℕ → MediaType) (buffer_type : ty d.cached_buffer ≡ d.file_type) (next : ℕ) where
    evict-Holds :
        (drop_type : MediaType → Bool) (heap : Heap) (table : Table) (freed : ℕ)
        → drop_type d.file_type ≡ false
        → All (IsSound ty heap next) table
        → Holds heap table
        → Holds (evict drop_type heap table freed).heap (evict drop_type heap table freed).table
    evict-Holds drop_type heap table freed spared h (f, v) = (
      rw (table-evict drop_type heap table freed) (find-keep drop_type k d table f spared),
      heap-evict ty drop_type heap table freed d.cached_buffer (typed ty heap next table h)
            (ap drop_type buffer_type ∙ spared)
          ∙ v,
    )

    evict_passes-Holds :
        (heap : Heap) (table : Table) (t : MediaType) (new_len : ℕ)
        → is_manifest d.file_type ≡ true
        → All (IsSound ty heap next) table
        → Holds heap table
        → Holds (evict_passes heap table t new_len).heap (evict_passes heap table t new_len).table
    unfolding evict_passes
    evict_passes-Holds heap table t new_len m h holds =
        let one = evict (first_pass t) heap table 0 in
        let spared_first : first_pass t d.file_type ≡ false = rw m refl in
        let spared_second : second_pass d.file_type ≡ false = rw m refl in
        let kept = evict-Holds (first_pass t) heap table 0 spared_first h holds in
        elim (Bool-cases (ltb one.freed new_len)) [
          | inl more ↦ rw more (
              evict-Holds second_pass one.heap one.table one.freed spared_second
                (evict-IsSound ty next (first_pass t) heap table 0 h) kept)
          | inr enough ↦ rw enough kept
        ]

  abbrev HoldsIn : Cache → Type 0
  HoldsIn c = Holds c.heap c.table × (d.cached_buffer < c.next_address)

  allocate_slot-HoldsIn :
      (c : Cache) (t : MediaType) (new_len : ℕ)
      → NoDangling c
      → is_manifest t ≡ false
      → is_manifest d.file_type ≡ true
      → HoldsIn c
      → HoldsIn (allocate_slot c t new_len).0
  unfolding allocate_slot
  allocate_slot-HoldsIn c t new_len (ty, h) other m (holds, old) =
      elim (Bool-cases (is_empty c.table)) [
        | inl e ↦ rw e (holds, old)
        | inr e ↦
            let (j, s) = find-All (IsSound ty c.heap c.next_address) k c.table d h holds.0 in
            rw (e, other)
              (evict_passes-Holds ty s.0 c.next_address c.heap c.table t new_len m h holds, old)
      ]

  module _ (url : String) (new_bytes : List ℕ) (effective_url : String) (t : MediaType)
      (not_url : str_eq url k ≡ false) (not_effective : str_eq effective_url k ≡ false) where
    store-HoldsIn : (c : Cache) → HoldsIn c → HoldsIn (store c url new_bytes effective_url t)
    store-HoldsIn c ((f, v), old) = (
      (
        rw (find-store c url k new_bytes effective_url t, not_effective, not_url) f,
        unfold store in
            allocate_ne c.heap c.next_address d.cached_buffer new_bytes
              (λ same. absurd (omega (arith, same)))
            ∙ v,
      ),
      unfold store in omega arith,
    )

    -- Inserting a playlist that is no main manifest under other URLs leaves a cached main manifest
    -- retrievable with its bytes, in a cache with no dangling entry.
    pub insert_keeps_manifest :
        (c : Cache) (live : Bool)
        → NoDangling c
        → is_manifest t ≡ false
        → is_manifest d.file_type ≡ true
        → find k c.table ≡ some d
        → c.heap d.cached_buffer ≡ some bytes
        → retrieve (insert c url new_bytes effective_url live t) k ≡ found bytes d.effective_url
    unfolding flush_for_manifest
    insert_keeps_manifest c live s other m f v =
        let (j, sound) = find-All (IsSound s.0 c.heap c.next_address) k c.table d s.1 f in
        let holds : HoldsIn c = ((f, v), sound.2) in
        let evicted = allocate_slot-HoldsIn c t (length new_bytes) s other m holds in
        let sized =
          insert_sized_cases HoldsIn url new_bytes effective_url t c holds
            (λ _ _. store-HoldsIn c holds) evicted (λ _ _ _. store-HoldsIn _ evicted) in
        let after =
          insert_cases HoldsIn url new_bytes effective_url t c live holds (λ _. rw other sized) in
        retrieve_hit (insert c url new_bytes effective_url live t) k d bytes after.0.0 after.0.1
