-- ===== src/PlaylistCache/Examples.antt =====
-- Small caches, and the theorems on them.
use openplatform_rdk_aamp.Prelude.{
  ℕ, ◌<◌, ◌≡◌, ◌≢◌, refl, inr, List, [], ◌∷◌, true, false, none, some, arith, ◌==◌, if◌then◌else◌,
}
use openplatform_rdk_aamp.PlaylistCache.{
  MediaType, manifest, playlist_video, playlist_audio, Entry, Cache, inserts, cleans, new_cache,
  insert, retrieve, found, dangling, run, evict, first_pass, find, flush_for_manifest, Heap,
}
use openplatform_rdk_aamp.PlaylistCache.Eviction.{owned_size, heap-evict}
use openplatform_rdk_aamp.PlaylistCache.Safety.{retrieve-run_ne_dangling, NoDangling}
use openplatform_rdk_aamp.PlaylistCache.Accounting.{Accounted}
use openplatform_rdk_aamp.PlaylistCache.Balance.{insert-Accounted}
use openplatform_rdk_aamp.PlaylistCache.Bound.{IsBounded, insert-IsBounded}
use openplatform_rdk_aamp.PlaylistCache.Lookup.{retrieve-insert, Serves}
use openplatform_rdk_aamp.PlaylistCache.Manifest.{insert_keeps_manifest}
use openplatform_rdk_aamp.PlaylistCache.Leak.{insert_leaks}

abbrev empty : Cache
empty = new_cache (some 10)

retrieve-run_ne_dangling_example :
    retrieve
      (run (new_cache (some 3)) (
        inserts "a" (1 ∷ 2 ∷ []) "b" false playlist_video
        ∷ inserts "c" (3 ∷ 4 ∷ []) "c" false playlist_audio
        ∷ cleans true
        ∷ []))
      "a"
    ≢ dangling
retrieve-run_ne_dangling_example =
    retrieve-run_ne_dangling (some 3)
      (inserts "a" (1 ∷ 2 ∷ []) "b" false playlist_video
        ∷ inserts "c" (3 ∷ 4 ∷ []) "c" false playlist_audio
        ∷ cleans true
        ∷ [])
      "a"

empty-Accounted : Accounted empty
unfolding new_cache owned_size
empty-Accounted = record { sound = (λ b. manifest, tt); distinct = tt; balance = refl }

insert-Accounted_example : Accounted (insert empty "a" (1 ∷ 2 ∷ []) "b" false manifest)
insert-Accounted_example =
    insert-Accounted "a" (1 ∷ 2 ∷ []) "b" manifest empty false empty-Accounted
      (inr (unfold new_cache find in refl)) (unfold new_cache in omega arith)

insert-IsBounded_example : IsBounded (insert empty "a" (1 ∷ 2 ∷ []) "b" false manifest)
insert-IsBounded_example =
    insert-IsBounded "a" (1 ∷ 2 ∷ []) "b" manifest empty false empty-Accounted
      (inr (unfold new_cache find in refl)) (unfold new_cache in refl)

retrieve-insert_example :
    Serves "a"
      (1 ∷ 2 ∷ [])
      "b"
      playlist_video
      (insert empty "a" (1 ∷ 2 ∷ []) "b" false playlist_video)
retrieve-insert_example =
    retrieve-insert "a" (1 ∷ 2 ∷ []) "b" playlist_video empty false refl
      (unfold new_cache find in refl) (unfold new_cache flush_for_manifest in (refl, refl))

-- A cache of ten bytes with one entry, of eight.
abbrev one_heap : Heap
one_heap b = if b == 0 then some (1 ∷ 2 ∷ 3 ∷ 4 ∷ 5 ∷ 6 ∷ 7 ∷ 8 ∷ []) else none

abbrev one_entry : MediaType → Entry
one_entry t = record {
  effective_url = "b";
  cached_buffer = 0;
  file_type = t;
  duplicate_entry = false;
}

abbrev one : MediaType → Cache
one t = record {
  heap = one_heap;
  next_address = 1;
  table = ("b", one_entry t) ∷ [];
  stored_size = 8;
  max_size = some 10;
  cache_active = false;
}

abbrev eight : List ℕ
eight = 1 ∷ 2 ∷ 3 ∷ 4 ∷ 5 ∷ 6 ∷ 7 ∷ 8 ∷ []

one-NoDangling : (t : MediaType) → NoDangling (one t)
one-NoDangling t = (λ b. t, ((refl, (eight, refl), omega arith), tt))

one-Accounted : (t : MediaType) → Accounted (one t)
unfolding owned_size
one-Accounted t = record { sound = one-NoDangling t; distinct = (inr tt, tt); balance = refl }

insert_keeps_manifest_example :
    retrieve (insert (one manifest) "a" (5 ∷ 6 ∷ 7 ∷ []) "c" false playlist_video) "b"
    ≡ found eight "b"
insert_keeps_manifest_example =
    insert_keeps_manifest "b" (one_entry manifest) eight "a" (5 ∷ 6 ∷ 7 ∷ []) "c" playlist_video
      refl refl (one manifest) false (one-NoDangling manifest) refl refl (unfold find in refl) refl

insert_leaks_example :
    let c' = insert (one playlist_video) "a" (5 ∷ []) "b" false playlist_video in
    owned_size c'.heap c'.table < c'.stored_size
insert_leaks_example =
    insert_leaks "a" (5 ∷ []) "b" playlist_video (one playlist_video) (one_entry playlist_video)
      (one-Accounted playlist_video) refl (unfold find in refl) (refl, refl) refl
      (unfold find in refl) refl (omega arith) (omega arith)

heap-evict_example :
    (evict (first_pass playlist_audio) one_heap (one playlist_video).table 0).heap 0 ≡ some eight
heap-evict_example =
    heap-evict (λ b. playlist_video) (first_pass playlist_audio) one_heap (one playlist_video).table
      0 0 (refl, tt) refl
