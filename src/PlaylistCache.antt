-- ===== src/PlaylistCache.antt =====
-- AampCacheHandler.h and AampCacheHandler.cpp: the cache of downloaded playlists.
-- An entry points to its buffer, and the entry for the effective URL shares the buffer of the first:
-- buffers are addresses of a heap. `next_address` stands for the allocator, which gives fresh
-- addresses. The public calls hold mMutex, so each is one step. The clean-up thread clears without mMutex;
-- its round is a step too, so its races with the other calls are not modelled. mCacheStoredSize, an int, is
-- its pattern of 32 bits; a sum with a size_t is one of 64 bits.
pub mod Table
pub mod Cases
pub mod Eviction
pub mod Safety
pub mod Accounting
pub mod Balance
pub mod Bound
pub mod Lookup
pub mod Manifest
pub mod Leak
pub mod Examples
use openplatform_rdk_aamp.Prelude.{
  ℕ, suc, ◌+◌, ◌-◌, ◌%◌, ◌^◌, List, [], ◌∷◌, Option, none, some, Bool, true, false, not, ◌&&◌, ◌||◌,
  ltb, length, ◌==◌, if◌then◌else◌,
}
use Prim.Native.String.{String}
use text.Mathlib.Text.{◌==◌ as str_eq}

-- AampMediaType.h
pub data MediaType : Type 0 where
  video audio subtitle manifest licence iframe init_video init_audio init_subtitle : MediaType
  playlist_video playlist_audio playlist_subtitle playlist_iframe init_iframe dsm_cc : MediaType
  default_type : MediaType

-- The value of the enumerator.
abbrev pub media_code : MediaType → ℕ
media_code video = 0
media_code audio = 1
media_code subtitle = 2
media_code manifest = 3
media_code licence = 4
media_code iframe = 5
media_code init_video = 6
media_code init_audio = 7
media_code init_subtitle = 8
media_code playlist_video = 9
media_code playlist_audio = 10
media_code playlist_subtitle = 11
media_code playlist_iframe = 12
media_code init_iframe = 13
media_code dsm_cc = 14
media_code default_type = 15

abbrev pub is_manifest : MediaType → Bool
is_manifest t = media_code t == media_code manifest

-- PlayListCachedData
pub record Entry : Type 0 where
  pub effective_url : String
  pub cached_buffer : ℕ
  pub file_type : MediaType
  pub duplicate_entry : Bool

abbrev pub Heap : Type 0
Heap = ℕ → Option (List ℕ)

abbrev pub Table : Type 0
Table = List (String × Entry)

-- AampCacheHandler. `max_size` is `none` for PLAYLIST_CACHE_SIZE_UNLIMITED, else the limit as a size_t.
pub record Cache : Type 0 where
  pub heap : Heap
  pub next_address : ℕ
  pub table : Table
  pub stored_size : ℕ
  pub max_size : Option ℕ
  pub cache_active : Bool

-- An int as a size_t, and `mCacheStoredSize + len`, `+= len` and `-= freedSize`.
abbrev pub int_as_size : ℕ → ℕ
int_as_size w = if ltb w (2 ^ 31) then w else w + (2 ^ 64 - 2 ^ 32)

abbrev pub stored_sum : ℕ → ℕ → ℕ
stored_sum w len = (int_as_size w + len) % 2 ^ 64

abbrev pub stored_plus : ℕ → ℕ → ℕ
stored_plus w len = (w + len) % 2 ^ 32

abbrev pub stored_minus : ℕ → ℕ → ℕ
stored_minus w freed = (w + (2 ^ 32 - freed % 2 ^ 32)) % 2 ^ 32

unfoldable pub allocate : Heap → ℕ → List ℕ → Heap
allocate heap a bytes b = if b == a then some bytes else heap b

unfoldable pub release : Heap → ℕ → Heap
release heap a b = if b == a then none else heap b

-- `mCachedBuffer->len`
abbrev pub size_of : Option (List ℕ) → ℕ
size_of none = 0
size_of (some bytes) = length bytes

-- mPlaylistCache.find, and `mPlaylistCache[url] = entry`. The order of an unordered_map is free.
pub find : String → Table → Option Entry
find url [] = none
find url ((k, e) ∷ table) = if str_eq k url then some e else find url table

pub remove : String → Table → Table
remove url [] = []
remove url ((k, e) ∷ table) =
    let rest = remove url table in if str_eq k url then rest else (k, e) ∷ rest

pub put : String → Entry → Table → Table
put url e table = (url, e) ∷ remove url table

abbrev pub is_empty : Table → Bool
is_empty [] = true
is_empty (x ∷ table) = false

-- The loop of ClearPlaylistCache over the buffers that are owned.
pub release_owned : Heap → Table → Heap
release_owned heap [] = heap
release_owned heap ((k, e) ∷ table) =
    release_owned (if e.duplicate_entry then heap else release heap e.cached_buffer) table

pub clear : Cache → Cache
clear c = record c { heap = release_owned c.heap c.table; table = []; stored_size = 0 }

pub record Evicted : Type 0 where
  pub heap : Heap
  pub table : Table
  pub freed : ℕ

-- The heap and the freed size after one entry of a pass.
abbrev pub evict_heap : (MediaType → Bool) → Heap → Entry → Heap
evict_heap drop_type heap e =
    if drop_type e.file_type && not e.duplicate_entry then release heap e.cached_buffer else heap

abbrev pub evict_freed : (MediaType → Bool) → Heap → Entry → ℕ → ℕ
evict_freed drop_type heap e freed =
    if drop_type e.file_type && not e.duplicate_entry
    then freed + size_of (heap e.cached_buffer)
    else freed

-- One pass of AllocatePlaylistCacheSlot: erase the entries whose type `drop_type` holds of.
pub evict : (MediaType → Bool) → Heap → Table → ℕ → Evicted
evict drop_type heap [] freed = record { heap = heap; table = []; freed = freed }
evict drop_type heap ((k, e) ∷ table) freed =
    let rest =
      evict drop_type (evict_heap drop_type heap e) table (evict_freed drop_type heap e freed) in
    record rest { table = if drop_type e.file_type then rest.table else (k, e) ∷ rest.table }

abbrev pub first_pass : MediaType → MediaType → Bool
first_pass file_type t = not (is_manifest t || not (media_code t == media_code file_type))

abbrev pub second_pass : MediaType → Bool
second_pass t = not (is_manifest t)

-- Both passes, the second one if the first did not free enough.
pub evict_passes : Heap → Table → MediaType → ℕ → Evicted
evict_passes heap table file_type new_len =
    let one = evict (first_pass file_type) heap table 0 in
    if ltb one.freed new_len then evict second_pass one.heap one.table one.freed else one

-- AllocatePlaylistCacheSlot
pub allocate_slot : Cache → MediaType → ℕ → Cache × Bool
allocate_slot c file_type new_len =
    if is_empty c.table
    then (c, true)
    else (if is_manifest file_type
        then (clear c, true)
        else (let done = evict_passes c.heap c.table file_type new_len in
            (
              record c {
                heap = done.heap;
                table = done.table;
                stored_size = stored_minus c.stored_size done.freed;
              },
              not (ltb done.freed new_len),
            )))

abbrev pub new_entry : ℕ → String → MediaType → Bool → Entry
new_entry a url t duplicate = record {
  effective_url = url;
  cached_buffer = a;
  file_type = t;
  duplicate_entry = duplicate;
}

-- The stores of InsertToPlaylistCache: a fresh buffer, its entry, and the entry for the effective URL.
pub store : Cache → String → List ℕ → String → MediaType → Cache
store c url bytes effective_url file_type =
    let a = c.next_address in
    let table = put url (new_entry a effective_url file_type false) c.table in
    record c {
      heap = allocate c.heap a bytes;
      next_address = suc a;
      table =
          if str_eq url effective_url
          then table
          else put effective_url (new_entry a effective_url file_type true) table;
      stored_size = stored_plus c.stored_size (length bytes);
    }

abbrev pub below_max : Option ℕ → ℕ → Bool
below_max none n = true
below_max (some m) n = ltb n m

abbrev pub above_max : Option ℕ → ℕ → Bool
above_max none n = false
above_max (some m) n = ltb m n

-- The part of InsertToPlaylistCache that needs room.
pub insert_sized : Cache → String → List ℕ → String → MediaType → Cache
insert_sized c url bytes effective_url file_type =
    if below_max c.max_size (length bytes)
    then (if above_max c.max_size (stored_sum c.stored_size (length bytes))
        then (let (c', ready) = allocate_slot c file_type (length bytes) in
            if ready then store c' url bytes effective_url file_type else c')
        else store c url bytes effective_url file_type)
    else c

-- A new main manifest flushes the playlists of the old one.
pub flush_for_manifest : Cache → MediaType → Cache
flush_for_manifest c file_type =
    if is_manifest file_type && not (is_empty c.table) then clear c else c

-- InsertToPlaylistCache
pub insert : Cache → String → List ℕ → String → Bool → MediaType → Cache
insert c url bytes effective_url track_live_status file_type =
    if not track_live_status || is_manifest file_type
    then elim (find url c.table) [
      | some e ↦ c
      | none ↦ insert_sized (flush_for_manifest c file_type) url bytes effective_url file_type
    ]
    else c

-- RetrieveFromPlaylistCache. A read of a buffer that is not allocated is a fault.
pub data Retrieved : Type 0 where
  found : List ℕ → String → Retrieved
  not_found : Retrieved
  dangling : Retrieved

abbrev pub read_buffer : Option (List ℕ) → String → Retrieved
read_buffer none url = dangling
read_buffer (some bytes) url = found bytes url

pub retrieve : Cache → String → Retrieved
retrieve c url = elim (find url c.table) [
  | none ↦ not_found
  | some e ↦ read_buffer (c.heap e.cached_buffer) e.effective_url
]

-- IsUrlCached
pub is_url_cached : Cache → String → Bool
is_url_cached c url = elim (find url c.table) [ none ↦ false | some e ↦ true ]

-- SetMaxPlaylistCacheSize
pub set_max_size : Cache → Option ℕ → Cache
set_max_size c m = record c { max_size = m }

-- StartPlaylistCache and StopPlaylistCache
pub start_cache : Cache → Cache
start_cache c = record c { cache_active = true }

pub stop_cache : Cache → Cache
stop_cache c = record c { cache_active = false }

-- One round of AsyncCacheCleanUpTask after its signal: the timed wait of an inactive cache ran out
-- (`timed_out`) or was cut short. ClearPlaylistCache runs without mMutex in the code; here no other call runs
-- meanwhile.
pub clean_up : Cache → Bool → Cache
clean_up c timed_out = if not c.cache_active && timed_out then clear c else c

-- The constructor.
pub new_cache : Option ℕ → Cache
new_cache m = record {
  heap = λ b. none;
  next_address = 0;
  table = [];
  stored_size = 0;
  max_size = m;
  cache_active = false;
}

-- The calls of the class, in any order.
pub data Call : Type 0 where
  inserts : String → List ℕ → String → Bool → MediaType → Call
  sets_max : Option ℕ → Call
  starts stops : Call
  cleans : Bool → Call

pub step : Cache → Call → Cache
step c (inserts url bytes effective_url live t) = insert c url bytes effective_url live t
step c (sets_max m) = set_max_size c m
step c starts = start_cache c
step c stops = stop_cache c
step c (cleans timed_out) = clean_up c timed_out

pub run : Cache → List Call → Cache
run c [] = c
run c (call ∷ calls) = run (step c call) calls
