-- ===== src/PlaylistCache/Safety.antt =====
-- No entry ever points to a freed buffer, though two entries may share one.
use openplatform_rdk_aamp.Prelude.{
  ℕ, suc, ◌<◌, ◌≡◌, refl, ◌≢◌, List, [], ◌∷◌, Option, some, Bool, true, false, not, ◌&&◌, arith,
  All, if◌then◌else◌, inl, inr, Bool-cases, Option-cases, ap, ◌∙◌, ◌==◌, ==_ne, ==_refl, ltb,
  length,
}
use Prim.Native.String.{String}
use text.Mathlib.Text.{◌==◌ as str_eq}
use openplatform_rdk_aamp.PlaylistCache.{
  MediaType, Entry, Heap, Table, Cache, dangling, allocate, evict, evict_passes, first_pass,
  second_pass, is_empty, is_manifest, clear, allocate_slot, store, insert_sized, flush_for_manifest,
  insert, retrieve, find, put, set_max_size, start_cache, stop_cache, clean_up, new_cache,
  new_entry, Call, inserts, sets_max, starts, stops, cleans, step, run, default_type,
}
use openplatform_rdk_aamp.PlaylistCache.Table.{allocate_ne, allocate_self, put-All, find-All}
use openplatform_rdk_aamp.PlaylistCache.Cases.{insert_sized_cases, flush_cases, insert_cases}
use openplatform_rdk_aamp.PlaylistCache.Eviction.{IsTyped, keep, table-evict, heap-evict}

-- The buffer of an entry is allocated, has the entry's type and was given out before.
abbrev pub IsSound : (ℕ → MediaType) → Heap → ℕ → String × Entry → Type 0
IsSound ty heap next x =
    (ty x.1.cached_buffer ≡ x.1.file_type)
    × ((bytes : List ℕ) × (heap x.1.cached_buffer ≡ some bytes))
    × (x.1.cached_buffer < next)

abbrev pub NoDangling : Cache → Type 0
NoDangling c = (ty : ℕ → MediaType) × All (IsSound ty c.heap c.next_address) c.table

pub typed :
    (ty : ℕ → MediaType) (heap : Heap) (next : ℕ) (table : Table)
    → All (IsSound ty heap next) table
    → All (IsTyped ty) table
typed ty heap next [] h = tt
typed ty heap next (x ∷ table) h = (h.0.0, typed ty heap next table h.1)

module _ (ty : ℕ → MediaType) (heap heap' : Heap) (next : ℕ) (drop_type : MediaType → Bool)
    (spared : (b : ℕ) → drop_type (ty b) ≡ false → heap' b ≡ heap b) where
  keep-IsSound :
      (table : Table)
      → All (IsSound ty heap next) table
      → All (IsSound ty heap' next) (keep drop_type table)
  unfolding keep
  keep-IsSound [] h = tt
  keep-IsSound ((k, e) ∷ table) (s, h) = elim (Bool-cases (drop_type e.file_type)) [
    | inl dropped ↦ rw dropped (keep-IsSound table h)
    | inr kept ↦ rw kept (
      (s.0, (s.1.0, spared e.cached_buffer (ap drop_type s.0 ∙ kept) ∙ s.1.1), s.2),
      keep-IsSound table h,
    )
  ]

module _ (ty : ℕ → MediaType) (next : ℕ) where
  pub evict-IsSound :
      (drop_type : MediaType → Bool) (heap : Heap) (table : Table) (freed : ℕ)
      → All (IsSound ty heap next) table
      → All
          (IsSound ty (evict drop_type heap table freed).heap next)
          (evict drop_type heap table freed).table
  evict-IsSound drop_type heap table freed h = rw (table-evict drop_type heap table freed) (
      keep-IsSound ty heap (evict drop_type heap table freed).heap next drop_type
        (λ b d. heap-evict ty drop_type heap table freed b (typed ty heap next table h) d) table h)

  pub evict_passes-IsSound :
      (heap : Heap) (table : Table) (file_type : MediaType) (new_len : ℕ)
      → All (IsSound ty heap next) table
      → All
          (IsSound ty (evict_passes heap table file_type new_len).heap next)
          (evict_passes heap table file_type new_len).table
  unfolding evict_passes
  evict_passes-IsSound heap table file_type new_len h =
      let one = evict (first_pass file_type) heap table 0 in
      let sound = evict-IsSound (first_pass file_type) heap table 0 h in
      elim (Bool-cases (ltb one.freed new_len)) [
        | inl more ↦ rw more (evict-IsSound second_pass one.heap one.table one.freed sound)
        | inr enough ↦ rw enough sound
      ]

pub clear-NoDangling : (c : Cache) → NoDangling c → NoDangling (clear c)
unfolding clear
clear-NoDangling c (ty, h) = (ty, tt)

pub allocate_slot-NoDangling :
    (c : Cache) (file_type : MediaType) (new_len : ℕ)
    → NoDangling c
    → NoDangling (allocate_slot c file_type new_len).0
unfolding allocate_slot
allocate_slot-NoDangling c file_type new_len s = elim (Bool-cases (is_empty c.table)) [
  | inl e ↦ rw e s
  | inr e ↦ elim (Bool-cases (is_manifest file_type)) [
    | inl m ↦ rw (e, m) (clear-NoDangling c s)
    | inr m ↦
        rw (e, m)
          (s.0, evict_passes-IsSound s.0 c.next_address c.heap c.table file_type new_len s.1)
  ]
]

-- Entries stay sound when a fresh buffer comes in, and the new entries are.
abbrev retype : (ℕ → MediaType) → ℕ → MediaType → ℕ → MediaType
retype ty a t b = if b == a then t else ty b

fresh-IsSound :
    (ty : ℕ → MediaType) (heap : Heap) (a : ℕ) (bytes : List ℕ) (t : MediaType) (table : Table)
    → All (IsSound ty heap a) table
    → All (IsSound (retype ty a t) (allocate heap a bytes) (suc a)) table
fresh-IsSound ty heap a bytes t [] h = tt
fresh-IsSound ty heap a bytes t ((k, e) ∷ table) ((s, (d, v), lt), h) =
    let apart : e.cached_buffer ≢ a = λ same. absurd (omega (arith, same)) in
    (
      (
        rw (==_ne e.cached_buffer a apart) s,
        (d, allocate_ne heap a e.cached_buffer bytes apart ∙ v),
        omega arith,
      ),
      fresh-IsSound ty heap a bytes t table h,
    )

new_entry-IsSound :
    (ty : ℕ → MediaType) (heap : Heap) (a : ℕ) (bytes : List ℕ) (t : MediaType) (k url : String)
    (duplicate : Bool)
    → IsSound (retype ty a t) (allocate heap a bytes) (suc a) (k, new_entry a url t duplicate)
new_entry-IsSound ty heap a bytes t k url duplicate =
    (rw (==_refl a) refl, (bytes, allocate_self heap a bytes), omega arith)

module _ (url : String) (bytes : List ℕ) (effective_url : String) (t : MediaType) where
  pub store-NoDangling : (c : Cache) → NoDangling c → NoDangling (store c url bytes effective_url t)
  unfolding store
  store-NoDangling c (ty, h) =
      let a = c.next_address in
      let P = IsSound (retype ty a t) (allocate c.heap a bytes) (suc a) in
      let fresh = λ (k : String) (duplicate : Bool).
        new_entry-IsSound ty c.heap a bytes t k effective_url duplicate in
      let first =
        put-All P url (new_entry a effective_url t false) c.table (fresh url false)
          (fresh-IsSound ty c.heap a bytes t c.table h) in
      (
        retype ty a t,
        elim (Bool-cases (str_eq url effective_url)) [
          | inl same ↦ rw same first
          | inr other ↦ rw other (
              put-All P effective_url (new_entry a effective_url t true)
                (put url (new_entry a effective_url t false) c.table) (fresh effective_url true)
                first)
        ],
      )

  insert_sized-NoDangling :
      (c : Cache) → NoDangling c → NoDangling (insert_sized c url bytes effective_url t)
  insert_sized-NoDangling c s =
      let s' = allocate_slot-NoDangling c t (length bytes) s in
      insert_sized_cases NoDangling url bytes effective_url t c s (λ _ _. store-NoDangling c s) s'
        (λ _ _ _. store-NoDangling _ s')

  insert-NoDangling :
      (c : Cache) (live : Bool)
      → NoDangling c
      → NoDangling (insert c url bytes effective_url live t)
  insert-NoDangling c live s = insert_cases NoDangling url bytes effective_url t c live s λ _.
      insert_sized-NoDangling (flush_for_manifest c t)
        (flush_cases NoDangling url bytes effective_url t c s (clear-NoDangling c s))

clean_up-NoDangling :
    (c : Cache) (timed_out : Bool) → NoDangling c → NoDangling (clean_up c timed_out)
unfolding clean_up
clean_up-NoDangling c timed_out s = elim (Bool-cases (not c.cache_active && timed_out)) [
  | inl flush ↦ rw flush (clear-NoDangling c s)
  | inr wait ↦ rw wait s
]

step-NoDangling : (c : Cache) (call : Call) → NoDangling c → NoDangling (step c call)
unfolding step set_max_size start_cache stop_cache
step-NoDangling c (inserts url bytes effective_url live t) s =
    insert-NoDangling url bytes effective_url t c live s
step-NoDangling c (sets_max m) s = s
step-NoDangling c starts s = s
step-NoDangling c stops s = s
step-NoDangling c (cleans timed_out) s = clean_up-NoDangling c timed_out s

run-NoDangling : (c : Cache) (calls : List Call) → NoDangling c → NoDangling (run c calls)
unfolding run
run-NoDangling c [] s = s
run-NoDangling c (call ∷ calls) s = run-NoDangling (step c call) calls (step-NoDangling c call s)

retrieve_sound : (c : Cache) (url : String) → NoDangling c → retrieve c url ≢ dangling
unfolding retrieve
retrieve_sound c url (ty, h) = elim (Option-cases (find url c.table)) [
  | inl e ↦ rw (e, retrieve) (λ p. cc)
  | inr (d, e) ↦
      let (k, sound) = find-All (IsSound ty c.heap c.next_address) url c.table d h e in
      rw (e, retrieve, sound.1.1) (λ p. cc)
]

-- After any history of insertions, limit changes, starts, stops and clean-ups on a new cache, a
-- retrieval never reads a freed buffer.
pub retrieve-run_ne_dangling :
    (max_size : Option ℕ) (calls : List Call) (url : String)
    → retrieve (run (new_cache max_size) calls) url ≢ dangling
unfolding new_cache
retrieve-run_ne_dangling max_size calls url =
    retrieve_sound (run (new_cache max_size) calls) url
      (run-NoDangling (new_cache max_size) calls (λ b. default_type, tt))
