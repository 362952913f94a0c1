-- ===== src/PlaylistCache/Balance.antt =====
-- Every insertion keeps the accounts, unless its effective URL is the key of another entry or the sum is no
-- int.
use openplatform_rdk_aamp.Prelude.{
  ℕ, ◌+◌, ◌^◌, ◌<◌, ◌≡◌, refl, ◌≢◌, List, [], ◌∷◌, none, Bool, true, false, arith, All, ◌⊎◌, inl,
  inr, Bool-cases, ◌∙◌, length, ltb,
}
use Prim.Native.String.{String}
use text.Mathlib.Text.{◌==◌ as str_eq}
use openplatform_rdk_aamp.PlaylistCache.{
  MediaType, Entry, Heap, Table, Cache, allocate, evict, evict_passes, first_pass, second_pass,
  is_empty, is_manifest, clear, allocate_slot, store, insert_sized, flush_for_manifest, insert,
  find, put, remove, new_entry, stored_minus,
}
use openplatform_rdk_aamp.PlaylistCache.Table.{allocate_ne, allocate_self, remove_missing}
use openplatform_rdk_aamp.PlaylistCache.Cases.{insert_sized_cases, flush_cases, insert_cases}
use openplatform_rdk_aamp.PlaylistCache.Eviction.{table-evict, owned_size, OwnsApart}
use openplatform_rdk_aamp.PlaylistCache.Safety.{
  IsSound, NoDangling, evict_passes-IsSound, store-NoDangling,
}
use openplatform_rdk_aamp.PlaylistCache.Accounting.{Accounted, find-keep-none, evict_passes-Leaves}

pub find-evict_passes-none :
    (url : String) (heap : Heap) (table : Table) (t : MediaType) (new_len : ℕ)
    → find url table ≡ none
    → find url (evict_passes heap table t new_len).table ≡ none
unfolding evict_passes
find-evict_passes-none url heap table t new_len h =
    let one = evict (first_pass t) heap table 0 in
    let missing : find url one.table ≡ none =
      rw (table-evict (first_pass t) heap table 0) (find-keep-none url (first_pass t) table h) in
    elim (Bool-cases (ltb one.freed new_len)) [
      | inl more ↦
          rw (more, table-evict second_pass one.heap one.table one.freed)
            (find-keep-none url second_pass one.table missing)
      | inr enough ↦ rw enough missing
    ]

-- The entry for the effective URL overwrites no other entry.
abbrev pub KeepsEntries : Cache → String → String → Type 0
KeepsEntries c url effective_url =
    (str_eq url effective_url ≡ true) ⊎ (find effective_url c.table ≡ none)

-- What an insertion of `len` bytes needs of the table that it stores to.
pub record Ready (url effective_url : String) (len : ℕ) (c : Cache) : Type 0 where
  pub accounts : Accounted c
  pub missing : find url c.table ≡ none
  pub free : KeepsEntries c url effective_url
  pub small : c.stored_size + len < 2 ^ 31

pub owned_size-allocate :
    (ty : ℕ → MediaType) (heap : Heap) (a : ℕ) (bytes : List ℕ) (table : Table)
    → All (IsSound ty heap a) table
    → owned_size (allocate heap a bytes) table ≡ owned_size heap table
unfolding owned_size
owned_size-allocate ty heap a bytes [] h = refl
owned_size-allocate ty heap a bytes ((k, e) ∷ table) (s, h) =
    let apart : e.cached_buffer ≢ a = λ same. absurd (omega (arith, same, s)) in
    rw (allocate_ne heap a e.cached_buffer bytes apart, owned_size-allocate ty heap a bytes table h)
      refl

sound-OwnsApart :
    (ty : ℕ → MediaType) (heap : Heap) (a : ℕ) (table : Table)
    → All (IsSound ty heap a) table
    → All (OwnsApart a) table
sound-OwnsApart ty heap a [] h = tt
sound-OwnsApart ty heap a ((k, e) ∷ table) (s, h) =
    (inr (λ same. absurd (omega (arith, same, s))), sound-OwnsApart ty heap a table h)

pub clear-Accounted : (c : Cache) → NoDangling c → Accounted (clear c)
unfolding clear owned_size
clear-Accounted c s = record { sound = (s.0, tt); distinct = tt; balance = refl }

clear-Ready :
    (url effective_url : String) (len : ℕ) (c : Cache)
    → NoDangling c
    → len < 2 ^ 31
    → Ready url effective_url len (clear c)
unfolding clear find
clear-Ready url effective_url len c s small = record {
  accounts = clear-Accounted c s;
  missing = refl;
  free = inr refl;
  small = omega (arith, small);
}

evicted-Ready :
    (url effective_url : String) (c : Cache) (t : MediaType) (new_len : ℕ)
    → Ready url effective_url new_len c
    → let done = evict_passes c.heap c.table t new_len in
      Ready url effective_url new_len (record c {
        heap = done.heap;
        table = done.table;
        stored_size = stored_minus c.stored_size done.freed;
      })
evicted-Ready url effective_url c t new_len r =
    let (ty, h) = r.accounts.sound in
    let left =
      evict_passes-Leaves ty c.heap c.next_address c.table t new_len h r.accounts.distinct in
    record {
      accounts = record {
        sound = (ty, evict_passes-IsSound ty c.next_address c.heap c.table t new_len h);
        distinct = left.0;
        balance = omega (arith, left.1, r.accounts.balance, r.small);
      };
      missing = find-evict_passes-none url c.heap c.table t new_len r.missing;
      free = elim r.free [
        | inl same ↦ inl same
        | inr missing ↦ inr (find-evict_passes-none effective_url c.heap c.table t new_len missing)
      ];
      small = omega (arith, left.1, r.accounts.balance, r.small);
    }

pub allocate_slot-Ready :
    (url effective_url : String) (c : Cache) (t : MediaType) (new_len : ℕ)
    → Ready url effective_url new_len c
    → Ready url effective_url new_len (allocate_slot c t new_len).0
unfolding allocate_slot
allocate_slot-Ready url effective_url c t new_len r = elim (Bool-cases (is_empty c.table)) [
  | inl e ↦ rw e r
  | inr e ↦ elim (Bool-cases (is_manifest t)) [
    | inl m ↦
        rw (e, m)
          (clear-Ready url effective_url new_len c r.accounts.sound (omega (arith, r.small)))
    | inr m ↦ rw (e, m) (evicted-Ready url effective_url c t new_len r)
  ]
]

-- With neither key in the table a store puts its entries in front.
stored_front :
    (url effective_url : String) (e : Entry) (table : Table)
    → find url table ≡ none
    → str_eq url effective_url ≡ false
    → (str_eq url effective_url ≡ true) ⊎ (find effective_url table ≡ none)
    → remove effective_url (put url e table) ≡ (url, e) ∷ table
unfolding put find
stored_front url effective_url e table missing other (inl same) = cc
stored_front url effective_url e table missing other (inr free) =
    rw (remove_missing url table missing)
      (remove_missing effective_url ((url, e) ∷ table) (rw other free))

-- The entries of a store: the new owner, and in front of it the entry for the effective URL.
store-Accounted :
    (c : Cache) (url : String) (bytes : List ℕ) (effective_url : String) (t : MediaType)
    → Ready url effective_url (length bytes) c
    → Accounted (store c url bytes effective_url t)
unfolding store put owned_size
store-Accounted c url bytes effective_url t r =
    let (ty, h) = r.accounts.sound in
    let a = c.next_address in
    let size = owned_size-allocate ty c.heap a bytes c.table h ∙ r.accounts.balance in
    let apart = sound-OwnsApart ty c.heap a c.table h in
    let sound = store-NoDangling url bytes effective_url t c r.accounts.sound in
    elim (Bool-cases (str_eq url effective_url)) [
      | inl same ↦ record {
        sound = sound;
        distinct = rw (same, remove_missing url c.table r.missing) (inr apart, r.accounts.distinct);
        balance =
            rw (same, remove_missing url c.table r.missing, allocate_self c.heap a bytes)
              (omega (arith, size, r.small));
      }
      | inr other ↦
          let front =
            stored_front url effective_url (new_entry a effective_url t false) c.table r.missing
              other r.free in
          record {
            sound = sound;
            distinct = rw (other, front) (inl refl, (inr apart, r.accounts.distinct));
            balance =
                rw (other, front, allocate_self c.heap a bytes) (omega (arith, size, r.small));
          }
    ]

module _ (url : String) (bytes : List ℕ) (effective_url : String) (t : MediaType) where
  insert_sized-Accounted :
      (c : Cache)
      → Ready url effective_url (length bytes) c
      → Accounted (insert_sized c url bytes effective_url t)
  insert_sized-Accounted c r =
      let r' = allocate_slot-Ready url effective_url c t (length bytes) r in
      insert_sized_cases Accounted url bytes effective_url t c r.accounts
        (λ _ _. store-Accounted c url bytes effective_url t r) r'.accounts
        (λ _ _ _. store-Accounted _ url bytes effective_url t r')

  flush-Ready :
      (c : Cache)
      → Accounted c
      → find url c.table ≡ none
      → KeepsEntries c url effective_url
      → c.stored_size + length bytes < 2 ^ 31
      → Ready url effective_url (length bytes) (flush_for_manifest c t)
  flush-Ready c a missing free small =
      flush_cases (Ready url effective_url (length bytes)) url bytes effective_url t c
        (record { accounts = a; missing = missing; free = free; small = small })
        (clear-Ready url effective_url (length bytes) c a.sound (omega (arith, small)))

  -- After an insertion the owned buffers still add up to mCacheStoredSize, no two entries own one
  -- buffer and none is dangling, if that held before, the effective URL is the key itself or no key of
  -- the table, and mCacheStoredSize with the size of the new playlist is below 2 ^ 31.
  pub insert-Accounted :
      (c : Cache) (live : Bool)
      → Accounted c
      → KeepsEntries c url effective_url
      → c.stored_size + length bytes < 2 ^ 31
      → Accounted (insert c url bytes effective_url live t)
  insert-Accounted c live a free small =
      insert_cases Accounted url bytes effective_url t c live a λ missing.
        insert_sized-Accounted (flush_for_manifest c t) (flush-Ready c a missing free small)
