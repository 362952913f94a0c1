-- ===== src/PlaylistCache/Lookup.antt =====
-- What an insertion makes retrievable, and what it leaves alone.
use openplatform_rdk_aamp.Prelude.{
  ℕ, ◌≡◌, refl, List, [], ◌∷◌, none, some, Bool, true, false, not, ◌||◌, arith, inl, inr,
  Bool-cases, length, if◌then◌else◌,
}
use Prim.Native.String.{String}
use text.Mathlib.Text.{◌==◌ as str_eq}
use text.Mathlib.TextEquality.{eq_iff}
use text.Mathlib.TextPositions.{eq_refl}
use openplatform_rdk_aamp.PlaylistCache.{
  MediaType, Table, Cache, Entry, is_manifest, store, insert_sized, flush_for_manifest, insert,
  above_max, below_max, stored_sum, find, put, new_entry, retrieve, found,
}
use openplatform_rdk_aamp.PlaylistCache.Table.{find-put, allocate_self}
use openplatform_rdk_aamp.PlaylistCache.Eviction.{keep}

pub find-store :
    (c : Cache) (url k : String) (bytes : List ℕ) (effective_url : String) (t : MediaType)
    → find k (store c url bytes effective_url t).table ≡ (
        if str_eq effective_url k
        then some (new_entry c.next_address effective_url t (not (str_eq url effective_url)))
        else (if str_eq url k
            then some (new_entry c.next_address effective_url t false)
            else find k c.table))
unfolding store
find-store c url k bytes effective_url t = elim (Bool-cases (str_eq url effective_url)) [
  | inl same ↦
      rw (same, find-put url k (new_entry c.next_address effective_url t false) c.table)
        (ground (arith, eq_iff url effective_url, eq_iff url k, eq_iff effective_url k))
  | inr other ↦
      rw
        (
          other,
          find-put effective_url k (new_entry c.next_address effective_url t true)
              (put url (new_entry c.next_address effective_url t false) c.table),
          find-put url k (new_entry c.next_address effective_url t false) c.table,
        )
        refl
]

pub retrieve_hit :
    (c : Cache) (k : String) (d : Entry) (bytes : List ℕ)
    → find k c.table ≡ some d
    → c.heap d.cached_buffer ≡ some bytes
    → retrieve c k ≡ found bytes d.effective_url
unfolding retrieve
retrieve_hit c k d bytes f h = rw (f, retrieve, h) refl

heap-store :
    (c : Cache) (url : String) (bytes : List ℕ) (effective_url : String) (t : MediaType)
    → (store c url bytes effective_url t).heap c.next_address ≡ some bytes
unfolding store
heap-store c url bytes effective_url t = allocate_self c.heap c.next_address bytes

-- A playlist of this size is stored with no eviction.
abbrev pub Fits : Cache → ℕ → Type 0
Fits c n =
    (below_max c.max_size n ≡ true) × (above_max c.max_size (stored_sum c.stored_size n) ≡ false)

module _ (url : String) (bytes : List ℕ) (effective_url : String) (t : MediaType) where
  -- Both keys lead to the new buffer.
  abbrev pub Serves : Cache → Type 0
  Serves c =
      (retrieve c url ≡ found bytes effective_url)
      × (retrieve c effective_url ≡ found bytes effective_url)

  serves_from :
      (c : Cache) (k : String) (duplicate : Bool)
      → find k (store c url bytes effective_url t).table
        ≡ some (new_entry c.next_address effective_url t duplicate)
      → retrieve (store c url bytes effective_url t) k ≡ found bytes effective_url
  serves_from c k duplicate f =
      retrieve_hit (store c url bytes effective_url t) k
        (new_entry c.next_address effective_url t duplicate) bytes f
        (heap-store c url bytes effective_url t)

  store-Serves : (c : Cache) → Serves (store c url bytes effective_url t)
  store-Serves c = (
    elim (Bool-cases (str_eq effective_url url)) [
      | inl same ↦
          serves_from c url (not (str_eq url effective_url))
            (rw (find-store c url url bytes effective_url t, same) refl)
      | inr other ↦
          serves_from c url false
            (rw (find-store c url url bytes effective_url t, other, eq_refl url) refl)
    ],
    serves_from c effective_url (not (str_eq url effective_url))
        (rw (find-store c url effective_url bytes effective_url t, eq_refl effective_url) refl),
  )

  pub store_direct :
      (c : Cache)
      → Fits c (length bytes)
      → insert_sized c url bytes effective_url t ≡ store c url bytes effective_url t
  unfolding insert_sized
  store_direct c (small, room) = rw (small, room) refl

  -- After an insertion both the URL and the effective URL retrieve the playlist, when the insertion is
  -- allowed by type, its URL is not cached yet, and its size fits without an eviction once a new
  -- manifest has flushed the table.
  pub retrieve-insert :
      (c : Cache) (live : Bool)
      → (not live || is_manifest t) ≡ true
      → find url c.table ≡ none
      → Fits (flush_for_manifest c t) (length bytes)
      → Serves (insert c url bytes effective_url live t)
  unfolding insert
  retrieve-insert c live allowed missing fits =
      rw (allowed, missing, insert)
        (rw (store_direct (flush_for_manifest c t) fits) (store-Serves (flush_for_manifest c t)))

-- A pass keeps an entry whose type it does not drop, and so does the pair of passes for a manifest.
pub find-keep :
    (drop_type : MediaType → Bool) (k : String) (d : Entry) (table : Table)
    → find k table ≡ some d
    → drop_type d.file_type ≡ false
    → find k (keep drop_type table) ≡ some d
unfolding find keep
find-keep drop_type k d [] f h = cc
find-keep drop_type k d ((j, e) ∷ table) f h = ground (arith, find-keep drop_type k d table)
