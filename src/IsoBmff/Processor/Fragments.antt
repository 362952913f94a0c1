-- ===== src/IsoBmff/Processor/Fragments.antt =====
-- What sendSegment sees of a fragment that is a well-formed box structure.
use openplatform_rdk_aamp.Prelude.{
  ℕ, suc, ◌+◌, ◌^◌, ◌<◌, ◌≡◌, refl, List, ◌∷◌, length, Bool, true, false, arith, if◌then◌else◌,
}
use openplatform_rdk_aamp.IsoBmff.{ftyp, is_type}
use openplatform_rdk_aamp.IsoBmff.Tree.{
  leaf, node, movie_header, media_header, decode_time, Trees, none_left, before, encode_all, box_of,
  boxes_of, tree_size, type_of, AllWellFormed,
}
use openplatform_rdk_aamp.IsoBmff.RoundTrip.{parse_buffer-encode}
use openplatform_rdk_aamp.IsoBmff.Query
use openplatform_rdk_aamp.IsoBmff.Query.{is_init_segment, get_time_scale, first_pts}
use openplatform_rdk_aamp.IsoBmff.Query.Times.{times_all, first_pts-boxes_of}
use openplatform_rdk_aamp.IsoBmff.Query.Scales.{media_scales_all, get_time_scale-media}
use openplatform_rdk_aamp.IsoBmff.Processor.{going, view}

-- A file type box at the top level.
unfoldable pub has_ftyp : Trees → Bool
has_ftyp none_left = false
has_ftyp (before t ts) = let rest = has_ftyp ts in if is_type (type_of t) ftyp then true else rest

abbrev pub IsFragment : Trees → Type 0
IsFragment ts = AllWellFormed ts × (length (encode_all ts) < 2 ^ 32)

-- An init segment: a file type box, and a first media header with this time scale, not 0.
abbrev pub IsInit : Trees → ℕ → Type 0
IsInit ts v =
    IsFragment ts
    × (has_ftyp ts ≡ true)
    × ((vs : List ℕ) × (media_scales_all ts ≡ v ∷ vs))
    × (0 < v)

-- A media fragment, with this first decode time.
abbrev pub IsMedia : Trees → ℕ → Type 0
IsMedia ts t = IsFragment ts × (has_ftyp ts ≡ false) × ((rest : List ℕ) × (times_all ts ≡ t ∷ rest))

pub view-encode : (ts : Trees) → IsFragment ts → view (encode_all ts) ≡ going (boxes_of 0 ts)
unfolding view
view-encode ts f =
    rw (parse_buffer-encode ts (suc (length (encode_all ts))) f.0 f.1 (omega arith)) refl

pub is_init_segment-boxes_of :
    (ts : Trees) (offset : ℕ) → is_init_segment (boxes_of offset ts) ≡ has_ftyp ts
unfolding is_init_segment has_ftyp box_of
is_init_segment-boxes_of none_left offset = refl
is_init_segment-boxes_of (before (leaf type payload) ts) offset =
    rw (is_init_segment-boxes_of ts (offset + tree_size (leaf type payload))) refl
is_init_segment-boxes_of (before (node type trees) ts) offset =
    rw (is_init_segment-boxes_of ts (offset + tree_size (node type trees))) refl
is_init_segment-boxes_of (before (movie_header h) ts) offset =
    rw (is_init_segment-boxes_of ts (offset + tree_size (movie_header h))) refl
is_init_segment-boxes_of (before (media_header h) ts) offset =
    rw (is_init_segment-boxes_of ts (offset + tree_size (media_header h))) refl
is_init_segment-boxes_of (before (decode_time d) ts) offset =
    rw (is_init_segment-boxes_of ts (offset + tree_size (decode_time d))) refl

pub init-time_scale :
    (ts : Trees) (v : ℕ)
    → IsInit ts v
    → get_time_scale (boxes_of 0 ts) 0
      ≡ Query.found (record { ret = true; time_scale = v; found_mdhd = true })
init-time_scale ts v i = get_time_scale-media ts 0 v i.2.0 i.0.0 i.2.1

pub media-first_pts :
    (ts : Trees) (t : ℕ) → IsMedia ts t → first_pts (boxes_of 0 ts) ≡ Query.found t
media-first_pts ts t m = rw (first_pts-boxes_of ts 0 m.0.0, m.2.1) refl
