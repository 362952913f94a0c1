-- ===== src/IsoBmff/Examples.antt =====
-- A small init segment and a small fragment, and the theorems of the parser, the queries and the
-- processor on them.
use openplatform_rdk_aamp.Prelude.{ℕ, ◌≡◌, refl, List, [], ◌∷◌, ◌++◌, length, true, arith, Option}
use openplatform_rdk_aamp.IsoBmff.{Boxes, ftyp, mdat, moov, trak, mdia, moof, traf, is_type}
use openplatform_rdk_aamp.IsoBmff.Words.{write_uint64, bytes64}
use openplatform_rdk_aamp.IsoBmff.Parse
use openplatform_rdk_aamp.IsoBmff.Parse.{parse_buffer, is_container_type}
use openplatform_rdk_aamp.IsoBmff.Tree.{
  Tree, leaf, node, movie_header, media_header, decode_time, Header, DecodeTime, Trees, none_left,
  before, encode, encode_all, body, boxes_of, AllWellFormed, WellFormed, IsLeafType, tree_size,
}
use openplatform_rdk_aamp.IsoBmff.RoundTrip.{parse_buffer-encode}
use openplatform_rdk_aamp.IsoBmff.Endless.{parse_buffer_endless}
use openplatform_rdk_aamp.IsoBmff.Query
use openplatform_rdk_aamp.IsoBmff.Query.{
  first_pts, get_time_scale, parse_mdat_box, get_mdat_box_size,
}
use openplatform_rdk_aamp.IsoBmff.Query.Times.{times_all, first_of, first_pts-parse}
use openplatform_rdk_aamp.IsoBmff.Query.Scales.{media_scales_all, get_time_scale-media}
use openplatform_rdk_aamp.IsoBmff.Query.Payload.{first_payload, with_header, parse_mdat_box-parse}

abbrev pub movie : Header
movie = record {
  version = 0;
  flags = 0 ∷ 0 ∷ 0 ∷ [];
  times = 0 ∷ 0 ∷ 0 ∷ 0 ∷ 0 ∷ 0 ∷ 0 ∷ 0 ∷ [];
  time_scale = 600;
  rest = [];
}

abbrev pub media_head : Header
media_head = record {
  version = 0;
  flags = 0 ∷ 0 ∷ 0 ∷ [];
  times = 0 ∷ 0 ∷ 0 ∷ 0 ∷ 0 ∷ 0 ∷ 0 ∷ 0 ∷ [];
  time_scale = 90000;
  rest = 0 ∷ 0 ∷ [];
}

abbrev pub first_time : DecodeTime
first_time = record { version = 1; flags = 0 ∷ 0 ∷ 0 ∷ []; time = 180000; rest = [] }

abbrev pub single : Tree → Trees
single t = before t none_left

abbrev pub init_trees : Trees
init_trees = before (leaf ftyp (1 ∷ 2 ∷ 3 ∷ 4 ∷ [])) (
    single (
      node moov (
        before (movie_header movie)
          (single (node trak (single (node mdia (single (media_header media_head)))))))))

abbrev pub media_trees : Trees
media_trees =
    before (node moof (single (node traf (single (decode_time first_time)))))
      (single (leaf mdat (9 ∷ 8 ∷ 7 ∷ [])))

pub init_trees-AllWellFormed : AllWellFormed init_trees
unfolding WellFormed is_container_type is_type tree_size body encode
init_trees-AllWellFormed = (
  (refl, (refl, refl, refl, refl), omega arith),
  (
    (
      refl,
      refl,
      omega arith,
      (
        ((refl, refl, omega arith), omega arith),
        (
          (
            refl,
            refl,
            omega arith,
            ((refl, refl, omega arith, (((refl, refl, omega arith), omega arith), tt)), tt),
          ),
          tt,
        ),
      ),
    ),
    tt,
  ),
)

pub media_trees-AllWellFormed : AllWellFormed media_trees
unfolding WellFormed is_container_type is_type tree_size body encode
media_trees-AllWellFormed = (
  (
    refl,
    refl,
    omega arith,
    ((refl, refl, omega arith, (((refl, omega arith), omega arith), tt)), tt),
  ),
  ((refl, (refl, refl, refl, refl), omega arith), tt),
)

pub init_length : length (encode_all init_trees) ≡ 86
unfolding encode
init_length = refl

pub media_length : length (encode_all media_trees) ≡ 47
unfolding encode
media_length = refl

parse_buffer-encode_example :
    parse_buffer 100 (encode_all init_trees) ≡ Parse.ok (boxes_of 0 init_trees)
parse_buffer-encode_example =
    parse_buffer-encode init_trees 100 init_trees-AllWellFormed (omega (arith, init_length))
      (omega (arith, init_length))

abbrev eight_bytes : List ℕ
eight_bytes = 0 ∷ 0 ∷ 0 ∷ 0 ∷ 0 ∷ 0 ∷ 0 ∷ 0 ∷ 5 ∷ []

written : write_uint64 eight_bytes 180000 ≡ Option.some (bytes64 180000 ++ 5 ∷ [])
unfolding write_uint64
written = refl

free_leaf : IsLeafType (b'f' ∷ b'r' ∷ b'e' ∷ b'e' ∷ [])
unfolding is_container_type is_type
free_leaf = (refl, refl, refl, refl)

parse_buffer_endless_example :
    parse_buffer 1000 (0 ∷ 0 ∷ 0 ∷ 0 ∷ b'f' ∷ b'r' ∷ b'e' ∷ b'e' ∷ []) ≡ Parse.stuck
parse_buffer_endless_example = parse_buffer_endless b'f' b'r' b'e' b'e' [] free_leaf 1000

first_pts-parse_example :
    (boxes : Boxes) × (parse_buffer 100 (encode_all media_trees) ≡ Parse.ok boxes)
    × (first_pts boxes ≡ first_of (times_all media_trees))
first_pts-parse_example =
    first_pts-parse media_trees 100 media_trees-AllWellFormed (omega (arith, media_length))
      (omega (arith, media_length))

pub init_scales : media_scales_all init_trees ≡ 90000 ∷ []
unfolding media_scales_all
init_scales = refl

get_time_scale-media_example :
    get_time_scale (boxes_of 0 init_trees) 0
    ≡ Query.found (record { ret = true; time_scale = 90000; found_mdhd = true })
get_time_scale-media_example =
    get_time_scale-media init_trees 0 90000 [] init_trees-AllWellFormed init_scales

parse_mdat_box-parse_example :
    (boxes : Boxes) × (parse_buffer 100 (encode_all media_trees) ≡ Parse.ok boxes)
    × (parse_mdat_box (encode_all media_trees) boxes ≡ first_payload media_trees)
    × (get_mdat_box_size boxes ≡ with_header (first_payload media_trees))
parse_mdat_box-parse_example =
    parse_mdat_box-parse media_trees 100 media_trees-AllWellFormed (omega (arith, media_length))
      (omega (arith, media_length))
