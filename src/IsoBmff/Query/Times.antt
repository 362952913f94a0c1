-- ===== src/IsoBmff/Query/Times.antt =====
-- getFirstPTS on the boxes of a well-formed structure.
use openplatform_rdk_aamp.Prelude.{
  ℕ, ◌+◌, ◌<◌, ◌≡◌, refl, List, [], ◌∷◌, ◌++◌, length, true, false, arith, ◌^◌,
}
use openplatform_rdk_aamp.IsoBmff.{Boxes, tfdt, mvhd, mdhd, is_type}
use openplatform_rdk_aamp.IsoBmff.Parse.{ok, parse_buffer, is_container_type}
use openplatform_rdk_aamp.IsoBmff.Tree.{
  Tree, leaf, node, movie_header, media_header, decode_time, Trees, none_left, before, encode_all,
  box_of, boxes_of, tree_size, WellFormed, AllWellFormed,
}
use openplatform_rdk_aamp.IsoBmff.RoundTrip.{parse_buffer-encode}
use openplatform_rdk_aamp.IsoBmff.Query.{Answer, found, absent, or_else, first_pts}

-- The decode times of a structure, in the order of the file.
unfoldable mutual
  pub times : Tree → List ℕ
  times (leaf type payload) = []
  times (node type trees) = times_all trees
  times (movie_header h) = []
  times (media_header h) = []
  times (decode_time d) = d.time ∷ []

  pub times_all : Trees → List ℕ
  times_all none_left = []
  times_all (before t ts) = times t ++ times_all ts

abbrev pub first_of : List ℕ → Answer ℕ
first_of [] = absent
first_of (v ∷ vs) = found v

first_of-append : (xs ys : List ℕ) → first_of (xs ++ ys) ≡ or_else (first_of xs) (first_of ys)
first_of-append [] ys = refl
first_of-append (x ∷ xs) ys = refl

-- No type of a container is that of a box with fields.
pub container_type-ne :
    (type : List ℕ)
    → is_container_type type ≡ true
    → (is_type type tfdt ≡ false) × (is_type type mvhd ≡ false) × (is_type type mdhd ≡ false)
unfolding is_container_type is_type
container_type-ne [] h = absurd (cc)
container_type-ne (t0 ∷ []) h = absurd (cc)
container_type-ne (t0 ∷ t1 ∷ []) h = absurd (cc)
container_type-ne (t0 ∷ t1 ∷ t2 ∷ []) h = absurd (cc)
container_type-ne (t0 ∷ t1 ∷ t2 ∷ t3 ∷ []) h = ground arith
container_type-ne (t0 ∷ t1 ∷ t2 ∷ t3 ∷ t4 ∷ more) h = absurd (cc)

mutual
  unfolding first_pts times box_of WellFormed is_type

  pub first_pts-boxes_of :
      (ts : Trees) (offset : ℕ)
      → AllWellFormed ts
      → first_pts (boxes_of offset ts) ≡ first_of (times_all ts)
  first_pts-boxes_of none_left offset w = refl
  first_pts-boxes_of (before (leaf type payload) ts) offset (w, ws) =
      rw w.1.1 (first_pts-boxes_of ts (offset + tree_size (leaf type payload)) ws)
  first_pts-boxes_of (before (node type trees) ts) offset (w, ws) =
      rw
        (
          (container_type-ne type w.1).0,
          first_pts-boxes_of trees 8 w.3,
          first_pts-boxes_of ts (offset + tree_size (node type trees)) ws,
          first_of-append (times_all trees) (times_all ts),
        )
        refl
  first_pts-boxes_of (before (movie_header h) ts) offset (w, ws) =
      first_pts-boxes_of ts (offset + tree_size (movie_header h)) ws
  first_pts-boxes_of (before (media_header h) ts) offset (w, ws) =
      first_pts-boxes_of ts (offset + tree_size (media_header h)) ws
  first_pts-boxes_of (before (decode_time d) ts) offset (w, ws) = refl

-- On the bytes of a well-formed structure, parseBuffer followed by getFirstPTS yields the first decode
-- time in the order of the file, at whatever depth it stands, and fails exactly where there is none.
pub first_pts-parse :
    (ts : Trees) (fuel : ℕ)
    → AllWellFormed ts
    → length (encode_all ts) < 2 ^ 32
    → length (encode_all ts) < fuel
    → (boxes : Boxes) × (parse_buffer fuel (encode_all ts) ≡ ok boxes)
      × (first_pts boxes ≡ first_of (times_all ts))
first_pts-parse ts fuel w small enough =
    (boxes_of 0 ts, parse_buffer-encode ts fuel w small enough, first_pts-boxes_of ts 0 w)
