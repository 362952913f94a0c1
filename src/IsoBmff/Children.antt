-- ===== src/IsoBmff/Children.antt =====
-- constructBox and constructContainer read back a well-formed structure.
use openplatform_rdk_aamp.Prelude.{
  ℕ, zero, suc, ◌+◌, ◌-◌, ◌%◌, ◌^◌, ◌≤◌, ◌<◌, ◌≡◌, refl, List, ◌++◌, length, length-append,
  drop-append, true, false, arith, ltb, ◌∙◌, lt→ltb,
}
use mathlib.Core.List.{append_assoc}
use openplatform_rdk_aamp.IsoBmff.{
  Boxes, nil, cons, size_of, set_offset, plain, container, mvhd_box, mdhd_box, tfdt_box, mvhd, mdhd,
  tfdt, is_type,
}
use openplatform_rdk_aamp.IsoBmff.Parse.{ok, construct_box, construct_children, is_container_type}
use openplatform_rdk_aamp.IsoBmff.Tree.{
  Tree, leaf, node, movie_header, media_header, decode_time, Trees, none_left, before, encode,
  encode_all, body, tree_size, box_of, boxes_of, framed, WellFormed, AllWellFormed, Header,
  DecodeTime, HeaderFits, TimeFits, header_body, time_body, IsLeafType, header_full, time_full,
}
use openplatform_rdk_aamp.IsoBmff.Reads.{
  construct_box-framed, construct_header_box-body, construct_tfdt_box-body,
}

-- The rounds that a structure takes.
unfoldable mutual
  pub cost : Tree → ℕ
  cost (leaf type payload) = 1
  cost (node type trees) = suc (cost_all trees)
  cost (movie_header h) = 1
  cost (media_header h) = 1
  cost (decode_time d) = 1

  pub cost_all : Trees → ℕ
  cost_all none_left = 1
  cost_all (before t ts) = suc (cost t + cost_all ts)

framed-length : (type body : List ℕ) → length type ≡ 4 → length (framed type body) ≡ 8 + length body
framed-length type body e = omega (arith, length-append type body)

WellFormed-small : (t : Tree) → WellFormed t → tree_size t < 2 ^ 32
unfolding WellFormed
WellFormed-small (leaf type payload) w = w.2
WellFormed-small (node type trees) w = w.2
WellFormed-small (movie_header h) w = w.1
WellFormed-small (media_header h) w = w.1
WellFormed-small (decode_time d) w = w.1

pub length-encode : (t : Tree) → WellFormed t → length (encode t) ≡ tree_size t
unfolding encode tree_size WellFormed
length-encode (leaf type payload) w = framed-length type payload w.0
length-encode (node type trees) w = framed-length type (encode_all trees) w.0
length-encode (movie_header h) w = framed-length mvhd (header_body h) refl
length-encode (media_header h) w = framed-length mdhd (header_body h) refl
length-encode (decode_time d) w = framed-length tfdt (time_body d) refl

pub set_offset-box_of : (t : Tree) (offset : ℕ) → set_offset (box_of 0 t) offset ≡ box_of offset t
unfolding box_of
set_offset-box_of (leaf type payload) offset = refl
set_offset-box_of (node type trees) offset = refl
set_offset-box_of (movie_header h) offset = refl
set_offset-box_of (media_header h) offset = refl
set_offset-box_of (decode_time d) offset = refl

pub size_of-box_of : (t : Tree) (offset : ℕ) → size_of (box_of offset t) ≡ tree_size t
unfolding box_of
size_of-box_of (leaf type payload) offset = refl
size_of-box_of (node type trees) offset = refl
size_of-box_of (movie_header h) offset = refl
size_of-box_of (media_header h) offset = refl
size_of-box_of (decode_time d) offset = refl

-- constructBox goes past its size check.
not_above : (max_size size : ℕ) → size ≤ max_size → ltb max_size size ≡ false
not_above max_size size h = ground arith

module _ (fuel max_size : ℕ) (rest : List ℕ) where
  leaf_box :
      (type payload : List ℕ)
      → length type ≡ 4
      → IsLeafType type
      → 8 + length payload < 2 ^ 32
      → 8 + length payload ≤ max_size
      → construct_box (suc fuel) (framed type payload ++ rest) max_size
        ≡ ok (plain (record { offset = 0; size = 8 + length payload; type = type }))
  leaf_box type payload e (c, d, v, m) small fits =
      construct_box-framed fuel max_size type payload rest e small
      ∙ rw (not_above max_size (8 + length payload) fits, c, d, v, m) refl

  node_box :
      (type payload : List ℕ) (boxes : Boxes)
      → length type ≡ 4
      → is_container_type type ≡ true
      → 8 + length payload < 2 ^ 32
      → 8 + length payload ≤ max_size
      → construct_children fuel (payload ++ rest) 8 (8 + length payload) ≡ ok boxes
      → construct_box (suc fuel) (framed type payload ++ rest) max_size
        ≡ ok (container (record { offset = 0; size = 8 + length payload; type = type }) boxes)
  node_box type payload boxes e c small fits children =
      construct_box-framed fuel max_size type payload rest e small
      ∙ rw (not_above max_size (8 + length payload) fits, c, children) refl

  movie_box :
      (h : Header)
      → HeaderFits h
      → 8 + length (header_body h) < 2 ^ 32
      → 8 + length (header_body h) ≤ max_size
      → construct_box (suc fuel) (framed mvhd (header_body h) ++ rest) max_size
        ≡ ok (
            mvhd_box
              (record { offset = 0; size = 8 + length (header_body h); type = mvhd })
              (header_full h)
              h.time_scale)
  unfolding is_container_type is_type
  movie_box h w small fits =
      construct_box-framed fuel max_size mvhd (header_body h) rest refl small
      ∙ rw (not_above max_size (8 + length (header_body h)) fits)
          (construct_header_box-body mvhd_box _ h rest w)

  media_box :
      (h : Header)
      → HeaderFits h
      → 8 + length (header_body h) < 2 ^ 32
      → 8 + length (header_body h) ≤ max_size
      → construct_box (suc fuel) (framed mdhd (header_body h) ++ rest) max_size
        ≡ ok (
            mdhd_box
              (record { offset = 0; size = 8 + length (header_body h); type = mdhd })
              (header_full h)
              h.time_scale)
  unfolding is_container_type is_type
  media_box h w small fits =
      construct_box-framed fuel max_size mdhd (header_body h) rest refl small
      ∙ rw (not_above max_size (8 + length (header_body h)) fits)
          (construct_header_box-body mdhd_box _ h rest w)

  time_box :
      (d : DecodeTime)
      → TimeFits d
      → 8 + length (time_body d) < 2 ^ 32
      → 8 + length (time_body d) ≤ max_size
      → construct_box (suc fuel) (framed tfdt (time_body d) ++ rest) max_size
        ≡ ok (
            tfdt_box
              (record { offset = 0; size = 8 + length (time_body d); type = tfdt })
              (time_full d)
              d.time)
  unfolding is_container_type is_type
  time_box d w small fits =
      construct_box-framed fuel max_size tfdt (time_body d) rest refl small
      ∙ rw (not_above max_size (8 + length (time_body d)) fits) (construct_tfdt_box-body _ d rest w)

children_end :
    (fuel cur_offset : ℕ) (memory : List ℕ)
    → construct_children (suc fuel) memory cur_offset (cur_offset + 0) ≡ ok nil
unfolding construct_children
children_end fuel cur_offset memory =
    let e : ltb cur_offset (cur_offset + 0) ≡ false = ground arith in
    rw (e, construct_children) refl

children_step :
    (t : Tree) (fuel cur_offset size : ℕ) (memory next : List ℕ) (boxes : Boxes)
    → cur_offset < size
    → length memory ≡ tree_size t
    → cur_offset + tree_size t < 2 ^ 32
    → construct_box fuel (memory ++ next) (size - cur_offset) ≡ ok (box_of 0 t)
    → construct_children fuel next (cur_offset + tree_size t) size ≡ ok boxes
    → construct_children (suc fuel) (memory ++ next) cur_offset size
      ≡ ok (cons (box_of cur_offset t) boxes)
unfolding construct_children
children_step t fuel cur_offset size memory next boxes more len small box rest =
    let no_wrap : (cur_offset + tree_size t) % 2 ^ 32 ≡ cur_offset + tree_size t = omega arith in
    rw (lt→ltb cur_offset size more, construct_children)
      (rw (box, size_of-box_of t 0, no_wrap)
        (rw (← len, drop-append) (rw (len, rest, set_offset-box_of t cur_offset) refl)))

pub tree_size_pos : (t : Tree) → 8 ≤ tree_size t
unfolding tree_size
tree_size_pos t = omega arith

-- The end of a list of children, counted from its first child or from the next.
pub ends_alike :
    (cur_offset : ℕ) (t : Tree) (tail : List ℕ)
    → WellFormed t
    → cur_offset + length (encode t ++ tail) ≡ cur_offset + tree_size t + length tail
ends_alike cur_offset t tail w = omega (arith, length-append (encode t) tail, length-encode t w)

mutual
  unfolding encode box_of WellFormed cost tree_size

  pub construct_box-encode :
      (t : Tree) (fuel max_size : ℕ) (rest : List ℕ)
      → WellFormed t
      → cost t ≤ fuel
      → tree_size t ≤ max_size
      → construct_box fuel (encode t ++ rest) max_size ≡ ok (box_of 0 t)
  construct_box-encode (leaf type payload) zero max_size rest w c m = absurd (omega arith)
  construct_box-encode (leaf type payload) (suc fuel) max_size rest w c m =
      leaf_box fuel max_size rest type payload w.0 w.1 w.2 m
  construct_box-encode (node type trees) zero max_size rest w c m = absurd (omega arith)
  construct_box-encode (node type trees) (suc fuel) max_size rest (e, k, small, all) c m =
      node_box fuel max_size rest type (encode_all trees) (boxes_of 8 trees) e k small m
        (construct_children-encode trees fuel 8 rest all (omega arith) small)
  construct_box-encode (movie_header h) zero max_size rest w c m = absurd (omega arith)
  construct_box-encode (movie_header h) (suc fuel) max_size rest w c m =
      movie_box fuel max_size rest h w.0 w.1 m
  construct_box-encode (media_header h) zero max_size rest w c m = absurd (omega arith)
  construct_box-encode (media_header h) (suc fuel) max_size rest w c m =
      media_box fuel max_size rest h w.0 w.1 m
  construct_box-encode (decode_time d) zero max_size rest w c m = absurd (omega arith)
  construct_box-encode (decode_time d) (suc fuel) max_size rest w c m =
      time_box fuel max_size rest d w.0 w.1 m

  pub construct_children-encode :
      (ts : Trees) (fuel cur_offset : ℕ) (rest : List ℕ)
      → AllWellFormed ts
      → cost_all ts ≤ fuel
      → cur_offset + length (encode_all ts) < 2 ^ 32
      → construct_children fuel
          (encode_all ts ++ rest)
          cur_offset
          (cur_offset + length (encode_all ts))
        ≡ ok (boxes_of cur_offset ts)
  construct_children-encode none_left zero cur_offset rest w c m = absurd (omega arith)
  construct_children-encode none_left (suc fuel) cur_offset rest w c m =
      children_end fuel cur_offset rest
  construct_children-encode (before t ts) zero cur_offset rest w c m = absurd (omega arith)
  construct_children-encode (before t ts) (suc fuel) cur_offset rest (w, ws) c m =
      let size = cur_offset + length (encode t ++ encode_all ts) in
      let e = ends_alike cur_offset t (encode_all ts) w in
      let inner =
        construct_children-encode ts fuel (cur_offset + tree_size t) rest ws (omega arith)
          (omega (arith, e, m)) in
      rw (append_assoc, e)
        (children_step t fuel cur_offset _ (encode t) (encode_all ts ++ rest)
          (boxes_of (cur_offset + tree_size t) ts) (omega (arith, tree_size_pos t))
          (length-encode t w) (omega (arith, e, m))
          (construct_box-encode t fuel _ (encode_all ts ++ rest) w (omega arith) (omega arith))
          inner)
