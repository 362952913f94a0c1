-- ===== src/IsoBmff/RoundTrip.antt =====
-- parseBuffer reads back every well-formed box structure, with its offsets and sizes.
use openplatform_rdk_aamp.Prelude.{
  ℕ, zero, suc, ◌+◌, ◌-◌, ◌%◌, ◌^◌, ◌≤◌, ◌<◌, ◌≡◌, refl, List, [], ◌++◌, length, length-append,
  drop-append, false, arith, ltb, lt→ltb,
}
use openplatform_rdk_aamp.IsoBmff.{Boxes, nil, cons}
use openplatform_rdk_aamp.IsoBmff.Parse.{ok, construct_box, parse_loop, parse_buffer}
use openplatform_rdk_aamp.IsoBmff.Tree.{
  Tree, leaf, node, movie_header, media_header, decode_time, Trees, none_left, before, encode,
  encode_all, tree_size, box_of, boxes_of, WellFormed, AllWellFormed,
}
use openplatform_rdk_aamp.IsoBmff.Children.{
  cost, cost_all, length-encode, set_offset-box_of, size_of-box_of, tree_size_pos, ends_alike,
  construct_box-encode,
}

parse_end :
    (fuel cur_offset : ℕ) (memory : List ℕ)
    → parse_loop (suc fuel) memory cur_offset (cur_offset + 0) ≡ ok nil
unfolding parse_loop
parse_end fuel cur_offset memory =
    let e : ltb cur_offset (cur_offset + 0) ≡ false = ground arith in rw (e, parse_loop) refl

parse_step :
    (t : Tree) (fuel cur_offset size : ℕ) (memory next : List ℕ) (boxes : Boxes)
    → cur_offset < size
    → size < 2 ^ 32
    → length memory ≡ tree_size t
    → construct_box fuel (memory ++ next) (size - cur_offset) ≡ ok (box_of 0 t)
    → parse_loop fuel next (cur_offset + tree_size t) size ≡ ok boxes
    → parse_loop (suc fuel) (memory ++ next) cur_offset size ≡ ok (cons (box_of cur_offset t) boxes)
unfolding parse_loop
parse_step t fuel cur_offset size memory next boxes more small len box rest =
    let same_left : (size - cur_offset) % 2 ^ 32 ≡ size - cur_offset = omega arith in
    let same_offset : cur_offset % 2 ^ 32 ≡ cur_offset = omega arith in
    rw (lt→ltb cur_offset size more, parse_loop)
      (rw (same_left, same_offset, box, size_of-box_of t 0)
        (rw (← len, drop-append) (rw (len, rest, set_offset-box_of t cur_offset) refl)))

parse_loop-encode :
    (ts : Trees) (fuel cur_offset : ℕ)
    → AllWellFormed ts
    → cost_all ts ≤ fuel
    → cur_offset + length (encode_all ts) < 2 ^ 32
    → parse_loop fuel (encode_all ts) cur_offset (cur_offset + length (encode_all ts))
      ≡ ok (boxes_of cur_offset ts)
unfolding encode box_of WellFormed cost
parse_loop-encode none_left zero cur_offset w c m = absurd (omega arith)
parse_loop-encode none_left (suc fuel) cur_offset w c m = parse_end fuel cur_offset []
parse_loop-encode (before t ts) zero cur_offset w c m = absurd (omega arith)
parse_loop-encode (before t ts) (suc fuel) cur_offset (w, ws) c m =
    let e = ends_alike cur_offset t (encode_all ts) w in
    let inner =
      parse_loop-encode ts fuel (cur_offset + tree_size t) ws (omega arith) (omega (arith, e, m)) in
    rw e (
      parse_step t fuel cur_offset _ (encode t) (encode_all ts)
        (boxes_of (cur_offset + tree_size t) ts) (omega (arith, tree_size_pos t))
        (omega (arith, e, m)) (length-encode t w)
        (construct_box-encode t fuel _ (encode_all ts) w (omega arith) (omega arith)) inner)

-- A box costs at most as many rounds as it has bytes.
mutual
  unfolding cost encode tree_size WellFormed

  cost-lt : (t : Tree) → WellFormed t → cost t < tree_size t
  cost-lt (leaf type payload) w = omega arith
  cost-lt (node type trees) w = omega (arith, cost_all-le trees w.3)
  cost-lt (movie_header h) w = omega arith
  cost-lt (media_header h) w = omega arith
  cost-lt (decode_time d) w = omega arith

  cost_all-le : (ts : Trees) → AllWellFormed ts → cost_all ts ≤ length (encode_all ts) + 1
  cost_all-le none_left w = omega arith
  cost_all-le (before t ts) w = omega (
    arith,
    cost-lt t w.0,
    cost_all-le ts w.1,
    length-append (encode t) (encode_all ts),
    length-encode t w.0,
  )

-- parseBuffer on the bytes of any well-formed sequence of boxes, nested at will and shorter than 2 ^
-- 32 bytes, returns exactly the boxes that it describes: types, sizes, offsets from the parent,
-- versions, flags, time scales and decode times. One round more than there are bytes is enough.
pub parse_buffer-encode :
    (ts : Trees) (fuel : ℕ)
    → AllWellFormed ts
    → length (encode_all ts) < 2 ^ 32
    → length (encode_all ts) < fuel
    → parse_buffer fuel (encode_all ts) ≡ ok (boxes_of 0 ts)
unfolding parse_buffer
parse_buffer-encode ts fuel w small enough =
    let e : 0 + length (encode_all ts) ≡ length (encode_all ts) = omega arith in
    rw e at (parse_loop-encode ts fuel 0 w (omega (arith, cost_all-le ts w)) (omega (arith, small)))
