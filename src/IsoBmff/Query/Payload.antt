-- ===== src/IsoBmff/Query/Payload.antt =====
-- parseMdatBox on the boxes of a well-formed structure.
use openplatform_rdk_aamp.Prelude.{
  ℕ, ◌+◌, ◌-◌, ◌%◌, ◌^◌, ◌<◌, ◌≡◌, refl, ap, List, [], ◌++◌, length, length-append, drop-append,
  take-append, true, arith, if◌then◌else◌, leb, Bool-cases, inl, inr,
}
use mathlib.Core.List.{append_assoc}
use openplatform_rdk_aamp.IsoBmff.{Boxes, Box, head_of, mdat, is_type}
use openplatform_rdk_aamp.IsoBmff.Words.{bytes32}
use openplatform_rdk_aamp.IsoBmff.Parse.{ok, parse_buffer}
use openplatform_rdk_aamp.IsoBmff.Tree.{
  Tree, leaf, node, movie_header, media_header, decode_time, Trees, none_left, before, encode,
  encode_all, framed, type_of, body, box_of, boxes_of, tree_size, WellFormed, AllWellFormed,
}
use openplatform_rdk_aamp.IsoBmff.Children.{length-encode}
use openplatform_rdk_aamp.IsoBmff.RoundTrip.{parse_buffer-encode}
use openplatform_rdk_aamp.IsoBmff.Query.{
  Answer, found, absent, null_deref, overrun, parse_mdat_box, get_mdat_box_size, payload_size,
  copy_from,
}

-- What stands in the first top-level box of type mdat.
unfoldable pub first_payload : Trees → Answer (List ℕ)
first_payload none_left = absent
first_payload (before t ts) =
    let rest = first_payload ts in if is_type (type_of t) mdat then found (body t) else rest

abbrev HeadOf : Box → ℕ → Tree → Type 0
HeadOf b offset t =
    ((head_of b).type ≡ type_of t)
    × ((head_of b).offset ≡ offset)
    × ((head_of b).size ≡ tree_size t)

HeadOf-box_of : (t : Tree) (offset : ℕ) → HeadOf (box_of offset t) offset t
unfolding box_of
HeadOf-box_of (leaf type payload) offset = (refl, refl, refl)
HeadOf-box_of (node type trees) offset = (refl, refl, refl)
HeadOf-box_of (movie_header h) offset = (refl, refl, refl)
HeadOf-box_of (media_header h) offset = (refl, refl, refl)
HeadOf-box_of (decode_time d) offset = (refl, refl, refl)

encode-framed : (t : Tree) → encode t ≡ framed (type_of t) (body t)
unfolding encode body
encode-framed (leaf type payload) = refl
encode-framed (node type trees) = refl
encode-framed (movie_header h) = refl
encode-framed (media_header h) = refl
encode-framed (decode_time d) = refl

length-type_of : (t : Tree) → WellFormed t → length (type_of t) ≡ 4
unfolding WellFormed
length-type_of (leaf type payload) w = w.0
length-type_of (node type trees) w = w.0
length-type_of (movie_header h) w = refl
length-type_of (media_header h) w = refl
length-type_of (decode_time d) w = refl

copy_from-append :
    (before_it payload rest : List ℕ)
    → copy_from (before_it ++ (payload ++ rest)) (length before_it) (length payload) ≡ found payload
copy_from-append before_it payload rest =
    let room : leb (length payload) (length (payload ++ rest)) ≡ true =
      ground (arith, length-append payload rest) in
    rw (drop-append before_it (payload ++ rest), room, take-append payload rest) refl

-- The payload of a box that stands behind other bytes.
copy_from-encode :
    (t : Tree) (before_it rest : List ℕ)
    → WellFormed t
    → copy_from (before_it ++ (encode t ++ rest)) (length before_it + 8) (length (body t))
      ≡ found (body t)
copy_from-encode t before_it rest w =
    let header : List ℕ = bytes32 (8 + length (body t)) ++ type_of t in
    let split : before_it ++ (encode t ++ rest) ≡ (before_it ++ header) ++ (body t ++ rest) =
      rw (encode-framed t) (simp append_assoc refl) in
    let behind : length before_it + 8 ≡ length (before_it ++ header) =
      omega (arith, length-append before_it header, length-type_of t w) in
    rw (split, behind) (copy_from-append (before_it ++ header) (body t) rest)

-- What memcpy copies for a box that stands behind other bytes.
copy_from-box_of :
    (t : Tree) (before_it rest : List ℕ)
    → WellFormed t
    → length before_it + tree_size t < 2 ^ 32
    → copy_from
        (before_it ++ (encode t ++ rest))
        (((head_of (box_of (length before_it) t)).offset + 8) % 2 ^ 32)
        (payload_size (box_of (length before_it) t))
      ≡ found (body t)
unfolding tree_size
copy_from-box_of t before_it rest w small =
    let h = HeadOf-box_of t (length before_it) in
    let at : (length before_it + 8) % 2 ^ 32 ≡ length before_it + 8 = omega arith in
    let bytes : (8 + length (body t) + 2 ^ 32 - 8) % 2 ^ 32 ≡ length (body t) = omega arith in
    rw (h.1, h.2, at, bytes) (copy_from-encode t before_it rest w)

parse_mdat_box-at :
    (ts : Trees) (before_it : List ℕ)
    → AllWellFormed ts
    → length before_it + length (encode_all ts) < 2 ^ 32
    → parse_mdat_box (before_it ++ encode_all ts) (boxes_of (length before_it) ts)
      ≡ first_payload ts
unfolding parse_mdat_box first_payload encode_all boxes_of AllWellFormed
parse_mdat_box-at none_left before_it w small = refl
parse_mdat_box-at (before t ts) before_it (w, ws) small =
    let lens = length-append (encode t) (encode_all ts) in
    let size = length-encode t w in
    let here = copy_from-box_of t before_it (encode_all ts) w (omega (arith, lens, size, small)) in
    let behind : length (before_it ++ encode t) ≡ length before_it + tree_size t =
      omega (arith, length-append before_it (encode t), size) in
    let there =
      parse_mdat_box-at ts (before_it ++ encode t) ws (omega (arith, behind, lens, size, small)) in
    let there' = rw (append_assoc, behind) at there in
    rw ((HeadOf-box_of t (length before_it)).0) (elim (Bool-cases (is_type (type_of t) mdat)) [
      | inl yes_it_is ↦ rw (yes_it_is, here) refl
      | inr no_it_is_not ↦ rw (no_it_is_not, there') refl
    ])

-- The size of a box with a payload.
abbrev pub with_header : Answer (List ℕ) → Answer ℕ
with_header (found payload) = found (8 + length payload)
with_header absent = absent
with_header null_deref = null_deref
with_header overrun = overrun

get_mdat_box_size-boxes_of :
    (ts : Trees) (offset : ℕ)
    → get_mdat_box_size (boxes_of offset ts) ≡ with_header (first_payload ts)
unfolding get_mdat_box_size first_payload boxes_of tree_size
get_mdat_box_size-boxes_of none_left offset = refl
get_mdat_box_size-boxes_of (before t ts) offset =
    let head = HeadOf-box_of t offset in
    rw (head.0) (elim (Bool-cases (is_type (type_of t) mdat)) [
      | inl yes_it_is ↦ rw yes_it_is (ap (λ (n : ℕ). found n) head.2)
      | inr no_it_is_not ↦
          rw no_it_is_not (get_mdat_box_size-boxes_of ts (offset + (8 + length (body t))))
    ])

-- On the bytes of a well-formed structure, parseBuffer followed by parseMdatBox copies exactly the
-- payload of the first top-level box of type mdat, reads nothing behind the buffer, and fails exactly
-- where there is no such box; getMdatBoxSize gives the size of that payload and eight bytes, or fails
-- with it.
pub parse_mdat_box-parse :
    (ts : Trees) (fuel : ℕ)
    → AllWellFormed ts
    → length (encode_all ts) < 2 ^ 32
    → length (encode_all ts) < fuel
    → (boxes : Boxes) × (parse_buffer fuel (encode_all ts) ≡ ok boxes)
      × (parse_mdat_box (encode_all ts) boxes ≡ first_payload ts)
      × (get_mdat_box_size boxes ≡ with_header (first_payload ts))
parse_mdat_box-parse ts fuel w small enough = (
  boxes_of 0 ts,
  parse_buffer-encode ts fuel w small enough,
  parse_mdat_box-at ts [] w (omega arith),
  get_mdat_box_size-boxes_of ts 0,
)
