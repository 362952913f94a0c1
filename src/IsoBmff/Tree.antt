-- ===== src/IsoBmff/Tree.antt =====
-- A description of a box structure that does not mention the parser: what a file means, how it is
-- written, and the boxes that stand for it.
use openplatform_rdk_aamp.Prelude.{
  ℕ, ◌+◌, ◌*◌, ◌^◌, ◌<◌, ◌≡◌, List, [], ◌∷◌, ◌++◌, length, true, false, ◌==◌, if◌then◌else◌,
}
use openplatform_rdk_aamp.IsoBmff.{
  Head, Full, Box, plain, container, mvhd_box, mdhd_box, tfdt_box, Boxes, nil, cons, mvhd, mdhd,
  tfdt, is_type,
}
use openplatform_rdk_aamp.IsoBmff.Words.{bytes32, bytes64}
use openplatform_rdk_aamp.IsoBmff.Parse.{is_container_type}

-- A movie or media header: the times that are skipped, the time scale, the fields behind it.
pub record Header : Type 0 where
  pub version : ℕ
  pub flags : List ℕ
  pub times : List ℕ
  pub time_scale : ℕ
  pub rest : List ℕ

-- A decode time box.
pub record DecodeTime : Type 0 where
  pub version : ℕ
  pub flags : List ℕ
  pub time : ℕ
  pub rest : List ℕ

mutual
  pub data Tree : Type 0 where
    leaf : List ℕ → List ℕ → Tree
    node : List ℕ → Trees → Tree
    movie_header : Header → Tree
    media_header : Header → Tree
    decode_time : DecodeTime → Tree

  pub data Trees : Type 0 where
    none_left : Trees
    before : Tree → Trees → Trees

abbrev pub header_body : Header → List ℕ
header_body h = h.version ∷ (h.flags ++ (h.times ++ (bytes32 h.time_scale ++ h.rest)))

abbrev pub time_bytes : DecodeTime → List ℕ
time_bytes d = if d.version == 1 then bytes64 d.time else bytes32 d.time

abbrev pub time_body : DecodeTime → List ℕ
time_body d = d.version ∷ (d.flags ++ (time_bytes d ++ d.rest))

-- The four characters of a box.
abbrev pub type_of : Tree → List ℕ
type_of (leaf type payload) = type
type_of (node type trees) = type
type_of (movie_header h) = mvhd
type_of (media_header h) = mdhd
type_of (decode_time d) = tfdt

-- A box is its size, its type and its body.
abbrev pub framed : List ℕ → List ℕ → List ℕ
framed type body = bytes32 (8 + length body) ++ (type ++ body)

unfoldable mutual
  pub encode : Tree → List ℕ
  encode (leaf type payload) = framed type payload
  encode (node type trees) = framed type (encode_all trees)
  encode (movie_header h) = framed mvhd (header_body h)
  encode (media_header h) = framed mdhd (header_body h)
  encode (decode_time d) = framed tfdt (time_body d)

  pub encode_all : Trees → List ℕ
  encode_all none_left = []
  encode_all (before t ts) = encode t ++ encode_all ts

unfoldable pub body : Tree → List ℕ
body (leaf type payload) = payload
body (node type trees) = encode_all trees
body (movie_header h) = header_body h
body (media_header h) = header_body h
body (decode_time d) = time_body d

unfoldable pub tree_size : Tree → ℕ
unfolding body
tree_size t = 8 + length (body t)

abbrev pub flags_value : List ℕ → ℕ
flags_value (f0 ∷ f1 ∷ f2 ∷ []) = f0 * 2 ^ 16 + f1 * 2 ^ 8 + f2
flags_value _ = 0

abbrev pub head_at : ℕ → Tree → Head
head_at offset t = record { offset = offset; size = tree_size t; type = type_of t }

abbrev pub header_full : Header → Full
header_full h = record { version = h.version; flags = flags_value h.flags }

abbrev pub time_full : DecodeTime → Full
time_full d = record { version = d.version; flags = flags_value d.flags }

-- The boxes that stand for a structure that begins at an offset. A child counts from its parent.
unfoldable mutual
  pub box_of : ℕ → Tree → Box
  box_of offset (leaf type payload) = plain (head_at offset (leaf type payload))
  box_of offset (node type trees) = container (head_at offset (node type trees)) (boxes_of 8 trees)
  box_of offset (movie_header h) =
      mvhd_box (head_at offset (movie_header h)) (header_full h) h.time_scale
  box_of offset (media_header h) =
      mdhd_box (head_at offset (media_header h)) (header_full h) h.time_scale
  box_of offset (decode_time d) = tfdt_box (head_at offset (decode_time d)) (time_full d) d.time

  pub boxes_of : ℕ → Trees → Boxes
  boxes_of offset none_left = nil
  boxes_of offset (before t ts) = cons (box_of offset t) (boxes_of (offset + tree_size t) ts)

abbrev pub HasLength : ℕ → List ℕ → Type 0
HasLength n xs = length xs ≡ n

-- A leaf has a type that the parser does not look into, a node one of a container; a header is laid
-- out as its version says. Every box is shorter than 2 ^ 32.
abbrev pub HeaderFits : Header → Type 0
HeaderFits h =
    HasLength 3 h.flags
    × HasLength (if h.version == 1 then 16 else 8) h.times
    × (h.time_scale < 2 ^ 32)

abbrev pub TimeFits : DecodeTime → Type 0
TimeFits d = HasLength 3 d.flags × (d.time < (if d.version == 1 then 2 ^ 64 else 2 ^ 32))

abbrev pub IsLeafType : List ℕ → Type 0
IsLeafType type =
    (is_container_type type ≡ false)
    × (is_type type tfdt ≡ false)
    × (is_type type mvhd ≡ false)
    × (is_type type mdhd ≡ false)

unfoldable mutual
  pub WellFormed : Tree → Type 0
  WellFormed (leaf type payload) =
      HasLength 4 type × IsLeafType type × (tree_size (leaf type payload) < 2 ^ 32)
  WellFormed (node type trees) =
      HasLength 4 type
      × (is_container_type type ≡ true)
      × (tree_size (node type trees) < 2 ^ 32)
      × AllWellFormed trees
  WellFormed (movie_header h) = HeaderFits h × (tree_size (movie_header h) < 2 ^ 32)
  WellFormed (media_header h) = HeaderFits h × (tree_size (media_header h) < 2 ^ 32)
  WellFormed (decode_time d) = TimeFits d × (tree_size (decode_time d) < 2 ^ 32)

  pub AllWellFormed : Trees → Type 0
  AllWellFormed none_left = Unit {0}
  AllWellFormed (before t ts) = WellFormed t × AllWellFormed ts
