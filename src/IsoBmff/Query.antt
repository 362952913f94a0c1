-- ===== src/IsoBmff/Query.antt =====
-- The queries of isobmff/isobmffbuffer.cpp on the boxes that parseBuffer stored: getFirstPTS,
-- getTimeScale, isInitSegment, getMdatBoxSize and parseMdatBox.
pub mod Times
pub mod Scales
pub mod Payload
use openplatform_rdk_aamp.Prelude.{
  ℕ, ◌+◌, ◌-◌, ◌%◌, ◌^◌, List, length, drop, take, leb, Bool, true, false, if◌then◌else◌,
}
use openplatform_rdk_aamp.IsoBmff.{
  Box, plain, container, mvhd_box, mdhd_box, tfdt_box, Boxes, nil, cons, head_of, size_of, mvhd,
  mdhd, tfdt, ftyp, mdat, is_type,
}

-- A query finds a value, finds none, calls through the null pointer that dynamic_cast gives for a box
-- of another class, or copies from behind the buffer.
pub data Answer {ℓ} (A : Type ℓ) : Type ℓ where
  found : A → Answer A
  absent : Answer A
  null_deref : Answer A
  overrun : Answer A

-- The boxes behind the current one are looked at only where it gave nothing.
abbrev pub or_else {ℓ} : {A : Type ℓ} → Answer A → Answer A → Answer A
or_else (found a) rest = found a
or_else absent rest = rest
or_else null_deref rest = null_deref
or_else overrun rest = overrun

abbrev pub has_type : Box → List ℕ → Bool
has_type b name = is_type (head_of b).type name

-- `dynamic_cast<TfdtBox *>(box)->getBaseMDT()`
abbrev pub base_mdt : Box → Answer ℕ
base_mdt (tfdt_box h f time) = found time
base_mdt _ = null_deref

unfoldable mutual
  -- getFirstPTSInternal
  pub first_pts : Boxes → Answer ℕ
  first_pts nil = absent
  first_pts (cons b bs) =
      let inside = children_pts b in
      let rest = first_pts bs in if has_type b tfdt then base_mdt b else or_else inside rest

  -- `if (box->hasChildren()) getFirstPTSInternal(box->getChildren(), pts)`
  pub children_pts : Box → Answer ℕ
  children_pts (plain h) = absent
  children_pts (container h boxes) = first_pts boxes
  children_pts (mvhd_box h f v) = absent
  children_pts (mdhd_box h f v) = absent
  children_pts (tfdt_box h f v) = absent

-- The variables of getTimeScaleInternal.
pub record Scan : Type 0 where
  pub ret : Bool
  pub time_scale : ℕ
  pub found_mdhd : Bool

-- The branches on the type of the box. An MdhdBox has the layout of an MvhdBox, but dynamic_cast
-- tells them apart.
abbrev pub read_scale : Box → Scan → Answer Scan
read_scale (mvhd_box h f v) s =
    if is_type h.type mvhd
    then found (record s { ret = true; time_scale = v })
    else (if is_type h.type mdhd then null_deref else found s)
read_scale (mdhd_box h f v) s =
    if is_type h.type mvhd
    then null_deref
    else (if is_type h.type mdhd
        then found (record { ret = true; time_scale = v; found_mdhd = true })
        else found s)
read_scale b s =
    if has_type b mvhd then null_deref else (if has_type b mdhd then null_deref else found s)

abbrev pub and_then : Answer Scan → (Scan → Answer Scan) → Answer Scan
and_then (found s) next = next s
and_then absent next = absent
and_then null_deref next = null_deref
and_then overrun next = overrun

unfoldable mutual
  -- The loop of getTimeScaleInternal.
  pub scan_boxes : Boxes → Scan → Answer Scan
  scan_boxes nil s = found s
  scan_boxes (cons b bs) s = elim s.found_mdhd [
    | true ↦ found s
    | false ↦
        and_then (and_then (read_scale b s) (λ (own : Scan). scan_children b own))
          (λ (next : Scan). scan_boxes bs next)
  ]

  -- The call for the children of a box: `ret` starts anew there and replaces that of the caller.
  pub scan_children : Box → Scan → Answer Scan
  scan_children (plain h) s = found s
  scan_children (container h boxes) s = scan_boxes boxes (record s { ret = false })
  scan_children (mvhd_box h f v) s = found s
  scan_children (mdhd_box h f v) s = found s
  scan_children (tfdt_box h f v) s = found s

-- getTimeScale: what it returns and the time scale it leaves in its argument.
unfoldable pub get_time_scale : Boxes → ℕ → Answer Scan
get_time_scale boxes time_scale =
    scan_boxes boxes (record { ret = false; time_scale = time_scale; found_mdhd = false })

-- isInitSegment
unfoldable pub is_init_segment : Boxes → Bool
is_init_segment nil = false
is_init_segment (cons b bs) =
    let rest = is_init_segment bs in if has_type b ftyp then true else rest

-- getBoxSizeInternal for Box::MDAT
unfoldable pub get_mdat_box_size : Boxes → Answer ℕ
get_mdat_box_size nil = absent
get_mdat_box_size (cons b bs) =
    let rest = get_mdat_box_size bs in if has_type b mdat then found (size_of b) else rest

-- `box->getSize() - BOX_HEADER_SIZE`, a uint32_t
abbrev pub payload_size : Box → ℕ
payload_size b = (size_of b + 2 ^ 32 - 8) % 2 ^ 32

-- `memcpy(buf, buffer + offset, size)`
abbrev pub copy_from : List ℕ → ℕ → ℕ → Answer (List ℕ)
copy_from buffer offset size =
    if leb size (length (drop offset buffer))
    then found (take size (drop offset buffer))
    else overrun

-- parseBoxInternal for Box::MDAT: the bytes copied, whose number is the size it sets.
unfoldable pub parse_mdat_box : List ℕ → Boxes → Answer (List ℕ)
parse_mdat_box buffer nil = absent
parse_mdat_box buffer (cons b bs) =
    let rest = parse_mdat_box buffer bs in
    if has_type b mdat
    then copy_from buffer (((head_of b).offset + 8) % 2 ^ 32) (payload_size b)
    else rest
