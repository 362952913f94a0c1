-- ===== src/IsoBmff/Parse.antt =====
-- Box::constructBox, the constructors of its subclasses and IsoBmffBuffer::parseBuffer.
use openplatform_rdk_aamp.Prelude.{
  ℕ, zero, suc, ◌+◌, ◌-◌, ◌*◌, ◌%◌, ◌^◌, List, [], ◌∷◌, Bool, true, false, ltb, ◌==◌, if◌then◌else◌,
  ◌||◌, drop, length,
}
use openplatform_rdk_aamp.IsoBmff.{
  Head, Full, Box, plain, container, mvhd_box, mdhd_box, tfdt_box, Boxes, nil, cons, size_of,
  set_offset, moov, mvhd, trak, mdia, mdhd, moof, traf, tfdt, is_type,
}
use openplatform_rdk_aamp.IsoBmff.Words.{be32}

-- `overrun` is a read past the buffer; `stuck` is no outcome of the code: the fuel ran out.
pub data Parsed {ℓ} (A : Type ℓ) : Type ℓ where
  ok : A → Parsed A
  overrun : Parsed A
  stuck : Parsed A

infixl 5 ◌>>=◌
abbrev pub ◌>>=◌ {ℓ κ} : {A : Type ℓ} {B : Type κ} → Parsed A → (A → Parsed B) → Parsed B
ok a >>= f = f a
overrun >>= f = overrun
stuck >>= f = stuck

-- The four bytes behind the size and the type of a full box, and what is left of the memory.
abbrev pub read_full : List ℕ → Parsed (Full × List ℕ)
read_full (v ∷ f0 ∷ f1 ∷ f2 ∷ memory) =
    ok (record { version = v; flags = f0 * 2 ^ 16 + f1 * 2 ^ 8 + f2 }, memory)
read_full _ = overrun

abbrev pub read_u32 : List ℕ → Parsed ℕ
read_u32 (b0 ∷ b1 ∷ b2 ∷ b3 ∷ memory) = ok (be32 b0 b1 b2 b3)
read_u32 _ = overrun

abbrev pub read_u64 : List ℕ → Parsed ℕ
read_u64 (a0 ∷ a1 ∷ a2 ∷ a3 ∷ b0 ∷ b1 ∷ b2 ∷ b3 ∷ memory) =
    ok (be32 a0 a1 a2 a3 * 2 ^ 32 % 2 ^ 64 + be32 b0 b1 b2 b3)
read_u64 _ = overrun

-- The creation and modification times that come before the time scale.
abbrev pub times_len : Full → ℕ
times_len f = if f.version == 1 then 16 else 8

-- MvhdBox::constructMvhdBox and MdhdBox::constructMdhdBox, which differ in the class they build.
abbrev pub construct_header_box : (Head → Full → ℕ → Box) → Head → List ℕ → Parsed Box
construct_header_box build h memory = do
  (f, rest) ← read_full memory
  scale ← read_u32 (drop (times_len f) rest)
  ok (build h f scale)

-- TfdtBox::constructTfdtBox
abbrev pub construct_tfdt_box : Head → List ℕ → Parsed Box
construct_tfdt_box h memory = do
  (f, rest) ← read_full memory
  time ← if f.version == 1 then read_u64 rest else read_u32 rest
  ok (tfdt_box h f time)

unfoldable pub is_container_type : List ℕ → Bool
is_container_type type =
    is_type type moov
    || is_type type trak
    || is_type type mdia
    || is_type type moof
    || is_type type traf

-- The branches of constructBox behind the reads of the size and the type; `children` is what
-- constructContainer does.
abbrev pub construct_by_type : Head → ℕ → List ℕ → Parsed Boxes → Parsed Box
construct_by_type h max_size memory children =
    if ltb max_size h.size
    then ok (plain h)
    else (if is_container_type h.type
        then (do boxes ← children; ok (container h boxes))
        else (if is_type h.type tfdt
            then construct_tfdt_box h memory
            else (if is_type h.type mvhd
                then construct_header_box mvhd_box h memory
                else (if is_type h.type mdhd
                    then construct_header_box mdhd_box h memory
                    else ok (plain h)))))

unfoldable mutual
  -- Box::constructBox on the readable memory from `hdr` on.
  pub construct_box : ℕ → List ℕ → ℕ → Parsed Box
  construct_box zero memory max_size = stuck
  construct_box (suc fuel) (s0 ∷ s1 ∷ s2 ∷ s3 ∷ t0 ∷ t1 ∷ t2 ∷ t3 ∷ memory) max_size =
      let size = be32 s0 s1 s2 s3 in
      let children = construct_children fuel memory 8 size in
      construct_by_type (record { offset = 0; size = size; type = t0 ∷ t1 ∷ t2 ∷ t3 ∷ [] }) max_size
        memory children
  construct_box (suc fuel) _ max_size = overrun

  -- The loop of constructContainer: `memory` starts at `ptr`, and curOffset is a uint32_t.
  pub construct_children : ℕ → List ℕ → ℕ → ℕ → Parsed Boxes
  construct_children zero memory cur_offset size = stuck
  construct_children (suc fuel) memory cur_offset size = elim (ltb cur_offset size) [
    | true ↦ construct_box fuel memory (size - cur_offset) >>= λ box.
        construct_children fuel (drop (size_of box) memory) ((cur_offset + size_of box) % 2 ^ 32)
          size
        >>= λ boxes. ok (cons (set_offset box cur_offset) boxes)
    | false ↦ ok nil
  ]

-- The loop of parseBuffer. curOffset is a size_t; constructBox and setOffset take a uint32_t.
unfoldable pub parse_loop : ℕ → List ℕ → ℕ → ℕ → Parsed Boxes
parse_loop zero memory cur_offset buf_size = stuck
parse_loop (suc fuel) memory cur_offset buf_size = elim (ltb cur_offset buf_size) [
  | true ↦ construct_box fuel memory ((buf_size - cur_offset) % 2 ^ 32) >>= λ box.
      parse_loop fuel (drop (size_of box) memory) (cur_offset + size_of box) buf_size >>= λ boxes.
      ok (cons (set_offset box (cur_offset % 2 ^ 32)) boxes)
  | false ↦ ok nil
]

-- IsoBmffBuffer::parseBuffer, on the buffer that setBuffer set.
unfoldable pub parse_buffer : ℕ → List ℕ → Parsed Boxes
unfolding parse_loop
parse_buffer fuel buffer = parse_loop fuel buffer 0 (length buffer)
