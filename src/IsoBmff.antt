-- ===== src/IsoBmff.antt =====
-- isobmff/: the boxes of an ISO base media file, their parser, the queries on a parsed buffer and the
-- processor that times the first fragments of two tracks.
pub mod Words
pub mod Parse
pub mod Tree
pub mod Reads
pub mod Children
pub mod RoundTrip
pub mod Endless
pub mod Query
pub mod Processor
pub mod Examples
use openplatform_rdk_aamp.Prelude.{ℕ, List, [], ◌∷◌, Bool, true, false, ◌&&◌, ◌||◌, ◌==◌}

-- The fields that every Box has. The type is its four characters.
pub record Head : Type 0 where
  pub offset : ℕ
  pub size : ℕ
  pub type : List ℕ

-- FullBox
pub record Full : Type 0 where
  pub version : ℕ
  pub flags : ℕ

-- Box and its subclasses; the last field of a header box is timeScale, of a TfdtBox baseMDT.
mutual
  pub data Box : Type 0 where
    plain : Head → Box
    container : Head → Boxes → Box
    mvhd_box : Head → Full → ℕ → Box
    mdhd_box : Head → Full → ℕ → Box
    tfdt_box : Head → Full → ℕ → Box

  -- std::vector<Box*>
  pub data Boxes : Type 0 where
    nil : Boxes
    cons : Box → Boxes → Boxes

abbrev pub head_of : Box → Head
head_of (plain h) = h
head_of (container h boxes) = h
head_of (mvhd_box h f v) = h
head_of (mdhd_box h f v) = h
head_of (tfdt_box h f v) = h

abbrev pub size_of : Box → ℕ
size_of b = (head_of b).size

-- Box::setOffset
abbrev pub set_offset : Box → ℕ → Box
set_offset (plain h) os = plain (record h { offset = os })
set_offset (container h boxes) os = container (record h { offset = os }) boxes
set_offset (mvhd_box h f v) os = mvhd_box (record h { offset = os }) f v
set_offset (mdhd_box h f v) os = mdhd_box (record h { offset = os }) f v
set_offset (tfdt_box h f v) os = tfdt_box (record h { offset = os }) f v

-- The names of box types that the code knows.
abbrev pub moov : List ℕ
moov = b'm' ∷ b'o' ∷ b'o' ∷ b'v' ∷ []

abbrev pub mvhd : List ℕ
mvhd = b'm' ∷ b'v' ∷ b'h' ∷ b'd' ∷ []

abbrev pub trak : List ℕ
trak = b't' ∷ b'r' ∷ b'a' ∷ b'k' ∷ []

abbrev pub mdia : List ℕ
mdia = b'm' ∷ b'd' ∷ b'i' ∷ b'a' ∷ []

abbrev pub mdhd : List ℕ
mdhd = b'm' ∷ b'd' ∷ b'h' ∷ b'd' ∷ []

abbrev pub moof : List ℕ
moof = b'm' ∷ b'o' ∷ b'o' ∷ b'f' ∷ []

abbrev pub traf : List ℕ
traf = b't' ∷ b'r' ∷ b'a' ∷ b'f' ∷ []

abbrev pub tfdt : List ℕ
tfdt = b't' ∷ b'f' ∷ b'd' ∷ b't' ∷ []

abbrev pub ftyp : List ℕ
ftyp = b'f' ∷ b't' ∷ b'y' ∷ b'p' ∷ []

abbrev pub mdat : List ℕ
mdat = b'm' ∷ b'd' ∷ b'a' ∷ b't' ∷ []

-- IS_TYPE: the four characters agree.
unfoldable pub is_type : List ℕ → List ℕ → Bool
is_type (a0 ∷ a1 ∷ a2 ∷ a3 ∷ []) (b0 ∷ b1 ∷ b2 ∷ b3 ∷ []) =
    a0 == b0 && a1 == b1 && a2 == b2 && a3 == b3
is_type _ _ = false
