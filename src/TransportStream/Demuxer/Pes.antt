-- ===== src/TransportStream/Demuxer/Pes.antt =====
-- The state machine under `/*PARSE PES*/` of Demuxer::processPacket: it finds the elementary stream behind
-- the header of a PES packet.
use openplatform_rdk_aamp.Prelude.{
  ℕ, zero, suc, ◌+◌, ◌-◌, ◌/◌, ◌%◌, min, List, [], ◌∷◌, ◌++◌, Bool, ◌==◌, ◌&&◌, if◌then◌else◌,
  Option, none, some, get_or, take, drop, length,
}

-- PES_STATE_*
pub data PesState : Type 0 where
  waiting_for_header getting_header getting_header_extension getting_es : PesState

pub record PesParser : Type 0 where
  pub pes_state : PesState
  pub pes_header : List ℕ
  pub pes_header_ext_len : ℕ
  pub pes_header_ext_read : ℕ
  pub es : List ℕ

abbrev pub pes_min_data : ℕ
pes_min_data = 9

-- IS_PES_PACKET_START and PES_OPTIONAL_HEADER_PRESENT on the nine bytes read.
abbrev pub is_start : List ℕ → Bool
is_start h = get_or h 0 0 == 0 && (get_or h 1 0 == 0 && get_or h 2 0 == 1)

abbrev pub has_optional_header : List ℕ → Bool
has_optional_header h = get_or h 6 0 / 64 % 4 == 2

-- The branch under `if (pes_header.len == PES_MIN_DATA)`.
unfoldable pub header_read : PesParser → PesParser
header_read p =
    if is_start p.pes_header && has_optional_header p.pes_header
    then record p {
      pes_state = getting_header_extension;
      pes_header_ext_len = get_or p.pes_header 8 0;
      pes_header_ext_read = 0;
    }
    else record p { pes_state = waiting_for_header }

-- The cases of the switch: the members, and the data that the round leaves.
unfoldable pub pes_case : PesState → PesParser → List ℕ → PesParser × List ℕ
pes_case waiting_for_header p bytes = (p, [])
pes_case getting_header p bytes =
    let bytes_to_read = pes_min_data - length p.pes_header in
    let q = record p { pes_header = p.pes_header ++ take bytes_to_read bytes } in
    (if length q.pes_header == pes_min_data then header_read q else q, drop bytes_to_read bytes)
pes_case getting_header_extension p bytes =
    let bytes_to_read = min (p.pes_header_ext_len - p.pes_header_ext_read) (length bytes) in
    let q = record p { pes_header_ext_read = p.pes_header_ext_read + bytes_to_read } in
    (
      if q.pes_header_ext_read == q.pes_header_ext_len
          then record q { pes_state = getting_es }
          else q,
      drop bytes_to_read bytes,
    )
pes_case getting_es p bytes = (record p { es = p.es ++ bytes }, [])

-- `while (size > 0)`; `none` says that the rounds ran out.
unfoldable pub pes_loop : ℕ → PesParser → List ℕ → Option PesParser
pes_loop rounds p [] = some p
pes_loop zero p (b ∷ bytes) = none
pes_loop (suc rounds) p (b ∷ bytes) =
    let (q, left) = pes_case p.pes_state p (b ∷ bytes) in pes_loop rounds q left
