-- ===== src/Url.antt =====
-- ParseUriProtocol and aamp_ResolveURL of AampUtils.cpp. A C string is its characters up to the NUL.
pub mod Resolve
pub mod Examples
use openplatform_rdk_aamp.Prelude.{
  ℕ, ◌+◌, ◌-◌, List, [], ◌∷◌, ◌++◌, length, take, Bool, true, false, not, leb, ◌==◌, ◌&&◌, ◌||◌,
  if◌then◌else◌, Option, none, some,
}

-- The characters that ParseUriProtocol passes over.
unfoldable pub is_protocol_char : ℕ → Bool
is_protocol_char c =
    (leb b'a' c && leb c b'z')
    || (leb b'A' c && leb c b'Z')
    || (leb b'0' c && leb c b'9')
    || c == b'.'
    || c == b'-'
    || c == b'+'

abbrev pub behind_slashes : List ℕ → Option (List ℕ)
behind_slashes [] = none
behind_slashes (a ∷ []) = none
behind_slashes (a ∷ b ∷ rest) = if a == b'/' && b == b'/' then some rest else none

-- ParseUriProtocol; `none` is NULL.
unfoldable pub parse_uri_protocol : List ℕ → Option (List ℕ)
parse_uri_protocol [] = none
parse_uri_protocol (c ∷ uri) =
    let rest = parse_uri_protocol uri in
    if c == b':' then behind_slashes uri else (if is_protocol_char c then rest else none)

-- The first loop of aamp_ResolveURL: what it passes over, and what basePtr then points to.
unfoldable pub host_part : List ℕ → List ℕ
host_part [] = []
host_part (c ∷ text) = let rest = host_part text in if c == b'/' || c == b'?' then [] else c ∷ rest

unfoldable pub path_part : List ℕ → List ℕ
path_part [] = []
path_part (c ∷ text) =
    let rest = path_part text in if c == b'/' || c == b'?' then c ∷ text else rest

abbrev pub dir_step : ℕ → Option (List ℕ) → Option (List ℕ)
dir_step c (some dir) = some (c ∷ dir)
dir_step c none = if c == b'/' then some [] else none

-- The second loop: the text before the last `/` that stands before a `?`.
unfoldable pub dir_part : List ℕ → Option (List ℕ)
dir_part [] = none
dir_part (c ∷ text) = let rest = dir_part text in if c == b'?' then none else dir_step c rest

-- strchr(text, '?'), with the text from there on.
unfoldable pub query_part : List ℕ → List ℕ
query_part [] = []
query_part (c ∷ text) = let rest = query_part text in if c == b'?' then c ∷ text else rest

abbrev pub is_empty : List ℕ → Bool
is_empty [] = true
is_empty (c ∷ text) = false

abbrev pub is_rooted : List ℕ → Bool
is_rooted [] = false
is_rooted (c ∷ uri) = c == b'/'

abbrev pub or_empty : Option (List ℕ) → List ℕ
or_empty none = []
or_empty (some text) = text

-- What is appended of the base: its query, where the uri has none.
abbrev pub propagated : Bool → List ℕ → List ℕ → List ℕ
propagated propagate path uri =
    if propagate && is_empty (query_part uri) then query_part path else []

-- `base.substr(0, baseEnd-baseStart)` and what follows; `rest` is what ParseUriProtocol returned.
abbrev pub resolve_in : Bool → List ℕ → List ℕ → List ℕ → List ℕ
resolve_in propagate base rest uri =
    let host = host_part rest in
    let path = path_part rest in
    let start = length base - length rest in
    let params = propagated propagate path uri in
    if is_rooted uri
    then take (start + length host) base ++ (uri ++ params)
    else take (start + length host + length (or_empty (dir_part path))) base
      ++ (b'/' ∷ (uri ++ params))

-- aamp_ResolveURL; `none` is a read through the null pointer of a base without a protocol.
unfoldable pub resolve_url : Bool → List ℕ → List ℕ → Option (List ℕ)
resolve_url propagate base uri = elim (parse_uri_protocol uri) [
  | some rest ↦ some uri
  | none ↦ elim (parse_uri_protocol base) [
    | none ↦ none
    | some rest ↦ some (resolve_in propagate base rest uri)
  ]
]
