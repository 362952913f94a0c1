-- ===== src/Url/Examples.antt =====
-- A base and two uris.
use openplatform_rdk_aamp.Prelude.{ℕ, ◌≡◌, refl, List, [], ◌∷◌, ◌++◌, true, some}
use openplatform_rdk_aamp.Url.{is_protocol_char, parse_uri_protocol, resolve_url, query_part}
use openplatform_rdk_aamp.Url.Resolve.{IsProtocol, url_of, resolve_url-relative}

-- http, the host h, the directory /d, the file f and the query ?q.
abbrev http : List ℕ
http = b'h' ∷ b't' ∷ b't' ∷ b'p' ∷ []

http-IsProtocol : IsProtocol http
unfolding is_protocol_char
http-IsProtocol = ((refl, refl), ((refl, refl), ((refl, refl), ((refl, refl), tt))))

abbrev one_char : ℕ → List ℕ
one_char c = c ∷ []

abbrev dirs : List ℕ
dirs = b'/' ∷ b'd' ∷ []

abbrev query : List ℕ
query = b'?' ∷ b'q' ∷ []

resolve_url-relative_example :
    resolve_url true (url_of http (one_char b'h') dirs (one_char b'f' ++ query)) (one_char b'u')
    ≡ some (url_of http (one_char b'h') dirs (one_char b'u' ++ query))
unfolding query_part
resolve_url-relative_example =
    resolve_url-relative http (one_char b'h') dirs (one_char b'f') query http-IsProtocol
      ((refl, refl), tt) (refl, (refl, tt)) ((refl, refl), tt) refl true (one_char b'u')
      (unfold parse_uri_protocol is_protocol_char in refl) refl
