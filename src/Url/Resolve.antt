-- ===== src/Url/Resolve.antt =====
-- What aamp_ResolveURL makes of a base that is written out in its parts.
use openplatform_rdk_aamp.Prelude.{
  ℕ, ◌+◌, ◌-◌, ◌≡◌, refl, ap, sym, ◌∙◌, List, [], ◌∷◌, ◌++◌, length, length-append, take,
  take-append, All, Bool, true, false, ◌==◌, ◌&&◌, if◌then◌else◌, none, some, arith,
}
use mathlib.Core.List.{append_assoc}
use openplatform_rdk_aamp.Url.{
  is_protocol_char, parse_uri_protocol, host_part, path_part, dir_part, query_part, is_rooted,
  is_empty, resolve_url,
}

-- A protocol: characters that ParseUriProtocol passes over, none a colon.
abbrev pub IsProtocol : List ℕ → Type 0
IsProtocol text = All (λ c. (is_protocol_char c ≡ true) × ((c == 58) ≡ false)) text

-- Text without a slash or a question mark.
abbrev pub IsPlain : List ℕ → Type 0
IsPlain text = All (λ c. ((c == 47) ≡ false) × ((c == 63) ≡ false)) text

-- A path, without a question mark.
abbrev pub IsPath : List ℕ → Type 0
IsPath text = All (λ c. (c == 63) ≡ false) text

-- Nothing, or a question mark and more.
abbrev pub IsQuery : List ℕ → Type 0
IsQuery [] = Unit {0}
IsQuery (c ∷ text) = c ≡ 63

parse_uri_protocol-append :
    (protocol rest : List ℕ)
    → IsProtocol protocol
    → parse_uri_protocol (protocol ++ (58 ∷ 47 ∷ 47 ∷ rest)) ≡ some rest
unfolding parse_uri_protocol
parse_uri_protocol-append [] rest h = refl
parse_uri_protocol-append (c ∷ protocol) rest (h, hs) =
    rw (h.0, h.1) (parse_uri_protocol-append protocol rest hs)

host_part-append : (host path : List ℕ) → IsPlain host → host_part (host ++ (47 ∷ path)) ≡ host
unfolding host_part
host_part-append [] path h = refl
host_part-append (c ∷ host) path (h, hs) =
    rw (h.0, h.1) (ap (λ t. c ∷ t) (host_part-append host path hs))

path_part-append : (host path : List ℕ) → IsPlain host → path_part (host ++ (47 ∷ path)) ≡ 47 ∷ path
unfolding path_part
path_part-append [] path h = refl
path_part-append (c ∷ host) path (h, hs) = rw (h.0, h.1) (path_part-append host path hs)

dir_part-plain :
    (file query : List ℕ) → IsPlain file → IsQuery query → dir_part (file ++ query) ≡ none
unfolding dir_part
dir_part-plain [] [] h q = refl
dir_part-plain [] (c ∷ query) h q = rw q refl
dir_part-plain (c ∷ file) query (h, hs) q = rw (h.1, dir_part-plain file query hs q) (rw h.0 refl)

dir_part-append :
    (dir file query : List ℕ)
    → IsPath dir
    → IsPlain file
    → IsQuery query
    → dir_part (dir ++ (47 ∷ (file ++ query))) ≡ some dir
unfolding dir_part
dir_part-append [] file query d h q = rw (dir_part-plain file query h q) refl
dir_part-append (c ∷ dir) file query (d, ds) h q =
    rw (d, dir_part-append dir file query ds h q) refl

query_part-through :
    (text rest : List ℕ) → IsPath text → query_part (text ++ rest) ≡ query_part rest
unfolding query_part
query_part-through [] rest h = refl
query_part-through (c ∷ text) rest (h, hs) = rw h (query_part-through text rest hs)

query_part_self : (query : List ℕ) → IsQuery query → query_part query ≡ query
unfolding query_part
query_part_self [] q = refl
query_part_self (c ∷ query) q = rw q refl

plain-IsPath : (text : List ℕ) → IsPlain text → IsPath text
plain-IsPath [] h = tt
plain-IsPath (c ∷ text) (h, hs) = (h.1, plain-IsPath text hs)

-- Directories, each behind a slash.
abbrev pub IsDirs : List ℕ → Type 0
IsDirs [] = Unit {0}
IsDirs (c ∷ text) = (c ≡ 47) × IsPath text

dirs-IsPath : (dirs : List ℕ) → IsDirs dirs → IsPath dirs
dirs-IsPath [] h = tt
dirs-IsPath (c ∷ dirs) (e, h) = (rw e refl, h)

-- The path of a base begins with a slash.
behind_host :
    (host dirs more : List ℕ)
    → IsPlain host
    → IsDirs dirs
    → (host_part (host ++ (dirs ++ (47 ∷ more))) ≡ host)
      × (path_part (host ++ (dirs ++ (47 ∷ more))) ≡ dirs ++ (47 ∷ more))
behind_host host [] more h d = (host_part-append host more h, path_part-append host more h)
behind_host host (c ∷ dirs) more h (e, d) =
    rw e
      (host_part-append host (dirs ++ (47 ∷ more)) h, path_part-append host (dirs ++ (47 ∷ more)) h)

query_part-path :
    (dirs file query : List ℕ)
    → IsDirs dirs
    → IsPlain file
    → IsQuery query
    → query_part (dirs ++ (47 ∷ (file ++ query))) ≡ query
query_part-path dirs file query d f q =
    query_part-through dirs (47 ∷ (file ++ query)) (dirs-IsPath dirs d)
    ∙ (query_part-through (47 ∷ file) query (refl, plain-IsPath file f) ∙ query_part_self query q)

-- A prefix of a text, given by its length.
take-prefix : (n : ℕ) (xs ys : List ℕ) → n ≡ length xs → take n (xs ++ ys) ≡ xs
take-prefix n xs ys e = rw e (take-append xs ys)

-- A base: what stands behind the directories is a slash and more.
abbrev pub rest_of : List ℕ → List ℕ → List ℕ → List ℕ
rest_of host dirs more = host ++ (dirs ++ (47 ∷ more))

abbrev pub url_of : List ℕ → List ℕ → List ℕ → List ℕ → List ℕ
url_of protocol host dirs more = protocol ++ (58 ∷ 47 ∷ 47 ∷ rest_of host dirs more)

-- The authority of the base, with its protocol.
abbrev pub origin : List ℕ → List ℕ → List ℕ
origin protocol host = protocol ++ (58 ∷ 47 ∷ 47 ∷ host)

module _ (protocol host dirs file query : List ℕ) (p : IsProtocol protocol) (h : IsPlain host)
    (d : IsDirs dirs) (f : IsPlain file) (q : IsQuery query) where
  -- What stands before the last slash of the path.
  abbrev kept : List ℕ
  kept = protocol ++ (58 ∷ 47 ∷ 47 ∷ (host ++ dirs))

  url-kept : (more : List ℕ) → url_of protocol host dirs more ≡ kept ++ (47 ∷ more)
  url-kept more = simp append_assoc refl

  kept_len :
      length (url_of protocol host dirs (file ++ query))
        - length (rest_of host dirs (file ++ query))
        + length host
        + length dirs
      ≡ length kept
  kept_len = omega (
    arith,
    length-append protocol (58 ∷ 47 ∷ 47 ∷ rest_of host dirs (file ++ query)),
    length-append protocol (58 ∷ 47 ∷ 47 ∷ (host ++ dirs)),
    length-append host dirs,
  )

  -- A uri without a protocol that does not begin with a slash, against a base that is a protocol, a
  -- host, directories, a last component and perhaps a query: aamp_ResolveURL replaces the last component
  -- and the query by the uri, and appends the base's query if that is configured and the uri has none.
  pub resolve_url-relative :
      (propagate : Bool) (uri : List ℕ)
      → parse_uri_protocol uri ≡ none
      → is_rooted uri ≡ false
      → resolve_url propagate (url_of protocol host dirs (file ++ query)) uri
        ≡ some (
            url_of protocol host dirs
              (uri ++ (if propagate && is_empty (query_part uri) then query else [])))
  unfolding resolve_url
  resolve_url-relative propagate uri no_protocol not_rooted =
      let params : List ℕ = if propagate && is_empty (query_part uri) then query else [] in
      let start =
        length (url_of protocol host dirs (file ++ query))
        - length (rest_of host dirs (file ++ query)) in
      let parts = behind_host host dirs (file ++ query) h d in
      let cut =
        take-prefix (start + length host + length dirs) kept (47 ∷ (file ++ query)) kept_len in
      rw
        (
          no_protocol,
          parse_uri_protocol-append protocol (rest_of host dirs (file ++ query)) p,
          resolve_url,
        )
        (rw
          (
            parts.0,
            parts.1,
            dir_part-append dirs file query (dirs-IsPath dirs d) f q,
            query_part-path dirs file query d f q,
            not_rooted,
          )
          (ap (λ b. some (take (start + length host + length dirs) b ++ (47 ∷ (uri ++ params))))
              (url-kept (file ++ query))
            ∙ (ap (λ t. some (t ++ (47 ∷ (uri ++ params)))) cut
                ∙ ap (λ t. some t) (sym (url-kept (uri ++ params))))))

  url-origin :
      (more : List ℕ)
      → url_of protocol host dirs more ≡ (origin protocol host) ++ (dirs ++ (47 ∷ more))
  url-origin more = simp append_assoc refl

  origin_len :
      length (url_of protocol host dirs (file ++ query))
        - length (rest_of host dirs (file ++ query))
        + length host
      ≡ length (origin protocol host)
  origin_len = omega (
    arith,
    length-append protocol (58 ∷ 47 ∷ 47 ∷ rest_of host dirs (file ++ query)),
    length-append protocol (58 ∷ 47 ∷ 47 ∷ host),
  )

  -- A uri without a protocol that begins with a slash, against such a base: aamp_ResolveURL puts it
  -- behind the protocol and the host, and appends the base's query if that is configured and the uri has
  -- none.
  pub resolve_url-rooted :
      (propagate : Bool) (uri : List ℕ)
      → parse_uri_protocol uri ≡ none
      → is_rooted uri ≡ true
      → resolve_url propagate (url_of protocol host dirs (file ++ query)) uri
        ≡ some (
            (origin protocol host)
            ++ (uri ++ (if propagate && is_empty (query_part uri) then query else [])))
  unfolding resolve_url
  resolve_url-rooted propagate uri no_protocol rooted =
      let params : List ℕ = if propagate && is_empty (query_part uri) then query else [] in
      let start =
        length (url_of protocol host dirs (file ++ query))
        - length (rest_of host dirs (file ++ query)) in
      let parts = behind_host host dirs (file ++ query) h d in
      let cut =
        take-prefix (start + length host) (origin protocol host) (dirs ++ (47 ∷ (file ++ query)))
          origin_len in
      rw
        (
          no_protocol,
          parse_uri_protocol-append protocol (rest_of host dirs (file ++ query)) p,
          resolve_url,
        )
        (rw (parts.0, parts.1, query_part-path dirs file query d f q, rooted)
          (ap (λ b. some (take (start + length host) b ++ (uri ++ params)))
              (url-origin (file ++ query))
            ∙ ap (λ t. some (t ++ (uri ++ params))) cut))
