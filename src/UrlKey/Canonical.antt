-- ===== src/UrlKey/Canonical.antt =====
-- Theorems on canonicalization and keying.
use mathlib.Core.List.{Perm}
use mathlib.Core.Path.{ap₂}
use link_r.Prelude.{
  ℕ, ◌≡◌, refl, ap, ◌∙◌, sym, Option, none, some, List, [], ◌∷◌, ◌++◌, Bytes, arith,
}
use link_r.External.{UrlApi, Hasher}
use link_r.UrlKey.Segments.{split, non_empty, sort, sort-eq_of_perm}
use link_r.UrlKey.Port.{fmt_u16}
use link_r.UrlKey.Same.{SameText, SamePath, host_chunk-SameText, path_chunk-SamePath}
use link_r.UrlKey.SameQuery.{SameQuery, non_empty-SameQuery}
use link_r.UrlKey.{
  path_chunk, host_chunk, query_segments, emit_rest, emit_segments, emit_host, emit_port,
  emit_query, canonical_chunks, canonicalize, from_url,
}

abbrev append : Bytes → Bytes → Bytes
append s c = s ++ c

abbrev scheme_end : Bytes
scheme_end = 58 ∷ 47 ∷ 47 ∷ []

module _ ⦃h : Hasher⦄ where
  -- The hasher that has read a text.
  abbrev fed : Bytes → h.State
  fed = h.update h.new

  emit_rest-fed :
      (t : Bytes) (segs : List Bytes)
      → emit_rest h.update (fed t) segs ≡ fed (emit_rest append t segs)
  unfolding emit_rest
  emit_rest-fed t [] = refl
  emit_rest-fed t (seg ∷ segs) =
      rw (h.update-append h.new t (38 ∷ []), h.update-append h.new (t ++ 38 ∷ []) seg)
        (emit_rest-fed ((t ++ 38 ∷ []) ++ seg) segs)

  emit_segments-fed :
      (t : Bytes) (segs : List Bytes)
      → emit_segments h.update (fed t) segs ≡ fed (emit_segments append t segs)
  unfolding emit_segments
  emit_segments-fed t [] = refl
  emit_segments-fed t (seg ∷ segs) =
      rw (h.update-append h.new t (63 ∷ []), h.update-append h.new (t ++ 63 ∷ []) seg)
        (emit_rest-fed ((t ++ 63 ∷ []) ++ seg) segs)

  emit_host-fed :
      (t : Bytes) (host : Option Bytes)
      → emit_host h.update (fed t) host ≡ fed (emit_host append t host)
  unfolding emit_host
  emit_host-fed t none = refl
  emit_host-fed t (some host) = h.update-append _ _ _

  emit_port-fed :
      (t : Bytes) (port : Option ℕ)
      → emit_port h.update (fed t) port ≡ fed (emit_port append t port)
  unfolding emit_port
  emit_port-fed t none = refl
  emit_port-fed t (some port) =
      rw (h.update-append h.new t (58 ∷ []), h.update-append h.new (t ++ 58 ∷ []) (fmt_u16 port))

  emit_query-fed :
      (t : Bytes) (query : Option Bytes)
      → emit_query h.update (fed t) query ≡ fed (emit_query append t query)
  unfolding emit_query
  emit_query-fed t none = refl
  emit_query-fed t (some []) = refl
  emit_query-fed t (some (c ∷ cs)) = emit_segments-fed t (query_segments (c ∷ cs))

  module _ {Url : Type 0} ⦃u : UrlApi Url⦄ where
    -- The key of a URL is the hash of its canonical text: streaming the chunks through the hasher
    -- gives the digest of the string that `canonicalize` returns.
    pub from_url-eq-hash :
        (url : Url) → from_url url ≡ h.digest64 (h.update h.new (canonicalize url))
    unfolding from_url canonicalize canonical_chunks
    from_url-eq-hash url =
        let t1 = u.scheme url in
        let t2 = t1 ++ scheme_end in
        let t3 = emit_host append t2 (u.host_str url) in
        let t4 = emit_port append t3 (u.port url) in
        let after_host =
          ap (λ (s : h.State). emit_host h.update s (u.host_str url))
            (h.update-append h.new t1 scheme_end)
          ∙ emit_host-fed t2 (u.host_str url) in
        let after_port =
          ap (λ (s : h.State). emit_port h.update s (u.port url)) after_host
          ∙ emit_port-fed t3 (u.port url) in
        let after_path =
          ap (λ (s : h.State). h.update s (path_chunk (u.path url))) after_port
          ∙ h.update-append h.new t4 (path_chunk (u.path url)) in
        ap h.digest64 (
          ap (λ (s : h.State). emit_query h.update s (u.query url)) after_path
          ∙ emit_query-fed (t4 ++ path_chunk (u.path url)) (u.query url))

-- The non-empty query segments of a URL; a missing query has none.
abbrev pub segments : Option Bytes → List Bytes
segments none = []
segments (some q) = non_empty (split 38 q)

-- Hosts up to ASCII case.
pub data SameHost : Option Bytes → Option Bytes → Type 0 where
  no_host : SameHost none none
  hosts : {a b : Bytes} → SameText a b → SameHost (some a) (some b)

-- The host as it is keyed.
abbrev pub keyed_host : Option Bytes → Option Bytes
keyed_host none = none
keyed_host (some host) = some (host_chunk host)

module _ {Url : Type 0} ⦃u : UrlApi Url⦄ where
  -- Two URLs that name one resource: hosts up to ASCII case, paths up to one trailing slash, query
  -- segments up to their order and to empty segments.
  pub record SameResource (a b : Url) : Type 0 where
    pub scheme : u.scheme a ≡ u.scheme b
    pub host : SameHost (u.host_str a) (u.host_str b)
    pub port : u.port a ≡ u.port b
    pub path : SamePath (u.path a) (u.path b)
    pub query : SameQuery (u.query a) (u.query b)

emit_host-keyed :
    (t : Bytes) (a b : Option Bytes)
    → keyed_host a ≡ keyed_host b
    → emit_host append t a ≡ emit_host append t b
unfolding emit_host
emit_host-keyed t none none e = refl
emit_host-keyed t none (some y) e = ground arith
emit_host-keyed t (some x) none e = ground arith
emit_host-keyed t (some x) (some y) e = cc

keyed_host-SameHost : {a b : Option Bytes} → SameHost a b → keyed_host a ≡ keyed_host b
keyed_host-SameHost no_host = refl
keyed_host-SameHost (hosts h) = ap some (host_chunk-SameText h)

segments-SameQuery : (a b : Option Bytes) → SameQuery a b → Perm (segments a) (segments b)
unfolding non_empty split
segments-SameQuery none none q = non_empty-SameQuery q
segments-SameQuery none (some b) q = non_empty-SameQuery q
segments-SameQuery (some a) none q = non_empty-SameQuery q
segments-SameQuery (some a) (some b) q = non_empty-SameQuery q

emit_query-segments :
    (t : Bytes) (q : Option Bytes)
    → emit_query append t q ≡ emit_segments append t (sort (segments q))
unfolding emit_query emit_segments query_segments sort split non_empty
emit_query-segments t none = refl
emit_query-segments t (some []) = refl
emit_query-segments t (some (c ∷ cs)) = refl

module _ {Url : Type 0} ⦃u : UrlApi Url⦄ where
  -- URLs that name one resource have one canonical text.
  pub canonicalize-SameResource : (a b : Url) → SameResource a b → canonicalize a ≡ canonicalize b
  unfolding canonicalize canonical_chunks
  canonicalize-SameResource a b e =
      let after_host =
        ap (λ (t : Bytes). emit_host append (t ++ scheme_end) (u.host_str a)) e.scheme
        ∙ emit_host-keyed (u.scheme b ++ scheme_end) (u.host_str a) (u.host_str b)
            (keyed_host-SameHost e.host) in
      let after_port = ap₂ (emit_port append) after_host e.port in
      let after_path = ap₂ append after_port (path_chunk-SamePath (u.path a) (u.path b) e.path) in
      emit_query-segments _ (u.query a)
      ∙ (ap₂ (emit_segments append) after_path
            (sort-eq_of_perm (segments-SameQuery (u.query a) (u.query b) e.query))
          ∙ sym (emit_query-segments _ (u.query b)))

  -- URLs equal up to the ASCII case of the host, one trailing slash of the path, the order of the
  -- query segments and empty ones have one key. A path in two slashes is another than one in one.
  pub from_url-SameResource : ⦃h : Hasher⦄ (a b : Url) → SameResource a b → from_url a ≡ from_url b
  from_url-SameResource ⦃h⦄ a b e =
      from_url-eq-hash a
      ∙ (ap (λ (t : Bytes). h.digest64 (h.update h.new t)) (canonicalize-SameResource a b e)
          ∙ sym (from_url-eq-hash b))
