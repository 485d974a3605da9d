-- ===== src/UrlKey.antt =====
-- src/url_key.rs: canonicalization and the key of a URL. A URL is read through the accessors of
-- the url crate; the sink closure of `canonical_chunks` is a fold over a state.
pub mod Segments
pub mod Port
pub mod Canonical
pub mod Path
pub mod Same
pub mod SameQuery
use link_r.Prelude.{
  ℕ, zero, ◌-◌, ◌+◌, ◌<◌, Bool, true, false, ◌&&◌, Option, none, some, List, [], ◌∷◌, ◌++◌, map,
  Bytes, ltb, leb, length, take, any, get_elem?, if◌then◌else◌, ◌==◌, nat_eq,
}
use link_r.External.{UrlApi, Hasher}
use Segments.{split, non_empty, sort}
use Port.{fmt_u16}

unfoldable pub is_ascii_uppercase : ℕ → Bool
is_ascii_uppercase c = leb 65 c && leb c 90

unfoldable pub to_ascii_lowercase : Bytes → Bytes
to_ascii_lowercase = map (λ c. if is_ascii_uppercase c then c + 32 else c)

abbrev pub slash : Bytes
slash = 47 ∷ []

-- `s.ends_with('/')`
unfoldable pub ends_with_slash : Bytes → Bool
ends_with_slash s = elim (get_elem? s (length s - 1)) [ none ↦ false | some c ↦ c == 47 ]

-- `if path.is_empty() { "/" } else { path }`
abbrev pub or_slash : Bytes → Bytes
or_slash [] = slash
or_slash (c ∷ cs) = c ∷ cs

-- The path chunk: one trailing slash stripped except on root.
unfoldable pub path_chunk : Bytes → Bytes
path_chunk path =
    if ltb 1 (length path) && ends_with_slash path
    then take (length path - 1) path
    else or_slash path

-- The host as it is emitted.
unfoldable pub host_chunk : Bytes → Bytes
host_chunk host = if any is_ascii_uppercase host then to_ascii_lowercase host else host

-- The segments of a query, in the order in which they are emitted.
unfoldable pub query_segments : Bytes → List Bytes
query_segments q = sort (non_empty (split 38 q))

module _ {S : Type 0} (sink : S → Bytes → S) where
  -- The segments after the first, each behind "&".
  unfoldable pub emit_rest : S → List Bytes → S
  emit_rest s [] = s
  emit_rest s (seg ∷ segs) = emit_rest (sink (sink s (38 ∷ [])) seg) segs

  unfoldable pub emit_segments : S → List Bytes → S
  emit_segments s [] = s
  emit_segments s (seg ∷ segs) = emit_rest (sink (sink s (63 ∷ [])) seg) segs

  unfoldable pub emit_host : S → Option Bytes → S
  emit_host s none = s
  emit_host s (some host) = sink s (host_chunk host)

  unfoldable pub emit_port : S → Option ℕ → S
  emit_port s none = s
  emit_port s (some port) = sink (sink s (58 ∷ [])) (fmt_u16 port)

  unfoldable pub emit_query : S → Option Bytes → S
  emit_query s none = s
  emit_query s (some []) = s
  emit_query s (some query) = emit_segments s (query_segments query)

module _ {Url : Type 0} ⦃u : UrlApi Url⦄ where
  unfoldable pub canonical_chunks : {S : Type 0} → (S → Bytes → S) → S → Url → S
  canonical_chunks sink s url =
      let s1 = sink (sink s (u.scheme url)) (58 ∷ 47 ∷ 47 ∷ []) in
      let s2 = emit_host sink s1 (u.host_str url) in
      let s3 = emit_port sink s2 (u.port url) in
      let s4 = sink s3 (path_chunk (u.path url)) in emit_query sink s4 (u.query url)

  unfoldable pub canonicalize : Url → Bytes
  canonicalize = canonical_chunks (λ s c. s ++ c) []

  unfoldable pub from_url : ⦃h : Hasher⦄ → Url → ℕ
  from_url ⦃h⦄ url = h.digest64 (canonical_chunks h.update h.new url)
