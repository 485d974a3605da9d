-- ===== src/Crawl/Scope.antt =====
-- src/source/crawl.rs: which links a crawl follows, and which pages it indexes.
pub mod Boundaries
pub mod Hosts
pub mod Names
use link_r.Prelude.{
  ℕ, suc, ◌+◌, ◌-◌, ◌≡◌, Bool, true, false, ◌&&◌, ◌||◌, Option, none, some, List, [], ◌∷◌, map,
  Bytes, codes, any, all, length, drop, get_elem?, ltb, leb, if◌then◌else◌, ◌==◌, nat_eq, bytes_eq,
}
use link_r.External.{UrlApi}
use link_r.UrlKey.{to_ascii_lowercase, ends_with_slash}
use link_r.Index.Meta.{starts_with}
use link_r.Resource.{rsplit_next}

pub data CrawlScope : Type 0 where
  path_prefix : CrawlScope
  same_host : CrawlScope
  same_host_and_subdomains : CrawlScope
  allowlist : List Bytes → CrawlScope

-- `host.ends_with(base)`
unfoldable pub ends_with : Bytes → Bytes → Bool
ends_with s t = leb (length t) (length s) && drop (length s - length t) s == t

abbrev pub byte_is : Option ℕ → ℕ → Bool
byte_is none c = false
byte_is (some d) c = d == c

unfoldable pub host_under : Bytes → Bytes → Bool
host_under host base =
    host == base
    || (ltb (length base) (length host)
        && (ends_with host base && byte_is (get_elem? host (length host - length base - 1)) 46))

-- `cp` is `rp`, or extends it at a '/' boundary.
unfoldable pub path_under : Bytes → Bytes → Bool
path_under rp cp =
    cp == rp
    || (ltb (length rp) (length cp)
        && (starts_with cp rp && (ends_with_slash rp || byte_is (get_elem? cp (length rp)) 47)))

-- `h.strip_prefix('.').unwrap_or(h)`
unfoldable pub strip_dot : Bytes → Bytes
strip_dot [] = []
strip_dot (c ∷ cs) = if c == 46 then cs else c ∷ cs

-- `path.contains(s)`
unfoldable pub contains : Bytes → Bytes → Bool
contains [] s = starts_with [] s
contains (c ∷ cs) s = starts_with (c ∷ cs) s || contains cs s

-- The text behind the last dot, if there is a dot.
unfoldable pub after_last_dot : Bytes → Option Bytes
after_last_dot [] = none
after_last_dot (c ∷ cs) = elim (after_last_dot cs) [
  | some e ↦ some e
  | none ↦ if c == 46 then some cs else none
]

unfoldable pub ext_of : Bytes → Option Bytes
ext_of path = after_last_dot (rsplit_next 47 path)

-- `a.eq_ignore_ascii_case(b)`
unfoldable pub eq_ignore_ascii_case : Bytes → Bytes → Bool
eq_ignore_ascii_case a b = to_ascii_lowercase a == to_ascii_lowercase b

-- `.trim_start_matches('.')`
unfoldable pub trim_dots : Bytes → Bytes
trim_dots [] = []
trim_dots (c ∷ cs) = let rest = trim_dots cs in if c == 46 then rest else c ∷ cs

unfoldable pub normalize_ext : Bytes → Bytes
normalize_ext e = to_ascii_lowercase (trim_dots e)

abbrev asset_exts : List Bytes
asset_exts = map codes (
    "png" ∷ "jpg" ∷ "jpeg" ∷ "gif" ∷ "svg" ∷ "webp" ∷ "ico" ∷ "css" ∷ "js" ∷ "mjs" ∷ "woff"
    ∷ "woff2" ∷ "ttf" ∷ "eot" ∷ "zip" ∷ "tar" ∷ "gz" ∷ "mp4" ∷ "mp3" ∷ "wav" ∷ "avi" ∷ "mov"
    ∷ "wasm" ∷ "map" ∷ [])

unfoldable pub some_ext : List Bytes → Option Bytes → Bool
some_ext l none = false
some_ext l (some e) = any (λ a. eq_ignore_ascii_case a e) l

module _ {Url : Type 0} ⦃u : UrlApi Url⦄ where
  allows_hosts : CrawlScope → Url → Url → Option Bytes → Option Bytes → Bool
  allows_hosts scope root candidate (some root_host) (some cand_host) = elim scope [
    | path_prefix ↦ cand_host == root_host && path_under (u.path root) (u.path candidate)
    | same_host ↦ cand_host == root_host
    | same_host_and_subdomains ↦ host_under cand_host root_host
    | allowlist list ↦ any (λ h. host_under cand_host (strip_dot h)) list
  ]
  allows_hosts scope root candidate _ _ = false

  unfoldable pub allows : CrawlScope → Url → Url → Bool
  unfolding allows_hosts
  allows scope root candidate =
      allows_hosts scope root candidate (u.host_str root) (u.host_str candidate)

  unfoldable pub path_allowed : Url → List Bytes → Bool
  path_allowed url required = all (λ s. contains (u.path url) s) required

  unfoldable pub extension_allowed : Url → List Bytes → Bool
  unfolding some_ext
  extension_allowed url [] = true
  extension_allowed url (e ∷ es) = some_ext (e ∷ es) (ext_of (u.path url))

  unfoldable pub is_asset : Url → Bool
  unfolding some_ext
  is_asset url = some_ext asset_exts (ext_of (u.path url))
