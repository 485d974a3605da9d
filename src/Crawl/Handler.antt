-- ===== src/Crawl/Handler.antt =====
-- The second half of the loop of `CrawlSource::discover` in src/source/crawl.rs: what the crawl
-- does with the outcome of a fetch.
use link_r.Prelude.{
  ℕ, ◌+◌, Bool, not, ◌&&◌, ◌||◌, Option, none, some, List, [], ◌∷◌, ◌++◌, Bytes, ltb, if◌then◌else◌,
  ◌==◌, nat_eq,
}
use link_r.Prelude.HashMap
use link_r.Prelude.HashSet
use link_r.Error.{Error, Result, ok, err, panic, not_modified}
use link_r.External.{UrlApi, Hasher}
use link_r.UrlKey.{from_url}
use link_r.Resource.{ResourceKind, html, markdown, Resource, with_kind, with_etag, is_linkable}
use link_r.Resource
use link_r.Crawl.Scope.{allows, path_allowed, extension_allowed}
use link_r.Crawl.State.{
  CrawlConfig, FetchMeta, Request, CrawlState, Page, Handled, next, yielded, aborted, enqueue_known,
  enqueue_links,
}

-- The two link scanners.
pub record Extractors : Type 0 where
  pub extract_links : Bytes → List Bytes
  pub extract_md_links : Bytes → List Bytes

unfoldable pub extract_links_for : Extractors → ResourceKind → Bytes → List Bytes
extract_links_for x html bytes = x.extract_links bytes
extract_links_for x markdown bytes = x.extract_md_links bytes
extract_links_for x _ bytes = []

-- `meta.final_url.unwrap_or(req_url)`
abbrev pub or_requested : {Url : Type 0} → Option Url → Url → Url
or_requested none url = url
or_requested (some final) url = final

abbrev with_tag : {Url : Type 0} → Resource Url → Option Bytes → Resource Url
with_tag r none = r
with_tag r (some tag) = with_etag r tag

-- `self.known_edges.get(&key)`, with no children when the key is missing.
abbrev or_none : {Url : Type 0} → Option (List Url) → List Url
or_none none = []
or_none (some children) = children

module _ {Url : Type 0} ⦃u : UrlApi Url⦄ ⦃h : Hasher⦄ where
  unfoldable pub page_of : Url → FetchMeta Url → Bytes → Page Url
  page_of effective meta bytes = record {
    resource = with_tag (with_kind (Resource.new effective) meta.kind) meta.etag;
    payload = bytes;
  }

  -- The page counts as visited, and as checked.
  unfoldable pub revalidate : CrawlState Url → Url → CrawlState Url
  revalidate s url = record s {
    visited = HashSet.insert s.visited (from_url url);
    revalidated = s.revalidated ++ url ∷ [];
  }

  unfoldable pub known_children : CrawlConfig Url → Url → List Url
  known_children cfg url = or_none (HashMap.get cfg.known_edges (from_url url))

  -- A page that the server answers with 304.
  unfoldable pub handle_unchanged :
      CrawlConfig Url → Url → CrawlState Url → Request Url → CrawlState Url
  handle_unchanged cfg root s req =
      if ltb req.depth cfg.max_depth
      then enqueue_known cfg root req.depth (revalidate s req.url) (known_children cfg req.url)
      else revalidate s req.url

  -- The links of a fetched page join the frontier.
  unfoldable pub follow_links :
      Extractors
      → CrawlConfig Url
      → Url
      → ℕ
      → Url
      → ResourceKind
      → Bytes
      → CrawlState Url
      → CrawlState Url
  follow_links x cfg root depth effective kind bytes s =
      if ltb depth cfg.max_depth && is_linkable kind
      then enqueue_links cfg root depth effective s (extract_links_for x kind bytes)
      else s

  unfoldable pub is_indexed : CrawlConfig Url → Url → Bool
  is_indexed cfg effective = not (
      not (extension_allowed effective cfg.accept_extensions)
      || not (path_allowed effective cfg.index_path_contains))

  -- A child that a redirect takes out of scope.
  unfoldable pub escapes : CrawlConfig Url → Url → ℕ → Url → Bool
  escapes cfg root depth effective = ltb 0 depth && not (allows cfg.scope root effective)

  unfoldable pub count_success : CrawlState Url → CrawlState Url
  count_success s = record s { successes = s.successes + 1 }

  -- The success counts, and the final location as visited.
  unfoldable pub see : CrawlState Url → Url → CrawlState Url
  see s effective =
      let counted = count_success s in
      record counted { visited = HashSet.insert counted.visited (from_url effective) }

  unfoldable pub handle_fetched :
      Extractors
      → CrawlConfig Url
      → Url
      → CrawlState Url
      → ℕ
      → Url
      → FetchMeta Url
      → Bytes
      → Handled Url
  handle_fetched x cfg root s depth effective meta bytes =
      if escapes cfg root depth effective
      then next (count_success s)
      else let s' = follow_links x cfg root depth effective meta.kind bytes (see s effective) in
        if is_indexed cfg effective then yielded s' (page_of effective meta bytes) else next s'

  unfoldable pub handle_error :
      CrawlConfig Url → Url → CrawlState Url → Request Url → Error → Handled Url
  handle_error cfg root s req (not_modified text) = next (handle_unchanged cfg root s req)
  handle_error cfg root s req e =
      if req.depth == 0 then aborted e else next (record s { failed = s.failed + 1 })

  -- The state is the one without the request. A fetcher that panics ends the crawl.
  unfoldable pub handle :
      Extractors
      → CrawlConfig Url
      → Url
      → CrawlState Url
      → Request Url
      → Result (FetchMeta Url × Bytes)
      → Handled Url
  handle x cfg root s req (ok (meta, bytes)) =
      handle_fetched x cfg root s req.depth (or_requested meta.final_url req.url) meta bytes
  handle x cfg root s req (err e) = handle_error cfg root s req e
  handle x cfg root s req panic = aborted (Error.crawl "crawl" "panic")
