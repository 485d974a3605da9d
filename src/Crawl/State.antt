-- ===== src/Crawl/State.antt =====
-- The state machine of `CrawlSource::discover` in src/source/crawl.rs. One call of `fill_one` is
-- one round of the fill loop; one call of `handle` is what the loop body does with the outcome of
-- a fetch. A robots verdict, the clock and the outcome of a fetch are inputs of the step.
use link_r.Prelude.{
  ℕ, ◌+◌, Bool, not, ◌&&◌, ◌||◌, Option, none, some, List, [], ◌∷◌, ◌++◌, Bytes, codes, ltb, max,
  length, if◌then◌else◌, ◌==◌, nat_eq, bytes_eq,
}
use link_r.Prelude.HashMap
use link_r.Prelude.HashMap.{HashMap}
use link_r.Prelude.HashSet
use link_r.Prelude.HashSet.{HashSet}
use link_r.Error.{Error, crawl}
use link_r.External.{UrlApi, Hasher}
use link_r.UrlKey.{from_url}
use link_r.Resource.{ResourceKind, Resource}
use link_r.Crawl.Scope.{CrawlScope, allows, path_allowed, is_asset}
use link_r.Crawl.Pacer
use link_r.Crawl.Pacer.{Pacer}

pub record CrawlConfig (Url : Type 0) : Type 0 where
  pub max_depth : ℕ
  pub scope : CrawlScope
  pub max_pages : ℕ
  pub min_delay : ℕ
  pub max_bytes : Option ℕ
  pub user_agent : Option Bytes
  pub require_path_contains : List Bytes
  pub accept_extensions : List Bytes
  pub index_path_contains : List Bytes
  pub concurrency : ℕ
  pub max_retries : ℕ
  pub validators : HashMap ℕ Bytes
  pub known_edges : HashMap ℕ (List Url)
  pub respect_robots : Bool

pub record FetchMeta (Url : Type 0) : Type 0 where
  pub kind : ResourceKind
  pub etag : Option Bytes
  pub status : ℕ
  pub final_url : Option Url

-- A fetch that is in flight: the arguments of `fetch_one` that differ from launch to launch.
pub record Request (Url : Type 0) : Type 0 where
  pub url : Url
  pub depth : ℕ
  pub delay : ℕ
  pub etag : Option Bytes

pub record CrawlState (Url : Type 0) : Type 0 where
  pub visited : HashSet
  pub frontier : List (Url × ℕ)
  pub in_flight : List (Request Url)
  pub successes : ℕ
  pub pacer : Pacer
  pub failed : ℕ
  pub revalidated : List Url

pub record Page (Url : Type 0) : Type 0 where
  pub resource : Resource Url
  pub payload : Bytes

-- The decision of `RobotsCache::check` for one candidate.
pub data Verdict : Type 0 where
  allowed : ℕ → Verdict
  disallowed : Verdict

-- A round of the fill loop: it is over, it stops the crawl, it drops the link, or it launches.
pub data Filled (Url : Type 0) : Type 0 where
  idle : Filled Url
  stopped : Error → Filled Url
  skipped : CrawlState Url → Filled Url
  launched : CrawlState Url → Url → Filled Url

-- The outcome of a fetch is handled: the loop goes on, yields a page first, or ends with an error.
pub data Handled (Url : Type 0) : Type 0 where
  next : CrawlState Url → Handled Url
  yielded : CrawlState Url → Page Url → Handled Url
  aborted : Error → Handled Url

-- `url.host_str().unwrap_or("")`
abbrev or_empty : Option Bytes → Bytes
or_empty none = []
or_empty (some host) = host

module _ {Url : Type 0} ⦃u : UrlApi Url⦄ ⦃h : Hasher⦄ where
  unfoldable pub start : Url → CrawlState Url
  start root = record {
    visited = HashSet.insert [] (from_url root);
    frontier = (root, 0) ∷ [];
    in_flight = [];
    successes = 0;
    pacer = Pacer.new;
    failed = 0;
    revalidated = [];
  }

  unfoldable pub launch : CrawlConfig Url → CrawlState Url → Url → ℕ → ℕ → ℕ → Filled Url
  launch cfg s url depth interval now =
      let (pacer, delay) = Pacer.reserve s.pacer (or_empty (u.host_str url)) interval now in
      let request : Request Url = record {
        url = url;
        depth = depth;
        delay = delay;
        etag = HashMap.get cfg.validators (from_url url);
      } in
      launched (record s { pacer = pacer; in_flight = s.in_flight ++ request ∷ [] }) url

  -- A round with the popped link, the rest of the frontier already in the state.
  unfoldable pub fill_with : CrawlConfig Url → CrawlState Url → Url → ℕ → Verdict → ℕ → Filled Url
  fill_with cfg s url depth verdict now =
      if cfg.respect_robots
      then elim verdict [
        | allowed crawl_delay ↦ launch cfg s url depth (max cfg.min_delay crawl_delay) now
        | disallowed ↦
            if depth == 0
            then stopped (crawl "crawl" "root URL is disallowed by robots.txt")
            else skipped s
      ]
      else launch cfg s url depth cfg.min_delay now

  unfoldable pub has_room : CrawlConfig Url → CrawlState Url → Bool
  has_room cfg s =
      ltb (length s.in_flight) (max cfg.concurrency 1)
      && ltb (s.successes + length s.in_flight) cfg.max_pages

  unfoldable pub fill_pop :
      CrawlConfig Url → CrawlState Url → List (Url × ℕ) → Verdict → ℕ → Filled Url
  fill_pop cfg s [] verdict now = idle
  fill_pop cfg s ((url, depth) ∷ rest) verdict now =
      fill_with cfg (record s { frontier = rest }) url depth verdict now

  unfoldable pub fill_one : CrawlConfig Url → CrawlState Url → Verdict → ℕ → Filled Url
  fill_one cfg s verdict now =
      if has_room cfg s then fill_pop cfg s s.frontier verdict now else idle

  -- Whether a link is followed: in scope, on the required path, and not an asset.
  unfoldable pub follows : CrawlConfig Url → Url → Url → Bool
  follows cfg root child = not (
      is_asset child
      || not (allows cfg.scope root child)
      || not (path_allowed child cfg.require_path_contains))

  -- `if visited.insert(UrlKey::from_url(&child)) { frontier.push_back((child, depth + 1)) }`
  unfoldable pub push_new : CrawlState Url → Url → ℕ → CrawlState Url
  push_new s child depth = if HashSet.contains s.visited (from_url child) then s else record s {
    visited = HashSet.insert s.visited (from_url child);
    frontier = s.frontier ++ (child, depth) ∷ [];
  }

  unfoldable pub enqueue : CrawlConfig Url → Url → ℕ → CrawlState Url → Url → CrawlState Url
  enqueue cfg root depth s child =
      if follows cfg root child then push_new s child (depth + 1) else s

  unfoldable pub enqueue_known :
      CrawlConfig Url → Url → ℕ → CrawlState Url → List Url → CrawlState Url
  enqueue_known cfg root depth s [] = s
  enqueue_known cfg root depth s (child ∷ children) =
      enqueue_known cfg root depth (enqueue cfg root depth s child) children

  -- The link that an `href` stands for, if it is one that the crawl can fetch.
  unfoldable pub child_of : Url → Bytes → Option Url
  child_of effective href = elim (u.join effective href) [
    | none ↦ none
    | some joined ↦
        let child = u.without_fragment joined in
        if u.scheme child == codes "http" || u.scheme child == codes "https"
        then some child
        else none
  ]

  unfoldable pub enqueue_links :
      CrawlConfig Url → Url → ℕ → Url → CrawlState Url → List Bytes → CrawlState Url
  enqueue_links cfg root depth effective s [] = s
  enqueue_links cfg root depth effective s (href ∷ hrefs) = elim (child_of effective href) [
    | none ↦ enqueue_links cfg root depth effective s hrefs
    | some child ↦ enqueue_links cfg root depth effective (enqueue cfg root depth s child) hrefs
  ]
