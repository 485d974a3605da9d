-- ===== src/Examples/Crawls.antt =====
-- Crawls, fetches and the scope at concrete inputs.
use link_r.Prelude.{
  some, ℕ, zero, suc, ◌+◌, ◌<◌, ◌≤◌, ◌≡◌, ◌≢◌, ◌⊎◌, ◌↔◌, refl, none, [], ◌∷◌, codes, arith, length,
  true, false, All, max,
}
use link_r.Prelude.HashMap
use link_r.Prelude.HashSet
use link_r.Prelude.HashSet.{count}
use link_r.Error.{Result, ok, err, timeout, is_retriable, ◌>>=◌}
use link_r.UrlKey.{from_url}
use link_r.Resource.ResourceKind.{html}
use link_r.Crawl.Scope.{path_prefix, allows, path_allowed, extension_allowed, path_under, contains}
use link_r.Index.Meta.{starts_with}
use link_r.Crawl.Scope.Boundaries.{Under, path_under_iff}
use link_r.Crawl.Pacer
use link_r.Crawl.Pacer.{Pacer, slot_of, reserve, reserve_apart, reserve_other}
use link_r.Crawl.Fetch.{fetch_one, fetch_loop, may_retry, fetch_one_lem, fetch_one_retries}
use link_r.Crawl.State.{
  CrawlConfig, FetchMeta, Request, CrawlState, Page, allowed, yielded, start, fill_one, fill_pop,
  fill_with, launch, has_room,
}
use link_r.Crawl.Handler.{
  Extractors, handle, page_of, handle_fetched, follow_links, escapes, is_indexed, see,
}
use link_r.Crawl.Steps.{Crawled, started, fill_launched, completed_page}
use link_r.Crawl.Tracked.{keys, waiting, bit}
use link_r.Crawl.Budget.{crawl_within_budget}
use link_r.Crawl.Once.{crawl_fetches_once}
use link_r.Crawl.Reach.{Admitted, Indexed, crawl_stays_in_scope, handle-yields}
use link_r.Crawl.Scope.{host_under}
use link_r.Crawl.Scope.Hosts.{InDomain, host_under_iff}
use link_r.Crawl.Source.{CrawlSource, new, with_config, default, accept_extension}
use link_r.Crawl.Source.Extensions.{HasExtension, accept_extension_allows}
use link_r.Examples.Setup.{Url, url_api, hasher, root}

abbrev cfg : CrawlConfig Url
cfg = record {
  max_depth = 3;
  scope = path_prefix;
  max_pages = 4;
  min_delay = 0;
  max_bytes = none;
  user_agent = none;
  require_path_contains = [];
  accept_extensions = [];
  index_path_contains = codes "docs" ∷ [];
  concurrency = 2;
  max_retries = 3;
  validators = [];
  known_edges = [];
  respect_robots = false;
}

-- Every page links to `page_b`.
abbrev links : Extractors
links = record { extract_links = λ bytes. codes "/docs/b" ∷ []; extract_md_links = λ bytes. [] }

abbrev root_request : Request Url
root_request = record { url = root; depth = 0; delay = 0; etag = none }

abbrev meta : FetchMeta Url
meta = record { kind = html; etag = none; status = 200; final_url = none }

abbrev launched_root : CrawlState Url
launched_root = record (start root) { frontier = []; in_flight = root_request ∷ [] }

run_launched : Crawled links cfg root (root ∷ []) [] launched_root
unfolding start fill_one has_room fill_pop fill_with launch reserve HashMap.get
run_launched = fill_launched (allowed 0) 0 started refl

abbrev after_root : CrawlState Url
after_root =
    follow_links links cfg root 0 root html [] (see (record launched_root { in_flight = [] }) root)

abbrev root_page : Page Url
root_page = page_of root meta []

root_handled :
    handle links cfg root (record launched_root { in_flight = [] }) root_request (ok (meta, []))
    ≡ yielded after_root root_page
unfolding handle handle_fetched escapes is_indexed path_allowed extension_allowed contains
    starts_with
root_handled = refl

run_page : Crawled links cfg root (root ∷ []) (root_page ∷ []) after_root
unfolding start fill_one has_room fill_pop
run_page =
    completed_page (allowed 0) 0 [] root_request [] (ok (meta, [])) run_launched refl refl
      root_handled

crawl_fetches_once_example :
    (count (from_url root) (keys (root ∷ [])) ≤ 1)
    × (count (from_url root) (waiting after_root.frontier)
          + count (from_url root) (keys (root ∷ []))
        ≤ bit (HashSet.contains after_root.visited (from_url root)))
crawl_fetches_once_example =
    crawl_fetches_once links cfg root (root ∷ []) (root_page ∷ []) after_root (from_url root)
      run_page

crawl_stays_in_scope_example :
    All (λ url. (url ≡ root) ⊎ Admitted cfg root url) (root ∷ [])
    × All (λ entry. entry.1 ≤ 3) after_root.frontier
    × All (λ req. req.depth ≤ 3) after_root.in_flight
    × All (λ page. Indexed cfg page.resource.url) (root_page ∷ [])
crawl_stays_in_scope_example =
    crawl_stays_in_scope links cfg root (root ∷ []) (root_page ∷ []) after_root run_page

crawl_within_budget_example :
    (after_root.successes + length after_root.in_flight ≤ 4)
    × (length after_root.in_flight ≤ max 2 1)
    × (length (root_page ∷ []) ≤ after_root.successes)
    × (length (root_page ∷ []) ≤ 4)
crawl_within_budget_example =
    crawl_within_budget links cfg root (root ∷ []) (root_page ∷ []) after_root run_page

handle-yields_example :
    (extension_allowed root_page.resource.url [] ≡ true)
    × (path_allowed root_page.resource.url (codes "docs" ∷ []) ≡ true)
    × ((◌≡◌ {A = ℕ} 0 0) ⊎ (allows path_prefix root root_page.resource.url ≡ true))
handle-yields_example =
    handle-yields links cfg root (record launched_root { in_flight = [] }) after_root root_request
      (ok (meta, [])) root_page root_handled

-- The first attempt times out, the second one answers.
abbrev answers : ℕ → Result ℕ
answers zero = err (timeout 5)
answers (suc n) = ok 7

abbrev fetched : ℕ
fetched = length (fetch_one (λ status. false) (λ attempt. 100) answers (λ n. ok n) 3).sleeps

fetch_one_lem_example :
    (fetched ≤ 3)
    × ((fetch_one (λ status. false) (λ attempt. 100) answers (λ n. ok n) 3).answer
        ≡ (answers fetched >>= λ n. ok n))
    × ((may_retry (λ status. false) (answers fetched) ≡ false) ⊎ (fetched ≡ 3))
fetch_one_lem_example = fetch_one_lem (λ status. false) (λ attempt. 100) answers (λ n. ok n) 3

one_retry : 0 < fetched
unfolding fetch_one fetch_loop is_retriable
one_retry = omega arith

fetch_one_retries_example : may_retry (λ status. false) (answers 0) ≡ true
fetch_one_retries_example =
    fetch_one_retries (λ status. false) (λ attempt. 100) answers (λ n. ok n) 3 0 one_retry

path_under_iff_example :
    (path_under (codes "/docs") (codes "/docsx") ≡ true) ↔ Under (codes "/docs") (codes "/docsx")
path_under_iff_example = path_under_iff (codes "/docs") (codes "/docsx")

other_host : codes "a.dev" ≢ codes "b.dev"
other_host e = ground arith

abbrev first_slot : Pacer × ℕ
first_slot = reserve Pacer.new (codes "a.dev") 10 100

reserve_apart_example :
    100 + first_slot.1 + 10 ≤ 103 + (reserve first_slot.0 (codes "a.dev") 10 103).1
reserve_apart_example =
    reserve_apart Pacer.new (codes "a.dev") 10 100 10 103 (omega arith) (omega arith)

reserve_other_example :
    slot_of first_slot.0 (codes "b.dev") 100 ≡ slot_of Pacer.new (codes "b.dev") 100
reserve_other_example =
    reserve_other Pacer.new (codes "a.dev") 10 100 (codes "b.dev") 100 other_host

host_under_iff_example :
    (host_under (codes "ab.dev") (codes "b.dev") ≡ true) ↔ InDomain (codes "b.dev") (codes "ab.dev")
host_under_iff_example = host_under_iff (codes "ab.dev") (codes "b.dev")

abbrev page_md : Url
page_md = record { host = some (codes "a.dev"); path = codes "/a.md"; query = none }

abbrev source : CrawlSource ℕ Url
source = new 0

source_fresh : source.config.accept_extensions ≡ []
unfolding new with_config default
source_fresh = refl

accept_extension_allows_example :
    (extension_allowed page_md (accept_extension source (codes ".MD")).config.accept_extensions
      ≡ true)
    ↔ HasExtension (codes "/a.md") (codes ".MD")
accept_extension_allows_example = accept_extension_allows source (codes ".MD") page_md source_fresh
