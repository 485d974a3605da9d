-- ===== src/Crawl/Steps.antt =====
-- The runs of `CrawlSource::discover` in src/source/crawl.rs: its loop as steps, with the URLs
-- launched and the pages yielded so far, the newest first.
use link_r.Prelude.{ℕ, ◌≡◌, List, [], ◌∷◌, ◌++◌, Bytes}
use link_r.Error.{Result}
use link_r.External.{UrlApi, Hasher}
use link_r.Crawl.State.{
  CrawlConfig, FetchMeta, Request, CrawlState, Page, Verdict, idle, skipped, launched, next,
  yielded, start, fill_one,
}
use link_r.Crawl.Handler.{Extractors, handle}

-- `FuturesUnordered`: any fetch in flight may complete first.
pub data Crawled {Url : Type 0} ⦃u : UrlApi Url⦄ ⦃h : Hasher⦄ (x : Extractors)
    (cfg : CrawlConfig Url) (root : Url)
    : List Url → List (Page Url) → CrawlState Url → Type 0 where
  started : Crawled x cfg root [] [] (start root)
  fill_launched :
      {log : List Url} {pages : List (Page Url)} {s s' : CrawlState Url} {url : Url}
      → (verdict : Verdict) (now : ℕ) → Crawled x cfg root log pages s
      → fill_one cfg s verdict now ≡ launched s' url
      → Crawled x cfg root (url ∷ log) pages s'
  fill_skipped :
      {log : List Url} {pages : List (Page Url)} {s s' : CrawlState Url}
      → (verdict : Verdict) (now : ℕ) → Crawled x cfg root log pages s
      → fill_one cfg s verdict now ≡ skipped s'
      → Crawled x cfg root log pages s'
  completed :
      {log : List Url} {pages : List (Page Url)} {s s' : CrawlState Url}
      → (verdict : Verdict) (now : ℕ)
      → (before : List (Request Url)) (req : Request Url) (after : List (Request Url))
      → (outcome : Result (FetchMeta Url × Bytes)) → Crawled x cfg root log pages s
      → fill_one cfg s verdict now ≡ idle
      → s.in_flight ≡ before ++ req ∷ after
      → handle x cfg root (record s { in_flight = before ++ after }) req outcome ≡ next s'
      → Crawled x cfg root log pages s'
  completed_page :
      {log : List Url} {pages : List (Page Url)} {s s' : CrawlState Url} {page : Page Url}
      → (verdict : Verdict) (now : ℕ)
      → (before : List (Request Url)) (req : Request Url) (after : List (Request Url))
      → (outcome : Result (FetchMeta Url × Bytes)) → Crawled x cfg root log pages s
      → fill_one cfg s verdict now ≡ idle
      → s.in_flight ≡ before ++ req ∷ after
      → handle x cfg root (record s { in_flight = before ++ after }) req outcome ≡ yielded s' page
      → Crawled x cfg root log (page ∷ pages) s'
