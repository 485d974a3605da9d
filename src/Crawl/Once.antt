-- ===== src/Crawl/Once.antt =====
-- Deduplication over a whole crawl (src/source/crawl.rs).
use link_r.Prelude.{ℕ, ◌+◌, ◌≤◌, ◌≡◌, ap, subst, List, ◌∷◌, ◌++◌, arith, Bool-cases, nat_beq_iff}
use link_r.Prelude.HashSet
use link_r.Prelude.HashSet.{count, count-append}
use link_r.External.{UrlApi, Hasher}
use link_r.UrlKey.{from_url}
use link_r.Crawl.State.{CrawlConfig, CrawlState, Page, Verdict, skipped, launched, start, fill_one}
use link_r.Crawl.Handler.{Extractors}
use link_r.Crawl.Fill.{Popped, fill_one-Popped}
use link_r.Crawl.Steps.{Crawled, started, fill_launched, fill_skipped, completed, completed_page}
use link_r.Crawl.Tracked.{bit, keys, waiting, Tracked, Keeps, handle-Tracked}

module _ {Url : Type 0} ⦃u : UrlApi Url⦄ ⦃h : Hasher⦄ where
  at_most_once : (k n : ℕ) (s : CrawlState Url) → Tracked k n s → n ≤ 1
  at_most_once k n s t = ground (arith, Bool-cases (HashSet.contains s.visited k))

  start-Tracked : (k : ℕ) (root : Url) → Tracked k 0 (start root)
  unfolding start waiting count HashSet.contains HashSet.insert
  start-Tracked k root = ground (arith, nat_beq_iff (from_url root) k)

  launched-Tracked :
      (k : ℕ) (log : List Url) (cfg : CrawlConfig Url) (s s' : CrawlState Url) (verdict : Verdict)
      (now : ℕ) (url : Url)
      → Tracked k (count k (keys log)) s
      → fill_one cfg s verdict now ≡ launched s' url
      → Tracked k (count k (keys (url ∷ log))) s'
  unfolding waiting keys count
  launched-Tracked k log cfg s s' verdict now url t e =
      let (depth, rest, req, (before, after, _, _, _, visited, _)) =
        subst (Popped s) e (fill_one-Popped cfg s verdict now) in
      ground (
        arith,
        ap (λ l. count k (waiting l)) before,
        ap (λ l. count k (waiting l)) after,
        ap (λ v. HashSet.contains v k) visited,
      )

  skipped-Tracked :
      (k n : ℕ) (cfg : CrawlConfig Url) (s s' : CrawlState Url) (verdict : Verdict) (now : ℕ)
      → Tracked k n s
      → fill_one cfg s verdict now ≡ skipped s'
      → Tracked k n s'
  unfolding waiting count
  skipped-Tracked k n cfg s s' verdict now t e =
      let (entry, (before, _, visited, _)) =
        subst (Popped s) e (fill_one-Popped cfg s verdict now) in
      ground (arith, ap (λ l. count k (waiting l)) before, ap (λ v. HashSet.contains v k) visited)

  Crawled-Tracked :
      (k : ℕ) (x : Extractors) (cfg : CrawlConfig Url) (root : Url) {log : List Url}
      {pages : List (Page Url)} {s : CrawlState Url}
      → Crawled x cfg root log pages s
      → Tracked k (count k (keys log)) s
  unfolding keys count
  Crawled-Tracked k x cfg root started = start-Tracked k root
  Crawled-Tracked k x cfg root
        (fill_launched {log = log} {s = s} {s' = s'} {url = url} verdict now run e) =
      launched-Tracked k log cfg s s' verdict now url (Crawled-Tracked k x cfg root run) e
  Crawled-Tracked k x cfg root (fill_skipped {log = log} {s = s} {s' = s'} verdict now run e) =
      skipped-Tracked k (count k (keys log)) cfg s s' verdict now (Crawled-Tracked k x cfg root run)
        e
  Crawled-Tracked k x cfg root
        (completed {log = log} {s = s} verdict now before req after outcome run _ _ e) =
      let n = count k (keys log) in
      subst (Keeps (Tracked k n)) e (
        handle-Tracked k n x cfg root (record s { in_flight = before ++ after }) req outcome
          (Crawled-Tracked k x cfg root run))
  Crawled-Tracked k x cfg root
        (completed_page {log = log} {s = s} verdict now before req after outcome run _ _ e) =
      let n = count k (keys log) in
      subst (Keeps (Tracked k n)) e (
        handle-Tracked k n x cfg root (record s { in_flight = before ++ after }) req outcome
          (Crawled-Tracked k x cfg root run))

  -- No canonical URL is launched twice in a crawl, whatever links the pages hold and in whatever
  -- order the fetches complete: a key is counted at most once among the URLs launched and those
  -- that wait, and not at all unless it is marked as visited.
  pub crawl_fetches_once :
      (x : Extractors) (cfg : CrawlConfig Url) (root : Url) (log : List Url)
      (pages : List (Page Url)) (s : CrawlState Url) (k : ℕ)
      → Crawled x cfg root log pages s
      → (count k (keys log) ≤ 1)
        × (count k (waiting s.frontier) + count k (keys log) ≤ bit (HashSet.contains s.visited k))
  crawl_fetches_once x cfg root log pages s k run =
      let t = Crawled-Tracked k x cfg root run in (at_most_once k (count k (keys log)) s t, t)
