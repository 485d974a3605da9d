-- ===== src/Crawl/Budget.antt =====
-- The page budget and the concurrency cap of a crawl (src/source/crawl.rs).
use link_r.Prelude.{
  ℕ, ◌+◌, ◌≤◌, ◌≡◌, refl, ap, subst, List, [], ◌∷◌, ◌++◌, Bytes, length, length-append, max, arith,
  Bool-cases, inl, inr, Option-cases,
}
use link_r.Error.{Error, Result, ok, err, panic}
use link_r.External.{UrlApi, Hasher}
use link_r.Resource.{ResourceKind}
use link_r.Crawl.State.{
  CrawlConfig, FetchMeta, Request, CrawlState, Page, Verdict, skipped, launched, Handled, next,
  yielded, aborted, start, has_room, fill_one, push_new, enqueue, enqueue_known, enqueue_links,
  child_of,
}
use link_r.Crawl.Handler.{
  Extractors, handle, handle_error, handle_fetched, handle_unchanged, follow_links, escapes,
  is_indexed, or_requested, revalidate, known_children, count_success, see, extract_links_for,
}
use link_r.Crawl.Fill.{Popped, fill_one-Popped, launched-has_room}
use link_r.Crawl.Steps.{Crawled, started, fill_launched, fill_skipped, completed, completed_page}

module _ {Url : Type 0} ⦃u : UrlApi Url⦄ ⦃h : Hasher⦄ where
  -- Two states with the same fetches in flight and the same number of successes.
  abbrev SameCounts : CrawlState Url → CrawlState Url → Type 0
  SameCounts s s' = (s'.in_flight ≡ s.in_flight) × (s'.successes ≡ s.successes)

  enqueue-SameCounts :
      (cfg : CrawlConfig Url) (root : Url) (depth : ℕ) (s : CrawlState Url) (child : Url)
      → SameCounts s (enqueue cfg root depth s child)
  unfolding enqueue push_new
  enqueue-SameCounts cfg root depth s child = ground arith

  enqueue_known-SameCounts :
      (cfg : CrawlConfig Url) (root : Url) (depth : ℕ) (s : CrawlState Url) (l : List Url)
      → SameCounts s (enqueue_known cfg root depth s l)
  unfolding enqueue_known
  enqueue_known-SameCounts cfg root depth s [] = (refl, refl)
  enqueue_known-SameCounts cfg root depth s (c ∷ l) = ground (
    arith,
    enqueue-SameCounts cfg root depth s c,
    enqueue_known-SameCounts cfg root depth (enqueue cfg root depth s c) l,
  )

  enqueue_links-SameCounts :
      (cfg : CrawlConfig Url) (root : Url) (depth : ℕ) (e : Url) (s : CrawlState Url)
      (l : List Bytes)
      → SameCounts s (enqueue_links cfg root depth e s l)
  unfolding enqueue_links
  enqueue_links-SameCounts cfg root depth e s [] = (refl, refl)
  enqueue_links-SameCounts cfg root depth e s (c ∷ l) = elim (Option-cases (child_of e c)) [
    | inl gone ↦ rw (gone, enqueue_links) (enqueue_links-SameCounts cfg root depth e s l)
    | inr (child, got) ↦
        rw (got, enqueue_links)
          (ground (
            arith,
            enqueue-SameCounts cfg root depth s child,
            enqueue_links-SameCounts cfg root depth e (enqueue cfg root depth s child) l,
          ))
  ]

  -- Handling an outcome leaves the fetches in flight alone, and a page costs a success.
  abbrev Counts : CrawlState Url → Handled Url → Type 0
  Counts s (next s') =
      (s'.in_flight ≡ s.in_flight)
      × ((s'.successes ≤ s.successes + 1) × (s.successes ≤ s'.successes))
  Counts s (yielded s' page) = (s'.in_flight ≡ s.in_flight) × (s'.successes ≡ s.successes + 1)
  Counts s (aborted e) = Unit

  handle_unchanged-SameCounts :
      (cfg : CrawlConfig Url) (root : Url) (s : CrawlState Url) (req : Request Url)
      → SameCounts s (handle_unchanged cfg root s req)
  unfolding handle_unchanged revalidate
  handle_unchanged-SameCounts cfg root s req = ground (
    arith,
    enqueue_known-SameCounts cfg root req.depth (revalidate s req.url) (known_children cfg req.url),
  )

  follow_links-SameCounts :
      (x : Extractors) (cfg : CrawlConfig Url) (root : Url) (depth : ℕ) (e : Url)
      (kind : ResourceKind) (bytes : Bytes) (s : CrawlState Url)
      → SameCounts s (follow_links x cfg root depth e kind bytes s)
  unfolding follow_links
  follow_links-SameCounts x cfg root depth e kind bytes s =
      ground (arith, enqueue_links-SameCounts cfg root depth e s (extract_links_for x kind bytes))

  handle_fetched-Counts :
      (x : Extractors) (cfg : CrawlConfig Url) (root : Url) (s : CrawlState Url) (depth : ℕ)
      (e : Url) (meta : FetchMeta Url) (bytes : Bytes)
      → Counts s (handle_fetched x cfg root s depth e meta bytes)
  unfolding handle_fetched see count_success
  handle_fetched-Counts x cfg root s depth e meta bytes =
      let same = follow_links-SameCounts x cfg root depth e meta.kind bytes (see s e) in
      elim (Bool-cases (escapes cfg root depth e)) [
        | inl out ↦ rw (out, handle_fetched) (ground arith)
        | inr inside ↦ elim (Bool-cases (is_indexed cfg e)) [
          | inl page ↦ rw (inside, page, handle_fetched) (ground arith)
          | inr filtered ↦ rw (inside, filtered, handle_fetched) (ground arith)
        ]
      ]

  handle_error-Counts :
      (cfg : CrawlConfig Url) (root : Url) (s : CrawlState Url) (req : Request Url) (e : Error)
      → Counts s (handle_error cfg root s req e)
  unfolding handle_error
  handle_error-Counts cfg root s req e = ground (arith, handle_unchanged-SameCounts cfg root s req)

  handle-Counts :
      (x : Extractors) (cfg : CrawlConfig Url) (root : Url) (s : CrawlState Url) (req : Request Url)
      (outcome : Result (FetchMeta Url × Bytes))
      → Counts s (handle x cfg root s req outcome)
  unfolding handle
  handle-Counts x cfg root s req (ok (meta, bytes)) =
      handle_fetched-Counts x cfg root s req.depth (or_requested meta.final_url req.url) meta bytes
  handle-Counts x cfg root s req (err e) = handle_error-Counts cfg root s req e
  handle-Counts x cfg root s req panic = ground arith

  -- What every state of a crawl keeps of its budget.
  abbrev InBudget : CrawlConfig Url → List (Page Url) → CrawlState Url → Type 0
  InBudget cfg pages s =
      (s.successes + length s.in_flight ≤ cfg.max_pages)
      × (length s.in_flight ≤ max cfg.concurrency 1)
      × (length pages ≤ s.successes)

  launched-InBudget :
      (cfg : CrawlConfig Url) (pages : List (Page Url)) (s s' : CrawlState Url) (verdict : Verdict)
      (now : ℕ) (url : Url)
      → InBudget cfg pages s
      → fill_one cfg s verdict now ≡ launched s' url
      → InBudget cfg pages s'
  unfolding has_room
  launched-InBudget cfg pages s s' verdict now url (room, cap, paid) e =
      let (depth, rest, req, (_, _, flight, _, _, _, same)) =
        subst (Popped s) e (fill_one-Popped cfg s verdict now) in
      let enough = launched-has_room cfg s s' verdict now url e in
      ground (arith, ap length flight, length-append s.in_flight (req ∷ []), same)

  skipped-InBudget :
      (cfg : CrawlConfig Url) (pages : List (Page Url)) (s s' : CrawlState Url) (verdict : Verdict)
      (now : ℕ)
      → InBudget cfg pages s
      → fill_one cfg s verdict now ≡ skipped s'
      → InBudget cfg pages s'
  skipped-InBudget cfg pages s s' verdict now (room, cap, paid) e =
      let (entry, (_, flight, _, same)) = subst (Popped s) e (fill_one-Popped cfg s verdict now) in
      ground (arith, ap length flight, same)

  handled-InBudget :
      (cfg : CrawlConfig Url) (pages : List (Page Url)) (s s' : CrawlState Url)
      (before : List (Request Url)) (req : Request Url) (after : List (Request Url))
      → InBudget cfg pages s
      → s.in_flight ≡ before ++ req ∷ after
      → Counts (record s { in_flight = before ++ after }) (next s')
      → InBudget cfg pages s'
  handled-InBudget cfg pages s s' before req after (room, cap, paid) split (flight, (up, down)) =
      ground (
        arith,
        ap length split,
        ap length flight,
        length-append before (req ∷ after),
        length-append before after,
      )

  yielded-InBudget :
      (cfg : CrawlConfig Url) (pages : List (Page Url)) (page : Page Url) (s s' : CrawlState Url)
      (before : List (Request Url)) (req : Request Url) (after : List (Request Url))
      → InBudget cfg pages s
      → s.in_flight ≡ before ++ req ∷ after
      → Counts (record s { in_flight = before ++ after }) (yielded s' page)
      → InBudget cfg (page ∷ pages) s'
  yielded-InBudget cfg pages page s s' before req after (room, cap, paid) split (flight, up) =
      ground (
        arith,
        ap length split,
        ap length flight,
        length-append before (req ∷ after),
        length-append before after,
      )

  Crawled-InBudget :
      (x : Extractors) (cfg : CrawlConfig Url) (root : Url) {log : List Url}
      {pages : List (Page Url)} {s : CrawlState Url}
      → Crawled x cfg root log pages s
      → InBudget cfg pages s
  unfolding start
  Crawled-InBudget x cfg root started = ground arith
  Crawled-InBudget x cfg root
        (fill_launched {pages = pages} {s = s} {s' = s'} {url = url} verdict now run e) =
      launched-InBudget cfg pages s s' verdict now url (Crawled-InBudget x cfg root run) e
  Crawled-InBudget x cfg root (fill_skipped {pages = pages} {s = s} {s' = s'} verdict now run e) =
      skipped-InBudget cfg pages s s' verdict now (Crawled-InBudget x cfg root run) e
  Crawled-InBudget x cfg root
        (completed {pages = pages} {s = s} {s' = s'} verdict now before req after outcome run _
          split e) =
      handled-InBudget cfg pages s s' before req after (Crawled-InBudget x cfg root run) split (
        subst (Counts (record s { in_flight = before ++ after })) e
          (handle-Counts x cfg root (record s { in_flight = before ++ after }) req outcome))
  Crawled-InBudget x cfg root
        (completed_page {pages = pages} {s = s} {s' = s'} {page = page} verdict now before req after
          outcome run _ split e) =
      yielded-InBudget cfg pages page s s' before req after (Crawled-InBudget x cfg root run) split
        (subst (Counts (record s { in_flight = before ++ after })) e
          (handle-Counts x cfg root (record s { in_flight = before ++ after }) req outcome))

  -- At every point of a crawl the fetches in flight and the pages that succeeded are at most
  -- `max_pages` together, at most `max(concurrency, 1)` fetches are in flight, and no more pages
  -- are yielded than succeeded: so at most `max_pages` pages come out.
  pub crawl_within_budget :
      (x : Extractors) (cfg : CrawlConfig Url) (root : Url) (log : List Url)
      (pages : List (Page Url)) (s : CrawlState Url)
      → Crawled x cfg root log pages s
      → (s.successes + length s.in_flight ≤ cfg.max_pages)
        × (length s.in_flight ≤ max cfg.concurrency 1)
        × (length pages ≤ s.successes)
        × (length pages ≤ cfg.max_pages)
  crawl_within_budget x cfg root log pages s run =
      let (room, cap, paid) = Crawled-InBudget x cfg root run in (room, cap, paid, omega arith)
