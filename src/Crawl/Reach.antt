-- ===== src/Crawl/Reach.antt =====
-- What a crawl fetches and yields (src/source/crawl.rs).
use link_r.Prelude.{
  ℕ, ◌≤◌, ◌≡◌, ◌⊎◌, refl, sym, subst, true, false, List, [], ◌∷◌, ◌++◌, Bytes, All, arith, none,
  some, Bool-cases, inl, inr, All-append, All-split, All-map, Option,
}
use link_r.Error.{Result, ok, err, panic}
use link_r.External.{UrlApi, Hasher}
use link_r.Resource.{with_kind, with_etag, new}
use link_r.Crawl.Scope.{allows, path_allowed, extension_allowed, is_asset}
use link_r.Crawl.State.{
  CrawlConfig, FetchMeta, Request, CrawlState, Page, Verdict, Handled, skipped, launched, yielded,
  start, fill_one, follows,
}
use link_r.Crawl.Handler.{
  Extractors, handle, handle_error, handle_fetched, escapes, is_indexed, or_requested, page_of,
}
use link_r.Crawl.Fill.{Popped, fill_one-Popped}
use link_r.Crawl.Steps.{Crawled, started, fill_launched, fill_skipped, completed, completed_page}
use link_r.Crawl.Tracked.{Keeps}
use link_r.Crawl.Follows.{MayFetch, Sound, handle-Sound}

module _ {Url : Type 0} ⦃u : UrlApi Url⦄ ⦃h : Hasher⦄ where
  -- A link that the configuration admits.
  abbrev pub Admitted : CrawlConfig Url → Url → Url → Type 0
  Admitted cfg root url =
      (is_asset url ≡ false)
      × (allows cfg.scope root url ≡ true)
      × (path_allowed url cfg.require_path_contains ≡ true)

  follows-Admitted :
      (cfg : CrawlConfig Url) (root url : Url) → follows cfg root url ≡ true → Admitted cfg root url
  unfolding follows
  follows-Admitted cfg root url e = ground arith

  abbrev pub Indexed : CrawlConfig Url → Url → Type 0
  Indexed cfg url =
      (extension_allowed url cfg.accept_extensions ≡ true)
      × (path_allowed url cfg.index_path_contains ≡ true)

  is_indexed-Indexed :
      (cfg : CrawlConfig Url) (url : Url) → is_indexed cfg url ≡ true → Indexed cfg url
  unfolding is_indexed
  is_indexed-Indexed cfg url e = ground arith

  page_of_url :
      (e : Url) (meta : FetchMeta Url) (bytes : Bytes) → (page_of e meta bytes).resource.url ≡ e
  unfolding page_of with_kind with_etag new
  page_of_url e meta bytes = go meta.etag
    where
      go : (tag : Option Bytes) → (page_of e (record meta { etag = tag }) bytes).resource.url ≡ e
      go none = refl
      go (some tag) = refl

  abbrev InScope : CrawlConfig Url → Url → ℕ → Url → Type 0
  InScope cfg root depth url = (depth ≡ 0) ⊎ (allows cfg.scope root url ≡ true)

  -- What holds of the page that a step yields.
  abbrev GoodPage : CrawlConfig Url → Url → ℕ → Handled Url → Type 0
  GoodPage cfg root depth (yielded s page) =
      Indexed cfg page.resource.url × InScope cfg root depth page.resource.url
  GoodPage cfg root depth _ = Unit

  escapes-InScope :
      (cfg : CrawlConfig Url) (root : Url) (depth : ℕ) (e : Url)
      → escapes cfg root depth e ≡ false
      → InScope cfg root depth e
  unfolding escapes
  escapes-InScope cfg root depth e inside = ground arith

  handle_fetched-GoodPage :
      (x : Extractors) (cfg : CrawlConfig Url) (root : Url) (s : CrawlState Url) (depth : ℕ)
      (e : Url) (meta : FetchMeta Url) (bytes : Bytes)
      → GoodPage cfg root depth (handle_fetched x cfg root s depth e meta bytes)
  unfolding handle_fetched
  handle_fetched-GoodPage x cfg root s depth e meta bytes =
      elim (Bool-cases (escapes cfg root depth e)) [
        | inl out ↦ rw (out, handle_fetched) tt
        | inr inside ↦ elim (Bool-cases (is_indexed cfg e)) [
          | inl page ↦
              rw (inside, page, handle_fetched)
                (subst (λ url. Indexed cfg url × InScope cfg root depth url)
                  (sym (page_of_url e meta bytes))
                  (is_indexed-Indexed cfg e page, escapes-InScope cfg root depth e inside))
          | inr filtered ↦ rw (inside, filtered, handle_fetched) tt
        ]
      ]

  handle-GoodPage :
      (x : Extractors) (cfg : CrawlConfig Url) (root : Url) (s : CrawlState Url) (req : Request Url)
      (outcome : Result (FetchMeta Url × Bytes))
      → GoodPage cfg root req.depth (handle x cfg root s req outcome)
  unfolding handle handle_error
  handle-GoodPage x cfg root s req (ok (meta, bytes)) =
      handle_fetched-GoodPage x cfg root s req.depth (or_requested meta.final_url req.url) meta
        bytes
  handle-GoodPage x cfg root s req (err e) = ground arith
  handle-GoodPage x cfg root s req panic = tt

  -- A page that a step yields passes the index filters, whatever the outcome of the fetch was, and
  -- unless it answers the request for the root it is in scope, redirects included.
  pub handle-yields :
      (x : Extractors) (cfg : CrawlConfig Url) (root : Url) (s s' : CrawlState Url)
      (req : Request Url) (outcome : Result (FetchMeta Url × Bytes)) (page : Page Url)
      → handle x cfg root s req outcome ≡ yielded s' page
      → (extension_allowed page.resource.url cfg.accept_extensions ≡ true)
        × (path_allowed page.resource.url cfg.index_path_contains ≡ true)
        × ((req.depth ≡ 0) ⊎ (allows cfg.scope root page.resource.url ≡ true))
  handle-yields x cfg root s s' req outcome page e =
      let ((extension, path), scope) =
        subst (GoodPage cfg root req.depth) e (handle-GoodPage x cfg root s req outcome) in
      (extension, path, scope)

  launched-Sound :
      (cfg : CrawlConfig Url) (root : Url) (s s' : CrawlState Url) (verdict : Verdict) (now : ℕ)
      (url : Url)
      → Sound cfg root s
      → fill_one cfg s verdict now ≡ launched s' url
      → Sound cfg root s' × ((url ≡ root) ⊎ (follows cfg root url ≡ true))
  launched-Sound cfg root s s' verdict now url (waiting, flying) e =
      let (depth, rest, req, (before, after, flight, same_url, same_depth, _, _)) =
        subst (Popped s) e (fill_one-Popped cfg s verdict now) in
      let Entry : Url × ℕ → Type 0 = λ entry. MayFetch cfg root entry.0 entry.1 in
      let Flying : Request Url → Type 0 = λ r. MayFetch cfg root r.url r.depth in
      let (may, others) = subst (All Entry) before waiting in
      let own : MayFetch cfg root req.url req.depth =
        subst (λ d. MayFetch cfg root req.url d) (sym same_depth)
          (subst (λ v. MayFetch cfg root v depth) (sym same_url) may) in
      (
        (
          subst (All Entry) (sym after) others,
          subst (All Flying) (sym flight)
              (All-append Flying s.in_flight (req ∷ []) flying (own, tt)),
        ),
        elim may.1 [ inl (_, at_root) ↦ inl at_root | inr followed ↦ inr followed ],
      )

  skipped-Sound :
      (cfg : CrawlConfig Url) (root : Url) (s s' : CrawlState Url) (verdict : Verdict) (now : ℕ)
      → Sound cfg root s
      → fill_one cfg s verdict now ≡ skipped s'
      → Sound cfg root s'
  skipped-Sound cfg root s s' verdict now (waiting, flying) e =
      let (entry, (before, flight, _, _)) =
        subst (Popped s) e (fill_one-Popped cfg s verdict now) in
      (
        (subst (All (λ entry. MayFetch cfg root entry.0 entry.1)) before waiting).1,
        subst (All (λ r. MayFetch cfg root r.url r.depth)) (sym flight) flying,
      )

  -- The state without a request that completes.
  completing-Sound :
      (cfg : CrawlConfig Url) (root : Url) (s : CrawlState Url) (before : List (Request Url))
      (req : Request Url) (after : List (Request Url))
      → Sound cfg root s
      → s.in_flight ≡ before ++ req ∷ after
      → Sound cfg root (record s { in_flight = before ++ after })
  completing-Sound cfg root s before req after (waiting, flying) split =
      let Flying : Request Url → Type 0 = λ r. MayFetch cfg root r.url r.depth in
      let (l, (_, r)) = All-split Flying before (req ∷ after) (subst (All Flying) split flying) in
      (waiting, All-append Flying before after l r)

  abbrev InRun : CrawlConfig Url → Url → List Url → List (Page Url) → CrawlState Url → Type 0
  InRun cfg root log pages s =
      Sound cfg root s
      × All (λ url. (url ≡ root) ⊎ Admitted cfg root url) log
      × All (λ page. Indexed cfg page.resource.url) pages

  Crawled-InRun :
      (x : Extractors) (cfg : CrawlConfig Url) (root : Url) {log : List Url}
      {pages : List (Page Url)} {s : CrawlState Url}
      → Crawled x cfg root log pages s
      → InRun cfg root log pages s
  unfolding start
  Crawled-InRun x cfg root started = ((((omega arith, inl (refl, refl)), tt), tt), tt, tt)
  Crawled-InRun x cfg root (fill_launched {s = s} {s' = s'} {url = url} verdict now run e) =
      let (sound, log, pages) = Crawled-InRun x cfg root run in
      let (sound', why) = launched-Sound cfg root s s' verdict now url sound e in
      let own : (url ≡ root) ⊎ Admitted cfg root url = elim why [
        | inl at_root ↦ inl at_root
        | inr followed ↦ inr (follows-Admitted cfg root url followed)
      ] in
      (sound', (own, log), pages)
  Crawled-InRun x cfg root (fill_skipped {s = s} {s' = s'} verdict now run e) =
      let (sound, log, pages) = Crawled-InRun x cfg root run in
      (skipped-Sound cfg root s s' verdict now sound e, log, pages)
  Crawled-InRun x cfg root (completed {s = s} verdict now before req after outcome run _ split e) =
      let (sound, log, pages) = Crawled-InRun x cfg root run in
      (
        subst (Keeps (Sound cfg root)) e (
            handle-Sound x cfg root (record s { in_flight = before ++ after }) req outcome
              (completing-Sound cfg root s before req after sound split)),
        log,
        pages,
      )
  Crawled-InRun x cfg root
        (completed_page {s = s} verdict now before req after outcome run _ split e) =
      let (sound, log, pages) = Crawled-InRun x cfg root run in
      (
        subst (Keeps (Sound cfg root)) e (
            handle-Sound x cfg root (record s { in_flight = before ++ after }) req outcome
              (completing-Sound cfg root s before req after sound split)),
        log,
        (
          (subst (GoodPage cfg root req.depth) e (
              handle-GoodPage x cfg root (record s { in_flight = before ++ after }) req outcome)).0,
          pages,
        ),
      )

  -- Whatever the pages link to, a crawl fetches only its root and links that are no asset, in
  -- scope and on the required path; no link waits or is in flight below `max_depth`; and every
  -- page that it yields passes the extension and path filters of the index.
  pub crawl_stays_in_scope :
      (x : Extractors) (cfg : CrawlConfig Url) (root : Url) (log : List Url)
      (pages : List (Page Url)) (s : CrawlState Url)
      → Crawled x cfg root log pages s
      → All (λ url. (url ≡ root) ⊎ Admitted cfg root url) log
        × All (λ entry. entry.1 ≤ cfg.max_depth) s.frontier
        × All (λ req. req.depth ≤ cfg.max_depth) s.in_flight
        × All (λ page. Indexed cfg page.resource.url) pages
  crawl_stays_in_scope x cfg root log pages s run =
      let ((waiting, flying), log_ok, pages_ok) = Crawled-InRun x cfg root run in
      (
        log_ok,
        All-map (λ entry. MayFetch cfg root entry.0 entry.1) (λ entry. entry.1 ≤ cfg.max_depth)
            (λ entry may. may.0) s.frontier waiting,
        All-map (λ req. MayFetch cfg root req.url req.depth) (λ req. req.depth ≤ cfg.max_depth)
            (λ req may. may.0) s.in_flight flying,
        pages_ok,
      )
