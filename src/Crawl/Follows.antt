-- ===== src/Crawl/Follows.antt =====
-- The links of a crawl (src/source/crawl.rs): depth, scope and the filters of its pages.
use link_r.Prelude.{
  ℕ, ◌+◌, ◌≤◌, ◌<◌, ◌≡◌, ◌⊎◌, true, List, [], ◌∷◌, Bytes, All, arith, Bool-cases, inl, inr,
  Option-cases, ltb, ltb→lt, All-append,
}
use link_r.Prelude.HashSet
use link_r.UrlKey.{from_url}
use link_r.Error.{Result, ok, err, panic}
use link_r.External.{UrlApi, Hasher}
use link_r.Resource.{ResourceKind}
use link_r.Crawl.State.{
  CrawlConfig, FetchMeta, Request, CrawlState, push_new, enqueue, follows, enqueue_known,
  enqueue_links, child_of,
}
use link_r.Crawl.Handler.{
  Extractors, handle, handle_error, handle_fetched, handle_unchanged, follow_links, escapes,
  is_indexed, or_requested, revalidate, known_children, count_success, see, extract_links_for,
}
use link_r.Crawl.Tracked.{Keeps}

module _ {Url : Type 0} ⦃u : UrlApi Url⦄ ⦃h : Hasher⦄ where
  -- A link that a crawl may fetch: the root at depth 0, or a link that `follows` admits, at a
  -- depth of at most `max_depth`.
  abbrev pub MayFetch : CrawlConfig Url → Url → Url → ℕ → Type 0
  MayFetch cfg root url depth =
      (depth ≤ cfg.max_depth) × (((depth ≡ 0) × (url ≡ root)) ⊎ (follows cfg root url ≡ true))

  abbrev pub Sound : CrawlConfig Url → Url → CrawlState Url → Type 0
  Sound cfg root s =
      All (λ entry. MayFetch cfg root entry.0 entry.1) s.frontier
      × All (λ req. MayFetch cfg root req.url req.depth) s.in_flight

  push_new-Sound :
      (cfg : CrawlConfig Url) (root : Url) (depth : ℕ) (s : CrawlState Url) (child : Url)
      → MayFetch cfg root child depth
      → Sound cfg root s
      → Sound cfg root (push_new s child depth)
  unfolding push_new
  push_new-Sound cfg root depth s child may (waiting, flying) =
      elim (Bool-cases (HashSet.contains s.visited (from_url child))) [
        | inl seen ↦ rw (seen, push_new) (waiting, flying)
        | inr fresh ↦
            rw (fresh, push_new)
              (
                All-append (λ entry. MayFetch cfg root entry.0 entry.1) s.frontier
                    ((child, depth) ∷ []) waiting (may, tt),
                flying,
              )
      ]

  enqueue-Sound :
      (cfg : CrawlConfig Url) (root : Url) (depth : ℕ) (s : CrawlState Url) (child : Url)
      → depth < cfg.max_depth
      → Sound cfg root s
      → Sound cfg root (enqueue cfg root depth s child)
  unfolding enqueue
  enqueue-Sound cfg root depth s child below t = elim (Bool-cases (follows cfg root child)) [
    | inl followed ↦
        rw (followed, enqueue)
          (push_new-Sound cfg root (depth + 1) s child (omega arith, inr followed) t)
    | inr ignored ↦ rw (ignored, enqueue) t
  ]

  enqueue_known-Sound :
      (cfg : CrawlConfig Url) (root : Url) (depth : ℕ) (s : CrawlState Url) (l : List Url)
      → depth < cfg.max_depth
      → Sound cfg root s
      → Sound cfg root (enqueue_known cfg root depth s l)
  unfolding enqueue_known
  enqueue_known-Sound cfg root depth s [] below t = t
  enqueue_known-Sound cfg root depth s (c ∷ l) below t =
      enqueue_known-Sound cfg root depth (enqueue cfg root depth s c) l below
        (enqueue-Sound cfg root depth s c below t)

  enqueue_links-Sound :
      (cfg : CrawlConfig Url) (root : Url) (depth : ℕ) (e : Url) (s : CrawlState Url)
      (l : List Bytes)
      → depth < cfg.max_depth
      → Sound cfg root s
      → Sound cfg root (enqueue_links cfg root depth e s l)
  unfolding enqueue_links
  enqueue_links-Sound cfg root depth e s [] below t = t
  enqueue_links-Sound cfg root depth e s (c ∷ l) below t = elim (Option-cases (child_of e c)) [
    | inl gone ↦ rw (gone, enqueue_links) (enqueue_links-Sound cfg root depth e s l below t)
    | inr (child, got) ↦
        rw (got, enqueue_links)
          (enqueue_links-Sound cfg root depth e (enqueue cfg root depth s child) l below
            (enqueue-Sound cfg root depth s child below t))
  ]

  handle_unchanged-Sound :
      (cfg : CrawlConfig Url) (root : Url) (s : CrawlState Url) (req : Request Url)
      → Sound cfg root s
      → Sound cfg root (handle_unchanged cfg root s req)
  unfolding handle_unchanged revalidate
  handle_unchanged-Sound cfg root s req t = elim (Bool-cases (ltb req.depth cfg.max_depth)) [
    | inl deeper ↦
        rw (deeper, handle_unchanged)
          (enqueue_known-Sound cfg root req.depth (revalidate s req.url)
            (known_children cfg req.url) (ltb→lt req.depth cfg.max_depth deeper) t)
    | inr deepest ↦ rw (deepest, handle_unchanged) t
  ]

  follow_links-Sound :
      (x : Extractors) (cfg : CrawlConfig Url) (root : Url) (depth : ℕ) (e : Url)
      (kind : ResourceKind) (bytes : Bytes) (s : CrawlState Url)
      → Sound cfg root s
      → Sound cfg root (follow_links x cfg root depth e kind bytes s)
  unfolding follow_links
  follow_links-Sound x cfg root depth e kind bytes s t =
      elim (Bool-cases (ltb depth cfg.max_depth)) [
        | inl deeper ↦
            rw (deeper, follow_links)
              (ground (
                arith,
                enqueue_links-Sound cfg root depth e s (extract_links_for x kind bytes)
                    (ltb→lt depth cfg.max_depth deeper) t,
              ))
        | inr deepest ↦ rw (deepest, follow_links) t
      ]

  handle_fetched-Sound :
      (x : Extractors) (cfg : CrawlConfig Url) (root : Url) (s : CrawlState Url) (depth : ℕ)
      (e : Url) (meta : FetchMeta Url) (bytes : Bytes)
      → Sound cfg root s
      → Keeps (Sound cfg root) (handle_fetched x cfg root s depth e meta bytes)
  unfolding handle_fetched count_success see
  handle_fetched-Sound x cfg root s depth e meta bytes t =
      let t' = follow_links-Sound x cfg root depth e meta.kind bytes (see s e) t in
      elim (Bool-cases (escapes cfg root depth e)) [
        | inl out ↦ rw (out, handle_fetched) t
        | inr inside ↦ elim (Bool-cases (is_indexed cfg e)) [
          | inl page ↦ rw (inside, page, handle_fetched) t'
          | inr filtered ↦ rw (inside, filtered, handle_fetched) t'
        ]
      ]

  pub handle-Sound :
      (x : Extractors) (cfg : CrawlConfig Url) (root : Url) (s : CrawlState Url) (req : Request Url)
      (outcome : Result (FetchMeta Url × Bytes))
      → Sound cfg root s
      → Keeps (Sound cfg root) (handle x cfg root s req outcome)
  unfolding handle handle_error
  handle-Sound x cfg root s req (ok (meta, bytes)) t =
      handle_fetched-Sound x cfg root s req.depth (or_requested meta.final_url req.url) meta bytes t
  handle-Sound x cfg root s req (err e) t = ground (arith, handle_unchanged-Sound cfg root s req t)
  handle-Sound x cfg root s req panic t = tt
