-- ===== src/Crawl/Tracked.antt =====
-- The visited set of a crawl (src/source/crawl.rs) against the frontier and the fetches started:
-- what a step keeps.
use link_r.Prelude.{
  ℕ, ◌+◌, ◌≤◌, ◌≡◌, Bool, true, false, List, [], ◌∷◌, ◌++◌, Bytes, map, arith, Bool-cases, inl, inr,
  if◌then◌else◌, Option-cases, nat_beq, nat_beq_iff,
}
use link_r.Prelude.HashSet
use link_r.Prelude.HashSet.{HashSet, count, count-append}
use link_r.Error.{Result, ok, err, panic}
use link_r.External.{UrlApi, Hasher}
use link_r.UrlKey.{from_url}
use link_r.Resource.{ResourceKind}
use link_r.Crawl.State.{
  CrawlConfig, FetchMeta, Request, CrawlState, Handled, next, yielded, aborted, push_new, enqueue,
  follows, enqueue_known, enqueue_links, child_of,
}
use link_r.Crawl.Handler.{
  Extractors, handle, handle_error, handle_fetched, handle_unchanged, follow_links, escapes,
  is_indexed, or_requested, revalidate, known_children, count_success, see, extract_links_for,
}

abbrev pub bit : Bool → ℕ
bit true = 1
bit false = 0

module _ {Url : Type 0} ⦃u : UrlApi Url⦄ ⦃h : Hasher⦄ where
  unfoldable pub keys : List Url → List ℕ
  keys = map (λ url. from_url url)

  unfoldable pub waiting : List (Url × ℕ) → List ℕ
  waiting = map (λ entry. from_url entry.0)

  waiting-push :
      (k : ℕ) (l : List (Url × ℕ)) (url : Url) (depth : ℕ)
      → count k (waiting (l ++ (url, depth) ∷ []))
        ≡ count k (waiting l) + (if nat_beq (from_url url) k then 1 else 0)
  unfolding waiting count
  waiting-push k [] url depth = omega arith
  waiting-push k (e ∷ l) url depth = ground (arith, waiting-push k l url depth)

  -- A key is waiting, or was started (`n` times), at most once, and only when it is visited.
  abbrev pub Tracked : ℕ → ℕ → CrawlState Url → Type 0
  Tracked k n s = count k (waiting s.frontier) + n ≤ bit (HashSet.contains s.visited k)

  push_new-Tracked :
      (k n : ℕ) (s : CrawlState Url) (child : Url) (depth : ℕ)
      → Tracked k n s
      → Tracked k n (push_new s child depth)
  unfolding push_new
  push_new-Tracked k n s child depth t =
      elim (Bool-cases (HashSet.contains s.visited (from_url child))) [
        | inl seen ↦ rw (seen, push_new) t
        | inr fresh ↦
            rw (fresh, push_new)
              (ground (
                arith,
                waiting-push k s.frontier child depth,
                nat_beq_iff (from_url child) k,
                HashSet.contains-insert s.visited (from_url child) k,
              ))
      ]

  enqueue-Tracked :
      (k n : ℕ) (cfg : CrawlConfig Url) (root : Url) (depth : ℕ) (s : CrawlState Url) (child : Url)
      → Tracked k n s
      → Tracked k n (enqueue cfg root depth s child)
  unfolding enqueue
  enqueue-Tracked k n cfg root depth s child t = elim (Bool-cases (follows cfg root child)) [
    | inl followed ↦ rw (followed, enqueue) (push_new-Tracked k n s child (depth + 1) t)
    | inr ignored ↦ rw (ignored, enqueue) t
  ]

  enqueue_known-Tracked :
      (k n : ℕ) (cfg : CrawlConfig Url) (root : Url) (depth : ℕ) (s : CrawlState Url) (l : List Url)
      → Tracked k n s
      → Tracked k n (enqueue_known cfg root depth s l)
  unfolding enqueue_known
  enqueue_known-Tracked k n cfg root depth s [] t = t
  enqueue_known-Tracked k n cfg root depth s (c ∷ l) t =
      enqueue_known-Tracked k n cfg root depth (enqueue cfg root depth s c) l
        (enqueue-Tracked k n cfg root depth s c t)

  enqueue_links-Tracked :
      (k n : ℕ) (cfg : CrawlConfig Url) (root : Url) (depth : ℕ) (e : Url) (s : CrawlState Url)
      (l : List Bytes)
      → Tracked k n s
      → Tracked k n (enqueue_links cfg root depth e s l)
  unfolding enqueue_links
  enqueue_links-Tracked k n cfg root depth e s [] t = t
  enqueue_links-Tracked k n cfg root depth e s (c ∷ l) t = elim (Option-cases (child_of e c)) [
    | inl gone ↦ rw (gone, enqueue_links) (enqueue_links-Tracked k n cfg root depth e s l t)
    | inr (child, got) ↦
        rw (got, enqueue_links)
          (enqueue_links-Tracked k n cfg root depth e (enqueue cfg root depth s child) l
            (enqueue-Tracked k n cfg root depth s child t))
  ]

  see-Tracked : (k n : ℕ) (s : CrawlState Url) (e : Url) → Tracked k n s → Tracked k n (see s e)
  unfolding see count_success
  see-Tracked k n s e t = ground (arith, HashSet.contains-insert s.visited (from_url e) k)

  revalidate-Tracked :
      (k n : ℕ) (s : CrawlState Url) (e : Url) → Tracked k n s → Tracked k n (revalidate s e)
  unfolding revalidate
  revalidate-Tracked k n s e t = ground (arith, HashSet.contains-insert s.visited (from_url e) k)

  -- The outcome of a step keeps a property of the state.
  abbrev pub Keeps : (CrawlState Url → Type 0) → Handled Url → Type 0
  Keeps P (next s) = P s
  Keeps P (yielded s page) = P s
  Keeps P (aborted e) = Unit

  handle_unchanged-Tracked :
      (k n : ℕ) (cfg : CrawlConfig Url) (root : Url) (s : CrawlState Url) (req : Request Url)
      → Tracked k n s
      → Tracked k n (handle_unchanged cfg root s req)
  unfolding handle_unchanged
  handle_unchanged-Tracked k n cfg root s req t = ground (
    arith,
    revalidate-Tracked k n s req.url t,
    enqueue_known-Tracked k n cfg root req.depth (revalidate s req.url) (known_children cfg req.url)
        (revalidate-Tracked k n s req.url t),
  )

  follow_links-Tracked :
      (k n : ℕ) (x : Extractors) (cfg : CrawlConfig Url) (root : Url) (depth : ℕ) (e : Url)
      (kind : ResourceKind) (bytes : Bytes) (s : CrawlState Url)
      → Tracked k n s
      → Tracked k n (follow_links x cfg root depth e kind bytes s)
  unfolding follow_links
  follow_links-Tracked k n x cfg root depth e kind bytes s t =
      ground
        (arith, enqueue_links-Tracked k n cfg root depth e s (extract_links_for x kind bytes) t)

  handle_fetched-Tracked :
      (k n : ℕ) (x : Extractors) (cfg : CrawlConfig Url) (root : Url) (s : CrawlState Url)
      (depth : ℕ) (e : Url) (meta : FetchMeta Url) (bytes : Bytes)
      → Tracked k n s
      → Keeps (Tracked k n) (handle_fetched x cfg root s depth e meta bytes)
  unfolding handle_fetched count_success
  handle_fetched-Tracked k n x cfg root s depth e meta bytes t =
      let t' =
        follow_links-Tracked k n x cfg root depth e meta.kind bytes (see s e)
          (see-Tracked k n s e t) in
      elim (Bool-cases (escapes cfg root depth e)) [
        | inl out ↦ rw (out, handle_fetched) t
        | inr inside ↦ elim (Bool-cases (is_indexed cfg e)) [
          | inl page ↦ rw (inside, page, handle_fetched) t'
          | inr filtered ↦ rw (inside, filtered, handle_fetched) t'
        ]
      ]

  pub handle-Tracked :
      (k n : ℕ) (x : Extractors) (cfg : CrawlConfig Url) (root : Url) (s : CrawlState Url)
      (req : Request Url) (outcome : Result (FetchMeta Url × Bytes))
      → Tracked k n s
      → Keeps (Tracked k n) (handle x cfg root s req outcome)
  unfolding handle handle_error
  handle-Tracked k n x cfg root s req (ok (meta, bytes)) t =
      handle_fetched-Tracked k n x cfg root s req.depth (or_requested meta.final_url req.url) meta
        bytes t
  handle-Tracked k n x cfg root s req (err e) t =
      ground (arith, handle_unchanged-Tracked k n cfg root s req t)
  handle-Tracked k n x cfg root s req panic t = tt
