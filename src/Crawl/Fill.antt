-- ===== src/Crawl/Fill.antt =====
-- What one round of the fill loop of `CrawlSource::discover` (src/source/crawl.rs) changes.
use link_r.Prelude.{
  ℕ, ◌≡◌, refl, true, List, [], ◌∷◌, ◌++◌, max, arith, Bool-cases, inl, inr, ◌==◌, nat_eq,
}
use link_r.External.{UrlApi, Hasher}
use link_r.Crawl.State.{
  CrawlConfig, Request, CrawlState, Verdict, allowed, disallowed, Filled, skipped, launched,
  has_room, fill_one, fill_pop, fill_with, launch,
}

module _ {Url : Type 0} ⦃u : UrlApi Url⦄ ⦃h : Hasher⦄ where
  -- The front link leaves the frontier; a launch puts its request in flight.
  abbrev pub LaunchedFrom :
      CrawlState Url → CrawlState Url → Url → ℕ → List (Url × ℕ) → Request Url → Type 0
  LaunchedFrom s s' url depth rest req =
      (s.frontier ≡ (url, depth) ∷ rest)
      × (s'.frontier ≡ rest)
      × (s'.in_flight ≡ s.in_flight ++ req ∷ [])
      × (req.url ≡ url)
      × (req.depth ≡ depth)
      × (s'.visited ≡ s.visited)
      × (s'.successes ≡ s.successes)

  abbrev pub SkippedFrom : CrawlState Url → CrawlState Url → (Url × ℕ) → Type 0
  SkippedFrom s s' entry =
      (s.frontier ≡ entry ∷ s'.frontier)
      × (s'.in_flight ≡ s.in_flight)
      × (s'.visited ≡ s.visited)
      × (s'.successes ≡ s.successes)

  abbrev pub Popped : CrawlState Url → Filled Url → Type 0
  Popped s (launched s' url) =
      (depth : ℕ) × (rest : List (Url × ℕ)) × (req : Request Url) × LaunchedFrom s s' url depth rest
        req
  Popped s (skipped s') = (entry : Url × ℕ) × SkippedFrom s s' entry
  Popped s _ = Unit

  launch-Popped :
      (cfg : CrawlConfig Url) (s : CrawlState Url) (url : Url) (depth interval now : ℕ)
      (rest : List (Url × ℕ))
      → s.frontier ≡ (url, depth) ∷ rest
      → Popped s (launch cfg (record s { frontier = rest }) url depth interval now)
  unfolding launch
  launch-Popped cfg s url depth interval now rest e =
      (depth, rest, _, (e, refl, refl, refl, refl, refl, refl))

  fill_with-Popped :
      (cfg : CrawlConfig Url) (s : CrawlState Url) (url : Url) (depth : ℕ) (verdict : Verdict)
      (now : ℕ) (rest : List (Url × ℕ))
      → s.frontier ≡ (url, depth) ∷ rest
      → Popped s (fill_with cfg (record s { frontier = rest }) url depth verdict now)
  unfolding fill_with launch
  fill_with-Popped cfg s url depth (allowed d) now rest e = elim (Bool-cases cfg.respect_robots) [
    | inl on ↦ rw (on, fill_with) (launch-Popped cfg s url depth (max cfg.min_delay d) now rest e)
    | inr off ↦ rw (off, fill_with) (launch-Popped cfg s url depth cfg.min_delay now rest e)
  ]
  fill_with-Popped cfg s url depth disallowed now rest e = elim (Bool-cases cfg.respect_robots) [
    | inl on ↦ elim (Bool-cases (depth == 0)) [
      | inl at_root ↦ rw (on, at_root, fill_with) tt
      | inr below ↦ rw (on, below, fill_with) ((url, depth), (e, refl, refl, refl))
    ]
    | inr off ↦ rw (off, fill_with) (launch-Popped cfg s url depth cfg.min_delay now rest e)
  ]

  fill_pop-Popped :
      (cfg : CrawlConfig Url) (s : CrawlState Url) (l : List (Url × ℕ)) (verdict : Verdict)
      (now : ℕ)
      → s.frontier ≡ l
      → Popped s (fill_pop cfg s l verdict now)
  unfolding fill_pop
  fill_pop-Popped cfg s [] verdict now e = tt
  fill_pop-Popped cfg s ((url, depth) ∷ rest) verdict now e =
      fill_with-Popped cfg s url depth verdict now rest e

  pub fill_one-Popped :
      (cfg : CrawlConfig Url) (s : CrawlState Url) (verdict : Verdict) (now : ℕ)
      → Popped s (fill_one cfg s verdict now)
  unfolding fill_one
  fill_one-Popped cfg s verdict now = elim (Bool-cases (has_room cfg s)) [
    | inl room ↦ rw (room, fill_one) (fill_pop-Popped cfg s s.frontier verdict now refl)
    | inr full ↦ rw (full, fill_one) tt
  ]

  -- A launch happens only with room.
  pub launched-has_room :
      (cfg : CrawlConfig Url) (s s' : CrawlState Url) (verdict : Verdict) (now : ℕ) (url : Url)
      → fill_one cfg s verdict now ≡ launched s' url
      → has_room cfg s ≡ true
  unfolding fill_one
  launched-has_room cfg s s' verdict now url e = ground arith
