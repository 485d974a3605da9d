-- ===== src/Crawl/Fetch.antt =====
-- `fetch_one` and `backoff_for` of src/source/crawl.rs: one fetch with its retries. The fetcher's
-- answers are a function of the attempt.
use link_r.Prelude.{
  ℕ, zero, suc, ◌+◌, ◌≤◌, ◌<◌, ◌≡◌, ◌⊎◌, inl, inr, refl, subst, Bool, true, false, List, [], ◌∷◌,
  min, arith, Bool-cases, length,
}
use link_r.Error.{Error, rate_limited, Result, ok, err, panic, ◌>>=◌, is_retriable}

-- `MAX_RETRY_AFTER` in milliseconds.
abbrev pub max_retry_after : ℕ
max_retry_after = 30000

-- `backoff` is `objstore_r::net::backoff`.
unfoldable pub backoff_for : (ℕ → ℕ) → Error → ℕ → ℕ
backoff_for backoff (rate_limited retry_after_ms) attempt = min retry_after_ms max_retry_after
backoff_for backoff _ attempt = backoff (attempt + 1)

-- What a fetch came to: its answer, and the sleeps between the attempts.
pub record Fetched (A : Type 0) : Type 0 where
  pub answer : Result A
  pub sleeps : List ℕ

-- `fetch` is the fetcher's answer to an attempt, `into_bytes` what reading its payload comes to:
-- an error there is not retried.
abbrev sleep_then : {A : Type 0} → ℕ → Fetched A → Fetched A
sleep_then d f = record { answer = f.answer; sleeps = d ∷ f.sleeps }

module _ {P : Type 0} {A : Type 0} where
  -- The retry loop at an attempt, with the number of retries left (`max_retries - attempt`).
  unfoldable pub fetch_loop :
      (ℕ → Bool) → (ℕ → ℕ) → (ℕ → Result P) → (P → Result A) → ℕ → ℕ → Fetched A
  fetch_loop retriable_status backoff fetch into_bytes zero attempt = record {
    answer = fetch attempt >>= into_bytes;
    sleeps = [];
  }
  fetch_loop retriable_status backoff fetch into_bytes (suc left) attempt =
      let rest = fetch_loop retriable_status backoff fetch into_bytes left (attempt + 1) in
      elim (fetch attempt) [
        | ok got ↦ record { answer = into_bytes got; sleeps = [] }
        | panic ↦ record { answer = panic; sleeps = [] }
        | err e ↦ elim (is_retriable retriable_status e) [
          | true ↦ sleep_then (backoff_for backoff e attempt) rest
          | false ↦ record { answer = err e; sleeps = [] }
        ]
      ]

  unfoldable pub fetch_one : (ℕ → Bool) → (ℕ → ℕ) → (ℕ → Result P) → (P → Result A) → ℕ → Fetched A
  fetch_one retriable_status backoff fetch into_bytes max_retries =
      fetch_loop retriable_status backoff fetch into_bytes max_retries 0

-- Whether an answer is an error that the loop retries.
abbrev pub may_retry : {P : Type 0} → (ℕ → Bool) → Result P → Bool
may_retry retriable_status (err e) = is_retriable retriable_status e
may_retry retriable_status _ = false

eq_or_later : (a i : ℕ) → a ≤ i → (a ≡ i) ⊎ (a + 1 ≤ i)
eq_or_later a i h = omega arith

module _ {P : Type 0} {A : Type 0} (retriable_status : ℕ → Bool) (backoff : ℕ → ℕ)
    (fetch : ℕ → Result P) (into_bytes : P → Result A) where
  abbrev Last : ℕ → ℕ → Fetched A → ℕ → Type 0
  Last left attempt r last =
      (last ≡ attempt + length r.sleeps)
      × (length r.sleeps ≤ left)
      × (r.answer ≡ (fetch last >>= into_bytes))
      × ((may_retry retriable_status (fetch last) ≡ false) ⊎ (length r.sleeps ≡ left))
      × ((i : ℕ) → attempt ≤ i → i < last → may_retry retriable_status (fetch i) ≡ true)

  abbrev Attempt : ℕ → Fetched A → ℕ → Type 0
  Attempt left r last =
      (length r.sleeps ≤ left)
      × (r.answer ≡ (fetch last >>= into_bytes))
      × ((may_retry retriable_status (fetch last) ≡ false) ⊎ (length r.sleeps ≡ left))

  -- What the loop promises: the attempt that it stops at, and why.
  abbrev Ended : ℕ → ℕ → Fetched A → Type 0
  Ended left attempt r = (last : ℕ) × Last left attempt r last

  Ended-now :
      (left attempt : ℕ) (answer : Result A)
      → answer ≡ (fetch attempt >>= into_bytes)
      → (may_retry retriable_status (fetch attempt) ≡ false) ⊎ (0 ≡ left)
      → Ended left attempt (record { answer = answer; sleeps = [] })
  Ended-now left attempt answer e stop =
      (attempt, (omega arith, omega arith, e, stop, λ i ge lt. absurd (omega arith)))

  Ended-later :
      (left attempt d : ℕ) (r : Fetched A)
      → may_retry retriable_status (fetch attempt) ≡ true
      → Ended left (attempt + 1) r
      → Ended (suc left) attempt (sleep_then d r)
  Ended-later left attempt d r retry (last, (at, le, e, stop, before)) = (
    last,
    (
      omega arith,
      omega arith,
      e,
      ground arith,
      λ i ge lt. elim (eq_or_later attempt i ge) [
        | inl same ↦ subst (λ j. may_retry retriable_status (fetch j) ≡ true) same retry
        | inr later ↦ before i later lt
      ],
    ),
  )

  step_lem :
      (left attempt : ℕ)
      → Ended left
          (attempt + 1)
          (fetch_loop retriable_status backoff fetch into_bytes left (attempt + 1))
      → (x : Result P) → fetch attempt ≡ x
      → Ended
          (suc left)
          attempt
          (fetch_loop retriable_status backoff fetch into_bytes (suc left) attempt)
  unfolding fetch_loop
  step_lem left attempt rest (ok got) e =
      rw (e, fetch_loop)
        (Ended-now (suc left) attempt (into_bytes got) (rw e refl) (inl (rw e refl)))
  step_lem left attempt rest panic e =
      rw (e, fetch_loop) (Ended-now (suc left) attempt panic (rw e refl) (inl (rw e refl)))
  step_lem left attempt rest (err x) e = elim (Bool-cases (is_retriable retriable_status x)) [
    | inl worth ↦
        rw (e, fetch_loop, worth)
          (Ended-later left attempt (backoff_for backoff x attempt)
            (fetch_loop retriable_status backoff fetch into_bytes left (attempt + 1)) (rw e worth)
            rest)
    | inr not_worth ↦
        rw (e, fetch_loop, not_worth)
          (Ended-now (suc left) attempt (err x) (rw e refl) (inl (rw e not_worth)))
  ]

  fetch_loop_lem :
      (left attempt : ℕ)
      → Ended left attempt (fetch_loop retriable_status backoff fetch into_bytes left attempt)
  unfolding fetch_loop
  fetch_loop_lem zero attempt = Ended-now 0 attempt (fetch attempt >>= into_bytes) refl (inr refl)
  fetch_loop_lem (suc left) attempt =
      step_lem left attempt (fetch_loop_lem left (attempt + 1)) (fetch attempt) refl

  -- A fetch sleeps at most `max_retries` times and answers what its last attempt did, which either
  -- is not an error worth a retry or was the last attempt allowed.
  pub fetch_one_lem :
      (max_retries : ℕ)
      → let r = fetch_one retriable_status backoff fetch into_bytes max_retries in
        (length r.sleeps ≤ max_retries)
        × (r.answer ≡ (fetch (length r.sleeps) >>= into_bytes))
        × ((may_retry retriable_status (fetch (length r.sleeps)) ≡ false)
            ⊎ (length r.sleeps ≡ max_retries))
  unfolding fetch_one
  fetch_one_lem max_retries =
      let (last, (at, le, e, stop, _)) = fetch_loop_lem max_retries 0 in
      let same : last
          ≡ length (fetch_loop retriable_status backoff fetch into_bytes max_retries 0).sleeps =
        omega arith in
      subst
        (λ n.
          Attempt max_retries (fetch_loop retriable_status backoff fetch into_bytes max_retries 0)
            n)
        same (le, e, stop)

  -- Each attempt before the last was answered by an error worth a retry.
  pub fetch_one_retries :
      (max_retries i : ℕ)
      → i < length (fetch_one retriable_status backoff fetch into_bytes max_retries).sleeps
      → may_retry retriable_status (fetch i) ≡ true
  unfolding fetch_one
  fetch_one_retries max_retries i lt =
      let (last, (at, _, _, _, before)) = fetch_loop_lem max_retries 0 in
      before i (omega arith) (omega arith)
