-- ===== src/Index/Meta/Filters.antt =====
-- What `Filter::evaluate` returns: the ids of the documents that match, and no others.
use link_r.Prelude.{
  ℕ, zero, suc, ◌+◌, ◌%◌, ◌≤◌, ◌<◌, ◌≡◌, refl, Bool, true, false, ◌||◌, ◌&&◌, ◌∙◌, some, List, [],
  ◌∷◌, length, if◌then◌else◌, ◌==◌, nat_eq, u32_mod, arith,
}
use link_r.External.{Bitmap}
use link_r.Index.Meta.{DocMeta, Filter, is_all, matches, evaluate_loop, evaluate}

-- Whether the document at an index matches.
abbrev pub matches_at : Filter → List DocMeta → ℕ → Bool
matches_at filter [] i = false
matches_at filter (doc ∷ docs) zero = matches filter doc
matches_at filter (doc ∷ docs) (suc i) = matches_at filter docs i

module _ ⦃b : Bitmap⦄ where
  -- One round of the loop.
  abbrev round : Bool → ℕ → b.Set → b.Set
  round m n s = if m then b.insert s (n % u32_mod) else s

  contains-round :
      (m : Bool) (n : ℕ) (s : b.Set) (j : ℕ)
      → n < u32_mod
      → b.contains (round m n s) j ≡ ((m && n == j) || b.contains s j)
  contains-round true n s j h =
      let e : n % u32_mod ≡ n = omega arith in rw e (b.contains-insert s n j)
  contains-round false n s j h = refl

  -- The loop leaves the ids below its start alone.
  evaluate_loop_below :
      (filter : Filter) (n : ℕ) (docs : List DocMeta) (s : b.Set) (i : ℕ)
      → i < n
      → n + length docs ≤ u32_mod
      → b.contains (evaluate_loop filter n docs s) i ≡ b.contains s i
  unfolding evaluate_loop
  evaluate_loop_below filter n [] s i h w = refl
  evaluate_loop_below filter n (doc ∷ docs) s i h w =
      let m = matches filter doc in
      evaluate_loop_below filter (n + 1) docs (round m n s) i (omega arith) (omega arith)
      ∙ ground (arith, contains-round m n s i)

  -- From its start on it adds the ids of the documents that match.
  evaluate_loop_at :
      (filter : Filter) (n : ℕ) (docs : List DocMeta) (s : b.Set) (i : ℕ)
      → n + length docs ≤ u32_mod
      → b.contains (evaluate_loop filter n docs s) (n + i)
        ≡ (matches_at filter docs i || b.contains s (n + i))
  unfolding evaluate_loop
  evaluate_loop_at filter n [] s i w = refl
  evaluate_loop_at filter n (doc ∷ docs) s zero w =
      let m = matches filter doc in
      evaluate_loop_below filter (n + 1) docs (round m n s) (n + 0) (omega arith) (omega arith)
      ∙ ground (arith, contains-round m n s (n + 0))
  evaluate_loop_at filter n (doc ∷ docs) s (suc i) w =
      let m = matches filter doc in
      let next : n + suc i ≡ n + 1 + i = omega arith in
      rw next (
        evaluate_loop_at filter (n + 1) docs (round m n s) i (omega arith)
        ∙ ground (arith, contains-round m n s (n + 1 + i)))

  -- A restricting filter evaluates to a set that holds an id exactly when the document with that id
  -- matches; the ids of at most 2^32 documents do not wrap.
  pub evaluate-contains :
      (filter : Filter) (docs : List DocMeta) (i : ℕ)
      → length docs ≤ u32_mod
      → is_all filter ≡ false
      → (allowed : b.Set) × (evaluate filter docs ≡ some allowed)
        × (b.contains allowed i ≡ matches_at filter docs i)
  unfolding evaluate
  evaluate-contains filter docs i w restricts = (
    evaluate_loop filter 0 docs b.new,
    rw restricts,
    (let start : 0 + i ≡ i = omega arith in
        (rw start at (evaluate_loop_at filter 0 docs b.new i (omega arith)))
        ∙ ground (arith, b.contains-new i)),
  )
