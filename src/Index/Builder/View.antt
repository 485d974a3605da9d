-- ===== src/Index/Builder/View.antt =====
-- Reading the view of a valid builder.
use link_r.Prelude.{
  ℕ, ◌<◌, ◌≡◌, refl, Option, none, some, length, slice, ◌*◌, get_elem?, arith, get_elem?_total,
  nat_eq, ◌==◌, if◌then◌else◌,
}
use link_r.Prelude.HashMap
use link_r.Index.Meta.{DocMeta}
use link_r.Index.Builder.{IndexBuilder}
use link_r.Index.Builder.Entries.{Entry, entry_at, IsParallel}
use link_r.Index.Builder.WellFormed.{IsValid, view, key_at_lt}

-- A map changed at one key.
abbrev pub put {ℓ} : {A : Type ℓ} → (ℕ → Option A) → ℕ → A → ℕ → Option A
put f k a j = if k == j then some a else f j

module _ {F : Type 0} where
  -- A document in the parallel vectors has an entry, with its metadata.
  pub entry_total :
      (b : IndexBuilder F) (id : ℕ) (m : DocMeta)
      → IsParallel b
      → id < length b.meta
      → get_elem? b.meta id ≡ some m
      → (e : Entry F) × (entry_at b id ≡ some e) × (e.meta ≡ m)
  unfolding entry_at
  entry_total b id m p lt here =
      let (t, terms) = get_elem?_total b.doc_terms id (omega arith) in
      let (es, edges) = get_elem?_total b.edges id (omega arith) in
      (
        record { meta = m; vector = slice (id * b.dim) b.dim b.dense; terms = t; edges = es },
        ground (arith, here, terms, edges),
        refl,
      )

  -- Two ids under which the map holds keys are equal only for equal keys.
  pub ids_differ :
      (b : IndexBuilder F) (k j id : ℕ)
      → IsValid b
      → HashMap.get b.url_index k ≡ some id
      → HashMap.get b.url_index j ≡ some id
      → k ≡ j
  ids_differ b k j id v at_k at_j = ground (arith, (v.indexed k id).0 at_k, (v.indexed j id).0 at_j)

  pub view-some :
      (b : IndexBuilder F) (k : ℕ) {id : ℕ}
      → HashMap.get b.url_index k ≡ some id
      → view b k ≡ entry_at b id
  unfolding view
  view-some b k e = rw (e, view)

  pub view-none : (b : IndexBuilder F) (k : ℕ) → HashMap.get b.url_index k ≡ none → view b k ≡ none
  unfolding view
  view-none b k e = rw (e, view)

  -- An id that the map holds is in range.
  pub id_lt :
      (b : IndexBuilder F) (k id : ℕ)
      → IsValid b
      → HashMap.get b.url_index k ≡ some id
      → id < length b.meta
  id_lt b k id v e = key_at_lt b.meta id k ((v.indexed k id).0 e)
