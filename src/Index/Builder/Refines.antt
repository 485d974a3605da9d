-- ===== src/Index/Builder/Refines.antt =====
-- `upsert` implements an update of a map from keys to entries.
use link_r.Prelude.{
  ℕ, ◌<◌, ◌≡◌, refl, sym, ap, subst, ◌∙◌, ◌||◌, Bool, true, false, Option, none, some, List, length,
  get_elem?, arith, u32_mod, length-set, Bool-cases, Option-cases, inl, inr, nat_beq_iff, nat_eq,
  ◌==◌, if◌then◌else◌,
}
use link_r.Prelude.HashMap
use link_r.Prelude.HashMap.{HashMap}
use link_r.Error.{ok}
use link_r.External.{UrlApi, Hasher, Float}
use link_r.UrlKey.{from_url}
use link_r.Metric.{normalizes}
use link_r.Index.Dense.{length-l2_normalize}
use link_r.Index.Meta.{DocMeta}
use link_r.Index.Builder.{
  IndexBuilder, Document, UpsertOutcome, added, updated, unchanged, record_of, append, overwritten,
  stored_vector, upsert,
}
use link_r.Index.Builder.Entries.{Entry, entry_at, entry_of_doc}
use link_r.Index.Builder.Overwrite.{
  overwrite_total, overwritten-IsParallel, replaced, entry_at-overwritten_self,
  entry_at-overwritten_ne,
}
use link_r.Index.Builder.WellFormed.{IsValid, view, indexed_doc, set-IsIndexed}
use link_r.Index.Builder.View.{put, entry_total, ids_differ, view-some, view-none, id_lt}
use link_r.Index.Builder.Added.{append-IsValid, view-append}

module _ {Url F : Type 0} ⦃u : UrlApi Url⦄ ⦃h : Hasher⦄ where
  -- A document that replaces an entry stays pinned if the entry was.
  abbrev pub renewed : Document Url F → List F → Bool → Entry F
  renewed doc v was_pinned = record (entry_of_doc doc v) {
    meta = record (record_of doc) { pinned = doc.pinned || was_pinned };
  }

  -- What `upsert` promises of the entry under the key of a document: a new key gets the document,
  -- an equal content hash keeps the entry, and any other content renews it.
  unfoldable pub upsert_entry : Option (Entry F) → Document Url F → List F → Entry F × UpsertOutcome
  upsert_entry none doc v = (entry_of_doc doc v, added)
  upsert_entry (some e) doc v =
      if e.meta.content_hash == doc.content_hash
      then (e, unchanged)
      else (renewed doc v e.meta.pinned, updated)

  module _ (doc : Document Url F) (v : List F) {o : Option (Entry F)} where
    entry_new : o ≡ none → upsert_entry o doc v ≡ (entry_of_doc doc v, added)
    unfolding upsert_entry
    entry_new e = ap (λ x. upsert_entry x doc v) e

    entry_same :
        {e : Entry F} {old : DocMeta}
        → o ≡ some e
        → e.meta ≡ old
        → (old.content_hash == doc.content_hash) ≡ true
        → upsert_entry o doc v ≡ (e, unchanged)
    unfolding upsert_entry
    entry_same p q same = ground arith

    entry_renewed :
        {e : Entry F} {old : DocMeta}
        → o ≡ some e
        → e.meta ≡ old
        → (old.content_hash == doc.content_hash) ≡ false
        → upsert_entry o doc v ≡ (renewed doc v old.pinned, updated)
    unfolding upsert_entry
    entry_renewed p q other = ground arith

  module _ (b : IndexBuilder F) (doc : Document Url F) (v : List F) (id : ℕ) (old : DocMeta)
      (valid : IsValid b) (dim : length v ≡ b.dim)
      (at : HashMap.get b.url_index (from_url doc.url) ≡ some id)
      (here : get_elem? b.meta id ≡ some old) where
    overwritten_index : (overwritten b doc v id old).url_index ≡ b.url_index
    unfolding overwritten
    overwritten_index = refl

    inside : id < length b.meta
    inside = id_lt b (from_url doc.url) id valid at

    overwritten-IsValid : IsValid (overwritten b doc v id old)
    unfolding overwritten record_of
    overwritten-IsValid =
        let m = record (record_of doc) { pinned = doc.pinned || old.pinned } in
        let same : m.url_key ≡ old.url_key =
          ground (arith, (valid.indexed (from_url doc.url) id).0 at) in
        record {
          parallel = overwritten-IsParallel b doc v id old valid.parallel dim inside;
          indexed = set-IsIndexed b.url_index b.meta id old m valid.indexed here same;
          fits = omega (arith, length-set b.meta id m);
        }

    view-overwritten :
        (k : ℕ)
        → view (overwritten b doc v id old) k
          ≡ put (view b) (from_url doc.url) (replaced b doc v id old valid.parallel dim inside) k
    view-overwritten k =
        let key = from_url doc.url in
        let found : HashMap.get (overwritten b doc v id old).url_index k
            ≡ HashMap.get b.url_index k =
          ap (λ (i : HashMap ℕ ℕ). HashMap.get i k) overwritten_index in
        elim (Bool-cases (key == k)) [
          | inl same ↦
              let e : key ≡ k = (nat_beq_iff key k).0 same in
              view-some (overwritten b doc v id old) k (found ∙ (rw e at at))
              ∙ (entry_at-overwritten_self b doc v id old valid.parallel dim inside ∙ rw same)
          | inr other ↦ elim (Option-cases (HashMap.get b.url_index k)) [
            | inl missing ↦
                view-none (overwritten b doc v id old) k (found ∙ missing)
                ∙ rw other (sym (view-none b k missing))
            | inr (j, e) ↦
                view-some (overwritten b doc v id old) k (found ∙ e)
                ∙ (entry_at-overwritten_ne b doc v id old valid.parallel dim inside j (λ eq.
                      (let same : key ≡ k = ids_differ b key k id valid at (e ∙ ap some (sym eq)) in
                        ground arith))
                    ∙ rw other (sym (view-some b k e)))
          ]
        ]

module _ {Url F : Type 0} ⦃u : UrlApi Url⦄ ⦃h : Hasher⦄ ⦃f : Float F⦄ where
  length-stored_vector :
      (b : IndexBuilder F) (doc : Document Url F) → length (stored_vector b doc) ≡ length doc.vector
  unfolding stored_vector
  length-stored_vector b doc = elim (Bool-cases (normalizes b.metric)) [
    | inl yes' ↦ rw yes' (length-l2_normalize doc.vector)
    | inr no' ↦ rw no'
  ]

  module _ (b : IndexBuilder F) (doc : Document Url F) (valid : IsValid b)
      (room : length b.meta < u32_mod) (dim : length doc.vector ≡ b.dim) where
    stored_dim : length (stored_vector b doc) ≡ b.dim
    stored_dim = length-stored_vector b doc ∙ dim

    -- The state and the outcome that `upsert` should produce.
    abbrev pub Refined : Entry F × UpsertOutcome → IndexBuilder F → Type 0
    Refined (entry, outcome) b' =
        (upsert b doc ≡ ok (b', outcome))
        × IsValid b'
        × ((k : ℕ) → view b' k ≡ put (view b) (from_url doc.url) entry k)

    Refined-new :
        HashMap.get b.url_index (from_url doc.url) ≡ none
        → Refined
            (entry_of_doc doc (stored_vector b doc), added)
            (append b doc (stored_vector b doc))
    unfolding upsert
    Refined-new fresh = (
      ground (arith, fresh, dim),
      append-IsValid b doc (stored_vector b doc) valid stored_dim room fresh,
      view-append b doc (stored_vector b doc) valid stored_dim room,
    )

    Refined-same :
        (id : ℕ) (old : DocMeta) (e : Entry F)
        → HashMap.get b.url_index (from_url doc.url) ≡ some id
        → get_elem? b.meta id ≡ some old
        → entry_at b id ≡ some e
        → (old.content_hash == doc.content_hash) ≡ true
        → Refined (e, unchanged) b
    unfolding upsert
    Refined-same id old e at here entry same = (
      ground (arith, at, here, dim, same),
      valid,
      λ k. ground (arith, view-some b (from_url doc.url) at, entry),
    )

    Refined-renewed :
        (id : ℕ) (old : DocMeta)
        → HashMap.get b.url_index (from_url doc.url) ≡ some id
        → get_elem? b.meta id ≡ some old
        → (old.content_hash == doc.content_hash) ≡ false
        → Refined
            (renewed doc (stored_vector b doc) old.pinned, updated)
            (overwritten b doc (stored_vector b doc) id old)
    unfolding upsert
    Refined-renewed id old at here other = (
      ground (
        arith,
        at,
        here,
        dim,
        other,
        overwrite_total b doc (stored_vector b doc) id old valid.parallel stored_dim
            (id_lt b (from_url doc.url) id valid at),
      ),
      overwritten-IsValid b doc (stored_vector b doc) id old valid stored_dim at here,
      view-overwritten b doc (stored_vector b doc) id old valid stored_dim at here,
    )

    -- On a valid builder with room, and for a vector of its dimension, `upsert` does not panic or
    -- fail: it keeps the builder valid, changes the entry of the document's key as `upsert_entry`
    -- says, returns that outcome, and leaves every other key alone.
    pub upsert-refines :
        (b' : IndexBuilder F) × Refined
          (upsert_entry (view b (from_url doc.url)) doc (stored_vector b doc))
          b'
    upsert-refines =
        let v = stored_vector b doc in
        let key = from_url doc.url in
        elim (Option-cases (HashMap.get b.url_index key)) [
          | inl fresh ↦ (
            append b doc v,
            subst (λ r. Refined r (append b doc v)) (sym (entry_new doc v (view-none b key fresh)))
                (Refined-new fresh),
          )
          | inr (id, at) ↦
              let (old, here, _) = indexed_doc b.url_index b.meta key id valid.indexed at in
              let (e, entry, meta) =
                entry_total b id old valid.parallel (id_lt b key id valid at) here in
              let viewed = view-some b key at ∙ entry in
              elim (Bool-cases (old.content_hash == doc.content_hash)) [
                | inl same ↦ (
                  b,
                  subst (λ r. Refined r b) (sym (entry_same doc v viewed meta same))
                      (Refined-same id old e at here entry same),
                )
                | inr other ↦ (
                  overwritten b doc v id old,
                  subst (λ r. Refined r (overwritten b doc v id old))
                      (sym (entry_renewed doc v viewed meta other))
                      (Refined-renewed id old at here other),
                )
              ]
        ]
