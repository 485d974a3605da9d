-- ===== src/Index/Builder/Added.antt =====
-- The branch of `upsert` for a new key.
use link_r.Prelude.{
  ℕ, ◌<◌, ◌≡◌, refl, sym, ap, ◌∙◌, none, some, List, [], ◌∷◌, ◌++◌, length, arith, u32_mod,
  length-append, Bool-cases, Option-cases, inl, inr, nat_eq, ◌==◌, if◌then◌else◌,
}
use link_r.Prelude.HashMap
use link_r.External.{UrlApi, Hasher}
use link_r.UrlKey.{from_url}
use link_r.Index.Builder.{IndexBuilder, Document, record_of, append}
use link_r.Index.Builder.Entries.{
  entry_of_doc, append-IsParallel, entry_at-append_old, entry_at-append_new,
}
use link_r.Index.Builder.WellFormed.{IsValid, view, append-IsIndexed}
use link_r.Index.Builder.View.{put, view-some, view-none, id_lt}

module _ {Url F : Type 0} ⦃u : UrlApi Url⦄ ⦃h : Hasher⦄ (b : IndexBuilder F) (doc : Document Url F)
    (v : List F) (valid : IsValid b) (dim : length v ≡ b.dim) (room : length b.meta < u32_mod) where
  append_index :
      (append b doc v).url_index ≡ HashMap.insert b.url_index (from_url doc.url) (length b.meta)
  unfolding append
  append_index = ap (HashMap.insert b.url_index (from_url doc.url)) (omega arith)

  append_meta : (append b doc v).meta ≡ b.meta ++ record_of doc ∷ []
  unfolding append
  append_meta = refl

  pub record_key : (record_of doc).url_key ≡ from_url doc.url
  unfolding record_of
  record_key = refl

  -- The branch for a new key.
  pub append-IsValid : HashMap.get b.url_index (from_url doc.url) ≡ none → IsValid (append b doc v)
  append-IsValid fresh = record {
    parallel = append-IsParallel b doc v valid.parallel dim;
    indexed =
        rw (append_index, append_meta, ← record_key)
          (append-IsIndexed b.url_index b.meta (record_of doc) valid.indexed (rw record_key fresh));
    fits = rw append_meta (omega (arith, length-append b.meta (record_of doc ∷ [])));
  }

  pub view-append :
      (k : ℕ) → view (append b doc v) k ≡ put (view b) (from_url doc.url) (entry_of_doc doc v) k
  view-append k =
      let key = from_url doc.url in
      let found : HashMap.get (append b doc v).url_index k
          ≡ (if key == k then some (length b.meta) else HashMap.get b.url_index k) =
        rw append_index (HashMap.get-insert b.url_index key k (length b.meta)) in
      elim (Bool-cases (key == k)) [
        | inl same ↦
            view-some (append b doc v) k (found ∙ rw same)
            ∙ (entry_at-append_new b doc v valid.parallel dim ∙ rw same)
        | inr other ↦ elim (Option-cases (HashMap.get b.url_index k)) [
          | inl missing ↦
              view-none (append b doc v) k (found ∙ rw other missing)
              ∙ rw other (sym (view-none b k missing))
          | inr (id, e) ↦
              view-some (append b doc v) k (found ∙ rw other e)
              ∙ (entry_at-append_old b doc v valid.parallel dim id (id_lt b k id valid e)
                  ∙ rw other (sym (view-some b k e)))
        ]
      ]
