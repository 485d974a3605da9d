-- ===== src/Index/Store/Consistent.antt =====
-- The index that a valid builder makes (src/index/mod.rs, src/index/builder.rs).
use link_r.Prelude.{
  ◌*◌, ◌<◌, ◌≤◌, ◌≡◌, refl, ◌∙◌, Bool, List, Bytes, length, arith, u32_mod, min, occurrences,
  bytes_eq,
}
use link_r.Error.{ok}
use link_r.External.{Float, FloatMap, Bitmap}
use link_r.Resource.{DocId}
use link_r.Index.Builder.{IndexBuilder}
use link_r.Index.Builder.WellFormed.{IsValid}
use link_r.Index.Sparse
use link_r.Index.Sparse.{u16_max, to_doc_terms}
use link_r.Index.Sparse.Counts.{terms_at}
use link_r.Index.Sparse.Bounded.{InRange}
use link_r.Index.Sparse.Rebuild.{to_doc_terms-build}
use link_r.Index.Graph.Resolve.Transpose.{resolve-IsTransposed}
use link_r.Index.Store.{Index, owned, from_owned, build, dense, dense_of, into_builder}

-- The parts of the index belong together.
pub record IsConsistent {F : Type 0} ⦃fm : FloatMap F⦄ ⦃s : Bitmap⦄ (x : Index F s.Set)
    : Type 0 where
  pub rows : (blob : List F) × (dense x ≡ ok blob) × (length blob ≡ length x.meta * x.dim)
  pub postings : InRange s.iter x.bm25
  pub lengths : length x.bm25.doc_len ≡ length x.meta
  pub fits : length x.meta ≤ u32_mod

-- What a builder that is made from an index keeps of the first builder: all but the order of the
-- terms of a document and what is over 65535 of one term.
pub record IsRebuilt {F : Type 0} (old new : IndexBuilder F) : Type 0 where
  pub valid : IsValid new
  pub dim : new.dim ≡ old.dim
  pub metric : new.metric ≡ old.metric
  pub embedder_id : new.embedder_id ≡ old.embedder_id
  pub k1 : new.k1 ≡ old.k1
  pub b : new.b ≡ old.b
  pub meta : new.meta ≡ old.meta
  pub dense : new.dense ≡ old.dense
  pub edges : new.edges ≡ old.edges
  pub url_index : new.url_index ≡ old.url_index
  pub terms :
      (d : DocId) (t : Bytes)
      → occurrences t (terms_at new.doc_terms d)
        ≡ min u16_max (occurrences t (terms_at old.doc_terms d))

module _ {F : Type 0} ⦃f : Float F⦄ ⦃fm : FloatMap F⦄ ⦃s : Bitmap⦄ where
  -- A valid builder of fewer than `2^32` documents builds a consistent index with its documents,
  -- without a panic, and the index makes a valid builder again. That one has everything the first
  -- had, but for the order of a document's terms and the occurrences of one term over 65535.
  pub into_builder-build :
      (parallel : Bool) (b : IndexBuilder F)
      → IsValid b
      → length b.meta < u32_mod
      → (x : Index F s.Set) × (build parallel b ≡ ok x)
        × IsConsistent x
        × (x.dim ≡ b.dim)
        × (x.meta ≡ b.meta)
        × (c : IndexBuilder F) × (into_builder x ≡ ok c)
        × IsRebuilt b c
  unfolding build from_owned into_builder dense dense_of Sparse.build
  into_builder-build parallel b valid fits =
      let small : length b.doc_terms < u32_mod = omega (arith, valid.parallel.terms, fits) in
      let (bm25, built, inside, doc_count, lens, k1_kept, b_kept, out, back, len, terms) =
        to_doc_terms-build parallel b.doc_terms b.k1 b.b small in
      let (g, resolved, both, loops) =
        resolve-IsTransposed b.edges b.url_index (omega (arith, valid.parallel.edges, fits)) in
      let x : Index F s.Set = record {
        backing = owned b.dense;
        dim = b.dim;
        metric = b.metric;
        embedder_id = b.embedder_id;
        bm25 = bm25;
        meta = b.meta;
        edges = b.edges;
        graph = g;
        by_url = b.url_index;
      } in
      let c : IndexBuilder F = record {
        dim = b.dim;
        metric = b.metric;
        embedder_id = b.embedder_id;
        k1 = bm25.k1;
        b = bm25.b;
        meta = b.meta;
        dense = b.dense;
        doc_terms = out;
        edges = b.edges;
        url_index = b.url_index;
      } in
      (
        x,
        rw (built, resolved) refl,
        record {
          rows = (b.dense, refl, valid.parallel.rows);
          postings = inside;
          lengths = lens ∙ valid.parallel.terms;
          fits = omega arith;
        },
        refl,
        refl,
        c,
        rw back refl,
        record {
          valid = record {
            parallel = record {
              rows = valid.parallel.rows;
              terms = len ∙ valid.parallel.terms;
              edges = valid.parallel.edges;
            };
            indexed = valid.indexed;
            fits = valid.fits;
          };
          dim = refl;
          metric = refl;
          embedder_id = refl;
          k1 = k1_kept;
          b = b_kept;
          meta = refl;
          dense = refl;
          edges = refl;
          url_index = refl;
          terms = terms;
        },
      )
