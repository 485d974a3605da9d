-- ===== src/Index/Builder/Overwrite.antt =====
-- The update branch of `upsert`: one document is replaced in place, the others stay.
use link_r.Prelude.{
  ℕ, ◌+◌, ◌*◌, ◌≤◌, ◌<◌, ◌≡◌, ◌≢◌, ap, ◌||◌, some, List, length, arith, slice-splice_self,
  slice-splice_below, slice-splice_above, get_elem?-set_self, get_elem?-set_ne, length-set,
  length-splice, inl, inr, ◌⊎◌, ltb, ltb→lt, Bool-cases,
}
use link_r.External.{UrlApi, Hasher}
use link_r.Error.{ok}
use link_r.Index.Meta.{DocMeta}
use link_r.Index.Builder.{IndexBuilder, Document, record_of, overwritten, overwrite, updated}
use link_r.Index.Builder.Entries.{
  Entry, entry_at, entry_at-congr, entry_of_doc, IsParallel, row_below,
}

-- Two rows are apart.
pub row_apart : (i j d : ℕ) → i ≢ j → (i * d + d ≤ j * d) ⊎ (j * d + d ≤ i * d)
row_apart i j d ne = elim (Bool-cases (ltb i j)) [
  | inl below ↦ inl (row_below i j d (ltb→lt i j below))
  | inr above ↦ inr (row_below j i d (ground arith))
]

module _ {Url F : Type 0} ⦃u : UrlApi Url⦄ ⦃h : Hasher⦄ (b : IndexBuilder F) (doc : Document Url F)
    (v : List F) (id : ℕ) (old : DocMeta) (p : IsParallel b) (dim : length v ≡ b.dim)
    (lt : id < length b.meta) where
  fits : id * b.dim + b.dim ≤ length b.dense
  fits = omega (arith, row_below id (length b.meta) b.dim lt, p.rows)

  -- The indices are in range.
  pub overwrite_total : overwrite b doc v id old ≡ ok (overwritten b doc v id old, updated)
  unfolding overwrite
  overwrite_total = ground (arith, fits, p.terms, p.edges)

  pub overwritten-IsParallel : IsParallel (overwritten b doc v id old)
  unfolding overwritten
  overwritten-IsParallel =
      let m = record (record_of doc) { pinned = doc.pinned || old.pinned } in
      record {
        rows = omega (
          arith,
          length-splice (id * b.dim) b.dim v b.dense dim fits,
          ap (λ (n : ℕ). n * b.dim) (length-set b.meta id m),
        );
        terms = omega (arith, length-set b.doc_terms id doc.terms, length-set b.meta id m);
        edges = omega (arith, length-set b.edges id doc.edges, length-set b.meta id m);
      }

  -- The replaced document: the new entry, pinned if it was.
  abbrev pub replaced : Entry F
  replaced = record (entry_of_doc doc v) {
    meta = record (record_of doc) { pinned = doc.pinned || old.pinned };
  }

  pub entry_at-overwritten_self : entry_at (overwritten b doc v id old) id ≡ some replaced
  unfolding overwritten entry_at
  entry_at-overwritten_self = ground (
    arith,
    slice-splice_self (id * b.dim) b.dim v b.dense dim fits,
    get_elem?-set_self b.meta id (record (record_of doc) { pinned = doc.pinned || old.pinned }) lt,
    get_elem?-set_self b.doc_terms id doc.terms (omega arith),
    get_elem?-set_self b.edges id doc.edges (omega arith),
  )

  pub entry_at-overwritten_ne :
      (j : ℕ) → id ≢ j → entry_at (overwritten b doc v id old) j ≡ entry_at b j
  unfolding overwritten
  entry_at-overwritten_ne j ne =
      entry_at-congr (overwritten b doc v id old) b j j
        (get_elem?-set_ne b.meta id j (record (record_of doc) { pinned = doc.pinned || old.pinned })
          ne)
        (elim (row_apart id j b.dim ne) [
          | inl above ↦
              slice-splice_above (id * b.dim) b.dim v b.dense dim fits (j * b.dim) b.dim above
          | inr below ↦
              slice-splice_below (id * b.dim) b.dim v b.dense dim fits (j * b.dim) b.dim below
        ])
        (get_elem?-set_ne b.doc_terms id j doc.terms ne)
        (get_elem?-set_ne b.edges id j doc.edges ne)
