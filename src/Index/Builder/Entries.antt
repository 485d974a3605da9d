-- ===== src/Index/Builder/Entries.antt =====
-- The builder seen as one entry for each document: the four parallel vectors at an id.
use link_r.Prelude.{
  ℕ, ◌+◌, ◌*◌, ◌≤◌, ◌<◌, ◌≡◌, sym, ap, ◌∙◌, Option, none, some, List, [], ◌∷◌, ◌++◌, Bytes, length,
  get_elem?, slice, arith, slice-append_left, slice-append_end, get_elem?-append_left,
  get_elem?-append_end, length-append,
}
use link_r.Index.Meta.{DocMeta}
use link_r.External.{UrlApi, Hasher}
use link_r.Index.Builder.{IndexBuilder, Document, record_of, append}

-- A row of a document lies inside the dense vector, apart from the rows of the others.
pub row_below : (i n d : ℕ) → i < n → i * d + d ≤ n * d
row_below i n d h = grind arith

end_at {ℓ} :
    {A : Type ℓ} (xs : List A) (v : A) (n : ℕ) → length xs ≡ n → get_elem? (xs ++ v ∷ []) n ≡ some v
end_at xs v n e = ap (get_elem? (xs ++ v ∷ [])) (sym e) ∙ get_elem?-append_end xs v

pub record Entry (F : Type 0) : Type 0 where
  pub meta : DocMeta
  pub vector : List F
  pub terms : List Bytes
  pub edges : List ℕ

module _ {F : Type 0} where
  abbrev pub entry_of :
      Option DocMeta → List F → Option (List Bytes) → Option (List ℕ) → Option (Entry F)
  entry_of (some m) row (some terms) (some edges) =
      some (record { meta = m; vector = row; terms = terms; edges = edges })
  entry_of _ row _ _ = none

  -- The entry with an id.
  unfoldable pub entry_at : IndexBuilder F → ℕ → Option (Entry F)
  entry_at b i =
      entry_of (get_elem? b.meta i) (slice (i * b.dim) b.dim b.dense) (get_elem? b.doc_terms i)
        (get_elem? b.edges i)

  -- The vectors are parallel: one row, one term list and one edge list for each document.
  pub record IsParallel (b : IndexBuilder F) : Type 0 where
    pub rows : length b.dense ≡ length b.meta * b.dim
    pub terms : length b.doc_terms ≡ length b.meta
    pub edges : length b.edges ≡ length b.meta

  -- Two builders with the same parts at an id have the same entry there.
  pub entry_at-congr :
      (a b : IndexBuilder F) (i j : ℕ)
      → get_elem? a.meta i ≡ get_elem? b.meta j
      → slice (i * a.dim) a.dim a.dense ≡ slice (j * b.dim) b.dim b.dense
      → get_elem? a.doc_terms i ≡ get_elem? b.doc_terms j
      → get_elem? a.edges i ≡ get_elem? b.edges j
      → entry_at a i ≡ entry_at b j
  unfolding entry_at
  entry_at-congr a b i j p q r s = cc

module _ {Url F : Type 0} ⦃u : UrlApi Url⦄ ⦃h : Hasher⦄ where
  -- The entry that a document becomes, with its stored vector.
  abbrev pub entry_of_doc : Document Url F → List F → Entry F
  entry_of_doc doc vector = record {
    meta = record_of doc;
    vector = vector;
    terms = doc.terms;
    edges = doc.edges;
  }

  module _ (b : IndexBuilder F) (doc : Document Url F) (v : List F) (p : IsParallel b)
      (dim : length v ≡ b.dim) where
    pub append-IsParallel : IsParallel (append b doc v)
    unfolding append
    append-IsParallel = record {
      rows = omega (
        arith,
        length-append b.dense v,
        ap (λ (n : ℕ). n * b.dim) (length-append b.meta (record_of doc ∷ [])),
      );
      terms = omega (
        arith,
        length-append b.doc_terms (doc.terms ∷ []),
        length-append b.meta (record_of doc ∷ []),
      );
      edges = omega (
        arith,
        length-append b.edges (doc.edges ∷ []),
        length-append b.meta (record_of doc ∷ []),
      );
    }

    pub entry_at-append_old :
        (i : ℕ) → i < length b.meta → entry_at (append b doc v) i ≡ entry_at b i
    unfolding append
    entry_at-append_old i lt =
        entry_at-congr (append b doc v) b i i
          (get_elem?-append_left b.meta (record_of doc ∷ []) i lt)
          (slice-append_left (i * b.dim) b.dim b.dense v
            (omega (arith, row_below i (length b.meta) b.dim lt)))
          (get_elem?-append_left b.doc_terms (doc.terms ∷ []) i (omega arith))
          (get_elem?-append_left b.edges (doc.edges ∷ []) i (omega arith))

    pub entry_at-append_new : entry_at (append b doc v) (length b.meta) ≡ some (entry_of_doc doc v)
    unfolding append entry_at
    entry_at-append_new =
        let row : slice (length b.meta * b.dim) b.dim (b.dense ++ v) ≡ v =
          ap (λ d. slice (length b.meta * b.dim) d (b.dense ++ v)) (sym dim)
          ∙ slice-append_end (length b.meta * b.dim) b.dense v p.rows in
        ground (
          arith,
          row,
          get_elem?-append_end b.meta (record_of doc),
          end_at b.doc_terms doc.terms (length b.meta) p.terms,
          end_at b.edges doc.edges (length b.meta) p.edges,
        )
