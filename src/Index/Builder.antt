-- ===== src/Index/Builder.antt =====
-- src/index/builder.rs: the mutable index builder. A method returns the new builder; an index out
-- of range panics. Ids are `u32`: `as DocId` wraps.
pub mod Entries
pub mod Overwrite
pub mod Removal
pub mod Remove
pub mod View
pub mod Added
pub mod Refines
pub mod Marks
pub mod WellFormed
use link_r.Prelude.{
  ℕ, zero, suc, ◌+◌, ◌-◌, ◌*◌, ◌%◌, ◌≡◌, Bool, true, false, ◌&&◌, ◌||◌, bool_ne, Option, none, some,
  List, [], ◌∷◌, ◌++◌, map, Bytes, length, get_elem?, set, take, drop, slice, splice, swap_remove,
  ltb, leb, if◌then◌else◌, ◌==◌, nat_eq, u32_mod,
}
use link_r.Prelude.HashMap
use link_r.Prelude.HashMap.{HashMap}
use link_r.Error.{Result, ok, err, panic, ◌>>=◌, dim_mismatch}
use link_r.External.{UrlApi, Hasher, Float}
use link_r.UrlKey.{canonicalize, from_url}
use link_r.Resource.{DocId, ResourceKind}
use link_r.Metric.{Metric, normalizes}
use link_r.Index.Dense.{l2_normalize}
use link_r.Index.Meta.{DocMeta, starts_with}

pub record Document (Url F : Type 0) : Type 0 where
  pub url : Url
  pub kind : ResourceKind
  pub content_hash : ℕ
  pub title : Option Bytes
  pub snippet : Bytes
  pub lang : Option Bytes
  pub tags : List Bytes
  pub terms : List Bytes
  pub vector : List F
  pub edges : List ℕ
  pub fetched_at_ms : ℕ
  pub etag : Option Bytes
  pub pinned : Bool

pub data UpsertOutcome : Type 0 where
  added updated unchanged : UpsertOutcome

-- `meta`, `doc_terms`, `edges` and the rows of `dense` are parallel.
pub record IndexBuilder (F : Type 0) : Type 0 where
  pub dim : ℕ
  pub metric : Metric
  pub embedder_id : ℕ
  pub k1 : F
  pub b : F
  pub meta : List DocMeta
  pub dense : List F
  pub doc_terms : List (List Bytes)
  pub edges : List (List ℕ)
  pub url_index : HashMap ℕ DocId

module _ {F : Type 0} where
  -- `default_k1` and `default_b` are the constants of src/index/sparse.rs.
  unfoldable pub new : F → F → ℕ → Metric → ℕ → IndexBuilder F
  new default_k1 default_b dim metric embedder_id = record {
    dim = dim;
    metric = metric;
    embedder_id = embedder_id;
    k1 = default_k1;
    b = default_b;
    meta = [];
    dense = [];
    doc_terms = [];
    edges = [];
    url_index = [];
  }

  unfoldable pub with_bm25 : IndexBuilder F → F → F → IndexBuilder F
  with_bm25 self k1 b = record self { k1 = k1; b = b }

  unfoldable pub len : IndexBuilder F → ℕ
  len self = length self.meta

module _ {Url F : Type 0} ⦃u : UrlApi Url⦄ ⦃h : Hasher⦄ where
  unfoldable pub is_unchanged : IndexBuilder F → Url → ℕ → Result Bool
  is_unchanged self url content_hash = elim (HashMap.get self.url_index (from_url url)) [
    | none ↦ ok false
    | some id ↦ elim (get_elem? self.meta id) [
      | none ↦ panic
      | some d ↦ ok (d.content_hash == content_hash)
    ]
  ]

  unfoldable pub record_of : Document Url F → DocMeta
  record_of doc = record {
    url = canonicalize doc.url;
    url_key = from_url doc.url;
    kind = doc.kind;
    content_hash = doc.content_hash;
    doc_len = length doc.terms % u32_mod;
    title = doc.title;
    snippet = doc.snippet;
    lang = doc.lang;
    tags = doc.tags;
    fetched_at_ms = doc.fetched_at_ms;
    pinned = doc.pinned;
    etag = doc.etag;
  }

  -- The four assignments of the update branch: the pin survives.
  unfoldable pub overwritten :
      IndexBuilder F → Document Url F → List F → ℕ → DocMeta → IndexBuilder F
  overwritten self doc vector id old = record self {
    meta = set self.meta id (record (record_of doc) { pinned = doc.pinned || old.pinned });
    dense = splice (id * self.dim) self.dim vector self.dense;
    doc_terms = set self.doc_terms id doc.terms;
    edges = set self.edges id doc.edges;
  }

  -- The row's bounds, `doc_terms[id]` and `edges[id]` panic out of range.
  unfoldable pub overwrite :
      IndexBuilder F
      → Document Url F
      → List F
      → ℕ
      → DocMeta
      → Result (IndexBuilder F × UpsertOutcome)
  overwrite self doc vector id old =
      if leb (id * self.dim + self.dim) (length self.dense)
        && (ltb id (length self.doc_terms) && ltb id (length self.edges))
      then ok (overwritten self doc vector id old, updated)
      else panic

  unfoldable pub append : IndexBuilder F → Document Url F → List F → IndexBuilder F
  append self doc vector = record self {
    url_index = HashMap.insert self.url_index (from_url doc.url) (length self.meta % u32_mod);
    meta = self.meta ++ record_of doc ∷ [];
    dense = self.dense ++ vector;
    doc_terms = self.doc_terms ++ doc.terms ∷ [];
    edges = self.edges ++ doc.edges ∷ [];
  }

  unfoldable pub stored_vector : ⦃f : Float F⦄ → IndexBuilder F → Document Url F → List F
  stored_vector self doc = if normalizes self.metric then l2_normalize doc.vector else doc.vector

  unfoldable pub upsert :
      ⦃f : Float F⦄ → IndexBuilder F → Document Url F → Result (IndexBuilder F × UpsertOutcome)
  upsert self doc =
      if length doc.vector == self.dim
      then elim (HashMap.get self.url_index (from_url doc.url)) [
        | none ↦ ok (append self doc (stored_vector self doc), added)
        | some id ↦ elim (get_elem? self.meta id) [
          | none ↦ panic
          | some old ↦
              if old.content_hash == doc.content_hash
              then ok (self, unchanged)
              else overwrite self doc (stored_vector self doc) id old
        ]
      ]
      else err (dim_mismatch self.dim (length doc.vector))

  unfoldable pub touch : IndexBuilder F → Url → ℕ → Result (IndexBuilder F × Bool)
  touch self url now_ms = elim (HashMap.get self.url_index (from_url url)) [
    | none ↦ ok (self, false)
    | some id ↦ elim (get_elem? self.meta id) [
      | none ↦ panic
      | some d ↦
          ok (record self { meta = set self.meta id (record d { fetched_at_ms = now_ms }) }, true)
    ]
  ]

-- The loop of `set_pinned`, with the number of documents that changed.
unfoldable pub set_pinned_loop : Bytes → Bool → List DocMeta → List DocMeta × ℕ
set_pinned_loop url_prefix pinned [] = ([], 0)
set_pinned_loop url_prefix pinned (doc ∷ docs) =
    let (rest, changed) = set_pinned_loop url_prefix pinned docs in
    if starts_with doc.url url_prefix && bool_ne doc.pinned pinned
    then (record doc { pinned = pinned } ∷ rest, changed + 1)
    else (doc ∷ rest, changed)

abbrev pub or_panic {ℓ} : {A : Type ℓ} → Option A → Result A
or_panic none = panic
or_panic (some a) = ok a

module _ {F : Type 0} where
  -- The last dense row moves into the freed slot, and the id of the moved key follows.
  unfoldable pub move_last : IndexBuilder F → ℕ → ℕ → Result (IndexBuilder F)
  move_last self id last =
      if leb (last * self.dim + self.dim) (length self.dense)
        && leb (id * self.dim + self.dim) (last * self.dim)
      then (do
        moved ← or_panic (get_elem? self.meta id)
        ok (record self {
          dense =
              splice (id * self.dim) self.dim (slice (last * self.dim) self.dim self.dense)
                self.dense;
          url_index = HashMap.insert self.url_index moved.url_key (id % u32_mod);
        }))
      else panic

  -- `self.dense.truncate(n)`
  unfoldable pub truncate_dense : ℕ → IndexBuilder F → IndexBuilder F
  truncate_dense n self = record self { dense = take n self.dense }

  -- `remove` behind the lookup; `self.meta.len() - 1` panics on an empty builder.
  unfoldable pub remove_at : IndexBuilder F → ℕ → Result (IndexBuilder F × Bool)
  remove_at self id = if length self.meta == 0 then panic else do
    let last = length self.meta - 1
    meta ← or_panic (swap_remove self.meta id)
    doc_terms ← or_panic (swap_remove self.doc_terms id)
    edges ← or_panic (swap_remove self.edges id)
    let holed = record self { meta = meta; doc_terms = doc_terms; edges = edges }
    moved ← if id == last then ok holed else move_last holed id last
    ok (truncate_dense (last * self.dim) moved, true)

  unfoldable pub set_pinned : IndexBuilder F → Bytes → Bool → IndexBuilder F × ℕ
  set_pinned self url_prefix pinned =
      let (meta, changed) = set_pinned_loop url_prefix pinned self.meta in
      (record self { meta = meta }, changed)

module _ {Url F : Type 0} ⦃u : UrlApi Url⦄ ⦃h : Hasher⦄ where
  unfoldable pub remove : IndexBuilder F → Url → Result (IndexBuilder F × Bool)
  remove self url = elim (HashMap.get self.url_index (from_url url)) [
    | none ↦ ok (self, false)
    | some id ↦
        remove_at (record self { url_index = HashMap.remove self.url_index (from_url url) }) id
  ]
