-- ===== src/Extract/Descriptor.antt =====
-- src/extract/mod.rs: `Descriptor`, and the document that it becomes.
pub mod Edges
use link_r.Prelude.{
  ℕ, Bool, true, false, ◌||◌, Option, none, some, List, [], ◌∷◌, ◌++◌, Bytes, codes, length, take,
  leb, sort_by, if◌then◌else◌, ◌==◌, bytes_eq, nat_eq,
}
use link_r.Prelude.HashSet
use link_r.Prelude.HashSet.{HashSet}
use link_r.External.{UrlApi, Hasher}
use link_r.UrlKey.{from_url}
use link_r.Resource.{ResourceKind}
use link_r.Index.Builder.{Document}

-- `MAX_EDGES_PER_DOC`
abbrev pub max_edges_per_doc : ℕ
max_edges_per_doc = 64

pub record Descriptor : Type 0 where
  pub title : Option Bytes
  pub keywords : List Bytes
  pub headings : List Bytes
  pub heading_levels : List ℕ
  pub tags : List Bytes
  pub lang : Option Bytes
  pub snippet : Bytes
  pub embed_text : Bytes
  pub bm25_terms : List Bytes
  pub links : List Bytes

unfoldable is_empty : Descriptor → Bool
is_empty self = elim self.bm25_terms [ [] ↦ true | _ ∷ _ ↦ false ]

module _ {Url : Type 0} ⦃u : UrlApi Url⦄ ⦃h : Hasher⦄ where
  abbrev pub is_web : Url → Bool
  is_web target = u.scheme target == codes "http" || u.scheme target == codes "https"

  -- The key of a link, unless it does not parse or is of another scheme.
  unfoldable pub edge_key : Url → Bytes → Option ℕ
  edge_key url href = elim (u.join url href) [
    | none ↦ none
    | some target ↦ if is_web target then some (from_url target) else none
  ]

  -- The loop over the links: `seen` holds the keys so far, and the loop breaks at the limit.
  unfoldable pub push_edges : Url → HashSet → List ℕ → List Bytes → List ℕ
  push_edges url seen edges [] = edges
  push_edges url seen edges (href ∷ links) = elim (edge_key url href) [
    | none ↦ push_edges url seen edges links
    | some key ↦
        let skipped = push_edges url seen edges links in
        let pushed = edges ++ key ∷ [] in
        let rest = push_edges url (HashSet.insert seen key) pushed links in
        if HashSet.contains seen key
        then skipped
        else if length pushed == max_edges_per_doc
        then pushed
        else rest
  ]

  unfoldable pub into_document :
      {F : Type 0} → Descriptor → Url → ResourceKind → ℕ → List F → Document Url F
  into_document self url kind content_hash vector = record {
    url = url;
    kind = kind;
    content_hash = content_hash;
    title = self.title;
    snippet = self.snippet;
    lang = self.lang;
    tags = take 4 self.tags;
    terms = self.bm25_terms;
    vector = vector;
    edges = sort_by leb (push_edges url [] [] self.links);
    fetched_at_ms = 0;
    etag = none;
    pinned = false;
  }
