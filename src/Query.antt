-- ===== src/Query.antt =====
-- src/query.rs: the input of a search, and its hits.
use link_r.Prelude.{ℕ, List, [], ◌∷◌, Bool, true, false, Option, Bytes, length, get_elem?}
use link_r.Error.{Result, ok, ◌>>=◌}
use link_r.External.{Float}
use link_r.Resource.{DocId, ResourceKind}
use link_r.Index.Meta.{DocMeta, Filter}
use link_r.Index.Builder.{or_panic}

pub data Fusion : Type 0 where
  rrf : ℕ → Fusion

-- `DEFAULT_RRF_K` of src/index/fuse.rs.
abbrev default_rrf_k : ℕ
default_rrf_k = 60

unfoldable default_fusion : Fusion
default_fusion = rrf default_rrf_k

pub record RankParams (F : Type 0) : Type 0 where
  pub dense_weight : F
  pub sparse_weight : F
  pub fusion : Fusion
  pub candidate_multiplier : ℕ
  pub graph_boost : F

unfoldable default : {F : Type 0} ⦃f : Float F⦄ → RankParams F
unfolding default_fusion
default ⦃f⦄ = record {
  dense_weight = f.one;
  sparse_weight = f.one;
  fusion = default_fusion;
  candidate_multiplier = 10;
  graph_boost = f.zero;
}

pub record PreparedQuery (F : Type 0) : Type 0 where
  pub vector : List F
  pub terms : List Bytes
  pub filter : Filter
  pub limit : ℕ
  pub rank : RankParams F

pub record Hit (F : Type 0) : Type 0 where
  pub url : Bytes
  pub score : F
  pub title : Option Bytes
  pub snippet : Bytes
  pub kind : ResourceKind
  pub doc : DocMeta

pub record Hits (F : Type 0) : Type 0 where
  pub docs : List DocMeta
  pub ranked : List (DocId × F)

module _ {F : Type 0} where
  abbrev pub tags : Hit F → List Bytes
  tags self = self.doc.tags

  unfoldable pub new : List DocMeta → List (DocId × F) → Hits F
  new docs ranked = record { docs = docs; ranked = ranked }

  unfoldable pub len : Hits F → ℕ
  len self = length self.ranked

  unfoldable is_empty : Hits F → Bool
  is_empty self = elim self.ranked [ [] ↦ true | ◌∷◌ e es ↦ false ]

  unfoldable pub hit_of : F → DocMeta → Hit F
  hit_of score doc = record {
    url = doc.url;
    score = score;
    title = doc.title;
    snippet = doc.snippet;
    kind = doc.kind;
    doc = doc;
  }

  -- The hits of a ranked list; `docs[id]` panics out of range.
  unfoldable pub iter_from : List DocMeta → List (DocId × F) → Result (List (Hit F))
  iter_from docs [] = ok []
  iter_from docs ((id, score) ∷ ranked) = do
    doc ← or_panic (get_elem? docs id)
    rest ← iter_from docs ranked
    ok (hit_of score doc ∷ rest)

  unfoldable pub iter : Hits F → Result (List (Hit F))
  iter self = iter_from self.docs self.ranked
