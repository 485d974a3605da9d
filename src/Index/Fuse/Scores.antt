-- ===== src/Index/Fuse/Scores.antt =====
-- What reciprocal rank fusion scores and returns (src/index/fuse.rs).
use link_r.Prelude.{
  ℕ, ◌+◌, ◌≡◌, refl, sym, ◌∙◌, inl, inr, Option, none, some, List, [], ◌∷◌, ◌++◌, All, All-map,
  ◌==◌, nat_eq, nat_beq_iff, Bool-cases, if◌then◌else◌, arith, sort_by-All, take-All, IsTop,
  take-sort_by-IsTop, take,
}
use link_r.Prelude.HashMap
use link_r.Prelude.HashMap.{HashMap, IsMap, insert-IsMap, IsMap-get}
use link_r.Error.{ok}
use link_r.External.{Float, IsOrdered}
use link_r.Resource.{DocId}
use link_r.Index.Ranking.{add_score, or_zero, precedes, sorted_hits}
use link_r.Index.Ranking.Top.{precedes-IsOrder, ranked_ok}
use link_r.Index.Fuse.{RankList, rrf_term, fuse_list, fuse_lists, reciprocal_rank_fusion}

module _ {F : Type 0} ⦃f : Float F⦄ where
  -- The terms that one list contributes to a document: one for each of its places.
  abbrev pub places : F → F → DocId → ℕ → List DocId → List F
  places kf weight t rank [] = []
  places kf weight t rank (id ∷ ids) =
      let rest = places kf weight t (rank + 1) ids in
      if id == t then rrf_term weight kf rank ∷ rest else rest

  abbrev pub contributions : F → DocId → List (RankList F) → List F
  contributions kf t [] = []
  contributions kf t (list ∷ lists) = places kf list.weight t 0 list.ids ++ contributions kf t lists

  -- A sum in the order of the terms, where there is one.
  abbrev pub total : Option F → List F → Option F
  total acc [] = acc
  total acc (x ∷ xs) = total (some (f.add (or_zero acc) x)) xs

  total-append : (acc : Option F) (xs ys : List F) → total acc (xs ++ ys) ≡ total (total acc xs) ys
  total-append acc [] ys = refl
  total-append acc (x ∷ xs) ys = total-append (some (f.add (or_zero acc) x)) xs ys

  pub add_score-get :
      (scores : HashMap DocId F) (id t : DocId) (s : F)
      → HashMap.get (add_score scores id s) t ≡ (
          if id == t then some (f.add (or_zero (HashMap.get scores t)) s) else HashMap.get scores t)
  unfolding add_score
  add_score-get scores id t s = elim (Bool-cases (id == t)) [
    | inl same ↦
        let id_t : id ≡ t = (nat_beq_iff id t).0 same in
        ground (arith, HashMap.get-insert scores id t (f.add (or_zero (HashMap.get scores id)) s))
    | inr other ↦
        ground (arith, HashMap.get-insert scores id t (f.add (or_zero (HashMap.get scores id)) s))
  ]

  fuse_list-get :
      (kf weight : F) (scores : HashMap DocId F) (rank : ℕ) (ids : List DocId) (t : DocId)
      → HashMap.get (fuse_list kf weight scores rank ids) t
        ≡ total (HashMap.get scores t) (places kf weight t rank ids)
  unfolding fuse_list
  fuse_list-get kf weight scores rank [] t = refl
  fuse_list-get kf weight scores rank (id ∷ ids) t =
      let ih =
        fuse_list-get kf weight (add_score scores id (rrf_term weight kf rank)) (rank + 1) ids t in
      let step = add_score-get scores id t (rrf_term weight kf rank) in
      elim (Bool-cases (id == t)) [
        | inl same ↦ ground (arith, ih, step)
        | inr other ↦ ground (arith, ih, step)
      ]

  fuse_lists-get :
      (kf : F) (scores : HashMap DocId F) (lists : List (RankList F)) (t : DocId)
      → HashMap.get (fuse_lists kf scores lists) t
        ≡ total (HashMap.get scores t) (contributions kf t lists)
  unfolding fuse_lists
  fuse_lists-get kf scores [] t = refl
  fuse_lists-get kf scores (list ∷ lists) t = ground (
    arith,
    fuse_lists-get kf (fuse_list kf list.weight scores 0 list.ids) lists t,
    fuse_list-get kf list.weight scores 0 list.ids t,
    total-append (HashMap.get scores t) (places kf list.weight t 0 list.ids)
        (contributions kf t lists),
  )

  fuse_list-IsMap :
      (kf weight : F) (scores : HashMap DocId F) (rank : ℕ) (ids : List DocId)
      → IsMap scores
      → IsMap (fuse_list kf weight scores rank ids)
  unfolding fuse_list add_score
  fuse_list-IsMap kf weight scores rank [] m = m
  fuse_list-IsMap kf weight scores rank (id ∷ ids) m =
      fuse_list-IsMap kf weight (add_score scores id (rrf_term weight kf rank)) (rank + 1) ids
        (insert-IsMap scores id _ m)

  fuse_lists-IsMap :
      (kf : F) (scores : HashMap DocId F) (lists : List (RankList F))
      → IsMap scores
      → IsMap (fuse_lists kf scores lists)
  unfolding fuse_lists
  fuse_lists-IsMap kf scores [] m = m
  fuse_lists-IsMap kf scores (list ∷ lists) m =
      fuse_lists-IsMap kf (fuse_list kf list.weight scores 0 list.ids) lists
        (fuse_list-IsMap kf list.weight scores 0 list.ids m)

  -- The fused documents with their scores: every document of a list once.
  abbrev pub fused : List (RankList F) → ℕ → HashMap DocId F
  fused lists k = fuse_lists (f.from_nat k) [] lists

  -- Over floats without a NaN, fusion does not panic and returns the first `limit` by score and id of the documents of
  -- the lists. Every document stands there once, and a score that is returned is the sum of the
  -- terms of the document's places, in the order of the lists.
  pub reciprocal_rank_fusion-IsTop :
      (lists : List (RankList F)) (k limit : ℕ) (o : IsOrdered F)
      → (out : List (DocId × F)) × (reciprocal_rank_fusion lists k limit ≡ ok out)
        × IsTop precedes limit (fused lists k) out
        × ((t : DocId)
            → HashMap.get (fused lists k) t ≡ total none (contributions (f.from_nat k) t lists))
        × IsMap (fused lists k)
        × All (λ e. total none (contributions (f.from_nat k) e.0 lists) ≡ some e.1) out
  unfolding reciprocal_rank_fusion HashMap.get
  reciprocal_rank_fusion-IsTop lists k limit o =
      let kf = f.from_nat k in
      let m = fuse_lists-IsMap kf [] lists tt in
      let at = fuse_lists-get kf [] lists in
      let entries = All-map _ _ (λ e h. sym (at e.0) ∙ h) _ (IsMap-get (fused lists k) m) in
      (
        take limit (sorted_hits (fused lists k)),
        ranked_ok o (fused lists k) limit,
        take-sort_by-IsTop precedes limit (fused lists k) (precedes-IsOrder o),
        at,
        m,
        take-All _ limit _ (sort_by-All precedes _ (fused lists k) entries),
      )
