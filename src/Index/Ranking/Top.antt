-- ===== src/Index/Ranking/Top.antt =====
-- The order of the ranked lists, and what is left of one that is sorted and truncated.
use link_r.Prelude.{IsOrder, arith}
use link_r.External.{Float, IsOrdered}
use link_r.Resource.{DocId}
use link_r.Prelude.{◌≡◌, refl, ℕ, List, take}
use link_r.Prelude.HashMap.{HashMap}
use link_r.Error.{ok}
use link_r.Index.Ranking.{precedes, sort_hits, sorted_hits, ranked}

pub precedes-IsOrder : {F : Type 0} ⦃f : Float F⦄ → IsOrdered F → IsOrder {A = DocId × F} precedes
unfolding precedes
precedes-IsOrder ⦃f⦄ o = record {
  total = λ a b h. ground (arith, o.asym a.1 b.1, o.asym b.1 a.1);
  trans = λ a b c h k. ground (
    arith,
    o.asym a.1 b.1,
    o.asym b.1 c.1,
    o.asym a.1 c.1,
    o.asym c.1 a.1,
    o.asym c.1 b.1,
    o.asym b.1 a.1,
    o.cotrans a.1 b.1 c.1,
    o.cotrans c.1 b.1 a.1,
    o.cotrans b.1 c.1 a.1,
    o.cotrans a.1 c.1 b.1,
    o.cotrans c.1 a.1 b.1,
    o.cotrans b.1 a.1 c.1,
  );
}

module _ {F : Type 0} ⦃f : Float F⦄ (o : IsOrdered F) where
  pub sort_hits_ok : (hits : List (DocId × F)) → sort_hits hits ≡ ok (sorted_hits hits)
  unfolding sort_hits
  sort_hits_ok hits = rw (o.sorts hits) refl

  pub ranked_ok :
      (scores : HashMap DocId F) (limit : ℕ)
      → ranked scores limit ≡ ok (take limit (sorted_hits scores))
  unfolding ranked
  ranked_ok scores limit = rw (sort_hits_ok scores) refl
