-- ===== src/Index/Dense/Exact.antt =====
-- The bounded heap selects exactly the best documents (src/index/dense.rs).
use mathlib.Core.Path.{fun_ext}
use link_r.Prelude.{
  ℕ, zero, suc, ◌-◌, ◌<◌, ◌≤◌, ◌≡◌, refl, sym, ap, subst, ◌∙◌, inl, inr, true, false, some, List,
  [], ◌∷◌, ◌++◌, take, length, All, All-map, All-zip, ltb, ltb→lt, nat_eq, insert_by, sort_by, last,
  Bool-cases, arith, IsSortedBy, take-insert_by, take-length, take-insert_by_full, insert_by-last,
  take-append_length, sort_by_sorts, take-IsSortedBy, take-All, sort_by-All, length-take,
  length-insert_by,
}
use link_r.External.{Float, IsOrdered}
use link_r.Index.Ranking.{precedes, sorted_hits}
use link_r.Index.Ranking.Top.{precedes-IsOrder}
use link_r.Index.Dense.TopK.{Scored, scored_le, push, pop, consider_scored}

module _ {F : Type 0} ⦃f : Float F⦄ (o : IsOrdered F) where
  -- Without a NaN the heap's order is that of the result.
  scored_le-precedes : scored_le {F = F} ≡ precedes
  unfolding scored_le precedes
  scored_le-precedes = fun_ext (λ a. fun_ext (λ b. ground (arith, o.eq_of_not_gt b.1 a.1)))

  last_total : (l : List (Scored F)) → 0 < length l → (z : Scored F) × (last l ≡ some z)
  last_total [] h = absurd (omega arith)
  last_total (a ∷ []) h = (a, refl)
  last_total (a ∷ b ∷ l) h = last_total (b ∷ l) (omega arith)

  last-All :
      (P : Scored F → Type 0) (l : List (Scored F)) (z : Scored F) → All P l → last l ≡ some z → P z
  last-All P [] z ps e = ground arith
  last-All P (a ∷ []) z (p, ps) e = let a_z : a ≡ z = ground arith in subst P a_z p
  last-All P (a ∷ b ∷ l) z (p, ps) e = last-All P (b ∷ l) z ps e

  -- What the last element satisfies, and everything that stands before it, all satisfy.
  All-last :
      (P : Scored F → Type 0) (l : List (Scored F)) (z : Scored F)
      → IsSortedBy precedes l
      → last l ≡ some z
      → P z
      → ((b : Scored F) → precedes b z ≡ true → P b)
      → All P l
  All-last P [] z s e p q = tt
  All-last P (a ∷ []) z s e p q = let a_z : z ≡ a = ground arith in (subst P a_z p, tt)
  All-last P (a ∷ b ∷ l) z (firsts, s) e p q =
      (q a (last-All (λ c. precedes a c ≡ true) (b ∷ l) z firsts e), All-last P (b ∷ l) z s e p q)

  -- A later document that does not score above the last one stands behind it, and so behind all.
  behind_last :
      (x : Scored F) (l : List (Scored F)) (z : Scored F)
      → IsSortedBy precedes l
      → last l ≡ some z
      → All (λ b. b.0 < x.0) l
      → f.gt x.1 z.1 ≡ false
      → All (λ b. precedes x b ≡ false) l
  unfolding precedes
  behind_last x l z s e older low =
      All-map _ _ (λ b h. ground (arith, h.0, h.1, o.asym x.1 b.1)) l
        (All-zip _ _ l older (
          All-last (λ b. f.gt x.1 b.1 ≡ false) l z s e low
            (λ b h. o.cotrans x.1 z.1 b.1 low (ground (arith, o.asym z.1 b.1)))))

  insert_full :
      (k : ℕ) (heap : List (Scored F)) (x z : Scored F)
      → length heap ≡ k
      → 0 < k
      → last heap ≡ some z
      → f.gt x.1 z.1 ≡ true
      → push (pop heap) x ≡ take k (insert_by precedes x heap)
  unfolding precedes
  insert_full zero heap x z len pos e above = absurd (omega arith)
  insert_full (suc n) heap x z len pos e above =
      let shorter : length heap - 1 ≡ n = omega arith in
      let put = take-insert_by_full precedes n x heap {z = z} len e (ground arith) in
      rw (scored_le-precedes, shorter) (sym put)

  -- One step of the scan keeps the first `k` of the heap and the document.
  consider_heap :
      (k : ℕ) (heap : List (Scored F)) (x : Scored F)
      → 0 < k
      → length heap ≤ k
      → IsSortedBy precedes heap
      → All (λ b. b.0 < x.0) heap
      → consider_scored k heap x ≡ take k (insert_by precedes x heap)
  unfolding consider_scored
  consider_heap k heap x pos fits s older = elim (Bool-cases (ltb (length heap) k)) [
    | inl room ↦
        let short : length (insert_by precedes x heap) ≤ k =
          ground (arith, length-insert_by precedes x heap, ltb→lt (length heap) k) in
        rw (room, scored_le-precedes) (sym (take-length k (insert_by precedes x heap) short))
    | inr full ↦
        let len : length heap ≡ k = ground arith in
        let (z, e) = last_total heap (omega arith) in
        elim (Bool-cases (f.gt x.1 z.1)) [
          | inl above ↦ rw (full, e, above) (insert_full k heap x z len pos e above)
          | inr low ↦
              rw (full, e, low)
                (sym (
                  ap (take k) (insert_by-last precedes x heap (behind_last x heap z s e older low))
                  ∙ subst (λ n. take n (heap ++ x ∷ []) ≡ heap) len
                      (take-append_length heap (x ∷ []))))
        ]
  ]

  -- What has been seen, the last document first.
  pub consider_scored-IsTop :
      (k : ℕ) (seen : List (Scored F)) (x : Scored F)
      → 0 < k
      → All (λ b. b.0 < x.0) seen
      → consider_scored k (take k (sorted_hits seen)) x ≡ take k (sorted_hits (x ∷ seen))
  unfolding sort_by
  consider_scored-IsTop k seen x pos older =
      let sorted = sort_by_sorts precedes (precedes-IsOrder o) seen in
      consider_heap k (take k (sorted_hits seen)) x pos
        (omega (arith, length-take k (sorted_hits seen)))
        (take-IsSortedBy precedes k (sorted_hits seen) sorted)
        (take-All _ k _ (sort_by-All precedes _ seen older))
      ∙ sym (take-insert_by precedes k x (sorted_hits seen))
