-- ===== src/Index/Sparse/Postings.antt =====
-- A posting lists the frequencies of its term in ascending order of the ids (src/index/sparse.rs).
use link_r.Prelude.{
  ℕ, ◌<◌, ◌≡◌, refl, sym, ap, ◌∙◌, inl, inr, false, none, some, List, [], ◌∷◌, ◌++◌, map, Bytes,
  leb, ltb, ◌==◌, nat_eq, nat_beq_iff, nat_beq, bytes_eq, All, All_of, All-append, All-map, All-zip,
  Bool-cases, arith, if◌then◌else◌, insert_by, sort_by, IsSortedBy, IsOrder, sort_by_sorts,
  IsAscending, insert_asc, sort_by-All, append-nil,
}
use mathlib.Core.List.{append_assoc}
use link_r.Prelude.HashMap
use link_r.Prelude.HashMap.{HashMap, IsMap}
use link_r.External.{Bitmap}
use link_r.Resource.{DocId}
use link_r.Index.Sparse.{key_leb, fill_posting, posting_of, zip, pairs_of}

key_leb-IsOrder : IsOrder key_leb
key_leb-IsOrder = record { total = λ a b h. ground arith; trans = λ a b c h k. ground arith }

get-insert_by :
    (k v : ℕ) (l : HashMap DocId ℕ) (j : ℕ)
    → HashMap.get l k ≡ none
    → HashMap.get (insert_by key_leb (k, v) l) j ≡ (if k == j then some v else HashMap.get l j)
unfolding insert_by HashMap.get
get-insert_by k v [] j fresh = refl
get-insert_by k v ((i, w) ∷ l) j fresh =
    ground (arith, get-insert_by k v l j, nat_beq_iff i k, nat_beq_iff i j, nat_beq_iff k j)

insert_by-IsMap :
    (k v : ℕ) (l : HashMap DocId ℕ)
    → HashMap.get l k ≡ none
    → IsMap l
    → IsMap (insert_by key_leb (k, v) l)
unfolding insert_by HashMap.get
insert_by-IsMap k v [] fresh m = (refl, tt)
insert_by-IsMap k v ((i, w) ∷ l) fresh (apart, m) = elim (Bool-cases (leb k i)) [
  | inl before ↦ rw (before, insert_by) (fresh, (apart, m))
  | inr behind ↦
      let fresh_l : HashMap.get l k ≡ none = ground (arith, nat_beq_iff i k) in
      rw (behind, insert_by)
        (
          ground (arith, get-insert_by k v l i fresh_l, nat_beq_iff k i),
          insert_by-IsMap k v l fresh_l m,
        )
]

-- Sorting the entries keeps what a lookup finds.
pub get-sort_by :
    (m : HashMap DocId ℕ) (j : ℕ) → IsMap m → HashMap.get (sort_by key_leb m) j ≡ HashMap.get m j
unfolding sort_by HashMap.get
get-sort_by [] j i = refl
get-sort_by ((k, v) ∷ m) j (fresh, i) =
    let fresh_sorted : HashMap.get (sort_by key_leb m) k ≡ none = get-sort_by m k i ∙ fresh in
    ground (arith, get-insert_by k v (sort_by key_leb m) j fresh_sorted, get-sort_by m j i)

pub sort_by-IsMap : (m : HashMap DocId ℕ) → IsMap m → IsMap (sort_by key_leb m)
unfolding sort_by
sort_by-IsMap [] i = tt
sort_by-IsMap ((k, v) ∷ m) (fresh, i) =
    insert_by-IsMap k v (sort_by key_leb m) (get-sort_by m k i ∙ fresh) (sort_by-IsMap m i)

get-none-All :
    (l : HashMap DocId ℕ) (k : ℕ) → HashMap.get l k ≡ none → All (λ e. (e.0 == k) ≡ false) l
unfolding HashMap.get
get-none-All [] k h = tt
get-none-All ((i, w) ∷ l) k h = elim (Bool-cases (i == k)) [
  | inl same ↦ absurd (ground arith)
  | inr other ↦ (other, get-none-All l k (ground arith))
]

keys : HashMap DocId ℕ → List DocId
keys [] = []
keys (e ∷ l) = e.0 ∷ keys l

All-keys : (P : ℕ → Type 0) (l : HashMap DocId ℕ) → All (λ e. P e.0) l → All P (keys l)
unfolding keys
All-keys P [] ps = tt
All-keys P (e ∷ l) (p, ps) = (p, All-keys P l ps)

keys-IsAscending : (l : HashMap DocId ℕ) → IsSortedBy key_leb l → IsMap l → IsAscending (keys l)
unfolding keys
keys-IsAscending [] s m = tt
keys-IsAscending ((k, v) ∷ l) (le, s) (fresh, m) = (
  All-keys (λ j. k < j) l
      (All-map _ _ (λ e h. ground (arith, h.0, h.1)) l (All-zip _ _ l le (get-none-All l k fresh))),
  keys-IsAscending l s m,
)

insert_asc-end : (i : ℕ) (l : List ℕ) → All (λ j. j < i) l → insert_asc i l ≡ l ++ i ∷ []
unfolding insert_asc
insert_asc-end i [] ps = refl
insert_asc-end i (j ∷ l) (p, ps) =
    let behind : ltb i j ≡ false = ground arith in
    let apart : nat_beq i j ≡ false = ground arith in
    rw (behind, apart) (ap (λ r. j ∷ r) (insert_asc-end i l ps))

fill_posting-iter :
    ⦃b : Bitmap⦄ (docs : b.Set) (l : HashMap DocId ℕ)
    → IsAscending (keys l)
    → All (λ j. All (λ i. i < j) (b.iter docs)) (keys l)
    → b.iter (fill_posting docs l) ≡ b.iter docs ++ keys l
unfolding fill_posting keys
fill_posting-iter ⦃b⦄ docs [] asc below = sym (append-nil (b.iter docs))
fill_posting-iter ⦃b⦄ docs ((d, f) ∷ l) (later, asc) (old, below) =
    let put : b.iter (b.insert docs d) ≡ b.iter docs ++ d ∷ [] =
      b.iter-insert docs d ∙ insert_asc-end d (b.iter docs) old in
    let below_new =
      All-map _ (λ j. All (λ i. i < j) (b.iter (b.insert docs d)))
        (λ j h. rw put (All-append (λ i. i < j) (b.iter docs) (d ∷ []) h.0 (h.1, tt))) (keys l)
        (All-zip _ _ (keys l) below later) in
    fill_posting-iter (b.insert docs d) l asc below_new
    ∙ rw (put, append_assoc (b.iter docs) (d ∷ []) (keys l)) refl

zip-keys : (l : HashMap DocId ℕ) → zip (keys l) (map (λ e. e.1) l) ≡ l
unfolding zip keys
zip-keys [] = refl
zip-keys (e ∷ l) = ap (λ r. e ∷ r) (zip-keys l)

module _ ⦃b : Bitmap⦄ where
  posting_of-iter :
      (term : Bytes) (m : HashMap DocId ℕ)
      → IsMap m
      → b.iter (fill_posting b.new (sort_by key_leb m)) ≡ keys (sort_by key_leb m)
  posting_of-iter term m u =
      let sorted = sort_by key_leb m in
      let asc =
        keys-IsAscending sorted (sort_by_sorts key_leb key_leb-IsOrder m) (sort_by-IsMap m u) in
      let none_old : All (λ j. All (λ i. i < j) (b.iter b.new)) (keys sorted) =
        All_of (λ j. All (λ i. i < j) (b.iter b.new)) (keys sorted) (λ j. rw b.iter-new tt) in
      fill_posting-iter b.new sorted asc none_old ∙ rw b.iter-new refl

  -- The pairs of a posting are the sorted frequencies.
  pub pairs_of-posting_of :
      (term : Bytes) (m : HashMap DocId ℕ)
      → IsMap m
      → pairs_of (posting_of term m) ≡ sort_by key_leb m
  unfolding posting_of
  pairs_of-posting_of term m u = rw (posting_of-iter term m u) (zip-keys (sort_by key_leb m))

  -- The bitmap holds documents in range.
  pub posting_of-ids :
      (n : ℕ) (term : Bytes) (m : HashMap DocId ℕ)
      → IsMap m
      → All (λ e. e.0 < n) m
      → All (λ d. d < n) (b.iter ((posting_of term m).docs))
  unfolding posting_of
  posting_of-ids n term m u ids =
      rw (posting_of-iter term m u)
        (All-keys (λ d. d < n) (sort_by key_leb m) (sort_by-All key_leb (λ e. e.0 < n) m ids))
