-- ===== src/Index/Builder/Removal.antt =====
-- What a removal has to leave behind: one document fewer, the last one under the freed id, and a
-- map that knows of both.
use link_r.Prelude.{
  ℕ, suc, ◌<◌, ◌≡◌, Option, none, some, length, get_elem?, arith, nat_beq, nat_eq, if◌then◌else◌,
  Option-cases, inl, inr, ◌==◌,
}
use link_r.Prelude.HashMap
use link_r.Index.Builder.{IndexBuilder}
use link_r.Index.Builder.Entries.{entry_at, IsParallel}
use link_r.Index.Builder.WellFormed.{IsValid, view, key_at, key_at_lt}
use link_r.Index.Builder.View.{id_lt}

-- An id after the last document has moved to the freed one.
abbrev pub relocate : ℕ → ℕ → Option ℕ → Option ℕ
relocate last id none = none
relocate last id (some j) = if j == last then some id else some j

-- A map without one key.
abbrev pub without {ℓ} : {A : Type ℓ} → (ℕ → Option A) → ℕ → ℕ → Option A
without f k j = if k == j then none else f j

module _ {F : Type 0} where
  -- `b'` is `b` without the document that has a key and an id.
  pub record Removed (b b' : IndexBuilder F) (key id last : ℕ) : Type 0 where
    pub parallel : IsParallel b'
    pub len : length b'.meta ≡ last
    pub docs :
        (j : ℕ)
        → j < last
        → get_elem? b'.meta j ≡ (if nat_beq j id then get_elem? b.meta last else get_elem? b.meta j)
    pub entries :
        (j : ℕ)
        → j < last
        → entry_at b' j ≡ (if nat_beq j id then entry_at b last else entry_at b j)
    pub index :
        (k : ℕ)
        → HashMap.get b'.url_index k
          ≡ (if key == k then none else relocate last id (HashMap.get b.url_index k))

  module _ (b b' : IndexBuilder F) (key id last : ℕ) (valid : IsValid b)
      (at : HashMap.get b.url_index key ≡ some id) (len : length b.meta ≡ suc last)
      (r : Removed b b' key id last) where
    key_docs :
        (j : ℕ)
        → j < last
        → key_at b'.meta j ≡ (if nat_beq j id then key_at b.meta last else key_at b.meta j)
    key_docs j lt = ground (arith, r.docs j lt)

    points_back : (k j : ℕ) → HashMap.get b'.url_index k ≡ some j → key_at b'.meta j ≡ some k
    points_back k j e = elim (Option-cases (HashMap.get b.url_index k)) [
      | inl missing ↦ ground (arith, r.index k, missing)
      | inr (i, found) ↦ ground (
        arith,
        r.index k,
        found,
        key_docs j,
        id_lt b k i valid found,
        id_lt b key id valid at,
        (valid.indexed k i).0 found,
        (valid.indexed key id).0 at,
      )
    ]

    points_to : (k j : ℕ) → key_at b'.meta j ≡ some k → HashMap.get b'.url_index k ≡ some j
    points_to k j e =
        let lt : j < last = omega (arith, key_at_lt b'.meta j k e, r.len) in
        ground
          (arith, r.index k, key_docs j lt, (valid.indexed k j).1, (valid.indexed k last).1, at)

    pub Removed-IsValid : IsValid b'
    Removed-IsValid = record {
      parallel = r.parallel;
      indexed = λ k j. (points_back k j, points_to k j);
      fits = omega (arith, r.len, valid.fits);
    }

    pub view-Removed : (k : ℕ) → view b' k ≡ without (view b) key k
    unfolding view
    view-Removed k = elim (Option-cases (HashMap.get b.url_index k)) [
      | inl missing ↦ ground (arith, r.index k, missing)
      | inr (i, found) ↦ ground (
        arith,
        r.index k,
        found,
        id_lt b k i valid found,
        id_lt b key id valid at,
        (valid.indexed k i).0 found,
        (valid.indexed key id).0 at,
        r.entries id,
        r.entries i,
      )
    ]
