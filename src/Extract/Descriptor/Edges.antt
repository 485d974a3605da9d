-- ===== src/Extract/Descriptor/Edges.antt =====
-- The links that a document keeps (src/extract/mod.rs).
use mathlib.Core.List.{Perm, append_assoc}
use link_r.Prelude.{
  ℕ, zero, suc, ◌-◌, ◌≤◌, ◌<◌, ◌≡◌, refl, sym, ap, ◌∙◌, inl, inr, Option, none, some, List, [], ◌∷◌,
  ◌++◌, Bytes, length, length-append, append-nil, take, leb, length-take, IsSortedBy, sort_by_sorts,
  sort_by-Perm, length-sort_by, IsOrder, if◌then◌else◌, Bool-cases, arith, ◌==◌, nat_eq, codes, ◌⊎◌,
  ◌↔◌, false, Bool, true, bytes_eq, bytes_beq_iff, Option-cases,
}
use link_r.Prelude.HashSet
use link_r.Prelude.HashSet.{HashSet}
use link_r.External.{UrlApi, Hasher}
use link_r.UrlKey.{from_url}
use link_r.Resource.{ResourceKind}
use link_r.Extract.Descriptor.{
  Descriptor, is_web, edge_key, push_edges, into_document, max_edges_per_doc,
}

-- The keys that a set does not hold, each where it comes first.
unfoldable pub distinct : HashSet → List ℕ → List ℕ
distinct seen [] = []
distinct seen (k ∷ keys) =
    let skipped = distinct seen keys in
    let rest = distinct (HashSet.insert seen k) keys in
    if HashSet.contains seen k then skipped else k ∷ rest

bool_apart : {b : Bool} → b ≡ true → ¬ (b ≡ false)
bool_apart e n = ground arith

leb-IsOrder : IsOrder leb
leb-IsOrder = record { total = λ a b h. ground arith; trans = λ a b c h k. ground arith }

take-nil : (n : ℕ) → take {A = ℕ} n [] ≡ []
take-nil zero = refl
take-nil (suc n) = refl

module _ {Url : Type 0} ⦃u : UrlApi Url⦄ ⦃h : Hasher⦄ where
  -- A URL of the web.
  abbrev pub IsWeb : Url → Type 0
  IsWeb target = (u.scheme target ≡ codes "http") ⊎ (u.scheme target ≡ codes "https")

  -- The keys of the links, in the order of the document: those that parse against the page and are
  -- URLs of the web have one, the others none.
  pub data Keys (url : Url) : List Bytes → List ℕ → Type 0 where
    done : Keys url [] []
    broken :
        {links : List Bytes} {keys : List ℕ} (href : Bytes)
        → u.join url href ≡ none
        → Keys url links keys
        → Keys url (href ∷ links) keys
    other :
        {links : List Bytes} {keys : List ℕ} (href : Bytes) (target : Url)
        → u.join url href ≡ some target
        → ¬ IsWeb target
        → Keys url links keys
        → Keys url (href ∷ links) keys
    web :
        {links : List Bytes} {keys : List ℕ} (href : Bytes) (target : Url)
        → u.join url href ≡ some target
        → IsWeb target
        → Keys url links keys
        → Keys url (href ∷ links) (from_url target ∷ keys)

  keys_of : Url → List Bytes → List ℕ
  keys_of url [] = []
  keys_of url (href ∷ links) = elim (edge_key url href) [
    | none ↦ keys_of url links
    | some key ↦ key ∷ keys_of url links
  ]

  is_web_iff : (target : Url) → (is_web target ≡ true) ↔ IsWeb target
  is_web_iff target =
      let plain = bytes_beq_iff (u.scheme target) (codes "http") in
      let secure = bytes_beq_iff (u.scheme target) (codes "https") in
      (
        λ e. elim (Bool-cases (u.scheme target == codes "http")) [
          | inl here ↦ inl (plain.0 here)
          | inr gone ↦ inr (secure.0 (ground arith))
        ],
        λ w. elim w [
          | inl e ↦ (let here = plain.1 e in ground arith)
          | inr e ↦ (let here = secure.1 e in ground arith)
        ],
      )

  keys_of-Keys : (url : Url) (links : List Bytes) → Keys url links (keys_of url links)
  unfolding keys_of edge_key
  keys_of-Keys url [] = done
  keys_of-Keys url (href ∷ links) =
      let rest = keys_of-Keys url links in
      elim (Option-cases (u.join url href)) [
        | inl none_joined ↦ rw (none_joined, keys_of, edge_key) (broken href none_joined rest)
        | inr (target, joined) ↦ elim (Bool-cases (is_web target)) [
          | inl on ↦
              rw (joined, keys_of, edge_key, on)
                (web href target joined ((is_web_iff target).0 on) rest)
          | inr off ↦
              rw (joined, keys_of, edge_key, off)
                (other href target joined (λ w. bool_apart ((is_web_iff target).1 w) off) rest)
        ]
      ]

  -- What the loop over the links returns.
  abbrev Kept : Url → HashSet → List ℕ → List Bytes → Type 0
  Kept url seen edges links =
      length edges < max_edges_per_doc
      → push_edges url seen edges links
        ≡ edges ++ take (max_edges_per_doc - length edges) (distinct seen (keys_of url links))

  push_edges_step :
      (url : Url) (seen : HashSet) (edges : List ℕ) (href : Bytes) (links : List Bytes)
      → ((s : HashSet) (es : List ℕ) → Kept url s es links)
      → (o : Option ℕ) → edge_key url href ≡ o
      → Kept url seen edges (href ∷ links)
  unfolding push_edges keys_of distinct
  push_edges_step url seen edges href links ih none e room =
      rw (e, push_edges, keys_of) (ih seen edges room)
  push_edges_step url seen edges href links ih (some key) e room =
      let longer : length (edges ++ key ∷ []) ≡ suc (length edges) =
        omega (arith, length-append edges (key ∷ [])) in
      elim (Bool-cases (HashSet.contains seen key)) [
        | inl held ↦ rw (e, push_edges, keys_of, distinct, held) (ih seen edges room)
        | inr fresh ↦ elim (Bool-cases (length (edges ++ key ∷ []) == max_edges_per_doc)) [
          | inl full ↦
              let one : max_edges_per_doc - length edges ≡ 1 = ground arith in
              rw (e, push_edges, keys_of, distinct, fresh, full, one) refl
          | inr more ↦
              let left : max_edges_per_doc - length edges
                  ≡ suc (max_edges_per_doc - length (edges ++ key ∷ [])) =
                ground arith in
              rw (e, push_edges, keys_of, distinct, fresh, more, left)
                (ih (HashSet.insert seen key) (edges ++ key ∷ []) (ground arith)
                  ∙ append_assoc edges (key ∷ []) (
                      take (max_edges_per_doc - length (edges ++ key ∷ []))
                        (distinct (HashSet.insert seen key) (keys_of url links))))
        ]
      ]

  push_edges_lem :
      (url : Url) (links : List Bytes) (seen : HashSet) (edges : List ℕ) → Kept url seen edges links
  unfolding push_edges keys_of distinct
  push_edges_lem url [] seen edges room =
      sym (ap (λ l. edges ++ l) (take-nil (max_edges_per_doc - length edges)) ∙ append-nil edges)
  push_edges_lem url (href ∷ links) seen edges room =
      push_edges_step url seen edges href links (λ s es. push_edges_lem url links s es)
        (edge_key url href) refl room

  -- A document keeps, in ascending order, the keys of the first 64 different links of its page that
  -- parse and are of the schemes http and https; it has 64 edges at most.
  pub into_document-edges :
      {F : Type 0} (self : Descriptor) (url : Url) (kind : ResourceKind) (content_hash : ℕ)
      (vector : List F)
      → (keys : List ℕ) × Keys url self.links keys
        × Perm
            (into_document self url kind content_hash vector).edges
            (take max_edges_per_doc (distinct [] keys))
        × IsSortedBy leb (into_document self url kind content_hash vector).edges
        × (length (into_document self url kind content_hash vector).edges ≤ max_edges_per_doc)
  unfolding into_document
  into_document-edges self url kind content_hash vector =
      let found = push_edges url [] [] self.links in
      let kept : found ≡ take max_edges_per_doc (distinct [] (keys_of url self.links)) =
        push_edges_lem url self.links [] [] (omega arith) in
      let short : length found ≤ max_edges_per_doc = omega (
        arith,
        ap length kept,
        length-take max_edges_per_doc (distinct [] (keys_of url self.links)),
      ) in
      (
        keys_of url self.links,
        keys_of-Keys url self.links,
        rw (sym kept) (sort_by-Perm leb found),
        sort_by_sorts leb leb-IsOrder found,
        omega (arith, length-sort_by leb found),
      )
