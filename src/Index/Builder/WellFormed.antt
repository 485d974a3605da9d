-- ===== src/Index/Builder/WellFormed.antt =====
-- The invariant of the builder: the vectors are parallel, and the map holds exactly the key of each
-- document with its id. The view forgets the ids.
use link_r.Prelude.{
  ℕ, ◌≤◌, ◌<◌, ◌≡◌, ◌↔◌, refl, sym, ap, ◌∙◌, Option, none, some, List, [], ◌∷◌, ◌++◌, length,
  get_elem?, set, arith, u32_mod, get_elem?-append_left, get_elem?-append_end, get_elem?-none,
  get_elem?_lt, get_elem?_total, length-append, get_elem?-set_self, get_elem?-set_ne, Bool-cases,
  inl, inr, ltb, ltb→lt, nat_beq, nat_eq, if◌then◌else◌,
}
use link_r.Prelude.HashMap
use link_r.Prelude.HashMap.{HashMap}
use link_r.Index.Meta.{DocMeta}
use link_r.Metric.{Metric}
use link_r.Index.Builder.{IndexBuilder, new}
use link_r.Index.Builder.Entries.{Entry, entry_at, IsParallel}

abbrev pub key_of : Option DocMeta → Option ℕ
key_of none = none
key_of (some m) = some m.url_key

-- The key of the document with an id.
abbrev pub key_at : List DocMeta → ℕ → Option ℕ
key_at meta i = key_of (get_elem? meta i)

-- The map and the keys of the documents are inverse to one another.
abbrev pub IsIndexed : HashMap ℕ ℕ → List DocMeta → Type 0
IsIndexed index meta = (k id : ℕ) → (HashMap.get index k ≡ some id) ↔ (key_at meta id ≡ some k)

pub record IsValid {F : Type 0} (b : IndexBuilder F) : Type 0 where
  pub parallel : IsParallel b
  pub indexed : IsIndexed b.url_index b.meta
  pub fits : length b.meta ≤ u32_mod

-- What the index holds for a key.
unfoldable pub view : {F : Type 0} → IndexBuilder F → ℕ → Option (Entry F)
view b k = elim (HashMap.get b.url_index k) [ none ↦ none | some id ↦ entry_at b id ]

pub key_at_lt : (meta : List DocMeta) (i k : ℕ) → key_at meta i ≡ some k → i < length meta
key_at_lt meta i k h = elim (Bool-cases (ltb i (length meta))) [
  | inl inside ↦ ltb→lt i (length meta) inside
  | inr outside ↦ ground (arith, get_elem?-none meta i)
]

-- The document that the map points at.
pub indexed_doc :
    (index : HashMap ℕ ℕ) (meta : List DocMeta) (k id : ℕ)
    → IsIndexed index meta
    → HashMap.get index k ≡ some id
    → (m : DocMeta) × (get_elem? meta id ≡ some m) × (m.url_key ≡ k)
indexed_doc index meta k id i h =
    let at : key_at meta id ≡ some k = (i k id).0 h in
    let (m, e) = get_elem?_total meta id (key_at_lt meta id k at) in (m, e, ground arith)

key_at-append :
    (meta : List DocMeta) (m : DocMeta) (i : ℕ)
    → key_at (meta ++ m ∷ []) i
      ≡ (if nat_beq i (length meta) then some m.url_key else key_at meta i)
key_at-append meta m i = ground (
  arith,
  get_elem?-append_left meta (m ∷ []) i,
  get_elem?-append_end meta m,
  get_elem?-none meta i,
  get_elem?-none (meta ++ m ∷ []) i,
  length-append meta (m ∷ []),
)

-- A new document at the end, under a key that the map does not hold.
pub append-IsIndexed :
    (index : HashMap ℕ ℕ) (meta : List DocMeta) (m : DocMeta)
    → IsIndexed index meta
    → HashMap.get index m.url_key ≡ none
    → IsIndexed (HashMap.insert index m.url_key (length meta)) (meta ++ m ∷ [])
append-IsIndexed index meta m i fresh k id = (
  λ e. ground (
    arith,
    HashMap.get-insert index m.url_key k (length meta),
    key_at-append meta m id,
    (i k id).0,
    key_at_lt meta id k,
  ),
  λ e. ground (
    arith,
    HashMap.get-insert index m.url_key k (length meta),
    key_at-append meta m id,
    (i k id).1,
  ),
)

-- A document replaced by one with the same key.
pub set-IsIndexed :
    (index : HashMap ℕ ℕ) (meta : List DocMeta) (id : ℕ) (old m : DocMeta)
    → IsIndexed index meta
    → get_elem? meta id ≡ some old
    → m.url_key ≡ old.url_key
    → IsIndexed index (set meta id m)
set-IsIndexed index meta id old m i here same k j =
    let keys : key_at (set meta id m) j ≡ key_at meta j = elim (Bool-cases (nat_beq id j)) [
      | inl eq ↦ ground (arith, get_elem?-set_self meta id m, get_elem?_lt meta id {v = old} here)
      | inr ne ↦ ap key_of (get_elem?-set_ne meta id j m (λ e. ground arith))
    ] in
    (λ e. keys ∙ (i k j).0 e, λ e. (i k j).1 (sym keys ∙ e))

-- A new builder is valid and holds nothing.
pub new-IsValid :
    {F : Type 0} (k1 b : F) (dim : ℕ) (metric : Metric) (embedder_id k : ℕ)
    → IsValid (new k1 b dim metric embedder_id) × (view (new k1 b dim metric embedder_id) k ≡ none)
unfolding new view HashMap.get
new-IsValid k1 b dim metric embedder_id k = (
  record {
    parallel = record { rows = omega arith; terms = refl; edges = refl };
    indexed = λ j i. ground arith;
    fits = omega arith;
  },
  refl,
)
