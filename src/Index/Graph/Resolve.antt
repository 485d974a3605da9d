-- ===== src/Index/Graph/Resolve.antt =====
-- src/index/graph.rs: `Graph`, the link graph resolved to document ids. Ids are `u32`: `as DocId`
-- wraps.
pub mod Transpose
use link_r.Prelude.{
  ℕ, zero, suc, ◌+◌, ◌%◌, ◌≡◌, Bool, true, false, not, ◌&&◌, Option, none, some, List, [], ◌∷◌,
  ◌++◌, length, get_elem?, set, replicate, all, ltb, u32_mod, if◌then◌else◌, ◌==◌, nat_eq,
}
use link_r.Prelude.HashMap
use link_r.Prelude.HashMap.{HashMap}
use link_r.Error.{Result, ok, panic, ◌>>=◌}
use link_r.Resource.{DocId}

pub record Graph : Type 0 where
  pub out : List (List DocId)
  pub inc : List (List DocId)

-- `lists[i].push(id)`, with the panic out of range.
unfoldable pub push_at : List (List DocId) → ℕ → DocId → Result (List (List DocId))
push_at lists i id = elim (get_elem? lists i) [
  | none ↦ panic
  | some l ↦ ok (set lists i (l ++ id ∷ []))
]

unfoldable pub add_edge : Graph → DocId → DocId → Result Graph
add_edge g src dst = do
  out ← push_at g.out src dst
  inc ← push_at g.inc dst src
  ok (record { out = out; inc = inc })

-- One target of the document `src`; `n` is the number of documents.
unfoldable pub resolve_key : HashMap ℕ DocId → ℕ → Graph → DocId → ℕ → Result Graph
resolve_key by_url n g src key = elim (HashMap.get by_url key) [
  | none ↦ ok g
  | some dst ↦ if ltb dst n && not (dst == src) then add_edge g src dst else ok g
]

unfoldable pub resolve_targets : HashMap ℕ DocId → ℕ → Graph → DocId → List ℕ → Result Graph
resolve_targets by_url n g src [] = ok g
resolve_targets by_url n g src (key ∷ targets) =
    resolve_key by_url n g src key >>= λ g'. resolve_targets by_url n g' src targets

-- The documents from an index on.
unfoldable pub resolve_docs : HashMap ℕ DocId → ℕ → Graph → ℕ → List (List ℕ) → Result Graph
resolve_docs by_url n g i [] = ok g
resolve_docs by_url n g i (targets ∷ edges) =
    resolve_targets by_url n g (i % u32_mod) targets >>= λ g'.
    resolve_docs by_url n g' (i + 1) edges

unfoldable pub resolve : List (List ℕ) → HashMap ℕ DocId → Result Graph
resolve edges by_url =
    let n = length edges in
    resolve_docs by_url n (record { out = replicate n []; inc = replicate n [] }) 0 edges

-- `.get(doc).map_or(&[], |v| v)`
abbrev pub or_nil : Option (List DocId) → List DocId
or_nil none = []
or_nil (some l) = l

unfoldable pub out_neighbors : Graph → DocId → List DocId
out_neighbors g doc = or_nil (get_elem? g.out doc)

unfoldable pub in_neighbors : Graph → DocId → List DocId
in_neighbors g doc = or_nil (get_elem? g.inc doc)

abbrev is_nil : List DocId → Bool
is_nil [] = true
is_nil (x ∷ l) = false

unfoldable pub is_empty : Graph → Bool
is_empty g = all is_nil g.out
