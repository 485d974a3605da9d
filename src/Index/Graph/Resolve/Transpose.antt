-- ===== src/Index/Graph/Resolve/Transpose.antt =====
-- The two adjacencies of a resolved link graph (src/index/graph.rs) are transposes.
use link_r.Prelude.{
  ℕ, zero, suc, ◌+◌, ◌%◌, ◌≤◌, ◌<◌, ◌≡◌, ◌≢◌, refl, sym, ap, ◌∙◌, false, not, ◌&&◌, some, List, [],
  ◌∷◌, ◌++◌, length, get_elem?, set, replicate, ltb, u32_mod, arith, Bool-cases, Option-cases, inl,
  inr, nat_beq, nat_beq_iff, if◌then◌else◌, get_elem?_total, length-set, get_elem?-set_self,
  get_elem?-set_ne, ◌==◌, nat_eq,
}
use link_r.Prelude.HashMap
use link_r.Prelude.HashMap.{HashMap}
use link_r.Prelude.HashSet.{count, count-append}
use link_r.Error.{Result, ok}
use link_r.Resource.{DocId}
use link_r.Index.Graph.Resolve.{
  Graph, push_at, add_edge, resolve_key, resolve_targets, resolve_docs, resolve, or_nil,
  out_neighbors, in_neighbors,
}

-- How often `b` stands at `a`.
abbrev pub links : List (List DocId) → ℕ → ℕ → ℕ
links lists a b = count b (or_nil (get_elem? lists a))

-- `n` rows on each side, every link on both, and no link of a document to itself.
pub record IsTransposed (n : ℕ) (g : Graph) : Type 0 where
  pub out_rows : length g.out ≡ n
  pub inc_rows : length g.inc ≡ n
  pub both : (a b : ℕ) → links g.out a b ≡ links g.inc b a
  pub no_loop : (a : ℕ) → links g.out a a ≡ 0

pushed-links :
    (lists : List (List DocId)) (i id : ℕ) (l : List DocId)
    → i < length lists
    → get_elem? lists i ≡ some l
    → (a b : ℕ)
    → links (set lists i (l ++ id ∷ [])) a b
      ≡ (if nat_beq a i && nat_beq b id then 1 else 0) + links lists a b
unfolding count
pushed-links lists i id l lt here a b = elim (Bool-cases (nat_beq a i)) [
  | inl same ↦
      let e : a ≡ i = (nat_beq_iff a i).0 same in
      ground (
        arith,
        here,
        get_elem?-set_self lists i (l ++ id ∷ []) lt,
        count-append b l (id ∷ []),
        nat_beq_iff id b,
        nat_beq_iff b id,
      )
  | inr other ↦
      let ne : i ≢ a = λ e. ground (arith, nat_beq_iff a i) in
      ground (arith, get_elem?-set_ne lists i a (l ++ id ∷ []) ne)
]

abbrev Pushed : List (List DocId) → ℕ → ℕ → List (List DocId) → Type 0
Pushed lists i id lists' =
    (push_at lists i id ≡ ok lists')
    × (length lists' ≡ length lists)
    × ((a b : ℕ)
        → links lists' a b ≡ (if nat_beq a i && nat_beq b id then 1 else 0) + links lists a b)

push_at_total :
    (lists : List (List DocId)) (i id : ℕ)
    → i < length lists
    → (lists' : List (List DocId)) × Pushed lists i id lists'
unfolding push_at
push_at_total lists i id lt =
    let (l, here) = get_elem?_total lists i lt in
    (
      set lists i (l ++ id ∷ []),
      (
        rw (here, push_at) refl,
        length-set lists i (l ++ id ∷ []),
        pushed-links lists i id l lt here,
      ),
    )

add_edge_total :
    (n : ℕ) (g : Graph) (src dst : DocId)
    → IsTransposed n g
    → src < n
    → dst < n
    → (dst == src) ≡ false
    → (g' : Graph) × (add_edge g src dst ≡ ok g') × IsTransposed n g'
unfolding add_edge
add_edge_total n g src dst t src_lt dst_lt ne =
    let rows = t.out_rows in
    let cols = t.inc_rows in
    let (out, (pushed_out, out_len, out_links)) = push_at_total g.out src dst (omega arith) in
    let (inc, (pushed_inc, inc_len, inc_links)) = push_at_total g.inc dst src (omega arith) in
    (
      record { out = out; inc = inc },
      rw (pushed_out, pushed_inc) refl,
      record {
        out_rows = out_len ∙ rows;
        inc_rows = inc_len ∙ cols;
        both = λ a b. ground (arith, out_links a b, inc_links b a, t.both a b);
        no_loop = λ a. ground (
          arith,
          out_links a a,
          t.no_loop a,
          nat_beq_iff a src,
          nat_beq_iff a dst,
          nat_beq_iff dst src,
        );
      },
    )

abbrev Resolved : ℕ → Result Graph → Type 0
Resolved n r = (g : Graph) × (r ≡ ok g) × IsTransposed n g

module _ (by_url : HashMap ℕ DocId) (n : ℕ) where
  resolve_key_total :
      (g : Graph) (src : DocId) (key : ℕ)
      → src < n
      → IsTransposed n g
      → Resolved n (resolve_key by_url n g src key)
  unfolding resolve_key
  resolve_key_total g src key lt t = elim (Option-cases (HashMap.get by_url key)) [
    | inl dangling ↦ (g, rw (dangling, resolve_key) refl, t)
    | inr (dst, at) ↦ elim (Bool-cases (ltb dst n && not (dst == src))) [
      | inl kept ↦
          let (g', runs, t') = add_edge_total n g src dst t lt (ground arith) (ground arith) in
          (g', rw (at, resolve_key, kept) runs, t')
      | inr dropped ↦ (g, rw (at, resolve_key, dropped) refl, t)
    ]
  ]

  resolve_targets_total :
      (g : Graph) (src : DocId) (targets : List ℕ)
      → src < n
      → IsTransposed n g
      → Resolved n (resolve_targets by_url n g src targets)
  unfolding resolve_targets
  resolve_targets_total g src [] lt t = (g, refl, t)
  resolve_targets_total g src (key ∷ targets) lt t =
      let (g1, runs1, t1) = resolve_key_total g src key lt t in
      let (g2, runs2, t2) = resolve_targets_total g1 src targets lt t1 in (g2, rw runs1 runs2, t2)

  resolve_docs_total :
      (g : Graph) (i : ℕ) (edges : List (List ℕ))
      → i + length edges ≡ n
      → n ≤ u32_mod
      → IsTransposed n g
      → Resolved n (resolve_docs by_url n g i edges)
  unfolding resolve_docs
  resolve_docs_total g i [] e w t = (g, refl, t)
  resolve_docs_total g i (targets ∷ edges) e w t =
      let (g1, runs1, t1) = resolve_targets_total g (i % u32_mod) targets (omega arith) t in
      let (g2, runs2, t2) = resolve_docs_total g1 (i + 1) edges (omega arith) w t1 in
      (g2, rw runs1 runs2, t2)

length-replicate : {A : Type 0} (n : ℕ) (a : A) → length (replicate n a) ≡ n
length-replicate zero a = refl
length-replicate (suc n) a = ap suc (length-replicate n a)

no-links : (n a b : ℕ) → links (replicate n []) a b ≡ 0
unfolding count
no-links zero a b = refl
no-links (suc n) zero b = refl
no-links (suc n) (suc a) b = no-links n a b

-- For at most 2^32 documents `resolve` does not index out of range, and its adjacencies are
-- transposes: `b` stands as often among the outbound neighbors of `a` as `a` among the inbound ones
-- of `b`. No document is its own neighbor.
pub resolve-IsTransposed :
    (edges : List (List ℕ)) (by_url : HashMap ℕ DocId)
    → length edges ≤ u32_mod
    → (g : Graph) × (resolve edges by_url ≡ ok g)
      × ((a b : ℕ) → count b (out_neighbors g a) ≡ count a (in_neighbors g b))
      × ((a : ℕ) → count a (out_neighbors g a) ≡ 0)
unfolding resolve out_neighbors in_neighbors
resolve-IsTransposed edges by_url w =
    let n = length edges in
    let empty : IsTransposed n (record { out = replicate n []; inc = replicate n [] }) = record {
      out_rows = length-replicate n [];
      inc_rows = length-replicate n [];
      both = λ a b. no-links n a b ∙ sym (no-links n b a);
      no_loop = λ a. no-links n a a;
    } in
    let (g, runs, t) =
      resolve_docs_total by_url n (record { out = replicate n []; inc = replicate n [] }) 0 edges
        (omega arith) w empty in
    (g, runs, t.both, t.no_loop)
