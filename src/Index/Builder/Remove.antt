-- ===== src/Index/Builder/Remove.antt =====
-- `remove` leaves behind what it has to.
use link_r.Prelude.{
  ℕ, suc, ◌+◌, ◌-◌, ◌*◌, ◌%◌, ◌≤◌, ◌<◌, ◌≡◌, ◌≢◌, sym, ap, ◌∙◌, none, some, true, List, Bytes,
  length, get_elem?, take, slice, splice, arith, u32_mod, get_elem?_total, nat_beq, nat_beq_iff,
  nat_eq, if◌then◌else◌, Bool-cases, Option-cases, ltb, ltb→lt, inl, inr, ◌==◌, swap_remove,
  swap_remove_lem, is_some, slice-take, slice-splice_self, slice-splice_above, slice-splice_below,
  length-splice, length-take, length-drop, drop,
}
use link_r.Prelude.HashMap
use link_r.Error.{ok}
use link_r.External.{UrlApi, Hasher}
use link_r.UrlKey.{from_url}
use link_r.Index.Meta.{DocMeta}
use link_r.Index.Builder.{IndexBuilder, move_last, truncate_dense, remove_at, remove}
use link_r.Index.Builder.Entries.{entry_at, row_below}
use link_r.Index.Builder.Overwrite.{row_apart}
use link_r.Index.Builder.WellFormed.{IsValid, view, indexed_doc, key_of}
use link_r.Index.Builder.View.{entry_total, view-some, view-none, id_lt}
use link_r.Index.Builder.Removal.{Removed, relocate, without, Removed-IsValid, view-Removed}

module _ {F : Type 0} (b : IndexBuilder F) (key id last : ℕ) (valid : IsValid b)
    (at : HashMap.get b.url_index key ≡ some id) (len : length b.meta ≡ suc last) where
  -- The builder behind `url_index.remove`.
  abbrev unmapped : IndexBuilder F
  unmapped = record b { url_index = HashMap.remove b.url_index key }

  inside : id < suc last
  inside = omega (arith, id_lt b key id valid at)

  rows_len : length b.dense ≡ last * b.dim + b.dim
  rows_len = omega (arith, valid.parallel.rows, ap (λ (n : ℕ). n * b.dim) len)

  -- The last row.
  abbrev moved_row : List F
  moved_row = slice (last * b.dim) b.dim b.dense

  length-moved_row : length moved_row ≡ b.dim
  length-moved_row = omega (
    arith,
    rows_len,
    length-take b.dim (drop (last * b.dim) b.dense),
    length-drop (last * b.dim) b.dense,
  )

  row_fits : id < last → id * b.dim + b.dim ≤ length b.dense
  row_fits lower = omega (arith, row_below id last b.dim lower, rows_len)

  row_stays :
      (j : ℕ)
      → id ≢ j
      → id < last
      → slice (j * b.dim) b.dim (splice (id * b.dim) b.dim moved_row b.dense)
        ≡ slice (j * b.dim) b.dim b.dense
  row_stays j ne lower = elim (row_apart id j b.dim ne) [
    | inl above ↦
        slice-splice_above (id * b.dim) b.dim moved_row b.dense length-moved_row (row_fits lower)
          (j * b.dim) b.dim above
    | inr below ↦
        slice-splice_below (id * b.dim) b.dim moved_row b.dense length-moved_row (row_fits lower)
          (j * b.dim) b.dim below
  ]

  -- The row that a removal leaves at an id, when the last row has moved to a lower one.
  row_moved :
      (j : ℕ)
      → id < last
      → j < last
      → slice (j * b.dim) b.dim (take (last * b.dim) (splice (id * b.dim) b.dim moved_row b.dense))
        ≡ (if nat_beq j id then moved_row else slice (j * b.dim) b.dim b.dense)
  row_moved j lower lt =
      slice-take (j * b.dim) b.dim (last * b.dim) (splice (id * b.dim) b.dim moved_row b.dense)
        (row_below j last b.dim lt)
      ∙ elim (Bool-cases (nat_beq j id)) [
        | inl same ↦
            let e : j ≡ id = (nat_beq_iff j id).0 same in
            rw (same, e)
              (slice-splice_self (id * b.dim) b.dim moved_row b.dense length-moved_row
                (row_fits lower))
        | inr other ↦ rw other (row_stays j (λ e. ground arith) lower)
      ]

  lower_index :
      (m : DocMeta)
      → id < last
      → get_elem? b.meta last ≡ some m
      → (k : ℕ)
      → HashMap.get (HashMap.insert (HashMap.remove b.url_index key) m.url_key (id % u32_mod)) k
        ≡ (if key == k then none else relocate last id (HashMap.get b.url_index k))
  lower_index m lower here k =
      let wrapped : id % u32_mod ≡ id = omega (arith, valid.fits) in
      let at_last : HashMap.get b.url_index m.url_key ≡ some last =
        (valid.indexed m.url_key last).1 (ap key_of here) in
      let inserted =
        HashMap.get-insert (HashMap.remove b.url_index key) m.url_key k (id % u32_mod) in
      elim (Option-cases (HashMap.get b.url_index k)) [
        | inl missing ↦
            ground
              (arith, inserted, HashMap.get-remove b.url_index key k, missing, at_last, wrapped)
        | inr (i, found) ↦ ground (
          arith,
          inserted,
          HashMap.get-remove b.url_index key k,
          found,
          at_last,
          wrapped,
          (valid.indexed k i).0 found,
          (valid.indexed m.url_key last).0 at_last,
          at,
        )
      ]

  -- What `swap_remove` leaves of a vector.
  abbrev Swapped {ℓ} : {A : Type ℓ} → List A → List A → Type ℓ
  Swapped xs ys =
      (length ys ≡ last)
      × ((j : ℕ)
          → j < last
          → get_elem? ys j ≡ (if nat_beq j id then get_elem? xs last else get_elem? xs j))

  module _ (ms : List DocMeta) (ts : List (List Bytes)) (es : List (List ℕ))
      (meta : Swapped b.meta ms) (terms : Swapped b.doc_terms ts) (edges : Swapped b.edges es) where
    abbrev shrunk : List F → HashMap.HashMap ℕ ℕ → IndexBuilder F
    shrunk dense index = record b {
      meta = ms;
      doc_terms = ts;
      edges = es;
      dense = dense;
      url_index = index;
    }

    shrunk-Removed :
        (dense : List F) (index : HashMap.HashMap ℕ ℕ)
        → length dense ≡ last * b.dim
        → ((j : ℕ)
            → j < last
            → slice (j * b.dim) b.dim dense
              ≡ (if nat_beq j id then moved_row else slice (j * b.dim) b.dim b.dense))
        → ((k : ℕ)
            → HashMap.get index k
              ≡ (if key == k then none else relocate last id (HashMap.get b.url_index k)))
        → Removed b (shrunk dense index) key id last
    unfolding entry_at
    shrunk-Removed dense index rows row found = record {
      parallel = record {
        rows = rows ∙ ap (λ (n : ℕ). n * b.dim) (sym meta.0);
        terms = terms.0 ∙ sym meta.0;
        edges = edges.0 ∙ sym meta.0;
      };
      len = meta.0;
      docs = meta.1;
      entries = λ j lt. ground (arith, row j lt, meta.1 j lt, terms.1 j lt, edges.1 j lt);
      index = found;
    }

    -- The removed document is the last one.
    Removed-last :
        id ≡ last
        → Removed b
            (shrunk (take (last * b.dim) b.dense) (HashMap.remove b.url_index key))
            key
            id
            last
    Removed-last e =
        shrunk-Removed (take (last * b.dim) b.dense) (HashMap.remove b.url_index key)
          (omega (arith, length-take (last * b.dim) b.dense, rows_len))
          (λ j lt.
            slice-take (j * b.dim) b.dim (last * b.dim) b.dense (row_below j last b.dim lt)
            ∙ ground arith)
          (λ k. elim (Option-cases (HashMap.get b.url_index k)) [
            | inl missing ↦ ground (arith, HashMap.get-remove b.url_index key k, missing)
            | inr (i, here) ↦ ground (
              arith,
              HashMap.get-remove b.url_index key k,
              here,
              (valid.indexed k i).0 here,
              (valid.indexed key id).0 at,
            )
          ])

    -- The last document moves down.
    Removed-lower :
        (m : DocMeta)
        → id < last
        → get_elem? b.meta last ≡ some m
        → Removed b
            (shrunk
              (take (last * b.dim) (splice (id * b.dim) b.dim moved_row b.dense))
              (HashMap.insert (HashMap.remove b.url_index key) m.url_key (id % u32_mod)))
            key
            id
            last
    Removed-lower m lower here =
        let index = HashMap.insert (HashMap.remove b.url_index key) m.url_key (id % u32_mod) in
        shrunk-Removed (take (last * b.dim) (splice (id * b.dim) b.dim moved_row b.dense)) index
          (omega (
            arith,
            length-take (last * b.dim) (splice (id * b.dim) b.dim moved_row b.dense),
            length-splice (id * b.dim) b.dim moved_row b.dense length-moved_row (row_fits lower),
            rows_len,
          ))
          (λ j lt. row_moved j lower lt) (λ k. lower_index m lower here k)

    module _ (meta_runs : swap_remove b.meta id ≡ some ms)
        (terms_run : swap_remove b.doc_terms id ≡ some ts)
        (edges_run : swap_remove b.edges id ≡ some es) where
      remove_at-last :
          id ≡ last
          → remove_at unmapped id
            ≡ ok (shrunk (take (last * b.dim) b.dense) (HashMap.remove b.url_index key), true)
      unfolding remove_at truncate_dense
      remove_at-last e =
          let before : length b.meta - 1 ≡ last = omega arith in
          rw (meta_runs, terms_run, edges_run, before) (ground arith)

      move_lower :
          (m : DocMeta)
          → id < last
          → get_elem? ms id ≡ some m
          → move_last (shrunk b.dense (HashMap.remove b.url_index key)) id last
            ≡ ok (
                shrunk
                  (splice (id * b.dim) b.dim moved_row b.dense)
                  (HashMap.insert (HashMap.remove b.url_index key) m.url_key (id % u32_mod)))
      unfolding move_last
      move_lower m lower here = ground (arith, here, rows_len, row_below id last b.dim lower)

      remove_at_lower :
          (m : DocMeta)
          → id < last
          → get_elem? ms id ≡ some m
          → remove_at unmapped id
            ≡ ok (
              shrunk
                  (take (last * b.dim) (splice (id * b.dim) b.dim moved_row b.dense))
                  (HashMap.insert (HashMap.remove b.url_index key) m.url_key (id % u32_mod)),
              true,
            )
      unfolding remove_at truncate_dense
      remove_at_lower m lower here =
          let before : length b.meta - 1 ≡ last = omega arith in
          rw (meta_runs, terms_run, edges_run, before) (ground (arith, move_lower m lower here))

      remove_at_swapped :
          (b' : IndexBuilder F) × (remove_at unmapped id ≡ ok (b', true)) × Removed b b' key id last
      remove_at_swapped =
          let (m, here) = get_elem?_total b.meta last (omega arith) in
          elim (Bool-cases (ltb id last)) [
            | inl below ↦
                let lower = ltb→lt id last below in
                let moved : get_elem? ms id ≡ some m = ground (arith, meta.1 id lower, here) in
                (_, remove_at_lower m lower moved, Removed-lower m lower here)
            | inr above ↦
                let e : id ≡ last = ground (arith, inside) in (_, remove_at-last e, Removed-last e)
          ]

  remove_at_total :
      (b' : IndexBuilder F) × (remove_at unmapped id ≡ ok (b', true)) × Removed b b' key id last
  remove_at_total =
      let (ms, meta_runs, meta_len, meta_elems) =
        swap_remove_lem b.meta id last (omega (arith, inside)) len in
      let (ts, terms_run, terms_len, terms_elems) =
        swap_remove_lem b.doc_terms id last (omega (arith, inside, valid.parallel.terms))
          (omega (arith, valid.parallel.terms)) in
      let (es, edges_run, edges_len, edges_elems) =
        swap_remove_lem b.edges id last (omega (arith, inside, valid.parallel.edges))
          (omega (arith, valid.parallel.edges)) in
      remove_at_swapped ms ts es (meta_len, meta_elems) (terms_len, terms_elems)
        (edges_len, edges_elems) meta_runs terms_run edges_run

module _ {Url F : Type 0} ⦃u : UrlApi Url⦄ ⦃h : Hasher⦄ where
  -- On a valid builder `remove` does not panic. It says whether the key was present; the builder
  -- stays valid, the entry of that key is gone, and every other key reads as before, whichever id
  -- its document has now.
  pub remove-refines :
      (b : IndexBuilder F) (url : Url)
      → IsValid b
      → (b' : IndexBuilder F) × (remove b url ≡ ok (b', is_some (view b (from_url url))))
        × IsValid b'
        × ((k : ℕ) → view b' k ≡ without (view b) (from_url url) k)
  unfolding remove
  remove-refines b url valid = elim (Option-cases (HashMap.get b.url_index (from_url url))) [
    | inl missing ↦ (
      b,
      ground (arith, missing, view-none b (from_url url) missing),
      valid,
      λ k. ground (arith, view-none b (from_url url) missing),
    )
    | inr (id, at) ↦
        let inside = id_lt b (from_url url) id valid at in
        let last = length b.meta - 1 in
        let len : length b.meta ≡ suc last = omega arith in
        let (b', runs, removed) = remove_at_total b (from_url url) id last valid at len in
        let (old, here, _) = indexed_doc b.url_index b.meta (from_url url) id valid.indexed at in
        let (e, entry, _) = entry_total b id old valid.parallel inside here in
        (
          b',
          ground (arith, at, runs, view-some b (from_url url) at, entry),
          Removed-IsValid b b' (from_url url) id last valid at len removed,
          view-Removed b b' (from_url url) id last valid at len removed,
        )
  ]
