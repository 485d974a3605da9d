-- ===== src/Index/Builder/Marks.antt =====
-- `touch` and `set_pinned`: they rewrite metadata in place, and move nothing.
use link_r.Prelude.{
  ℕ, zero, suc, ◌+◌, ◌*◌, ◌≡◌, ◌≢◌, refl, sym, ap, ◌∙◌, Bool, false, ◌&&◌, bool_ne, Option, none,
  some, List, [], ◌∷◌, Bytes, length, get_elem?, set, get_elem?-set_self, get_elem?-set_ne,
  length-set, arith, is_some, nat_eq, ◌==◌, if◌then◌else◌, Option-cases, inl, inr,
}
use link_r.Prelude.HashMap
use link_r.Error.{ok}
use link_r.External.{UrlApi, Hasher}
use link_r.UrlKey.{from_url}
use link_r.Index.Meta.{DocMeta, starts_with}
use link_r.Index.Builder.{IndexBuilder, touch, set_pinned, set_pinned_loop}
use link_r.Index.Builder.Entries.{Entry, entry_at}
use link_r.Index.Builder.WellFormed.{IsValid, view, key_at, indexed_doc, set-IsIndexed}
use link_r.Index.Builder.View.{put, entry_total, view-some, view-none, id_lt}

-- The metadata of a document with its pin set by prefix.
abbrev pub pin_doc : Bytes → Bool → DocMeta → DocMeta
pin_doc url_prefix pinned doc =
    if starts_with doc.url url_prefix then record doc { pinned = pinned } else doc

-- How many documents a `set_pinned` changes.
abbrev pub count_changed : Bytes → Bool → List DocMeta → ℕ
count_changed url_prefix pinned [] = 0
count_changed url_prefix pinned (doc ∷ docs) =
    (if starts_with doc.url url_prefix && bool_ne doc.pinned pinned then 1 else 0)
    + count_changed url_prefix pinned docs

abbrev pub map_option {ℓ κ} : {A : Type ℓ} {B : Type κ} → (A → B) → Option A → Option B
map_option f none = none
map_option f (some a) = some (f a)

module _ (url_prefix : Bytes) (pinned : Bool) where
  pin_same :
      (doc : DocMeta) → bool_ne doc.pinned pinned ≡ false → record doc { pinned = pinned } ≡ doc
  pin_same doc h =
      let e : pinned ≡ doc.pinned = ground arith in ap (λ (p : Bool). record doc { pinned = p }) e

  set_pinned_loop_elem :
      (docs : List DocMeta) (i : ℕ)
      → get_elem? (set_pinned_loop url_prefix pinned docs).0 i
        ≡ map_option (pin_doc url_prefix pinned) (get_elem? docs i)
  unfolding set_pinned_loop
  set_pinned_loop_elem [] i = refl
  set_pinned_loop_elem (doc ∷ docs) zero = ground (arith, pin_same doc)
  set_pinned_loop_elem (doc ∷ docs) (suc i) = ground (arith, set_pinned_loop_elem docs i)

  set_pinned_loop_count :
      (docs : List DocMeta)
      → (set_pinned_loop url_prefix pinned docs).1 ≡ count_changed url_prefix pinned docs
  unfolding set_pinned_loop
  set_pinned_loop_count [] = refl
  set_pinned_loop_count (doc ∷ docs) = ground (arith, set_pinned_loop_count docs)

  length-set_pinned_loop :
      (docs : List DocMeta) → length (set_pinned_loop url_prefix pinned docs).0 ≡ length docs
  unfolding set_pinned_loop
  length-set_pinned_loop [] = refl
  length-set_pinned_loop (doc ∷ docs) = ground (arith, length-set_pinned_loop docs)

  -- The entry of a document with its pin set.
  abbrev pub pin_entry : {F : Type 0} → Entry F → Entry F
  pin_entry e = record e { meta = pin_doc url_prefix pinned e.meta }

  module _ {F : Type 0} (b : IndexBuilder F) where
    abbrev pinned_meta : List DocMeta
    pinned_meta = (set_pinned_loop url_prefix pinned b.meta).0

    key_pinned : (i : ℕ) → key_at pinned_meta i ≡ key_at b.meta i
    key_pinned i = ground (arith, set_pinned_loop_elem b.meta i)

    entry_pinned :
        (i : ℕ) → entry_at (record b { meta = pinned_meta }) i ≡ map_option pin_entry (entry_at b i)
    unfolding entry_at
    entry_pinned i = ground (arith, set_pinned_loop_elem b.meta i)

    -- On a valid builder `set_pinned` sets the pin of exactly the entries whose URL has the prefix, returns how many
    -- of them changed, and keeps the builder valid.
    pub set_pinned-refines :
        IsValid b
        → IsValid (set_pinned b url_prefix pinned).0
          × ((set_pinned b url_prefix pinned).1 ≡ count_changed url_prefix pinned b.meta)
          × ((k : ℕ) → view (set_pinned b url_prefix pinned).0 k ≡ map_option pin_entry (view b k))
    unfolding set_pinned view
    set_pinned-refines valid = (
      record {
        parallel = record {
          rows =
              valid.parallel.rows ∙ ap (λ (n : ℕ). n * b.dim) (sym (length-set_pinned_loop b.meta));
          terms = valid.parallel.terms ∙ sym (length-set_pinned_loop b.meta);
          edges = valid.parallel.edges ∙ sym (length-set_pinned_loop b.meta);
        };
        indexed = λ k i. (
          λ e. key_pinned i ∙ (valid.indexed k i).0 e,
          λ e. (valid.indexed k i).1 (sym (key_pinned i) ∙ e),
        );
        fits = omega (arith, valid.fits, length-set_pinned_loop b.meta);
      },
      set_pinned_loop_count b.meta,
      λ k. elim (Option-cases (HashMap.get b.url_index k)) [
        | inl missing ↦ ground (arith, missing)
        | inr (i, found) ↦ ground (arith, found, entry_pinned i)
      ],
    )

-- The entry of a document fetched at a time.
abbrev pub touch_entry : {F : Type 0} → ℕ → Entry F → Entry F
touch_entry now_ms e = record e { meta = record e.meta { fetched_at_ms = now_ms } }

module _ {Url F : Type 0} ⦃u : UrlApi Url⦄ ⦃h : Hasher⦄ (b : IndexBuilder F) (url : Url)
    (now_ms : ℕ) (valid : IsValid b) where
  module _ (id : ℕ) (d : DocMeta) (at : HashMap.get b.url_index (from_url url) ≡ some id)
      (here : get_elem? b.meta id ≡ some d) where
    abbrev stamped : DocMeta
    stamped = record d { fetched_at_ms = now_ms }

    abbrev touched : IndexBuilder F
    touched = record b { meta = set b.meta id stamped }

    touched-IsValid : IsValid touched
    touched-IsValid = record {
      parallel = record {
        rows = valid.parallel.rows ∙ ap (λ (n : ℕ). n * b.dim) (sym (length-set b.meta id stamped));
        terms = valid.parallel.terms ∙ sym (length-set b.meta id stamped);
        edges = valid.parallel.edges ∙ sym (length-set b.meta id stamped);
      };
      indexed = set-IsIndexed b.url_index b.meta id d stamped valid.indexed here refl;
      fits = omega (arith, valid.fits, length-set b.meta id stamped);
    }

    entry_touched :
        (e : Entry F) → entry_at b id ≡ some e → entry_at touched id ≡ some (touch_entry now_ms e)
    unfolding entry_at
    entry_touched e entry =
        ground
          (arith, here, get_elem?-set_self b.meta id stamped (id_lt b (from_url url) id valid at))

    entry_untouched : (j : ℕ) → id ≢ j → entry_at touched j ≡ entry_at b j
    unfolding entry_at
    entry_untouched j ne = rw (get_elem?-set_ne b.meta id j stamped ne)

    view-touched :
        (e : Entry F)
        → entry_at b id ≡ some e
        → (k : ℕ) → view touched k ≡ put (view b) (from_url url) (touch_entry now_ms e) k
    unfolding view
    view-touched e entry k = elim (Option-cases (HashMap.get b.url_index k)) [
      | inl missing ↦ ground (arith, missing, at)
      | inr (j, found) ↦ ground (
        arith,
        found,
        at,
        entry_touched e entry,
        entry_untouched j,
        (valid.indexed k j).0 found,
        (valid.indexed (from_url url) id).0 at,
      )
    ]

  -- The entry that `touch` leaves under the key of its URL.
  abbrev pub touch_view : Option (Entry F) → ℕ → Option (Entry F)
  touch_view o k = if from_url url == k then map_option (touch_entry now_ms) o else view b k

  -- On a valid builder `touch` does not panic. It says whether the key was present, moves only the
  -- fetch time of that entry, leaves every other key alone, and keeps the builder valid.
  pub touch-refines :
      (b' : IndexBuilder F) × (touch b url now_ms ≡ ok (b', is_some (view b (from_url url))))
      × IsValid b'
      × ((k : ℕ) → view b' k ≡ touch_view (view b (from_url url)) k)
  unfolding touch
  touch-refines = elim (Option-cases (HashMap.get b.url_index (from_url url))) [
    | inl missing ↦ (
      b,
      ground (arith, missing, view-none b (from_url url) missing),
      valid,
      λ k. ground (arith, view-none b (from_url url) missing),
    )
    | inr (id, at) ↦
        let (d, here, _) = indexed_doc b.url_index b.meta (from_url url) id valid.indexed at in
        let (e, entry, _) =
          entry_total b id d valid.parallel (id_lt b (from_url url) id valid at) here in
        let viewed : view b (from_url url) ≡ some e = view-some b (from_url url) at ∙ entry in
        (
          touched id d at here,
          ground (arith, at, here, viewed),
          touched-IsValid id d at here,
          λ k. rw viewed (view-touched id d at here e entry k),
        )
  ]
