-- ===== src/Examples/Builders.antt =====
-- The index builder and the filters at concrete inputs.
use link_r.Prelude.{
  ℕ, ◌<◌, ◌≡◌, refl, some, List, [], ◌∷◌, codes, arith, length, false, true, u32_mod, is_some,
}
use link_r.Prelude.HashMap
use link_r.Error.{ok}
use link_r.UrlKey.{from_url}
use link_r.Metric.{dot}
use link_r.Index.Meta.{DocMeta, Filter, is_all, evaluate}
use link_r.Index.Meta.Filters.{matches_at, evaluate-contains}
use link_r.Index.Builder.{
  IndexBuilder, new, append, remove, touch, set_pinned, record_of, stored_vector,
}
use link_r.Index.Builder.WellFormed.{IsValid, view, new-IsValid}
use link_r.Index.Builder.Added.{append-IsValid}
use link_r.Index.Builder.Removal.{without}
use link_r.Index.Builder.Remove.{remove-refines}
use link_r.Index.Builder.Refines.{Refined, upsert_entry, upsert-refines}
use link_r.Index.Builder.Marks.{
  touch_view, touch-refines, set_pinned-refines, count_changed, pin_entry, map_option,
}
use link_r.External.{FloatMap}
use link_r.Index.Store.{Index, build, into_builder}
use link_r.Index.Store.Consistent.{IsConsistent, IsRebuilt, into_builder-build}
use link_r.Examples.Setup.{url_api, hasher, float, bitmap, root, page_b, document, empty}

-- A builder with one pinned document.
abbrev one : IndexBuilder ℕ
one = append empty (document root 3) (1 ∷ 2 ∷ [])

one-IsValid : IsValid one
unfolding new HashMap.get
one-IsValid =
    append-IsValid empty (document root 3) (1 ∷ 2 ∷ []) (new-IsValid 1 1 2 dot 0 0).0 refl
      (omega arith) refl

one_room : length one.meta < u32_mod
unfolding append new
one_room = omega arith

one_dim : 2 ≡ one.dim
unfolding append new
one_dim = refl

upsert-refines_example :
    (b' : IndexBuilder ℕ) × Refined one
      (document root 4)
      one-IsValid
      one_room
      one_dim
      (upsert_entry
        (view one (from_url root))
        (document root 4)
        (stored_vector one (document root 4)))
      b'
upsert-refines_example = upsert-refines one (document root 4) one-IsValid one_room one_dim

remove-refines_example :
    (b' : IndexBuilder ℕ) × (remove one root ≡ ok (b', is_some (view one (from_url root))))
    × IsValid b'
    × ((k : ℕ) → view b' k ≡ without (view one) (from_url root) k)
remove-refines_example = remove-refines one root one-IsValid

touch-refines_example :
    (b' : IndexBuilder ℕ) × (touch one root 9 ≡ ok (b', is_some (view one (from_url root))))
    × IsValid b'
    × ((k : ℕ) → view b' k ≡ touch_view one root 9 one-IsValid (view one (from_url root)) k)
touch-refines_example = touch-refines one root 9 one-IsValid

set_pinned-refines_example :
    IsValid (set_pinned one (codes "http") false).0
    × ((set_pinned one (codes "http") false).1 ≡ count_changed (codes "http") false one.meta)
    × ((k : ℕ)
        → view (set_pinned one (codes "http") false).0 k
          ≡ map_option (pin_entry (codes "http") false) (view one k))
set_pinned-refines_example = set_pinned-refines (codes "http") false one one-IsValid

abbrev docs : List DocMeta
docs = record_of (document root 3) ∷ record_of (document page_b 4) ∷ []

evaluate-contains_example :
    (allowed : List ℕ) × (evaluate (Filter.tag (codes "t")) docs ≡ some allowed)
    × (bitmap.contains allowed 1 ≡ matches_at (Filter.tag (codes "t")) docs 1)
unfolding is_all
evaluate-contains_example = evaluate-contains (Filter.tag (codes "t")) docs 1 (omega arith) refl

instance abbrev float_map : FloatMap ℕ
float_map = record { cast_f32 = ok }

into_builder-build_example :
    (x : Index ℕ (List ℕ)) × (build true one ≡ ok x)
    × IsConsistent x
    × (x.dim ≡ one.dim)
    × (x.meta ≡ one.meta)
    × (c : IndexBuilder ℕ) × (into_builder x ≡ ok c)
    × IsRebuilt one c
into_builder-build_example = into_builder-build true one one-IsValid one_room
