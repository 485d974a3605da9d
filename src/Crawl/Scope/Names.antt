-- ===== src/Crawl/Scope/Names.antt =====
-- The extension of a path and the dots before one that is given (src/source/crawl.rs).
use mathlib.Core.List.{append_assoc}
use link_r.Prelude.{
  ◌≡◌, ◌≢◌, ◌⊎◌, inl, inr, refl, sym, ap, ◌∙◌, subst, true, false, none, some, [], ◌∷◌, ◌++◌, Bytes,
  All, ◌==◌, nat_eq, nat_beq_iff, arith, Bool-cases,
}
use link_r.Resource.FileName.{Without, last_sep, rsplit_next-Without, rsplit_next-behind}
use link_r.Crawl.Scope.{after_last_dot, ext_of, trim_dots}

-- A directory is empty or ends in a slash.
abbrev pub IsDir : Bytes → Type 0
IsDir dir = (dir ≡ []) ⊎ ((f : Bytes) × (dir ≡ f ++ 47 ∷ []))

-- The path is a directory and a name, and the extension stands behind the last dot of the name.
pub record Extends (path e : Bytes) : Type 0 where
  pub dir : Bytes
  pub stem : Bytes
  pub is_dir : IsDir dir
  pub whole : path ≡ dir ++ (stem ++ 46 ∷ e)
  pub is_name : Without 47 (stem ++ 46 ∷ e)
  pub last_dot : Without 46 e

-- A text of dots in front of one that does not start with a dot.
abbrev StartsOther : Bytes → Type 0
StartsOther [] = Unit
StartsOther (c ∷ s) = c ≢ 46

pub record Undotted (given x : Bytes) : Type 0 where
  pub dots : Bytes
  pub whole : given ≡ dots ++ x
  pub all_dots : All (λ c. c ≡ 46) dots
  pub starts : StartsOther x

after_last_dot-Without : (s : Bytes) → Without 46 s → after_last_dot s ≡ none
unfolding after_last_dot
after_last_dot-Without [] p = refl
after_last_dot-Without (c ∷ s) (ne, p) =
    let apart : (c == 46) ≡ false = ground (arith, nat_beq_iff c 46) in
    rw (after_last_dot-Without s p, apart) refl

after_last_dot-behind : (stem e : Bytes) → Without 46 e → after_last_dot (stem ++ 46 ∷ e) ≡ some e
unfolding after_last_dot
after_last_dot-behind [] e p = rw (after_last_dot-Without e p) refl
after_last_dot-behind (c ∷ stem) e p = rw (after_last_dot-behind stem e p) refl

-- The name of a path, and the directory in front of it.
split_path :
    (path : Bytes)
    → (dir : Bytes) × (name : Bytes) × IsDir dir
      × (path ≡ dir ++ name)
      × Without 47 name
      × (ext_of path ≡ after_last_dot name)
unfolding ext_of
split_path path = elim (last_sep 47 path) [
  | inl p ↦ ([], path, inl refl, refl, p, ap after_last_dot (rsplit_next-Without path p))
  | inr (f, r, e, p) ↦ (
    f ++ 47 ∷ [],
    r,
    inr (f, refl),
    e ∙ sym (append_assoc f (47 ∷ []) r),
    p,
    ap ext_of e ∙ ap after_last_dot (rsplit_next-behind f r p),
  )
]

pub ext_of-Extends : (path e : Bytes) → ext_of path ≡ some e → Extends path e
ext_of-Extends path e h =
    let (dir, name, is_dir, whole, is_name, at) = split_path path in
    elim (last_sep 46 name) [
      | inl p ↦
          let none_here : ext_of path ≡ none = at ∙ after_last_dot-Without name p in
          absurd (ground arith)
      | inr (stem, r, cut, p) ↦
          let found : ext_of path ≡ some r =
            at ∙ (ap after_last_dot cut ∙ after_last_dot-behind stem r p) in
          let same : r ≡ e = cc in
          subst (Extends path) same (record {
            dir = dir;
            stem = stem;
            is_dir = is_dir;
            whole = whole ∙ ap (λ l. dir ++ l) cut;
            is_name = subst (Without 47) cut is_name;
            last_dot = p;
          })
    ]

ext_of-dir :
    (dir name : Bytes) → IsDir dir → Without 47 name → ext_of (dir ++ name) ≡ after_last_dot name
unfolding ext_of
ext_of-dir dir name (inl e) p =
    ap (λ d. ext_of (d ++ name)) e ∙ ap after_last_dot (rsplit_next-Without name p)
ext_of-dir dir name (inr (f, e)) p =
    ap (λ d. ext_of (d ++ name)) e
    ∙ (ap ext_of (append_assoc f (47 ∷ []) name) ∙ ap after_last_dot (rsplit_next-behind f name p))

pub Extends-ext_of : {path e : Bytes} → Extends path e → ext_of path ≡ some e
Extends-ext_of {e = e} x =
    ap ext_of x.whole
    ∙ (ext_of-dir x.dir (x.stem ++ 46 ∷ e) x.is_dir x.is_name
        ∙ after_last_dot-behind x.stem e x.last_dot)

pub trim_dots-Undotted : (given : Bytes) → Undotted given (trim_dots given)
unfolding trim_dots
trim_dots-Undotted [] = record { dots = []; whole = refl; all_dots = tt; starts = tt }
trim_dots-Undotted (c ∷ s) = elim (Bool-cases (c == 46)) [
  | inl dot ↦
      let rest = trim_dots-Undotted s in
      rw dot (record {
        dots = c ∷ rest.dots;
        whole = ap (λ l. c ∷ l) rest.whole;
        all_dots = ((nat_beq_iff c 46).0 dot, rest.all_dots);
        starts = rest.starts;
      })
  | inr other ↦ rw other (record {
    dots = [];
    whole = refl;
    all_dots = tt;
    starts = λ e. ground (arith, nat_beq_iff c 46);
  })
]

trim_dots-dots :
    (dots x : Bytes) → All (λ c. c ≡ 46) dots → StartsOther x → trim_dots (dots ++ x) ≡ x
unfolding trim_dots
trim_dots-dots [] [] p q = refl
trim_dots-dots [] (c ∷ x) p q =
    let apart : (c == 46) ≡ false = ground (arith, nat_beq_iff c 46) in rw apart refl
trim_dots-dots (c ∷ dots) x (e, p) q =
    let dot : (c == 46) ≡ true = ground (arith, nat_beq_iff c 46) in
    rw dot (trim_dots-dots dots x p q)

pub Undotted-trim_dots : {given x : Bytes} → Undotted given x → trim_dots given ≡ x
Undotted-trim_dots {x = x} u = ap trim_dots u.whole ∙ trim_dots-dots u.dots x u.all_dots u.starts
