-- ===== src/Resource/FileName.antt =====
-- The name of a file in a path, `.rsplit('/').next()` (src/resource.rs, src/source/crawl.rs).
use link_r.Prelude.{
  ℕ, ◌≡◌, ◌≢◌, ◌⊎◌, inl, inr, refl, ap, ◌∙◌, false, List, [], ◌∷◌, ◌++◌, Bytes, All, ◌==◌, nat_eq,
  nat_beq_iff, arith, Bool-cases,
}
use link_r.UrlKey.Segments.{split, cons_head}
use link_r.Resource.{rsplit_next, last_or}

-- A text without a byte.
abbrev pub Without : ℕ → Bytes → Type 0
Without sep s = All (λ c. c ≢ sep) s

-- A text has no separator, or there is a last one.
pub last_sep :
    (sep : ℕ) (s : Bytes)
    → Without sep s ⊎ ((f : Bytes) × (r : Bytes) × (s ≡ f ++ sep ∷ r) × Without sep r)
last_sep sep [] = inl tt
last_sep sep (c ∷ s) = elim (last_sep sep s) [
  | inr (f, r, e, p) ↦ inr (c ∷ f, r, ap (λ l. c ∷ l) e, p)
  | inl p ↦ elim (Bool-cases (c == sep)) [
    | inl same ↦ inr ([], s, ap (λ x. x ∷ s) ((nat_beq_iff c sep).0 same), p)
    | inr apart ↦ inl (λ e. ground (arith, nat_beq_iff c sep), p)
  ]
]

split-Without : (s : Bytes) → Without 47 s → split 47 s ≡ s ∷ []
unfolding split
split-Without [] p = refl
split-Without (c ∷ s) (ne, p) =
    let apart : (c == 47) ≡ false = ground (arith, nat_beq_iff c 47) in
    rw (apart, split-Without s p) refl

cons_head-append :
    (c : ℕ) (f : Bytes) (l : List Bytes)
    → cons_head c (split 47 f ++ l) ≡ cons_head c (split 47 f) ++ l
unfolding split
cons_head-append c [] l = refl
cons_head-append c (d ∷ f) l = elim (Bool-cases (d == 47)) [
  | inl same ↦ rw same refl
  | inr apart ↦ rw apart (cons_twice (split 47 f))
]
  where
    cons_twice :
        (x : List Bytes) → cons_head c (cons_head d x ++ l) ≡ cons_head c (cons_head d x) ++ l
    cons_twice [] = refl
    cons_twice (s ∷ x) = refl

split-append : (f r : Bytes) → split 47 (f ++ 47 ∷ r) ≡ split 47 f ++ split 47 r
unfolding split
split-append [] r = refl
split-append (c ∷ f) r = elim (Bool-cases (c == 47)) [
  | inl same ↦ rw (same, split-append f r) refl
  | inr apart ↦ rw (apart, split-append f r) (cons_head-append c f (split 47 r))
]

last_or-snoc : (d : Bytes) (l : List Bytes) (s : Bytes) → last_or d (l ++ s ∷ []) ≡ s
unfolding last_or
last_or-snoc d [] s = refl
last_or-snoc d (t ∷ l) s = last_or-snoc t l s

-- Behind the last slash stands the name; without a slash the whole path is the name.
pub rsplit_next-Without : (s : Bytes) → Without 47 s → rsplit_next 47 s ≡ s
unfolding rsplit_next
rsplit_next-Without s p = ap (last_or []) (split-Without s p) ∙ last_or-snoc [] [] s

pub rsplit_next-behind : (f r : Bytes) → Without 47 r → rsplit_next 47 (f ++ 47 ∷ r) ≡ r
unfolding rsplit_next
rsplit_next-behind f r p =
    ap (last_or []) (split-append f r ∙ ap (λ l. split 47 f ++ l) (split-Without r p))
    ∙ last_or-snoc [] (split 47 f) r
