-- ===== src/Crawl/Scope/Boundaries.antt =====
-- The scope tests cut at segment boundaries: paths at a slash, hosts at a dot.
use link_r.Prelude.{
  ℕ, ◌≡◌, ◌↔◌, ◌⊎◌, inl, inr, refl, ◌∙◌, true, some, [], ◌∷◌, ◌++◌, Bytes, length, get_elem?,
  length-append, append-nil, arith, bytes_beq_iff, bytes_eq, nat_eq, Bool-cases,
}
use link_r.UrlKey.{ends_with_slash}
use link_r.Index.Meta.{starts_with}
use link_r.Crawl.Scope.{path_under}

starts_with-append : (p rest : Bytes) → starts_with (p ++ rest) p ≡ true
unfolding starts_with
starts_with-append [] [] = refl
starts_with-append [] (c ∷ rest) = refl
starts_with-append (c ∷ p) rest = ground (arith, starts_with-append p rest)

rest_of : (s p : Bytes) → starts_with s p ≡ true → (rest : Bytes) × (s ≡ p ++ rest)
unfolding starts_with
rest_of s [] h = (s, refl)
rest_of [] (c ∷ p) h = absurd (ground arith)
rest_of (d ∷ s) (c ∷ p) h =
    let (rest, e) = rest_of s p (ground arith) in
    let same : d ≡ c = ground arith in (rest, cc (e, same))

at_end : (p : Bytes) (c : ℕ) (rest : Bytes) → get_elem? (p ++ c ∷ rest) (length p) ≡ some c
at_end [] c rest = refl
at_end (d ∷ p) c rest = at_end p c rest

-- A path at or below another: the same, or longer by text that begins at a slash.
abbrev pub Under : Bytes → Bytes → Type 0
Under rp cp =
    (cp ≡ rp)
    ⊎ ((c : ℕ) × (rest : Bytes) × (cp ≡ rp ++ c ∷ rest) × ((ends_with_slash rp ≡ true) ⊎ (c ≡ 47)))

Under-of_rest : (rp cp rest : Bytes) → cp ≡ rp ++ rest → path_under rp cp ≡ true → Under rp cp
unfolding path_under
Under-of_rest rp cp [] e h = inl (e ∙ append-nil rp)
Under-of_rest rp cp (c ∷ rest) e h =
    inr (
      c,
      rest,
      e,
      ground (arith, at_end rp c rest, length-append rp (c ∷ rest), bytes_beq_iff cp rp),
    )

path_under_sound : (rp cp : Bytes) → path_under rp cp ≡ true → Under rp cp
unfolding path_under
path_under_sound rp cp h = elim (Bool-cases (starts_with cp rp)) [
  | inl prefix ↦ (let (rest, e) = rest_of cp rp prefix in Under-of_rest rp cp rest e h)
  | inr not_prefix ↦ inl ((bytes_beq_iff cp rp).0 (ground arith))
]

path_under_complete : (rp cp : Bytes) → Under rp cp → path_under rp cp ≡ true
unfolding path_under
path_under_complete rp cp (inl e) = ground (arith, bytes_beq_iff cp rp)
path_under_complete rp cp (inr (c, rest, e, boundary)) =
    ground (arith, at_end rp c rest, length-append rp (c ∷ rest), starts_with-append rp (c ∷ rest))

-- The path test of the default scope accepts exactly the root's path and the paths that extend it
-- at a slash, which the root's path may itself end in.
pub path_under_iff : (rp cp : Bytes) → (path_under rp cp ≡ true) ↔ Under rp cp
path_under_iff rp cp = (path_under_sound rp cp, path_under_complete rp cp)
