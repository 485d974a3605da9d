-- ===== src/UrlKey/Same.antt =====
-- When two URLs name one resource, as the comments of src/url_key.rs say it: hosts up to ASCII case,
-- one trailing slash of the path, the order of the query segments and empty ones do not count.
use mathlib.Core.List.{append_assoc}
use link_r.Prelude.{
  ℕ, ◌+◌, ◌≤◌, ◌≡◌, ◌≢◌, ◌⊎◌, inl, inr, refl, sym, ap, subst, ◌∙◌, false, [], ◌∷◌, ◌++◌, Bytes, any,
  leb, ◌&&◌, if◌then◌else◌, ◌==◌, nat_eq, nat_beq_iff, Bool-cases, arith,
}
use link_r.UrlKey.{slash, path_chunk, host_chunk, to_ascii_lowercase, is_ascii_uppercase}
use link_r.UrlKey.Path.{path_chunk-snoc, path_chunk_one}

-- Texts that differ in the case of ASCII letters at most.
pub data SameText : Bytes → Bytes → Type 0 where
  done : SameText [] []
  keep : {s t : Bytes} (c : ℕ) → SameText s t → SameText (c ∷ s) (c ∷ t)
  upper :
      {s t : Bytes} (c d : ℕ)
      → 65 ≤ c
      → c ≤ 90
      → d ≡ c + 32
      → SameText s t
      → SameText (c ∷ s) (d ∷ t)
  lower :
      {s t : Bytes} (c d : ℕ)
      → 65 ≤ d
      → d ≤ 90
      → c ≡ d + 32
      → SameText s t
      → SameText (c ∷ s) (d ∷ t)

pub to_ascii_lowercase-SameText :
    {s t : Bytes} → SameText s t → to_ascii_lowercase s ≡ to_ascii_lowercase t
unfolding to_ascii_lowercase is_ascii_uppercase
to_ascii_lowercase-SameText done = refl
to_ascii_lowercase-SameText (keep c h) =
    ap (λ l. (if leb 65 c && leb c 90 then c + 32 else c) ∷ l) (to_ascii_lowercase-SameText h)
to_ascii_lowercase-SameText (upper c d low high e h) = ground (arith, to_ascii_lowercase-SameText h)
to_ascii_lowercase-SameText (lower c d low high e h) = ground (arith, to_ascii_lowercase-SameText h)

pub same_case : (s t : Bytes) → to_ascii_lowercase s ≡ to_ascii_lowercase t → SameText s t
unfolding to_ascii_lowercase is_ascii_uppercase
same_case [] [] h = done
same_case [] (d ∷ t) h = absurd (ground arith)
same_case (c ∷ s) [] h = absurd (ground arith)
same_case (c ∷ s) (d ∷ t) h =
    let rest = same_case s t (ground arith) in
    elim (Bool-cases (leb 65 c && leb c 90)) [
      | inl c_up ↦ elim (Bool-cases (leb 65 d && leb d 90)) [
        | inl d_up ↦
            let e : c ≡ d = ground arith in subst (λ x. SameText (c ∷ s) (x ∷ t)) e (keep c rest)
        | inr d_low ↦ upper c d (ground arith) (ground arith) (ground arith) rest
      ]
      | inr c_low ↦ elim (Bool-cases (leb 65 d && leb d 90)) [
        | inl d_up ↦ lower c d (ground arith) (ground arith) (ground arith) rest
        | inr d_low ↦
            let e : c ≡ d = ground arith in subst (λ x. SameText (c ∷ s) (x ∷ t)) e (keep c rest)
      ]
    ]

no_upper : (s : Bytes) → any is_ascii_uppercase s ≡ false → to_ascii_lowercase s ≡ s
unfolding to_ascii_lowercase is_ascii_uppercase
no_upper [] h = refl
no_upper (c ∷ s) h = ground (arith, no_upper s)

host_chunk_lem : (host : Bytes) → host_chunk host ≡ to_ascii_lowercase host
unfolding host_chunk
host_chunk_lem host = elim (Bool-cases (any is_ascii_uppercase host)) [
  | inl some_upper ↦ rw (some_upper, host_chunk) refl
  | inr none_upper ↦ rw (none_upper, host_chunk) (sym (no_upper host none_upper))
]

pub host_chunk-SameText : {a b : Bytes} → SameText a b → host_chunk a ≡ host_chunk b
host_chunk-SameText {a = a} {b = b} h =
    host_chunk_lem a ∙ (to_ascii_lowercase-SameText h ∙ sym (host_chunk_lem b))

-- A path with a slash behind one that ends in another byte, or the root behind the empty path.
abbrev SlashBehind : Bytes → Bytes → Type 0
SlashBehind a b =
    ((q : Bytes) × (c : ℕ) × (c ≢ 47) × (a ≡ q ++ c ∷ []) × (b ≡ q ++ c ∷ slash))
    ⊎ ((a ≡ []) × (b ≡ slash))

abbrev pub SamePath : Bytes → Bytes → Type 0
SamePath a b = (a ≡ b) ⊎ (SlashBehind a b ⊎ SlashBehind b a)

path_chunk-behind :
    (q : Bytes) (c : ℕ) → c ≢ 47 → path_chunk (q ++ c ∷ []) ≡ path_chunk (q ++ c ∷ slash)
path_chunk-behind [] c ne = path_chunk_one c ∙ sym (path_chunk-snoc c [] 47)
path_chunk-behind (d ∷ q) c ne =
    let apart : (c == 47) ≡ false = ground (arith, nat_beq_iff c 47) in
    let long : q ++ c ∷ slash ≡ (q ++ c ∷ []) ++ slash = sym (append_assoc q (c ∷ []) slash) in
    path_chunk-snoc d q c
    ∙ (rw apart refl ∙ sym (ap (λ l. path_chunk (d ∷ l)) long ∙ path_chunk-snoc d (q ++ c ∷ []) 47))

path_chunk-SlashBehind : (a b : Bytes) → SlashBehind a b → path_chunk a ≡ path_chunk b
unfolding path_chunk
path_chunk-SlashBehind a b (inl (q, c, ne, ea, eb)) =
    ap path_chunk ea ∙ (path_chunk-behind q c ne ∙ sym (ap path_chunk eb))
path_chunk-SlashBehind a b (inr (ea, eb)) = ap path_chunk ea ∙ sym (ap path_chunk eb)

pub path_chunk-SamePath : (a b : Bytes) → SamePath a b → path_chunk a ≡ path_chunk b
path_chunk-SamePath a b (inl e) = ap path_chunk e
path_chunk-SamePath a b (inr (inl h)) = path_chunk-SlashBehind a b h
path_chunk-SamePath a b (inr (inr h)) = sym (path_chunk-SlashBehind b a h)
