-- ===== src/UrlKey/Path.antt =====
-- The path rule of src/url_key.rs, "strip a single trailing slash except on the root path".
use mathlib.Core.List.{append_assoc}
use link_r.Prelude.{
  ℕ, suc, ◌-◌, ◌≡◌, refl, sym, ap, subst, ◌∙◌, ◌↔◌, ◌⊎◌, inl, inr, false, [], ◌∷◌, ◌++◌, Bytes,
  arith, length, take, length-append, get_elem?-append_end, if◌then◌else◌, ◌==◌, nat_eq,
  nat_beq_iff, Bool-cases,
}
use link_r.UrlKey.{slash, ends_with_slash, path_chunk}

-- A path of at least three bytes that ends in two slashes.
abbrev pub EndsInTwoSlashes : Bytes → Type 0
EndsInTwoSlashes p = (c : ℕ) × (q : Bytes) × (p ≡ c ∷ q ++ 47 ∷ 47 ∷ [])

take_init : (q : Bytes) (x : ℕ) → take (length q) (q ++ x ∷ []) ≡ q
take_init [] x = refl
take_init (c ∷ q) x = ap (◌∷◌ c) (take_init q x)

last : (q : Bytes) (x : ℕ) → ends_with_slash (q ++ x ∷ []) ≡ (x == 47)
unfolding ends_with_slash
last q x =
    let len : length (q ++ x ∷ []) - 1 ≡ length q = omega (arith, length-append q (x ∷ [])) in
    rw (len, get_elem?-append_end q x, ends_with_slash)

-- The rule at a path of two bytes or more.
pub path_chunk-snoc :
    (c : ℕ) (q : Bytes) (x : ℕ)
    → path_chunk (c ∷ q ++ x ∷ []) ≡ (if x == 47 then c ∷ q else c ∷ q ++ x ∷ [])
unfolding path_chunk
path_chunk-snoc c q x =
    let p = c ∷ q ++ x ∷ [] in
    let len : length p ≡ suc (suc (length q)) = omega (arith, length-append q (x ∷ [])) in
    let init : take (length p - 1) p ≡ c ∷ q =
      ap (λ n. take n p) {y = suc (length q)} (omega (arith, len)) ∙ take_init (c ∷ q) x in
    ground (arith, len, init, last (c ∷ q) x)

pub path_chunk_one : (x : ℕ) → path_chunk (x ∷ []) ≡ x ∷ []
unfolding path_chunk
path_chunk_one x = refl

path_chunk_root : path_chunk (path_chunk []) ≡ path_chunk []
unfolding path_chunk ends_with_slash
path_chunk_root = refl

snoc-cases : (c : ℕ) (p : Bytes) → (p ≡ []) ⊎ ((q : Bytes) × (x : ℕ) × (c ∷ p ≡ c ∷ q ++ x ∷ []))
snoc-cases c [] = inl refl
snoc-cases c (d ∷ p) = elim (snoc-cases d p) [
  | inl e ↦ inr ([], d, rw e)
  | inr (q, x, e) ↦ inr (d ∷ q, x, ap (◌∷◌ c) e)
]

-- Of a path of at least three bytes in two slashes one pass strips one slash, and a second pass the
-- other.
pub path_chunk-two_slashes :
    (c : ℕ) (q : Bytes)
    → (path_chunk (c ∷ q ++ 47 ∷ 47 ∷ []) ≡ c ∷ q ++ slash) × (path_chunk (c ∷ q ++ slash) ≡ c ∷ q)
path_chunk-two_slashes c q = (
  ap (λ t. path_chunk (c ∷ t)) (sym (append_assoc q slash slash))
      ∙ path_chunk-snoc c (q ++ slash) 47,
  path_chunk-snoc c q 47,
)

not_stable : (p : Bytes) → path_chunk (path_chunk p) ≡ path_chunk p → ¬ EndsInTwoSlashes p
not_stable p e (c, q, ends) =
    let (once, twice) = path_chunk-two_slashes c q in
    let first : path_chunk p ≡ c ∷ q ++ slash = ap path_chunk ends ∙ once in
    let shrunk : c ∷ q ≡ c ∷ q ++ slash = sym twice ∙ (ap path_chunk (sym first) ∙ (e ∙ first)) in
    omega (arith, ap length shrunk, length-append q slash)

-- A text that the rule leaves as it is.
stable_snoc :
    (c : ℕ) (q : Bytes) (x : ℕ) → (x == 47) ≡ false → path_chunk (c ∷ q ++ x ∷ []) ≡ c ∷ q ++ x ∷ []
stable_snoc c q x h = path_chunk-snoc c q x ∙ rw h

stable_rest : (c : ℕ) (q : Bytes) → ¬ EndsInTwoSlashes (c ∷ q ++ slash) → path_chunk (c ∷ q) ≡ c ∷ q
stable_rest c q no_two = elim (snoc-cases c q) [
  | inl e ↦ rw e (path_chunk_one c)
  | inr (r, y, e) ↦ elim (Bool-cases (y == 47)) [
    | inl slashed ↦
        let y_slash : y ≡ 47 = (nat_beq_iff y 47).0 slashed in
        absurd (no_two (c, r, cc (e, y_slash, append_assoc (c ∷ r) slash slash)))
    | inr plain ↦ rw e (stable_snoc c r y plain)
  ]
]

stable : (p : Bytes) → ¬ EndsInTwoSlashes p → path_chunk (path_chunk p) ≡ path_chunk p
stable [] no_two = path_chunk_root
stable (c ∷ p) no_two = elim (snoc-cases c p) [
  | inl e ↦ rw (e, path_chunk_one c, path_chunk_one c)
  | inr (q, x, e) ↦ elim (Bool-cases (x == 47)) [
    | inl slashed ↦
        let whole : c ∷ p ≡ c ∷ q ++ slash = cc (e, (nat_beq_iff x 47).0 slashed) in
        let once : path_chunk (c ∷ p) ≡ c ∷ q = ap path_chunk whole ∙ path_chunk-snoc c q 47 in
        ap path_chunk once
        ∙ (stable_rest c q (subst (λ t. ¬ EndsInTwoSlashes t) whole no_two) ∙ sym once)
    | inr plain ↦
        let same : path_chunk (c ∷ p) ≡ c ∷ p = rw e (stable_snoc c q x plain) in ap path_chunk same
  ]
]

-- A second pass changes exactly the paths of at least three bytes that end in two slashes.
pub path_chunk_idempotent_iff :
    (p : Bytes) → (path_chunk (path_chunk p) ≡ path_chunk p) ↔ (¬ EndsInTwoSlashes p)
path_chunk_idempotent_iff p = (not_stable p, stable p)
