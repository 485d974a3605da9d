-- ===== src/Crawl/Scope/Hosts.antt =====
-- The host test of the subdomain scope and the allowlist cuts at a dot (src/source/crawl.rs).
use link_r.Prelude.{
  ℕ, zero, suc, ◌+◌, ◌-◌, ◌<◌, ◌≡◌, ◌↔◌, ◌⊎◌, inl, inr, refl, ap, ◌∙◌, true, some, [], ◌∷◌, ◌++◌,
  Bytes, length, drop, get_elem?, length-append, arith, bytes_beq_iff, bytes_eq, nat_eq, ◌==◌,
  Bool-cases,
}
use link_r.Crawl.Scope.{host_under, ends_with}

-- A host, or a subdomain of it.
abbrev pub InDomain : Bytes → Bytes → Type 0
InDomain base host = (host ≡ base) ⊎ ((sub : Bytes) × (host ≡ sub ++ 46 ∷ base))

-- A text cut in front of a byte.
cut_at :
    (n : ℕ) (s : Bytes)
    → n < length s
    → (front : Bytes) × (c : ℕ) × (length front ≡ n)
      × (s ≡ front ++ c ∷ drop (suc n) s)
      × (get_elem? s n ≡ some c)
cut_at n [] lt = absurd (omega arith)
cut_at zero (c ∷ s) lt = ([], c, refl, refl, refl)
cut_at (suc n) (c ∷ s) lt =
    let (front, d, len, e, at) = cut_at n s (omega arith) in
    (c ∷ front, d, ap suc len, ap (λ l. c ∷ l) e, at)

drop_behind :
    (front : Bytes) (c : ℕ) (rest : Bytes) → drop (suc (length front)) (front ++ c ∷ rest) ≡ rest
drop_behind [] c rest = refl
drop_behind (d ∷ front) c rest = drop_behind front c rest

elem_at :
    (front : Bytes) (c : ℕ) (rest : Bytes) → get_elem? (front ++ c ∷ rest) (length front) ≡ some c
elem_at [] c rest = refl
elem_at (d ∷ front) c rest = elem_at front c rest

host_under_sound : (host base : Bytes) → host_under host base ≡ true → InDomain base host
unfolding host_under ends_with
host_under_sound host base h = elim (Bool-cases (host == base)) [
  | inl same ↦ inl ((bytes_beq_iff host base).0 same)
  | inr differs ↦
      let longer : length base < length host = ground arith in
      let n = length host - length base - 1 in
      let (front, c, len, e, at) = cut_at n host (omega arith) in
      let dropped : drop (length host - length base) host ≡ base =
        (bytes_beq_iff (drop (length host - length base) host) base).0 (ground arith) in
      let same_cut : suc n ≡ length host - length base = omega arith in
      let dot : c ≡ 46 = ground arith in
      inr (
        front,
        e
            ∙ (ap (λ d. front ++ d ∷ drop (suc n) host) dot
                ∙ ap (λ k. front ++ 46 ∷ drop k host) same_cut
                ∙ ap (λ l. front ++ 46 ∷ l) dropped),
      )
]

host_under_complete : (host base : Bytes) → InDomain base host → host_under host base ≡ true
unfolding host_under ends_with
host_under_complete host base (inl e) = ground (arith, bytes_beq_iff host base)
host_under_complete host base (inr (sub, e)) =
    let len : length host ≡ length sub + suc (length base) =
      ap length e ∙ length-append sub (46 ∷ base) in
    let at_dot : length host - length base - 1 ≡ length sub = omega arith in
    let behind : length host - length base ≡ suc (length sub) = omega arith in
    let rest : drop (length host - length base) host ≡ base =
      ap (λ k. drop k host) behind ∙ (ap (drop (suc (length sub))) e ∙ drop_behind sub 46 base) in
    let dot : get_elem? host (length host - length base - 1) ≡ some 46 =
      ap (get_elem? host) at_dot ∙ (ap (λ l. get_elem? l (length sub)) e ∙ elem_at sub 46 base) in
    let ends = (bytes_beq_iff (drop (length host - length base) host) base).1 rest in
    ground (arith, dot, ends)

-- A host is accepted under a base exactly when it is the base or ends in the base behind a dot.
pub host_under_iff : (host base : Bytes) → (host_under host base ≡ true) ↔ InDomain base host
host_under_iff host base = (host_under_sound host base, host_under_complete host base)
