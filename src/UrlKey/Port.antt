-- ===== src/UrlKey/Port.antt =====
-- `fmt_u16` of src/url_key.rs: the decimal digits of a port, written from the end of a buffer of
-- five bytes.
use native.Mathlib.Nat.{pow-suc}
use link_r.Prelude.{
  ℕ, zero, suc, ◌+◌, ◌-◌, ◌*◌, ◌/◌, ◌%◌, ◌^◌, ◌<◌, ◌≡◌, Option, none, some, [], ◌∷◌, Bytes,
  if◌then◌else◌, ◌==◌, nat_eq, arith, Bool-cases, inl, inr, nat_beq_iff, ◌∙◌, ap,
}

-- The loop: `i` is the number of free bytes in front; `none` is the panic of an index below 0.
unfoldable pub fmt_loop : ℕ → ℕ → Bytes → Option Bytes
fmt_loop zero v out = if v == 0 then some out else none
fmt_loop (suc i) v out =
    let rest = fmt_loop i (v / 10) ((48 + v % 10) ∷ out) in if v == 0 then some out else rest

unfoldable pub fmt_u16? : ℕ → Option Bytes
fmt_u16? v = if v == 0 then some (48 ∷ []) else fmt_loop 5 v []

-- The panic does not happen at a `u16` (`fmt_u16_total`).
unfoldable pub fmt_u16 : ℕ → Bytes
fmt_u16 v = elim (fmt_u16? v) [ none ↦ 48 ∷ [] | some ds ↦ ds ]

-- The number that a decimal text stands for, behind the digits read so far.
abbrev pub read_decimal : ℕ → Bytes → ℕ
read_decimal n [] = n
read_decimal n (d ∷ ds) = read_decimal (n * 10 + (d - 48)) ds

fmt_loop-reads :
    (i v : ℕ) (out : Bytes)
    → v < 10 ^ i
    → (ds : Bytes) × (fmt_loop i v out ≡ some ds) × (read_decimal 0 ds ≡ read_decimal v out)
unfolding fmt_loop
fmt_loop-reads zero v out h = let e : v ≡ 0 = omega arith in (out, rw e, rw e)
fmt_loop-reads (suc i) v out h = elim (Bool-cases (v == 0)) [
  | inl done ↦ (out, rw done, rw ((nat_beq_iff v 0).0 done))
  | inr more ↦
      let (ds, runs, reads) =
        fmt_loop-reads i (v / 10) ((48 + v % 10) ∷ out) (omega (arith, pow-suc 10 i)) in
      (ds, rw more runs, reads ∙ ap (λ k. read_decimal k out) (omega arith))
]

fmt_u16?-reads :
    (v : ℕ) → v < 65536 → (ds : Bytes) × (fmt_u16? v ≡ some ds) × (read_decimal 0 ds ≡ v)
unfolding fmt_u16?
fmt_u16?-reads v h = elim (Bool-cases (v == 0)) [
  | inl done ↦ (48 ∷ [], rw done, omega (arith, (nat_beq_iff v 0).0 done))
  | inr more ↦
      let (ds, runs, reads) = fmt_loop-reads 5 v [] (omega arith) in (ds, rw more runs, reads)
]

-- The digits of a port fit the five bytes, so the loop never indexes below 0, and they read back
-- as the port.
pub fmt_u16_total :
    (v : ℕ) → v < 65536 → (fmt_u16? v ≡ some (fmt_u16 v)) × (read_decimal 0 (fmt_u16 v) ≡ v)
unfolding fmt_u16
fmt_u16_total v h =
    let (ds, runs, reads) = fmt_u16?-reads v h in (rw (runs, fmt_u16), rw (runs, fmt_u16) reads)
