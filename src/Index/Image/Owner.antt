-- ===== src/Index/Image/Owner.antt =====
-- The header of an index reads back (src/index/format.rs).
use link_r.Prelude.{
  ℕ, zero, suc, ◌+◌, ◌<◌, ◌≡◌, refl, subst, ◌∙◌, false, not, any, [], ◌∷◌, ◌++◌, Bytes, length,
  length-append, drop, replicate, ◌==◌, nat_eq, arith, u32_mod, u64_mod,
}
use mathlib.Core.List.{append_assoc}
use native.Mathlib.Nat.{suc-add}
use link_r.Error.{ok}
use link_r.External.{ByteIo, ByteAt}
use link_r.Index.Format.{Header, owner, header_of, from_owner}

drop-append : (l o : Bytes) (k : ℕ) → drop (length l + k) (l ++ o) ≡ drop k o
drop-append [] o k = let here : 0 + k ≡ k = omega arith in rw here refl
drop-append (x ∷ l) o k = rw (suc-add (length l) k) (drop-append l o k)

any_zeros : (n : ℕ) → any {A = ℕ} (λ b. not (b == 0)) (replicate n 0) ≡ false
any_zeros zero = refl
any_zeros (suc n) = any_zeros n

-- The fields of the header are in the ranges of their types.
pub record HeaderFits (h : Header) : Type 0 where
  pub dim : h.dim < u32_mod
  pub doc_count : h.doc_count < u32_mod
  pub metric : h.metric < u32_mod
  pub embedder_id : h.embedder_id < u64_mod
  pub bm25_k1_bits : h.bm25_k1_bits < u32_mod
  pub bm25_b_bits : h.bm25_b_bits < u32_mod
  pub avgdl_bits : h.avgdl_bits < u32_mod

module _ ⦃io : ByteIo⦄ ⦃at : ByteAt⦄ where
  skip32 : (v k : ℕ) (o : Bytes) → at.get_u32 (io.bytes_u32 v ++ o) (4 + k) ≡ at.get_u32 o k
  skip32 v k o =
      subst (λ n. at.get_u32 (io.bytes_u32 v ++ o) (n + k) ≡ at.get_u32 o k) (at.length-bytes_u32 v)
        (at.get_u32-append (io.bytes_u32 v) o k)

  skip64 : (v k : ℕ) (o : Bytes) → at.get_u32 (io.bytes_u64 v ++ o) (8 + k) ≡ at.get_u32 o k
  skip64 v k o =
      subst (λ n. at.get_u32 (io.bytes_u64 v ++ o) (n + k) ≡ at.get_u32 o k) (at.length-bytes_u64 v)
        (at.get_u32-append (io.bytes_u64 v) o k)

  skip32_64 : (v k : ℕ) (o : Bytes) → at.get_u64 (io.bytes_u32 v ++ o) (4 + k) ≡ at.get_u64 o k
  skip32_64 v k o =
      subst (λ n. at.get_u64 (io.bytes_u32 v ++ o) (n + k) ≡ at.get_u64 o k) (at.length-bytes_u32 v)
        (at.get_u64-append (io.bytes_u32 v) o k)

  drop32 : (v k : ℕ) (o : Bytes) → drop (4 + k) (io.bytes_u32 v ++ o) ≡ drop k o
  drop32 v k o =
      subst (λ n. drop (n + k) (io.bytes_u32 v ++ o) ≡ drop k o) (at.length-bytes_u32 v)
        (drop-append (io.bytes_u32 v) o k)

  drop64 : (v k : ℕ) (o : Bytes) → drop (8 + k) (io.bytes_u64 v ++ o) ≡ drop k o
  drop64 v k o =
      subst (λ n. drop (n + k) (io.bytes_u64 v ++ o) ≡ drop k o) (at.length-bytes_u64 v)
        (drop-append (io.bytes_u64 v) o k)

  -- The owner area with what follows it.
  abbrev fields : Header → Bytes → Bytes
  fields h o =
      io.bytes_u32 h.dim
      ++ (io.bytes_u32 h.doc_count
          ++ (io.bytes_u32 h.metric
              ++ (io.bytes_u64 h.embedder_id
                  ++ (io.bytes_u32 h.bm25_k1_bits
                      ++ (io.bytes_u32 h.bm25_b_bits ++ (io.bytes_u32 h.avgdl_bits ++ o))))))

  owner-fields : (h : Header) (o : Bytes) → owner h ++ o ≡ fields h o
  unfolding owner
  owner-fields h o = simp (append_assoc)

  pub length-owner : (h : Header) → length (owner h) ≡ 32
  unfolding owner
  length-owner h =
      let six = length-append (io.bytes_u32 h.bm25_b_bits) (io.bytes_u32 h.avgdl_bits) in
      let five =
        length-append (io.bytes_u32 h.bm25_k1_bits)
          (io.bytes_u32 h.bm25_b_bits ++ io.bytes_u32 h.avgdl_bits) in
      omega (
        arith,
        length-append (io.bytes_u32 h.dim) _,
        length-append (io.bytes_u32 h.doc_count) _,
        length-append (io.bytes_u32 h.metric) _,
        length-append (io.bytes_u64 h.embedder_id) _,
        five,
        six,
        at.length-bytes_u32 h.dim,
        at.length-bytes_u32 h.doc_count,
        at.length-bytes_u32 h.metric,
        at.length-bytes_u64 h.embedder_id,
        at.length-bytes_u32 h.bm25_k1_bits,
        at.length-bytes_u32 h.bm25_b_bits,
        at.length-bytes_u32 h.avgdl_bits,
      )

  -- A header reads back from its owner area, which is padded with zeros.
  pub from_owner-owner :
      (h : Header) (n : ℕ) → HeaderFits h → from_owner h.flags (owner h ++ replicate n 0) ≡ ok h
  unfolding from_owner header_of
  from_owner-owner h n fit =
      let z = replicate n 0 in
      let t7 = io.bytes_u32 h.avgdl_bits ++ z in
      let t6 = io.bytes_u32 h.bm25_b_bits ++ t7 in
      let t5 = io.bytes_u32 h.bm25_k1_bits ++ t6 in
      let t4 = io.bytes_u64 h.embedder_id ++ t5 in
      let t3 = io.bytes_u32 h.metric ++ t4 in
      let t2 = io.bytes_u32 h.doc_count ++ t3 in
      let o = fields h z in
      let dim : at.get_u32 o 0 ≡ h.dim = at.get_u32-bytes t2 h.dim fit.dim in
      let doc_count : at.get_u32 o 4 ≡ h.doc_count =
        skip32 h.dim 0 t2 ∙ at.get_u32-bytes t3 h.doc_count fit.doc_count in
      let metric : at.get_u32 o 8 ≡ h.metric =
        skip32 h.dim 4 t2 ∙ skip32 h.doc_count 0 t3 ∙ at.get_u32-bytes t4 h.metric fit.metric in
      let embedder_id : at.get_u64 o 12 ≡ h.embedder_id =
        skip32_64 h.dim 8 t2
        ∙ skip32_64 h.doc_count 4 t3
        ∙ skip32_64 h.metric 0 t4
        ∙ at.get_u64-bytes t5 h.embedder_id fit.embedder_id in
      let k1 : at.get_u32 o 20 ≡ h.bm25_k1_bits =
        skip32 h.dim 16 t2
        ∙ skip32 h.doc_count 12 t3
        ∙ skip32 h.metric 8 t4
        ∙ skip64 h.embedder_id 0 t5
        ∙ at.get_u32-bytes t6 h.bm25_k1_bits fit.bm25_k1_bits in
      let b : at.get_u32 o 24 ≡ h.bm25_b_bits =
        skip32 h.dim 20 t2
        ∙ skip32 h.doc_count 16 t3
        ∙ skip32 h.metric 12 t4
        ∙ skip64 h.embedder_id 4 t5
        ∙ skip32 h.bm25_k1_bits 0 t6
        ∙ at.get_u32-bytes t7 h.bm25_b_bits fit.bm25_b_bits in
      let avgdl : at.get_u32 o 28 ≡ h.avgdl_bits =
        skip32 h.dim 24 t2
        ∙ skip32 h.doc_count 20 t3
        ∙ skip32 h.metric 16 t4
        ∙ skip64 h.embedder_id 8 t5
        ∙ skip32 h.bm25_k1_bits 4 t6
        ∙ skip32 h.bm25_b_bits 0 t7
        ∙ at.get_u32-bytes z h.avgdl_bits fit.avgdl_bits in
      let reserved : drop 32 o ≡ z =
        drop32 h.dim 28 t2
        ∙ drop32 h.doc_count 24 t3
        ∙ drop32 h.metric 20 t4
        ∙ drop64 h.embedder_id 12 t5
        ∙ drop32 h.bm25_k1_bits 8 t6
        ∙ drop32 h.bm25_b_bits 4 t7
        ∙ drop32 h.avgdl_bits 0 z in
      rw
        (owner-fields h z, reserved, any_zeros n, dim, doc_count, metric, embedder_id, k1, b, avgdl)
        refl
