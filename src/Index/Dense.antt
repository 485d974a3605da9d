-- ===== src/Index/Dense.antt =====
-- src/index/dense.rs: the dense kernels. Floats are an interface, so nothing rests on rounding.
pub mod TopK
pub mod Exact
pub mod Scan
pub mod Total
use link_r.Prelude.{
  ℕ, zero, suc, ◌/◌, ◌≡◌, List, [], ◌∷◌, ◌++◌, map, take, drop, length, length-map, if◌then◌else◌,
  ◌==◌, nat_eq, Bool-cases, inl, inr,
}
use link_r.Error.{Result, ok, panic}
use link_r.Metric.{Metric, cosine, dot, l2}
use link_r.External.{Float}

module _ {F : Type 0} ⦃f : Float F⦄ where
  -- The loop of `dot` on a vector and itself, which is how `l2_normalize` calls it.
  self_loop : F → List F → F
  self_loop acc [] = acc
  self_loop acc (x ∷ v) = self_loop (f.add acc (f.mul x x)) v

  unfoldable pub dot_self : List F → F
  unfolding self_loop
  dot_self v = self_loop f.zero v

  unfoldable pub l2_normalize : List F → List F
  l2_normalize v =
      let norm = f.sqrt (dot_self v) in
      if f.gt norm f.zero then map (λ x. f.mul x (f.div f.one norm)) v else v

  -- Normalizing keeps the dimension.
  pub length-l2_normalize : (v : List F) → length (l2_normalize v) ≡ length v
  unfolding l2_normalize
  length-l2_normalize v = elim (Bool-cases (f.gt (f.sqrt (dot_self v)) f.zero)) [
    | inl pos ↦ rw pos (length-map _ v)
    | inr not_pos ↦ rw not_pos
  ]

  -- `dot` of two slices: an index past the end of the second panics. The length check is a debug
  -- assertion.
  unfoldable pub dot_loop : F → List F → List F → Result F
  dot_loop acc [] b = ok acc
  dot_loop acc (x ∷ a) [] = panic
  dot_loop acc (x ∷ a) (y ∷ b) = dot_loop (f.add acc (f.mul x y)) a b

  unfoldable pub l2_loop : F → List F → List F → Result F
  l2_loop acc [] doc = ok (f.neg acc)
  l2_loop acc (x ∷ query) [] = panic
  l2_loop acc (x ∷ query) (y ∷ doc) = let d = f.sub x y in l2_loop (f.add acc (f.mul d d)) query doc

  unfoldable pub similarity : List F → List F → Metric → Result F
  similarity query doc cosine = dot_loop f.zero query doc
  similarity query doc dot = dot_loop f.zero query doc
  similarity query doc l2 = l2_loop f.zero query doc

  -- `chunks_exact_mut(dim)`: the elements behind the last whole row are left alone. `rows` is
  -- `v.len() / dim`.
  unfoldable pub normalize_chunks : ℕ → ℕ → List F → List F
  normalize_chunks zero dim v = v
  normalize_chunks (suc rows) dim v =
      l2_normalize (take dim v) ++ normalize_chunks rows dim (drop dim v)

  unfoldable pub l2_normalize_rows : List F → ℕ → List F
  l2_normalize_rows v dim = if dim == 0 then v else normalize_chunks (length v / dim) dim v
