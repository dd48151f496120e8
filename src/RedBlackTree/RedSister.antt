-- ===== src/RedBlackTree/RedSister.antt =====
-- A round of the loop of RedBlackTreeRemove where the sister is red.
use mathlib.Core.List.{append_assoc}
use rsplib.Base.{ℕ, suc, ◌+◌, ◌%◌, ◌^◌, ◌∷◌, ◌++◌, ◌≡◌, inl, inr, refl, ap, ◌∙◌, arith, some}
use rsplib.RedBlackTree.{
  red, black, Tree, node, inorder, blackened, value_sum, rotate_left, rotate_right,
}
use rsplib.RedBlackTree.RemoveLoop.{below_left, below_right, red_sister_left, red_sister_right}
use rsplib.RedBlackTree.Shape.{Height, inorder-blackened}
use rsplib.RedBlackTree.Steps.{Settles}
use rsplib.RedBlackTree.StepLeft.{step_left_lem}
use rsplib.RedBlackTree.StepRight.{step_right_lem}
use rsplib.RedBlackTree.Sums.{IsSummed, blackened-IsSummed, value_sum-blackened}

module _ {ℓ} {A : Type ℓ} (value : A → ℕ) where
  pub red_sister_left_lem :
      (p : A) (ps : ℕ) (child : Tree A) (x : A) (s : ℕ) (near far : Tree A) (n : ℕ)
      → Height child n
      → Height (node red x s near far) (suc n)
      → IsSummed value (node black p ps child (node red x s near far))
      → (u : Tree A) × (red_sister_left value p ps child (node red x s near far) ≡ some u)
        × Settles value black n (node black p ps child (node red x s near far)) u
  unfolding red_sister_left rotate_left
  red_sister_left_lem p ps child x s near far n hc hs w =
      let s₁ = (value_sum child + value p + value_sum near) % 2 ^ 64 in
      let s₂ = (s₁ + value x + value_sum far) % 2 ^ 64 in
      let e₀ = w.0 in
      let e₁ = w.2.0 in
      let total : s₂ ≡ ps = omega arith in
      let lower : IsSummed value (node red p s₁ child near) = (refl, w.1, w.2.1) in
      let line : inorder (node black x s₂ (node red p s₁ child near) far)
          ≡ inorder (node black p ps child (node red x s near far)) =
        simp append_assoc in
      elim (step_left_lem value red p s₁ child near n hc hs.0 hs.2 lower) [
        | inl (u, q, k) ↦ (
          (node black x s₂ u far),
          rw (q, below_left) refl,
          record {
            height = (k.height, hs.1);
            same_color = refl;
            same_order = ap (λ ys. ys ++ x ∷ inorder far) k.same_order ∙ line;
            summed = (let e = k.same_sum in omega arith, k.summed, w.2.2);
            same_sum = total;
          },
        )
        | inr (u, q, k) ↦ (
          (node black x s₂ (blackened u) far),
          rw (q, below_left) refl,
          record {
            height = (k.height, hs.1);
            same_color = refl;
            same_order =
                ap (λ ys. ys ++ x ∷ inorder far) (inorder-blackened u ∙ k.same_order) ∙ line;
            summed = (
              let e = k.same_sum in let d = value_sum-blackened value u in omega arith,
              blackened-IsSummed value u k.summed,
              w.2.2,
            );
            same_sum = total;
          },
        )
      ]

  pub red_sister_right_lem :
      (p : A) (ps : ℕ) (child : Tree A) (x : A) (s : ℕ) (near far : Tree A) (n : ℕ)
      → Height child n
      → Height (node red x s far near) (suc n)
      → IsSummed value (node black p ps (node red x s far near) child)
      → (u : Tree A) × (red_sister_right value p ps child (node red x s far near) ≡ some u)
        × Settles value black n (node black p ps (node red x s far near) child) u
  unfolding red_sister_right rotate_right
  red_sister_right_lem p ps child x s near far n hc hs w =
      let s₁ = (value_sum near + value p + value_sum child) % 2 ^ 64 in
      let s₂ = (value_sum far + value x + s₁) % 2 ^ 64 in
      let e₀ = w.0 in
      let e₁ = w.1.0 in
      let total : s₂ ≡ ps = omega arith in
      let lower : IsSummed value (node red p s₁ near child) = (refl, w.1.2, w.2) in
      let line : inorder (node black x s₂ far (node red p s₁ near child))
          ≡ inorder (node black p ps (node red x s far near) child) =
        simp append_assoc in
      elim (step_right_lem value red p s₁ child near n hc hs.1 hs.3 lower) [
        | inl (u, q, k) ↦ (
          (node black x s₂ far u),
          rw (q, below_right) refl,
          record {
            height = (hs.0, k.height);
            same_color = refl;
            same_order = ap (λ ys. inorder far ++ x ∷ ys) k.same_order ∙ line;
            summed = (let e = k.same_sum in omega arith, w.1.1, k.summed);
            same_sum = total;
          },
        )
        | inr (u, q, k) ↦ (
          (node black x s₂ far (blackened u)),
          rw (q, below_right) refl,
          record {
            height = (hs.0, k.height);
            same_color = refl;
            same_order =
                ap (λ ys. inorder far ++ x ∷ ys) (inorder-blackened u ∙ k.same_order) ∙ line;
            summed = (
              let e = k.same_sum in let d = value_sum-blackened value u in omega arith,
              w.1.1,
              blackened-IsSummed value u k.summed,
            );
            same_sum = total;
          },
        )
      ]
