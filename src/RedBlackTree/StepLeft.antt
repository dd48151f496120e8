-- ===== src/RedBlackTree/StepLeft.antt =====
-- A round of the loop of RedBlackTreeRemove where the sister is black and the child is the left
-- subtree.
use mathlib.Core.List.{append_assoc}
use rsplib.Base.{
  ℕ, suc, ◌+◌, ◌%◌, ◌^◌, ◌≡◌, ◌⊎◌, inl, inr, refl, arith, true, false, Bool-cases, some,
}
use rsplib.RedBlackTree.{
  Color, red, black, is_red, Tree, null, node, color, blackened, value_sum, rotate_left,
  rotate_right,
}
use rsplib.RedBlackTree.FixingRounds.{blackened-Height, color-black}
use rsplib.RedBlackTree.RemoveLoop.{again, settled, turned_left, raised_left, step_left}
use rsplib.RedBlackTree.Shape.{Height, inorder-blackened, color-blackened}
use rsplib.RedBlackTree.Sums.{IsSummed, blackened-IsSummed, value_sum-blackened}
use rsplib.RedBlackTree.Steps.{node-Height, GoesOn, Settles}

module _ {ℓ} {A : Type ℓ} (value : A → ℕ) where
  -- The farther subtree of the sister is red.
  far_left_lem :
      (pc : Color) (p : A) (ps : ℕ) (child : Tree A) (x : A) (s : ℕ) (near far : Tree A) (n : ℕ)
      → Height child n
      → Height near n
      → Height far n
      → is_red (color far) ≡ true
      → IsSummed value (node pc p ps child (node black x s near far))
      → (u : Tree A) × (step_left value pc p ps child (node black x s near far) ≡ some (settled u))
        × Settles value pc n (node pc p ps child (node black x s near far)) u
  unfolding step_left turned_left raised_left rotate_left
  far_left_lem pc p ps child x s near far n hc hn hf c w =
      let s₁ = (value_sum child + value p + value_sum near) % 2 ^ 64 in
      let e₀ = w.0 in
      let e₁ = w.2.0 in
      let e₂ = value_sum-blackened value far in
      let o = inorder-blackened far in
      let u =
        (node pc x ((s₁ + value x + value_sum (blackened far)) % 2 ^ 64)
          (node black p s₁ child near) (blackened far)) in
      (
        u,
        elim (Bool-cases (is_red (color near))) [ inl a ↦ rw (a, c) refl | inr a ↦ rw (a, c) refl ],
        record {
          height =
              node-Height pc x _ _ _ (suc n) ((hc, hn), blackened-Height far n c hf)
                (refl, color-blackened far);
          same_color = refl;
          same_order = simp (append_assoc, o);
          summed = (refl, (refl, w.1, w.2.1), blackened-IsSummed value far w.2.2);
          same_sum = omega arith;
        },
      )

  -- Only the nearer one is red.
  near_left_lem :
      (pc : Color) (p : A) (ps : ℕ) (child : Tree A) (x : A) (s : ℕ) (y : A) (t : ℕ)
      → (a b far : Tree A) (n : ℕ) → Height child n
      → Height (node red y t a b) n
      → Height far n
      → is_red (color far) ≡ false
      → IsSummed value (node pc p ps child (node black x s (node red y t a b) far))
      → (u : Tree A) × (step_left value pc p ps child (node black x s (node red y t a b) far)
          ≡ some (settled u))
        × Settles value pc n (node pc p ps child (node black x s (node red y t a b) far)) u
  unfolding step_left turned_left raised_left rotate_left rotate_right
  near_left_lem pc p ps child x s y t a b far n hc hn hf c w =
      let s₁ = (value_sum child + value p + value_sum a) % 2 ^ 64 in
      let s₂ = (value_sum b + value x + value_sum far) % 2 ^ 64 in
      let e₀ = w.0 in
      let e₁ = w.2.0 in
      let e₂ = w.2.1.0 in
      let q : black ≡ black = refl in
      let u =
        (node pc y ((s₁ + value y + s₂) % 2 ^ 64) (node black p s₁ child a)
          (node black x s₂ b far)) in
      (
        u,
        rw c refl,
        record {
          height = node-Height pc y _ _ _ (suc n) ((hc, hn.0), (hn.1, hf)) (q, q);
          same_color = refl;
          same_order = simp append_assoc;
          summed = (refl, (refl, w.1, w.2.1.1), (refl, w.2.1.2, w.2.2));
          same_sum = omega arith;
        },
      )

  -- Both are black.
  none_left_lem :
      (pc : Color) (p : A) (ps : ℕ) (child : Tree A) (x : A) (s : ℕ) (near far : Tree A) (n : ℕ)
      → Height child n
      → Height near n
      → Height far n
      → is_red (color near) ≡ false
      → is_red (color far) ≡ false
      → IsSummed value (node pc p ps child (node black x s near far))
      → (u : Tree A) × (step_left value pc p ps child (node black x s near far) ≡ some (again u))
        × GoesOn value pc n (node pc p ps child (node black x s near far)) u
  unfolding step_left
  none_left_lem pc p ps child x s near far n hc hn hf a c w = (
    (node pc p ps child (node red x s near far)),
    rw (a, c) refl,
    record {
      height = (hc, (hn, hf, color-black near a, color-black far c));
      same_color = refl;
      same_order = refl;
      summed = w;
      same_sum = refl;
    },
  )

  pub step_left_lem :
      (pc : Color) (p : A) (ps : ℕ) (child sister : Tree A) (n : ℕ)
      → Height child n
      → Height sister (suc n)
      → color sister ≡ black
      → IsSummed value (node pc p ps child sister)
      → ((u : Tree A) × (step_left value pc p ps child sister ≡ some (settled u))
          × Settles value pc n (node pc p ps child sister) u)
        ⊎ ((u : Tree A) × (step_left value pc p ps child sister ≡ some (again u))
            × GoesOn value pc n (node pc p ps child sister) u)
  step_left_lem pc p ps child null n hc hs c w = absurd (omega arith)
  step_left_lem pc p ps child (node red x s l r) n hc hs c w = cc
  step_left_lem pc p ps child (node black x s null far) n hc hs c w =
      elim (Bool-cases (is_red (color far))) [
        | inl f ↦ inl (far_left_lem pc p ps child x s null far n hc hs.0 hs.1 f w)
        | inr f ↦ inr (none_left_lem pc p ps child x s null far n hc hs.0 hs.1 refl f w)
      ]
  step_left_lem pc p ps child (node black x s (node red y t a b) far) n hc hs c w =
      elim (Bool-cases (is_red (color far))) [
        | inl f ↦ inl (far_left_lem pc p ps child x s (node red y t a b) far n hc hs.0 hs.1 f w)
        | inr f ↦ inl (near_left_lem pc p ps child x s y t a b far n hc hs.0 hs.1 f w)
      ]
  step_left_lem pc p ps child (node black x s (node black y t a b) far) n hc hs c w =
      elim (Bool-cases (is_red (color far))) [
        | inl f ↦ inl (far_left_lem pc p ps child x s (node black y t a b) far n hc hs.0 hs.1 f w)
        | inr f ↦
            inr (none_left_lem pc p ps child x s (node black y t a b) far n hc hs.0 hs.1 refl f w)
      ]
