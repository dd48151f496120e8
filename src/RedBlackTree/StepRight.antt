-- ===== src/RedBlackTree/StepRight.antt =====
-- A round of the loop of RedBlackTreeRemove where the sister is black and the child is the right
-- subtree.
use mathlib.Core.List.{append_assoc}
use rsplib.Base.{
  ℕ, suc, ◌+◌, ◌%◌, ◌^◌, ◌≡◌, ◌⊎◌, inl, inr, refl, arith, true, false, Bool-cases, some,
}
use rsplib.RedBlackTree.{
  Color, red, black, is_red, Tree, null, node, color, blackened, value_sum, rotate_left,
  rotate_right,
}
use rsplib.RedBlackTree.FixingRounds.{blackened-Height, color-black}
use rsplib.RedBlackTree.RemoveLoop.{again, settled, turned_right, raised_right, step_right}
use rsplib.RedBlackTree.Shape.{Height, inorder-blackened, color-blackened}
use rsplib.RedBlackTree.Sums.{IsSummed, blackened-IsSummed, value_sum-blackened}
use rsplib.RedBlackTree.Steps.{node-Height, GoesOn, Settles}

module _ {ℓ} {A : Type ℓ} (value : A → ℕ) where
  -- The farther subtree of the sister is red.
  far_right_lem :
      (pc : Color) (p : A) (ps : ℕ) (child : Tree A) (x : A) (s : ℕ) (near far : Tree A) (n : ℕ)
      → Height child n
      → Height near n
      → Height far n
      → is_red (color far) ≡ true
      → IsSummed value (node pc p ps (node black x s far near) child)
      → (u : Tree A) × (step_right value pc p ps child (node black x s far near) ≡ some (settled u))
        × Settles value pc n (node pc p ps (node black x s far near) child) u
  unfolding step_right turned_right raised_right rotate_right
  far_right_lem pc p ps child x s near far n hc hn hf c w =
      let s₁ = (value_sum near + value p + value_sum child) % 2 ^ 64 in
      let e₀ = w.0 in
      let e₁ = w.1.0 in
      let e₂ = value_sum-blackened value far in
      let o = inorder-blackened far in
      let u =
        (node pc x ((value_sum (blackened far) + value x + s₁) % 2 ^ 64) (blackened far)
          (node black p s₁ near child)) in
      (
        u,
        elim (Bool-cases (is_red (color near))) [ inl a ↦ rw (a, c) refl | inr a ↦ rw (a, c) refl ],
        record {
          height =
              node-Height pc x _ _ _ (suc n) (blackened-Height far n c hf, (hn, hc))
                (color-blackened far, refl);
          same_color = refl;
          same_order = simp (append_assoc, o);
          summed = (refl, blackened-IsSummed value far w.1.1, (refl, w.1.2, w.2));
          same_sum = omega arith;
        },
      )

  -- Only the nearer one is red.
  near_right_lem :
      (pc : Color) (p : A) (ps : ℕ) (child : Tree A) (x : A) (s : ℕ) (y : A) (t : ℕ)
      → (a b far : Tree A) (n : ℕ) → Height child n
      → Height (node red y t b a) n
      → Height far n
      → is_red (color far) ≡ false
      → IsSummed value (node pc p ps (node black x s far (node red y t b a)) child)
      → (u : Tree A) × (step_right value pc p ps child (node black x s far (node red y t b a))
          ≡ some (settled u))
        × Settles value pc n (node pc p ps (node black x s far (node red y t b a)) child) u
  unfolding step_right turned_right raised_right rotate_left rotate_right
  near_right_lem pc p ps child x s y t a b far n hc hn hf c w =
      let s₁ = (value_sum a + value p + value_sum child) % 2 ^ 64 in
      let s₂ = (value_sum far + value x + value_sum b) % 2 ^ 64 in
      let e₀ = w.0 in
      let e₁ = w.1.0 in
      let e₂ = w.1.2.0 in
      let q : black ≡ black = refl in
      let u =
        (node pc y ((s₂ + value y + s₁) % 2 ^ 64) (node black x s₂ far b)
          (node black p s₁ a child)) in
      (
        u,
        rw c refl,
        record {
          height = node-Height pc y _ _ _ (suc n) ((hf, hn.0), (hn.1, hc)) (q, q);
          same_color = refl;
          same_order = simp append_assoc;
          summed = (refl, (refl, w.1.1, w.1.2.1), (refl, w.1.2.2, w.2));
          same_sum = omega arith;
        },
      )

  -- Both are black.
  none_right_lem :
      (pc : Color) (p : A) (ps : ℕ) (child : Tree A) (x : A) (s : ℕ) (near far : Tree A) (n : ℕ)
      → Height child n
      → Height near n
      → Height far n
      → is_red (color near) ≡ false
      → is_red (color far) ≡ false
      → IsSummed value (node pc p ps (node black x s far near) child)
      → (u : Tree A) × (step_right value pc p ps child (node black x s far near) ≡ some (again u))
        × GoesOn value pc n (node pc p ps (node black x s far near) child) u
  unfolding step_right
  none_right_lem pc p ps child x s near far n hc hn hf a c w = (
    (node pc p ps (node red x s far near) child),
    rw (a, c) refl,
    record {
      height = ((hf, hn, color-black far c, color-black near a), hc);
      same_color = refl;
      same_order = refl;
      summed = w;
      same_sum = refl;
    },
  )

  pub step_right_lem :
      (pc : Color) (p : A) (ps : ℕ) (child sister : Tree A) (n : ℕ)
      → Height child n
      → Height sister (suc n)
      → color sister ≡ black
      → IsSummed value (node pc p ps sister child)
      → ((u : Tree A) × (step_right value pc p ps child sister ≡ some (settled u))
          × Settles value pc n (node pc p ps sister child) u)
        ⊎ ((u : Tree A) × (step_right value pc p ps child sister ≡ some (again u))
            × GoesOn value pc n (node pc p ps sister child) u)
  step_right_lem pc p ps child null n hc hs c w = absurd (omega arith)
  step_right_lem pc p ps child (node red x s l r) n hc hs c w = cc
  step_right_lem pc p ps child (node black x s far null) n hc hs c w =
      elim (Bool-cases (is_red (color far))) [
        | inl f ↦ inl (far_right_lem pc p ps child x s null far n hc hs.1 hs.0 f w)
        | inr f ↦ inr (none_right_lem pc p ps child x s null far n hc hs.1 hs.0 refl f w)
      ]
  step_right_lem pc p ps child (node black x s far (node red y t b a)) n hc hs c w =
      elim (Bool-cases (is_red (color far))) [
        | inl f ↦ inl (far_right_lem pc p ps child x s (node red y t b a) far n hc hs.1 hs.0 f w)
        | inr f ↦ inl (near_right_lem pc p ps child x s y t a b far n hc hs.1 hs.0 f w)
      ]
  step_right_lem pc p ps child (node black x s far (node black y t a b)) n hc hs c w =
      elim (Bool-cases (is_red (color far))) [
        | inl f ↦ inl (far_right_lem pc p ps child x s (node black y t a b) far n hc hs.1 hs.0 f w)
        | inr f ↦
            inr (none_right_lem pc p ps child x s (node black y t a b) far n hc hs.1 hs.0 refl f w)
      ]
