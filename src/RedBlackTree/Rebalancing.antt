-- ===== src/RedBlackTree/Rebalancing.antt =====
-- The loop of RedBlackTreeRemove restores the red-black properties and keeps the value sums.
use rsplib.Base.{ℕ, suc, ◌≡◌, inl, inr, refl, sym, ap, subst, ◌∙◌, true, false, Bool-cases, some}
use rsplib.RedBlackTree.{
  Color, red, black, is_red, Tree, null, node, Context, root, in_left, in_right, inorder, plug,
  color, blackened, value_sum,
}
use rsplib.RedBlackTree.FixingRounds.{color-black}
use rsplib.RedBlackTree.RemoveLoop.{in_loop, remove_fix, red_sister_left, red_sister_right}
use rsplib.RedBlackTree.Shape.{
  Height, IsRedBlack, Fits, plug-IsRedBlack, blackened-IsRedBlack, inorder-plug, inorder-blackened,
  color-blackened,
}
use rsplib.RedBlackTree.StepLeft.{step_left_lem}
use rsplib.RedBlackTree.StepRight.{step_right_lem}
use rsplib.RedBlackTree.Sums.{
  IsSummed, Sums, plug-IsSummed, blackened-IsSummed, value_sum-blackened,
}
use rsplib.RedBlackTree.Frames.{
  IsShort, Frame, left-Frame, right-Frame, parent-IsShort, plug-color, plug_settled,
}
use rsplib.RedBlackTree.RedSister.{red_sister_left_lem, red_sister_right_lem}

module _ {ℓ} {A : Type ℓ} (value : A → ℕ) where
  -- `t'` has the nodes of `t` in their order and right sums, and is a red-black tree when its root
  -- is made black.
  pub record Rebalanced (t t' : Tree A) : Type ℓ where
    pub same_order : inorder t' ≡ inorder t
    pub balanced : IsRedBlack (blackened t')
    pub summed : IsSummed value t'

  replaced-Rebalanced :
      (t u : Tree A) (up : Context A)
      → inorder u ≡ inorder t
      → IsRedBlack (blackened (plug u up))
      → IsSummed value u
      → value_sum u ≡ value_sum t
      → Sums value up (value_sum t)
      → Rebalanced (plug t up) (plug u up)
  replaced-Rebalanced t u up o h w e v = record {
    same_order = inorder-plug u t up o;
    balanced = h;
    summed = plug-IsSummed value u up w (subst (Sums value up) (sym e) v);
  }

  -- A red sister stands below a black parent.
  black_over_left :
      (pc : Color) (p : A) (ps : ℕ) (child sister : Tree A) (up : Context A) (n : ℕ)
      → Frame pc sister up n
      → Height child n
      → is_red (color sister) ≡ true
      → IsSummed value (node pc p ps child sister)
      → Sums value up ps
      → (t' : Tree A) × (red_sister_left value p ps child sister ≡ some t')
        × Rebalanced (plug (node pc p ps child sister) up) (plug t' up)
  black_over_left red p ps child sister up n f h c w v =
      absurd (let e = ap is_red (f.under_red refl).1 in cc)
  black_over_left black p ps child null up n f h c w v = cc
  black_over_left black p ps child (node black x s l r) up n f h c w v = cc
  black_over_left black p ps child (node red x s l r) up n f h c w v =
      let (u, q, k) = red_sister_left_lem value p ps child x s l r n h f.height w in
      (
        u,
        q,
        replaced-Rebalanced (node black p ps child (node red x s l r)) u up k.same_order
            (plug-color black up (node red x s l r) u n f k.same_color k.height) k.summed k.same_sum
            v,
      )

  -- A red sister stands below a black parent.
  black_over_right :
      (pc : Color) (p : A) (ps : ℕ) (child sister : Tree A) (up : Context A) (n : ℕ)
      → Frame pc sister up n
      → Height child n
      → is_red (color sister) ≡ true
      → IsSummed value (node pc p ps sister child)
      → Sums value up ps
      → (t' : Tree A) × (red_sister_right value p ps child sister ≡ some t')
        × Rebalanced (plug (node pc p ps sister child) up) (plug t' up)
  black_over_right red p ps child sister up n f h c w v =
      absurd (let e = ap is_red (f.under_red refl).1 in cc)
  black_over_right black p ps child null up n f h c w v = cc
  black_over_right black p ps child (node black x s l r) up n f h c w v = cc
  black_over_right black p ps child (node red x s l r) up n f h c w v =
      let (u, q, k) = red_sister_right_lem value p ps child x s r l n h f.height w in
      (
        u,
        q,
        replaced-Rebalanced (node black p ps (node red x s l r) child) u up k.same_order
            (plug-color black up (node red x s l r) u n f k.same_color k.height) k.summed k.same_sum
            v,
      )

  black_root : (t : Tree A) (n : ℕ) → IsShort t n → IsRedBlack (blackened t)
  black_root t n (inl (e, h)) = (suc n, h)
  black_root t n (inr (e, h)) = blackened-IsRedBlack t (n, h)

  pub remove_fix-Rebalanced :
      (child : Tree A) (up : Context A) (n : ℕ)
      → IsShort child n
      → Fits up (suc n)
      → IsSummed value child
      → Sums value up (value_sum child)
      → (t' : Tree A) × (remove_fix value child up ≡ some t') × Rebalanced (plug child up) t'
  unfolding remove_fix
  remove_fix-Rebalanced child root n short f w v = (
    blackened child,
    refl,
    record {
      same_order = inorder-blackened child;
      balanced = blackened-IsRedBlack (blackened child) (black_root child n short);
      summed = blackened-IsSummed value child w;
    },
  )
  remove_fix-Rebalanced child (in_left pc p ps sister up) n (inl (e, h)) f w v =
      let b = blackened child in
      let c : is_red (color child) ≡ true = ap is_red e in
      (
        plug b (in_left pc p ps sister up),
        rw c refl,
        replaced-Rebalanced child b (in_left pc p ps sister up) (inorder-blackened child)
            (blackened-IsRedBlack (plug b (in_left pc p ps sister up)) (
              plug-IsRedBlack b (suc n) (in_left pc p ps sister up) h (inr (color-blackened child))
                f))
            (blackened-IsSummed value child w) (value_sum-blackened value child) v,
      )
  remove_fix-Rebalanced child (in_left pc p ps sister up) n (inr (e, h)) f w v =
      let c : is_red (color child) ≡ false = ap is_red e in
      let frame = left-Frame pc p ps sister up n f in
      elim (Bool-cases (is_red (color sister))) [
        | inl d ↦
            let (t', q, k) =
              black_over_left pc p ps child sister up n frame h d (v.0, w, v.1) v.2 in
            (plug t' up, rw (c, d, q) refl, k)
        | inr d ↦
            elim (step_left_lem value (in_loop pc up) p ps child sister n h frame.height
              (color-black sister d) (v.0, w, v.1)) [
                | inl (u, q, k) ↦ (
                  plug u up,
                  rw (c, d, q) refl,
                  replaced-Rebalanced (node pc p ps child sister) u up k.same_order
                      (plug_settled pc up sister u n frame k.same_color k.height) k.summed
                      k.same_sum v.2,
                )
                | inr (u, q, k) ↦
                    let (m, s, f') = parent-IsShort pc up u n frame.fits k.same_color k.height in
                    let (t', r, z) =
                      remove_fix-Rebalanced u up m s f' k.summed
                        (subst (Sums value up) (sym k.same_sum) v.2) in
                    (
                      t',
                      rw (c, d, q) r,
                      record {
                        same_order =
                            z.same_order
                            ∙ inorder-plug u (node pc p ps child sister) up k.same_order;
                        balanced = z.balanced;
                        summed = z.summed;
                      },
                    )
              ]
      ]
  remove_fix-Rebalanced child (in_right pc p ps sister up) n (inl (e, h)) f w v =
      let b = blackened child in
      let c : is_red (color child) ≡ true = ap is_red e in
      (
        plug b (in_right pc p ps sister up),
        rw c refl,
        replaced-Rebalanced child b (in_right pc p ps sister up) (inorder-blackened child)
            (blackened-IsRedBlack (plug b (in_right pc p ps sister up)) (
              plug-IsRedBlack b (suc n) (in_right pc p ps sister up) h (inr (color-blackened child))
                f))
            (blackened-IsSummed value child w) (value_sum-blackened value child) v,
      )
  remove_fix-Rebalanced child (in_right pc p ps sister up) n (inr (e, h)) f w v =
      let c : is_red (color child) ≡ false = ap is_red e in
      let frame = right-Frame pc p ps sister up n f in
      elim (Bool-cases (is_red (color sister))) [
        | inl d ↦
            let (t', q, k) =
              black_over_right pc p ps child sister up n frame h d (v.0, v.1, w) v.2 in
            (plug t' up, rw (c, d, q) refl, k)
        | inr d ↦
            elim (step_right_lem value (in_loop pc up) p ps child sister n h frame.height
              (color-black sister d) (v.0, v.1, w)) [
                | inl (u, q, k) ↦ (
                  plug u up,
                  rw (c, d, q) refl,
                  replaced-Rebalanced (node pc p ps sister child) u up k.same_order
                      (plug_settled pc up sister u n frame k.same_color k.height) k.summed
                      k.same_sum v.2,
                )
                | inr (u, q, k) ↦
                    let (m, s, f') = parent-IsShort pc up u n frame.fits k.same_color k.height in
                    let (t', r, z) =
                      remove_fix-Rebalanced u up m s f' k.summed
                        (subst (Sums value up) (sym k.same_sum) v.2) in
                    (
                      t',
                      rw (c, d, q) r,
                      record {
                        same_order =
                            z.same_order
                            ∙ inorder-plug u (node pc p ps sister child) up k.same_order;
                        balanced = z.balanced;
                        summed = z.summed;
                      },
                    )
              ]
      ]
