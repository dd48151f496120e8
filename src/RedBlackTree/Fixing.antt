-- ===== src/RedBlackTree/Fixing.antt =====
-- The loop at the end of RedBlackTreeInsert restores the red-black properties and the value sums.
use rsplib.Base.{ℕ, suc, ◌+◌, ◌%◌, ◌^◌, inl, inr, refl, sym, ap, ◌∙◌, Bool-cases}
use rsplib.RedBlackTree.{
  red, black, is_red, Tree, node, Context, root, in_left, in_right, color, blackened,
}
use rsplib.RedBlackTree.Insert.{insert_fix}
use rsplib.RedBlackTree.Shape.{Height, Fits, color-blackened}
use rsplib.RedBlackTree.Sums.{IsSummed, Sums, blackened-IsSummed, value_sum-blackened}
use rsplib.RedBlackTree.FixingRounds.{
  blackened-Height, plug-Fixed, Repairs, recolor_left_left, recolor_right_right, recolor_right_left,
  recolor_left_right, rotate_left_left, rotate_right_right, rotate_right_left, rotate_left_right,
}

module _ {ℓ} {A : Type ℓ} (value : A → ℕ) where
  pub insert_fix-Fixed :
      (x : A) (s : ℕ) (l r : Tree A) (up : Context A) (n : ℕ)
      → Height (node red x s l r) n
      → Fits up n
      → IsSummed value (node red x s l r)
      → Sums value up s
      → Repairs value x s l r up
  unfolding insert_fix
  insert_fix-Fixed x s l r root n h f w v =
      (node red x s l r, refl, record { same_order = refl; balanced = (n, h); summed = w })
  insert_fix-Fixed x s l r (in_left black p sp rp up) n h f w v =
      let t = node red x s l r in
      (_, refl, plug-Fixed value t t n (in_left black p sp rp up) refl h (inl refl) f w refl v)
  insert_fix-Fixed x s l r (in_right black p sp lp up) n h f w v =
      let t = node red x s l r in
      (_, refl, plug-Fixed value t t n (in_right black p sp lp up) refl h (inl refl) f w refl v)
  insert_fix-Fixed x s l r (in_left red p sp rp root) n h f w v = absurd (let k = f.2 in cc)
  insert_fix-Fixed x s l r (in_right red p sp lp root) n h f w v = absurd (let k = f.2 in cc)
  insert_fix-Fixed x s l r (in_left red p sp rp (in_left red g sg u up)) n h f w v =
      absurd (let k = f.2 in cc)
  insert_fix-Fixed x s l r (in_right red p sp lp (in_left red g sg u up)) n h f w v =
      absurd (let k = f.2 in cc)
  insert_fix-Fixed x s l r (in_right red p sp lp (in_right red g sg u up)) n h f w v =
      absurd (let k = f.2 in cc)
  insert_fix-Fixed x s l r (in_left red p sp rp (in_right red g sg u up)) n h f w v =
      absurd (let k = f.2 in cc)
  insert_fix-Fixed x s l r (in_left red p sp rp (in_left black g sg u up)) n h f w v =
      let t = node red x s l r in
      elim (Bool-cases (is_red (color u))) [
        | inl c ↦ recolor_left_left value x s l r p sp rp g sg u up n c (
            insert_fix-Fixed g sg (node black p sp t rp) (blackened u) up (suc n)
              ((h, f.0), blackened-Height u n c f.3.0, refl, color-blackened u) f.3.1
              (
                v.2.0 ∙ ap (λ i. (sp + value g + i) % 2 ^ 64) (sym (value_sum-blackened value u)),
                (v.0, w, v.1),
                blackened-IsSummed value u v.2.1,
              )
              v.2.2)
        | inr c ↦ rotate_left_left value x s l r p sp rp g sg u up n h f w v c
      ]
  insert_fix-Fixed x s l r (in_right red p sp lp (in_right black g sg u up)) n h f w v =
      let t = node red x s l r in
      elim (Bool-cases (is_red (color u))) [
        | inl c ↦ recolor_right_right value x s l r p sp lp g sg u up n c (
            insert_fix-Fixed g sg (blackened u) (node black p sp lp t) up (suc n)
              (blackened-Height u n c f.3.0, (f.0, h), color-blackened u, refl) f.3.1
              (
                v.2.0 ∙ ap (λ i. (i + value g + sp) % 2 ^ 64) (sym (value_sum-blackened value u)),
                blackened-IsSummed value u v.2.1,
                (v.0, v.1, w),
              )
              v.2.2)
        | inr c ↦ rotate_right_right value x s l r p sp lp g sg u up n h f w v c
      ]
  insert_fix-Fixed x s l r (in_right red p sp lp (in_left black g sg u up)) n h f w v =
      let t = node red x s l r in
      elim (Bool-cases (is_red (color u))) [
        | inl c ↦ recolor_right_left value x s l r p sp lp g sg u up n c (
            insert_fix-Fixed g sg (node black p sp lp t) (blackened u) up (suc n)
              ((f.0, h), blackened-Height u n c f.3.0, refl, color-blackened u) f.3.1
              (
                v.2.0 ∙ ap (λ i. (sp + value g + i) % 2 ^ 64) (sym (value_sum-blackened value u)),
                (v.0, v.1, w),
                blackened-IsSummed value u v.2.1,
              )
              v.2.2)
        | inr c ↦ rotate_right_left value x s l r p sp lp g sg u up n h f w v c
      ]
  insert_fix-Fixed x s l r (in_left red p sp rp (in_right black g sg u up)) n h f w v =
      let t = node red x s l r in
      elim (Bool-cases (is_red (color u))) [
        | inl c ↦ recolor_left_right value x s l r p sp rp g sg u up n c (
            insert_fix-Fixed g sg (blackened u) (node black p sp t rp) up (suc n)
              (blackened-Height u n c f.3.0, (h, f.0), color-blackened u, refl) f.3.1
              (
                v.2.0 ∙ ap (λ i. (i + value g + sp) % 2 ^ 64) (sym (value_sum-blackened value u)),
                blackened-IsSummed value u v.2.1,
                (v.0, w, v.1),
              )
              v.2.2)
        | inr c ↦ rotate_left_right value x s l r p sp rp g sg u up n h f w v c
      ]
