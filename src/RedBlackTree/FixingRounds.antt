-- ===== src/RedBlackTree/FixingRounds.antt =====
-- One round of the loop at the end of RedBlackTreeInsert: the uncle is red or black, and the node and
-- its parent are left or right subtrees.
use mathlib.Core.List.{append_assoc}
use rsplib.Base.{
  ℕ, suc, ◌+◌, ◌%◌, ◌^◌, ◌∷◌, ◌++◌, ◌≡◌, inr, refl, sym, ap, subst, ◌∙◌, arith, true, false, some,
}
use rsplib.RedBlackTree.{
  red, black, is_red, Tree, null, node, Context, in_left, in_right, inorder, plug, color, blackened,
  value_sum, rotate_left, rotate_right,
}
use rsplib.RedBlackTree.Insert.{insert_fix}
use rsplib.RedBlackTree.Shape.{
  Height, IsRedBlack, Fits, Matches, plug-IsRedBlack, inorder-plug, inorder-blackened,
}
use rsplib.RedBlackTree.Sums.{IsSummed, Sums, plug-IsSummed}

module _ {ℓ} {A : Type ℓ} where
  pub blackened-Height :
      (t : Tree A) (n : ℕ) → is_red (color t) ≡ true → Height t n → Height (blackened t) (suc n)
  blackened-Height null n c h = cc
  blackened-Height (node red x s l r) n c h = (h.0, h.1)
  blackened-Height (node black x s l r) n c h = cc

  pub color-black : (t : Tree A) → is_red (color t) ≡ false → color t ≡ black
  color-black null c = refl
  color-black (node red x s l r) c = cc
  color-black (node black x s l r) c = refl

  module _ (value : A → ℕ) where
    -- `t'` is a red-black tree with the nodes of `t` in their order, and its sums are right.
    pub record Fixed (t t' : Tree A) : Type ℓ where
      pub same_order : inorder t' ≡ inorder t
      pub balanced : IsRedBlack t'
      pub summed : IsSummed value t'

    -- A subtree is replaced by one with the same nodes and the same sum.
    pub plug-Fixed :
        (t u : Tree A) (n : ℕ) (up : Context A)
        → inorder u ≡ inorder t
        → Height u n
        → Matches u up
        → Fits up n
        → IsSummed value u
        → value_sum u ≡ value_sum t
        → Sums value up (value_sum t)
        → Fixed (plug t up) (plug u up)
    plug-Fixed t u n up o h c f w s v = record {
      same_order = inorder-plug u t up o;
      balanced = plug-IsRedBlack u n up h c f;
      summed = plug-IsSummed value u up w (subst (Sums value up) (sym s) v);
    }

    -- The loop, from a red node on, ends with a tree that has been put right.
    abbrev pub Repairs : A → ℕ → Tree A → Tree A → Context A → Type ℓ
    Repairs x s l r up =
        (t' : Tree A) × (insert_fix value x s l r up ≡ some t')
        × Fixed (plug (node red x s l r) up) t'

    reordered-Fixed :
        (u old t' : Tree A) (up : Context A)
        → Fixed (plug u up) t'
        → inorder u ≡ inorder old
        → Fixed (plug old up) t'
    reordered-Fixed u old t' up k o = record {
      same_order = k.same_order ∙ inorder-plug u old up o;
      balanced = k.balanced;
      summed = k.summed;
    }

    pub recolor_left_left :
        (x : A) (s : ℕ) (l r : Tree A) (p : A) (sp : ℕ) (rp : Tree A) (g : A) (sg : ℕ) (u : Tree A)
        (up : Context A) (n : ℕ)
        → is_red (color u) ≡ true
        → Repairs g sg (node black p sp (node red x s l r) rp) (blackened u) up
        → Repairs x s l r (in_left red p sp rp (in_left black g sg u up))
    unfolding insert_fix
    recolor_left_left x s l r p sp rp g sg u up n c (t', q, k) =
        let t = node red x s l r in
        let old = node black g sg (node red p sp t rp) u in
        (
          t',
          rw c q,
          reordered-Fixed (node red g sg (node black p sp t rp) (blackened u)) old t' up k
              (ap (λ ys. inorder (node black p sp t rp) ++ g ∷ ys) (inorder-blackened u)),
        )

    pub rotate_left_left :
        (x : A) (s : ℕ) (l r : Tree A) (p : A) (sp : ℕ) (rp : Tree A) (g : A) (sg : ℕ) (u : Tree A)
        (up : Context A) (n : ℕ)
        → Height (node red x s l r) n
        → Fits (in_left red p sp rp (in_left black g sg u up)) n
        → IsSummed value (node red x s l r)
        → Sums value (in_left red p sp rp (in_left black g sg u up)) s
        → is_red (color u) ≡ false
        → Repairs x s l r (in_left red p sp rp (in_left black g sg u up))
    unfolding insert_fix rotate_left rotate_right
    rotate_left_left x s l r p sp rp g sg u up n h f w v c =
        let t = node red x s l r in
        let old = node black g sg (node red p sp t rp) u in
        let s3 = (value_sum rp + value g + value_sum u) % 2 ^ 64 in
        let s2 = (s + value p + s3) % 2 ^ 64 in
        let top = node black p s2 t (node red g s3 rp u) in
        let e1 = v.0 in
        let e2 = v.2.0 in
        (
          plug top up,
          rw c refl,
          plug-Fixed old top (suc n) up (simp append_assoc) (h, (f.0, f.3.0, f.1, color-black u c))
              (inr refl) f.3.1 (refl, w, (refl, v.1, v.2.1)) (omega arith) v.2.2,
        )

    pub recolor_right_right :
        (x : A) (s : ℕ) (l r : Tree A) (p : A) (sp : ℕ) (lp : Tree A) (g : A) (sg : ℕ) (u : Tree A)
        (up : Context A) (n : ℕ)
        → is_red (color u) ≡ true
        → Repairs g sg (blackened u) (node black p sp lp (node red x s l r)) up
        → Repairs x s l r (in_right red p sp lp (in_right black g sg u up))
    unfolding insert_fix
    recolor_right_right x s l r p sp lp g sg u up n c (t', q, k) =
        let t = node red x s l r in
        let old = node black g sg u (node red p sp lp t) in
        (
          t',
          rw c q,
          reordered-Fixed (node red g sg (blackened u) (node black p sp lp t)) old t' up k
              (ap (λ ys. ys ++ g ∷ inorder (node black p sp lp t)) (inorder-blackened u)),
        )

    pub rotate_right_right :
        (x : A) (s : ℕ) (l r : Tree A) (p : A) (sp : ℕ) (lp : Tree A) (g : A) (sg : ℕ) (u : Tree A)
        (up : Context A) (n : ℕ)
        → Height (node red x s l r) n
        → Fits (in_right red p sp lp (in_right black g sg u up)) n
        → IsSummed value (node red x s l r)
        → Sums value (in_right red p sp lp (in_right black g sg u up)) s
        → is_red (color u) ≡ false
        → Repairs x s l r (in_right red p sp lp (in_right black g sg u up))
    unfolding insert_fix rotate_left rotate_right
    rotate_right_right x s l r p sp lp g sg u up n h f w v c =
        let t = node red x s l r in
        let old = node black g sg u (node red p sp lp t) in
        let s3 = (value_sum u + value g + value_sum lp) % 2 ^ 64 in
        let s2 = (s3 + value p + s) % 2 ^ 64 in
        let top = node black p s2 (node red g s3 u lp) t in
        let e1 = v.0 in
        let e2 = v.2.0 in
        (
          plug top up,
          rw c refl,
          plug-Fixed old top (suc n) up (simp append_assoc) ((f.3.0, f.0, color-black u c, f.1), h)
              (inr refl) f.3.1 (refl, (refl, v.2.1, v.1), w) (omega arith) v.2.2,
        )

    pub recolor_right_left :
        (x : A) (s : ℕ) (l r : Tree A) (p : A) (sp : ℕ) (lp : Tree A) (g : A) (sg : ℕ) (u : Tree A)
        (up : Context A) (n : ℕ)
        → is_red (color u) ≡ true
        → Repairs g sg (node black p sp lp (node red x s l r)) (blackened u) up
        → Repairs x s l r (in_right red p sp lp (in_left black g sg u up))
    unfolding insert_fix
    recolor_right_left x s l r p sp lp g sg u up n c (t', q, k) =
        let t = node red x s l r in
        let old = node black g sg (node red p sp lp t) u in
        (
          t',
          rw c q,
          reordered-Fixed (node red g sg (node black p sp lp t) (blackened u)) old t' up k
              (ap (λ ys. inorder (node black p sp lp t) ++ g ∷ ys) (inorder-blackened u)),
        )

    pub rotate_right_left :
        (x : A) (s : ℕ) (l r : Tree A) (p : A) (sp : ℕ) (lp : Tree A) (g : A) (sg : ℕ) (u : Tree A)
        (up : Context A) (n : ℕ)
        → Height (node red x s l r) n
        → Fits (in_right red p sp lp (in_left black g sg u up)) n
        → IsSummed value (node red x s l r)
        → Sums value (in_right red p sp lp (in_left black g sg u up)) s
        → is_red (color u) ≡ false
        → Repairs x s l r (in_right red p sp lp (in_left black g sg u up))
    unfolding insert_fix rotate_left rotate_right
    rotate_right_left x s l r p sp lp g sg u up n h f w v c =
        let t = node red x s l r in
        let old = node black g sg (node red p sp lp t) u in
        let sl = (value_sum lp + value p + value_sum l) % 2 ^ 64 in
        let sr = (value_sum r + value g + value_sum u) % 2 ^ 64 in
        let top =
          node black x ((sl + value x + sr) % 2 ^ 64) (node red p sl lp l) (node red g sr r u) in
        let e0 = w.0 in
        let e1 = v.0 in
        let e2 = v.2.0 in
        (
          plug top up,
          rw c refl,
          plug-Fixed old top (suc n) up (simp append_assoc)
              ((f.0, h.0, f.1, h.2), (h.1, f.3.0, h.3, color-black u c)) (inr refl) f.3.1
              (refl, (refl, v.1, w.1), (refl, w.2, v.2.1)) (omega arith) v.2.2,
        )

    pub recolor_left_right :
        (x : A) (s : ℕ) (l r : Tree A) (p : A) (sp : ℕ) (rp : Tree A) (g : A) (sg : ℕ) (u : Tree A)
        (up : Context A) (n : ℕ)
        → is_red (color u) ≡ true
        → Repairs g sg (blackened u) (node black p sp (node red x s l r) rp) up
        → Repairs x s l r (in_left red p sp rp (in_right black g sg u up))
    unfolding insert_fix
    recolor_left_right x s l r p sp rp g sg u up n c (t', q, k) =
        let t = node red x s l r in
        let old = node black g sg u (node red p sp t rp) in
        (
          t',
          rw c q,
          reordered-Fixed (node red g sg (blackened u) (node black p sp t rp)) old t' up k
              (ap (λ ys. ys ++ g ∷ inorder (node black p sp t rp)) (inorder-blackened u)),
        )

    pub rotate_left_right :
        (x : A) (s : ℕ) (l r : Tree A) (p : A) (sp : ℕ) (rp : Tree A) (g : A) (sg : ℕ) (u : Tree A)
        (up : Context A) (n : ℕ)
        → Height (node red x s l r) n
        → Fits (in_left red p sp rp (in_right black g sg u up)) n
        → IsSummed value (node red x s l r)
        → Sums value (in_left red p sp rp (in_right black g sg u up)) s
        → is_red (color u) ≡ false
        → Repairs x s l r (in_left red p sp rp (in_right black g sg u up))
    unfolding insert_fix rotate_left rotate_right
    rotate_left_right x s l r p sp rp g sg u up n h f w v c =
        let t = node red x s l r in
        let old = node black g sg u (node red p sp t rp) in
        let sl = (value_sum u + value g + value_sum l) % 2 ^ 64 in
        let sr = (value_sum r + value p + value_sum rp) % 2 ^ 64 in
        let top =
          node black x ((sl + value x + sr) % 2 ^ 64) (node red g sl u l) (node red p sr r rp) in
        let e0 = w.0 in
        let e1 = v.0 in
        let e2 = v.2.0 in
        (
          plug top up,
          rw c refl,
          plug-Fixed old top (suc n) up (simp append_assoc)
              ((f.3.0, h.0, color-black u c, h.2), (h.1, f.0, h.3, f.1)) (inr refl) f.3.1
              (refl, (refl, v.2.1, w.1), (refl, w.2, v.1)) (omega arith) v.2.2,
        )
