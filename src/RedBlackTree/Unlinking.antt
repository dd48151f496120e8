-- ===== src/RedBlackTree/Unlinking.antt =====
-- What RedBlackTreeRemove unlinks, before its loop.
use mathlib.Core.List.{append_assoc}
use rsplib.Base.{ℕ, List, [], ◌∷◌, ◌++◌, ◌≡◌, refl, sym, ap, ap₂, ◌∙◌, Bool, true, some}
use rsplib.RedBlackTree.{
  Color, Tree, null, node, Context, in_left, in_right, inorder, value_sum, update_value_sums,
}
use rsplib.RedBlackTree.Locating.{before, behind, Stands, Stands-left, Stands-right}
use rsplib.RedBlackTree.Remove.{
  Position, Unlinked, leftmost, without_leftmost, replace_by, replace_by_child, unlink_node,
  get_next,
}
use rsplib.RedBlackTree.Sums.{
  IsSummed, Sums, Sides, update_value_sums-Sides, update_value_sums-Sums,
}
use rsplib.RedBlackTree.Gaps.{
  Gap, left-Gap, right-Gap, other_content, first_of, update_value_sums-Gap,
  update_value_sums-Stands, before-update_value_sums, behind-update_value_sums,
}

module _ {ℓ} {A : Type ℓ} (value : A → ℕ) where
  -- The leftmost node of the subtree `t`
  record IsLeftmost (t : Tree A) (up : Context A) (next : Position A) : Type ℓ where
    gap : Gap next.hue next.right next.above
    sides : Sides value next.above
    summed : IsSummed value next.right
    same_before : before next.above ≡ before up
    same_behind : next.content ∷ (inorder next.right ++ behind next.above) ≡ inorder t ++ behind up

  leftmost_lem :
      (c : Color) (x : A) (s : ℕ) (l r : Tree A) (up : Context A)
      → Stands (node c x s l r) up
      → IsSummed value (node c x s l r)
      → Sides value up
      → (next : Position A) × (leftmost (node c x s l r) up ≡ some next)
        × IsLeftmost (node c x s l r) up next
  unfolding leftmost
  leftmost_lem c x s null r up h w v = (
    record { hue = c; content = x; sum = s; left = null; right = r; above = up },
    refl,
    record {
      gap = right-Gap c x s null r up h;
      sides = v;
      summed = w.2;
      same_before = refl;
      same_behind = refl;
    },
  )
  leftmost_lem c x s (node cl xl sl ll rl) r up h w v =
      let l = node cl xl sl ll rl in
      let (next, q, k) =
        leftmost_lem cl xl sl ll rl (in_left c x s r up) (Stands-left c x s l r up h) w.1
          (w.2, v) in
      (
        next,
        q,
        record {
          gap = k.gap;
          sides = k.sides;
          summed = k.summed;
          same_before = k.same_before;
          same_behind = k.same_behind ∙ sym (append_assoc (inorder l) (x ∷ inorder r) (behind up));
        },
      )

  -- The tree without the node, in its parts
  pub record IsUnlinked (l r : Tree A) (up : Context A) (u : Unlinked A) : Type ℓ where
    pub gap : Gap u.gone u.child u.above
    pub summed : IsSummed value u.child
    pub sums : Sums value u.above (value_sum u.child)
    pub same_order :
        before u.above ++ (inorder u.child ++ behind u.above)
        ≡ before up ++ (inorder l ++ (inorder r ++ behind up))

  -- The sums above the place are updated.
  updated-IsUnlinked :
      (c : Color) (child l r : Tree A) (up' up : Context A)
      → Gap c child up'
      → IsSummed value child
      → Sides value up'
      → before up' ++ (inorder child ++ behind up')
        ≡ before up ++ (inorder l ++ (inorder r ++ behind up))
      → IsUnlinked l r up (record {
        gone = c;
        child = child;
        above = update_value_sums value (value_sum child) up';
      })
  updated-IsUnlinked c child l r up' up g w v o = record {
    gap = update_value_sums-Gap value (value_sum child) c child up' g;
    summed = w;
    sums = update_value_sums-Sums value (value_sum child) up' v;
    same_order =
        ap₂ (λ ys zs. ys ++ (inorder child ++ zs))
          (before-update_value_sums value up' (value_sum child))
          (behind-update_value_sums value up' (value_sum child))
        ∙ o;
  }

  module _ (same : A → A → Bool) (same_pointer : (x : A) → same x x ≡ true) (c : Color) (x : A)
      (s : ℕ) where
    abbrev pub position : Tree A → Tree A → Context A → Position A
    position l r up = record { hue = c; content = x; sum = s; left = l; right = r; above = up }

    replace_by_lem :
        (l : Tree A) (cr : Color) (z : A) (sr : ℕ) (lr rr : Tree A) (up : Context A) (y : A)
        → (ys : List A) → Stands (node c x s l (node cr z sr lr rr)) up
        → IsSummed value (node c x s l (node cr z sr lr rr))
        → Sides value up
        → inorder (node cr z sr lr rr) ≡ y ∷ ys
        → (u : Unlinked A) × (replace_by value same (position l (node cr z sr lr rr) up) y ≡ some u)
          × IsUnlinked l (node cr z sr lr rr) up u
    unfolding replace_by
    replace_by_lem l cr z sr lr rr up y ys h w v e =
        let r = node cr z sr lr rr in
        let sum = value_sum (without_leftmost r) in
        let frame = in_right c y s l up in
        let frame' = update_value_sums value sum frame in
        let (next, q, k) =
          leftmost_lem cr z sr lr rr frame'
            (update_value_sums-Stands value sum r frame
              (other_content c x y s s l r up (Stands-right c x s l r up h)))
            w.2 (update_value_sums-Sides value sum frame (w.1, v)) in
        let b = before-update_value_sums value frame sum in
        let line : next.content ∷ (inorder next.right ++ behind next.above)
            ≡ inorder r ++ behind up =
          k.same_behind ∙ ap (λ zs. inorder r ++ zs) (behind-update_value_sums value frame sum) in
        let first : next.content ∷ (inorder next.right ++ behind next.above)
            ≡ y ∷ (ys ++ behind up) =
          line ∙ ap (λ zs. zs ++ behind up) e in
        let is_next : next.content ≡ y = cc in
        let hit : same y next.content ≡ true = ap (same y) is_next ∙ same_pointer y in
        let line' : y ∷ (inorder next.right ++ behind next.above) ≡ inorder r ++ behind up =
          ap (λ a. a ∷ (inorder next.right ++ behind next.above)) (sym is_next) ∙ line in
        let regroup : (before up ++ (inorder l ++ y ∷ []))
              ++ (inorder next.right ++ behind next.above)
            ≡ before up ++ (inorder l ++ (y ∷ (inorder next.right ++ behind next.above))) =
          simp append_assoc in
        let order : before next.above ++ (inorder next.right ++ behind next.above)
            ≡ before up ++ (inorder l ++ (inorder r ++ behind up)) =
          ap (λ zs. zs ++ (inorder next.right ++ behind next.above)) (k.same_before ∙ b)
          ∙ (regroup ∙ ap (λ zs. before up ++ (inorder l ++ zs)) line') in
        (
          record {
            gone = next.hue;
            child = next.right;
            above = update_value_sums value (value_sum next.right) next.above;
          },
          rw (q, hit, replace_by) refl,
          updated-IsUnlinked next.hue next.right l r next.above up k.gap k.summed k.sides order,
        )

    pub unlink_node_lem :
        (l r : Tree A) (up : Context A) (list : List A)
        → Stands (node c x s l r) up
        → IsSummed value (node c x s l r)
        → Sides value up
        → ((y : A) (ys : List A) → inorder r ≡ y ∷ ys → get_next (same x) list ≡ some y)
        → (u : Unlinked A) × (unlink_node value same (position l r up) list ≡ some u)
          × IsUnlinked l r up u
    unfolding unlink_node
    unlink_node_lem null r up list h w v g = (
      replace_by_child value (position null r up) r,
      refl,
      updated-IsUnlinked c r null r up up (right-Gap c x s null r up h) w.2 v refl,
    )
    unlink_node_lem (node cl xl sl ll rl) null up list h w v g =
        let l = node cl xl sl ll rl in
        (
          replace_by_child value (position l null up) l,
          refl,
          updated-IsUnlinked c l l null up up (left-Gap c x s l null up h) w.1 v refl,
        )
    unlink_node_lem (node cl xl sl ll rl) (node cr xr sr lr rr) up list h w v g =
        let l = node cl xl sl ll rl in
        let (y, ys, e) = first_of (inorder lr) xr (inorder rr) in
        let (u, q, k) = replace_by_lem l cr xr sr lr rr up y ys h w v e in
        (u, rw (g y ys e, unlink_node) q, k)
