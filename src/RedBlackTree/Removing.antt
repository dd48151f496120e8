-- ===== src/RedBlackTree/Removing.antt =====
-- RedBlackTreeRemove against the removal from a sorted storage.
use mathlib.Core.List.{append_assoc}
use rsplib.Base.{
  ℕ, suc, ◌-◌, List, ◌∷◌, ◌++◌, ◌≡◌, inl, inr, refl, sym, ap, subst, ◌∙◌, arith, some, Bool, true,
  false, Ordering, IsLawful, All, All-imp, length, length-append, ltb, lt→ltb,
}
use rsplib.RedBlackTree.{
  Color, red, black, Tree, node, Context, root, in_left, in_right, inorder, plug, color, blackened,
  value_sum, RedBlackTree,
}
use rsplib.RedBlackTree.Inserting.{IsPointerTest, IsValid, other_node}
use rsplib.RedBlackTree.Locating.{
  before, behind, inorder-plug_parts, IsSorted-parts, IsSound, IsSound-left, IsSound-right,
}
use rsplib.RedBlackTree.ListRemoval.{
  get_next_lem, unlink_list_lem, storage_remove_lem, remove-IsSorted,
}
use rsplib.RedBlackTree.Rebalancing.{remove_fix-Rebalanced}
use rsplib.RedBlackTree.Remove.{
  Position, Unlinked, position_tree, get_next, unlink_list, unlink_node, fix_unlinked, remove,
}
use rsplib.RedBlackTree.Shape.{
  IsRedBlack, Fits, Matches, plug-IsRedBlack, color-blackened, inorder-blackened,
}
use rsplib.RedBlackTree.Sums.{IsSummed, Sums, Sums-Sides, plug-IsSummed, blackened-IsSummed}
use rsplib.RedBlackTree.Gaps.{Gap}
use rsplib.RedBlackTree.Unlinking.{unlink_node_lem}
use rsplib.Storage
use rsplib.Storage.Order.{IsSorted}

module _ {ℓ} {A : Type ℓ} where
  -- Below a black node, or below any where the subtree is black, the root is black.
  plug-black :
      (t : Tree A) (up : Context A) (n : ℕ) → Matches t up → Fits up n → color (plug t up) ≡ black
  plug-black t root n (inl a) f = cc
  plug-black t root n (inr b) f = b
  plug-black t (in_left red x s r up) n m f = plug-black (node red x s t r) up n (inl f.2) f.3
  plug-black t (in_left black x s r up) n m f =
      plug-black (node black x s t r) up (suc n) (inr refl) f.1
  plug-black t (in_right red x s l up) n m f = plug-black (node red x s l t) up n (inl f.2) f.3
  plug-black t (in_right black x s l up) n m f =
      plug-black (node black x s l t) up (suc n) (inr refl) f.1

  module _ (value : A → ℕ) where
    -- Every place of a valid tree is sound.
    plug-IsSound :
        (t : Tree A) (up : Context A)
        → IsRedBlack (plug t up)
        → color (plug t up) ≡ black
        → IsSummed value (plug t up)
        → IsSound value t up
    plug-IsSound t root h c w = record { stands = (h.0, h.1, tt, inr c); summed = w; sums = tt }
    plug-IsSound t (in_left c' x s r up) h c w =
        IsSound-left value c' x s t r up (plug-IsSound (node c' x s t r) up h c w)
    plug-IsSound t (in_right c' x s l up) h c w =
        IsSound-right value c' x s l t up (plug-IsSound (node c' x s l t) up h c w)

    record IsRepaired (t t' : Tree A) : Type ℓ where
      same_order : inorder t' ≡ inorder t
      balanced : IsRedBlack t'
      black_root : color t' ≡ black
      summed : IsSummed value t'

    fix_unlinked_lem :
        (c : Color) (child : Tree A) (up : Context A)
        → Gap c child up
        → IsSummed value child
        → Sums value up (value_sum child)
        → (t' : Tree A) × (fix_unlinked value (record { gone = c; child = child; above = up })
            ≡ some t')
          × IsRepaired (plug child up) t'
    fix_unlinked_lem red child up (n, h, b, a, f) w v = (
      plug child up,
      refl,
      record {
        same_order = refl;
        balanced = plug-IsRedBlack child n up h (inr b) f;
        black_root = plug-black child up n (inr b) f;
        summed = plug-IsSummed value child up w v;
      },
    )
    fix_unlinked_lem black child up (n, h, f) w v =
        let (t, q, k) = remove_fix-Rebalanced value child up n h f w v in
        (
          blackened t,
          rw (fix_unlinked, q) refl,
          record {
            same_order = inorder-blackened t ∙ k.same_order;
            balanced = k.balanced;
            black_root = color-blackened t;
            summed = blackened-IsSummed value t k.summed;
          },
        )

  module _ (cmp : A → A → Ordering) (laws : IsLawful cmp) (same : A → A → Bool)
      (test : IsPointerTest same) (value : A → ℕ) where
    module _ (p : Position A) (t : RedBlackTree A) (place : plug (position_tree p) p.above ≡ t.tree)
        (valid : IsValid cmp value t) where
      abbrev front : List A
      front = before p.above ++ inorder p.left

      abbrev rear : List A
      rear = inorder p.right ++ behind p.above

      parts_of_tree : inorder t.tree ≡ front ++ p.content ∷ rear
      parts_of_tree =
          ap inorder (sym place)
          ∙ (inorder-plug_parts (position_tree p) p.above ∙ simp append_assoc)

      others : All (λ z. same p.content z ≡ false) front
      others =
          let sorted = subst (IsSorted cmp) parts_of_tree valid.sorted in
          let parts = IsSorted-parts cmp front p.content rear sorted in
          All-imp (λ z l. other_node cmp laws same test p.content z l) front parts.2

      place-IsSound : IsSound value (position_tree p) p.above
      place-IsSound =
          plug-IsSound value (position_tree p) p.above (subst IsRedBlack (sym place) valid.balanced)
            (subst (λ u. color u ≡ black) (sym place) valid.black_root)
            (subst (IsSummed value) (sym place) valid.summed)

      next_in_list :
          (y : A) (ys : List A)
          → inorder p.right ≡ y ∷ ys
          → get_next (same p.content) t.list ≡ some y
      next_in_list y ys e =
          ap (get_next (same p.content)) (
            valid.same_list
            ∙ (parts_of_tree ∙ ap (λ us. front ++ p.content ∷ (us ++ behind p.above)) e))
          ∙ get_next_lem (same p.content) front p.content y (ys ++ behind p.above) others
              (test.same_pointer p.content)

      -- The node can be unlinked, and the loop restores the tree.
      repaired :
          (u : Unlinked A) × (tree : Tree A) × (unlink_node value same p t.list ≡ some u)
          × (fix_unlinked value u ≡ some tree)
          × IsRepaired value (plug u.child u.above) tree
          × (inorder tree ≡ front ++ rear)
      repaired =
          let sound = place-IsSound in
          let (u, q, k) =
            unlink_node_lem value same test.same_pointer p.hue p.content p.sum p.left p.right
              p.above t.list sound.stands sound.summed (Sums-Sides value p.sum p.above sound.sums)
              next_in_list in
          let (tree, r, z) = fix_unlinked_lem value u.gone u.child u.above k.gap k.summed k.sums in
          (
            u,
            tree,
            q,
            r,
            z,
            z.same_order
                ∙ (inorder-plug_parts u.child u.above
                    ∙ (k.same_order ∙ sym (append_assoc (before p.above) (inorder p.left) rear))),
          )

      without_node-IsValid :
          (tree base : Tree A)
          → IsRepaired value base tree
          → inorder tree ≡ front ++ rear
          → (Storage.remove (same p.content) (inorder t.tree) ≡ some (p.content, inorder tree))
            × IsValid cmp value (record {
              tree = tree;
              list = unlink_list (same p.content) t.list;
              elements = t.elements - 1;
            })
      without_node-IsValid tree base z rest =
          let hit = test.same_pointer p.content in
          let removes : Storage.remove (same p.content) (inorder t.tree)
              ≡ some (p.content, inorder tree) =
            ap (Storage.remove (same p.content)) parts_of_tree
            ∙ (storage_remove_lem (same p.content) front p.content rear others hit
                ∙ ap (λ us. some (p.content, us)) (sym rest)) in
          (
            removes,
            record {
              sorted =
                  remove-IsSorted (same p.content) cmp p.content (inorder t.tree) (inorder tree)
                    removes valid.sorted;
              balanced = z.balanced;
              black_root = z.black_root;
              summed = z.summed;
              same_list =
                  ap (unlink_list (same p.content)) (valid.same_list ∙ parts_of_tree)
                  ∙ (unlink_list_lem (same p.content) front p.content rear others hit ∙ sym rest);
              counted = omega (
                arith,
                valid.counted,
                ap length parts_of_tree,
                ap length rest,
                length-append front (p.content ∷ rear),
                length-append front rear,
              );
            },
          )

      some_elements : ltb 0 t.elements ≡ true
      some_elements = lt→ltb 0 t.elements (
          omega
            (arith, valid.counted, ap length parts_of_tree, length-append front (p.content ∷ rear)))

    -- For a valid tree and a node in its place in the tree, RedBlackTreeRemove passes all its CHECKs
    -- and ends its loop. It leaves a valid tree, whose nodes are those that the removal of this node
    -- from the sorted storage leaves.
    pub remove-refines :
        (p : Position A) (t : RedBlackTree A)
        → plug (position_tree p) p.above ≡ t.tree
        → IsValid cmp value t
        → (t' : RedBlackTree A) × (remove value same p t ≡ some t')
          × (Storage.remove (same p.content) (inorder t.tree) ≡ some (p.content, inorder t'.tree))
          × IsValid cmp value t'
    unfolding remove
    remove-refines p t place valid =
        let (u, tree, q, r, z, rest) = repaired p t place valid in
        let t' : RedBlackTree A = record {
          tree = tree;
          list = unlink_list (same p.content) t.list;
          elements = t.elements - 1;
        } in
        let (removes, valid') =
          without_node-IsValid p t place valid tree (plug u.child u.above) z rest in
        (t', rw (remove, q, some_elements p t place valid, r) refl, removes, valid')
