-- ===== src/RedBlackTree/Inserting.antt =====
-- RedBlackTreeInsert against the insertion into a sorted storage.
use mathlib.Core.List.{append-nil, append_assoc}
use rsplib.Base.{
  ℕ, ◌+◌, ◌<◌, ◌^◌, List, [], ◌∷◌, ◌++◌, ◌≡◌, ◌⊎◌, inl, inr, refl, sym, ap, subst, ◌∙◌, arith, none,
  some, Bool, true, false, Bool-cases, Ordering, lt, eq, IsLawful, All, All-imp, length,
  length-append,
}
use rsplib.RedBlackTree.{
  red, black, null, node, Context, root, in_left, in_right, inorder, color, blackened, RedBlackTree,
  left_parent, last_node, find_prev, update_value_sums,
}
use rsplib.RedBlackTree.Fixing.{insert_fix-Fixed}
use rsplib.RedBlackTree.Insert
use rsplib.RedBlackTree.Insert.{
  Place, free, occupied, locate, add_after, link_list, link_at, insert_fix,
}
use rsplib.RedBlackTree.Locating.{
  before, behind, inorder-plug_parts, IsSorted-parts, IsBetween, IsSound, insert_between,
  locate_lem,
}
use rsplib.RedBlackTree.Shape.{
  IsRedBlack, Fits, blackened-IsRedBlack, color-blackened, inorder-blackened,
}
use rsplib.RedBlackTree.Sums.{
  IsSummed, Sums-Sides, blackened-IsSummed, update_value_sums-Sums, update_value_sums-Fits,
  inorder-update_value_sums,
}
use rsplib.Storage
use rsplib.Storage.Order.{IsSorted, insert-Inserted, Inserts-IsSorted}

module _ {ℓ} {A : Type ℓ} where
  -- The equality of pointers to nodes
  pub record IsPointerTest (same : A → A → Bool) : Type ℓ where
    pub same_pointer : (x : A) → same x x ≡ true
    pub one_node : (x y : A) → same x y ≡ true → x ≡ y

  -- A red-black tree with its ring list: the nodes are sorted and stand in the list in the same
  -- order, the root is black, and the sums and the number of nodes are right.
  pub record IsValid (cmp : A → A → Ordering) (value : A → ℕ) (t : RedBlackTree A) : Type ℓ where
    pub sorted : IsSorted cmp (inorder t.tree)
    pub balanced : IsRedBlack t.tree
    pub black_root : color t.tree ≡ black
    pub summed : IsSummed value t.tree
    pub same_list : t.list ≡ inorder t.tree
    pub counted : t.elements ≡ length (inorder t.tree)

  pub left_parent_lem :
      (up : Context A)
      → ((left_parent up ≡ none) × (before up ≡ []))
        ⊎ ((y : A) × (ys : List A) × (left_parent up ≡ some y) × (before up ≡ ys ++ y ∷ []))
  unfolding left_parent
  left_parent_lem root = inl (refl, refl)
  left_parent_lem (in_left c x s r up) = left_parent_lem up
  left_parent_lem (in_right c x s l up) =
      inr (x, before up ++ inorder l, refl, sym (append_assoc (before up) (inorder l) (x ∷ [])))

  add_after_lem :
      (is_it : A → Bool) (x y : A) (ys zs : List A)
      → All (λ z. is_it z ≡ false) ys
      → is_it y ≡ true
      → add_after is_it x (ys ++ y ∷ zs) ≡ ys ++ y ∷ x ∷ zs
  unfolding add_after
  add_after_lem is_it x y [] zs h t = rw t refl
  add_after_lem is_it x y (z ∷ ys) zs h t = rw (h.0, add_after_lem is_it x y ys zs h.1 t) refl

  module _ (cmp : A → A → Ordering) (laws : IsLawful cmp) (same : A → A → Bool)
      (test : IsPointerTest same) where
    pub other_node : (y z : A) → cmp z y ≡ lt → same y z ≡ false
    other_node y z l = elim (Bool-cases (same y z)) [
      | inl t ↦
          let q : lt ≡ eq =
            sym l ∙ (ap (λ w. cmp w y) (sym (test.one_node y z t)) ∙ laws.same_key y) in
          cc
      | inr f ↦ f
    ]

    -- The node in front of a free place is the one to link the new node behind.
    pub link_list_lem :
        (x : A) (up : Context A)
        → IsSorted cmp (before up ++ behind up)
        → link_list same (find_prev null up) x (before up ++ behind up) ≡ before up ++ x ∷ behind up
    unfolding link_list find_prev last_node
    link_list_lem x up s = elim (left_parent_lem up) [
      | inl (q, e) ↦ rw (q, e) refl
      | inr (y, ys, q, e) ↦
          let split : before up ++ behind up ≡ ys ++ y ∷ behind up =
            ap (λ zs. zs ++ behind up) e ∙ append_assoc ys (y ∷ []) (behind up) in
          let parts = IsSorted-parts cmp ys y (behind up) (subst (IsSorted cmp) split s) in
          rw (q, split)
            (add_after_lem (same y) x y ys (behind up)
                (All-imp (λ z l. other_node y z l) ys parts.2) (test.same_pointer y)
              ∙ (sym (append_assoc ys (y ∷ []) (x ∷ behind up))
                  ∙ ap (λ zs. zs ++ x ∷ behind up) (sym e)))
    ]

    module _ (value : A → ℕ) (x : A) (fits : value x < 2 ^ 64) (t : RedBlackTree A)
        (valid : IsValid cmp value t) where
      link_at_lem :
          (up : Context A)
          → IsBetween cmp x up
          → IsSound value null up
          → before up ++ behind up ≡ inorder t.tree
          → (t' : RedBlackTree A) × (link_at value same x t up ≡ some (Insert.linked t'))
            × (inorder t'.tree ≡ before up ++ x ∷ behind up)
            × IsValid cmp value t'
      unfolding link_at
      link_at_lem up b v e =
          let up' = update_value_sums value (value x) up in
          let leaf = node red x (value x) null null in
          let (fixed, q, k) =
            insert_fix-Fixed value x (value x) null null up' 0 (refl, refl, refl, refl)
              (update_value_sums-Fits value (value x) 0 up (subst (Fits up) v.stands.1 v.stands.2))
              (omega arith, tt, tt)
              (update_value_sums-Sums value (value x) up (Sums-Sides value 0 up v.sums)) in
          let order : inorder (blackened fixed) ≡ before up ++ x ∷ behind up =
            inorder-blackened fixed
            ∙ (k.same_order
                ∙ (inorder-update_value_sums value (value x) leaf up
                    ∙ inorder-plug_parts leaf up)) in
          let inserts = insert_between cmp x (before up) (behind up) b.below b.above in
          let sorted_before = subst (IsSorted cmp) (sym e) valid.sorted in
          let t' : RedBlackTree A = record {
            tree = blackened fixed;
            list = link_list same (find_prev null up) x t.list;
            elements = t.elements + 1;
          } in
          (
            t',
            rw (q, link_at) refl,
            order,
            record {
              sorted = subst (IsSorted cmp) (sym order) (
                  insert-IsSorted (before up ++ behind up) (before up ++ x ∷ behind up) inserts
                    sorted_before);
              balanced = blackened-IsRedBlack fixed k.balanced;
              black_root = color-blackened fixed;
              summed = blackened-IsSummed value fixed k.summed;
              same_list =
                  ap (link_list same (find_prev null up) x) (valid.same_list ∙ sym e)
                  ∙ (link_list_lem x up sorted_before ∙ sym order);
              counted = omega (
                arith,
                valid.counted,
                ap length order,
                ap length e,
                length-append (before up) (behind up),
                length-append (before up) (x ∷ behind up),
              );
            },
          )
        where
          insert-IsSorted :
              (ys zs : List A)
              → Storage.insert cmp x ys ≡ Storage.linked zs
              → IsSorted cmp ys
              → IsSorted cmp zs
          insert-IsSorted ys zs q s = elim (insert-Inserted cmp x ys) [
            | inl (zs', e, i) ↦
                let same : zs' ≡ zs = cc in
                subst (IsSorted cmp) same (Inserts-IsSorted cmp x laws i s)
            | inr (z, e, c) ↦ cc
          ]

  -- What an insertion means for the sorted storage
  abbrev pub storage_insertion : Insert.Insertion A → Storage.Insertion A
  storage_insertion (Insert.linked t) = Storage.linked (inorder t.tree)
  storage_insertion (Insert.found y) = Storage.found y

  -- The tree that an insertion leaves, which is the old one where the key is there already
  abbrev pub tree_after : RedBlackTree A → Insert.Insertion A → RedBlackTree A
  tree_after t (Insert.linked t') = t'
  tree_after t (Insert.found y) = t

  module _ (cmp : A → A → Ordering) (laws : IsLawful cmp) (same : A → A → Bool)
      (test : IsPointerTest same) (value : A → ℕ) where
    -- For a valid tree and a new node whose value fits into 64 bits, RedBlackTreeInsert passes all
    -- its CHECKs and ends its loop. It links the node or finds another one exactly as the insertion
    -- into the sorted storage does, with the same nodes afterwards, and the tree is valid again.
    pub insert-refines :
        (x : A) (t : RedBlackTree A)
        → value x < 2 ^ 64
        → IsValid cmp value t
        → (i : Insert.Insertion A) × (Insert.insert value cmp same x t ≡ some i)
          × (storage_insertion i ≡ Storage.insert cmp x (inorder t.tree))
          × IsValid cmp value (tree_after t i)
    unfolding Insert.insert
    insert-refines x t fits valid =
        let sound : IsSound value t.tree root = record {
          stands = (valid.balanced.0, valid.balanced.1, tt, inr valid.black_root);
          summed = valid.summed;
          sums = tt;
        } in
        let all : inorder t.tree ++ [] ≡ inorder t.tree = append-nil (inorder t.tree) in
        elim (locate_lem value cmp laws x t.tree root valid.sorted
          (record { below = tt; above = tt }) sound) [
            | inl (up, q, b, v, e) ↦
                let (t', r, o, valid') =
                  link_at_lem cmp laws same test value x fits t valid up b v (e ∙ all) in
                (
                  Insert.linked t',
                  rw (q, Insert.insert) r,
                  ap Storage.linked o
                      ∙ (sym (insert_between cmp x (before up) (behind up) b.below b.above)
                          ∙ ap (Storage.insert cmp x) (e ∙ all)),
                  valid',
                )
            | inr (y, q, o) ↦ (
              Insert.found y,
              rw (q, Insert.insert) refl,
              sym (sym (ap (Storage.insert cmp x) all) ∙ o),
              valid,
            )
          ]
