-- ===== src/RedBlackTree/Insert.antt =====
-- RedBlackTreeInsert.
use rsplib.Base.{
  ℕ, ◌+◌, List, [], ◌∷◌, Option, none, some, Bool, Ordering, lt, eq, gt, if◌then◌else◌,
}
use rsplib.RedBlackTree.{
  red, black, is_red, Tree, null, node, Context, root, in_left, in_right, RedBlackTree, plug, color,
  blackened, find_prev, update_value_sums, rotate_left, rotate_right,
}

-- Where the search ends: at a node with the same key, or at a place for the new node.
pub data Place {ℓ} (A : Type ℓ) : Type ℓ where
  occupied : A → Place A
  free : Context A → Place A

-- The result is the new node, or the one with the same key, as for Storage.insert.
pub data Insertion {ℓ} (A : Type ℓ) : Type ℓ where
  linked : RedBlackTree A → Insertion A
  found : A → Insertion A

module _ {ℓ} {A : Type ℓ} where
  -- "Find location of new node"
  unfoldable pub locate : (A → A → Ordering) → A → Tree A → Context A → Place A
  locate cmp k null up = free up
  locate cmp k (node c x s l r) up = elim (cmp k x) [
    | lt ↦ locate cmp k l (in_left c x s r up)
    | gt ↦ locate cmp k r (in_right c x s l up)
    | eq ↦ occupied x
  ]

  -- doubleLinkedRingListAddAfter and doubleLinkedRingListAddHead. The node to add behind is found in
  -- the list by the test `is_it`.
  unfoldable pub add_after : (A → Bool) → A → List A → List A
  add_after is_it x [] = x ∷ []
  add_after is_it x (y ∷ ys) = if is_it y then y ∷ x ∷ ys else y ∷ add_after is_it x ys

  unfoldable pub link_list : (A → A → Bool) → Option A → A → List A → List A
  unfolding add_after
  link_list same none x list = x ∷ list
  link_list same (some prev) x list = add_after (same prev) x list

  abbrev pub attach : Option (Tree A) → Context A → Option (Tree A)
  attach none up = none
  attach (some t) up = some (plug t up)

  module _ (value : A → ℕ) where
    -- "Ensure red-black tree properties". The node is red; it is given by its content, its sum and
    -- its subtrees. The loop ends where the parent is black.
    unfoldable pub insert_fix : A → ℕ → Tree A → Tree A → Context A → Option (Tree A)
    unfolding rotate_left rotate_right
    insert_fix x s l r root = some (node red x s l r)
    insert_fix x s l r (in_left black p sp rp up) =
        some (plug (node red x s l r) (in_left black p sp rp up))
    insert_fix x s l r (in_right black p sp lp up) =
        some (plug (node red x s l r) (in_right black p sp lp up))
    insert_fix x s l r (in_left red p sp rp root) = none
    insert_fix x s l r (in_right red p sp lp root) = none
    insert_fix x s l r (in_left red p sp rp (in_left cg g sg uncle up)) =
        let parent = node black p sp (node red x s l r) rp in
        let rest = insert_fix g sg parent (blackened uncle) up in
        if is_red (color uncle)
        then rest
        else attach (rotate_right value (node red g sg parent uncle)) up
    insert_fix x s l r (in_right red p sp lp (in_left cg g sg uncle up)) =
        let this = node red x s l r in
        let rest = insert_fix g sg (node black p sp lp this) (blackened uncle) up in
        if is_red (color uncle) then rest else elim (rotate_left value (node red p sp lp this)) [
          | none ↦ none
          | some t ↦ attach (rotate_right value (node red g sg (blackened t) uncle)) up
        ]
    insert_fix x s l r (in_right red p sp lp (in_right cg g sg uncle up)) =
        let parent = node black p sp lp (node red x s l r) in
        let rest = insert_fix g sg (blackened uncle) parent up in
        if is_red (color uncle)
        then rest
        else attach (rotate_left value (node red g sg uncle parent)) up
    insert_fix x s l r (in_left red p sp rp (in_right cg g sg uncle up)) =
        let this = node red x s l r in
        let rest = insert_fix g sg (blackened uncle) (node black p sp this rp) up in
        if is_red (color uncle) then rest else elim (rotate_right value (node red p sp this rp)) [
          | none ↦ none
          | some t ↦ attach (rotate_left value (node red g sg uncle (blackened t))) up
        ]

    -- "Link node", "Update parent's value sum" and the rest. `same` is the equality of pointers.
    unfoldable pub link_at : (A → A → Bool) → A → RedBlackTree A → Context A → Option (Insertion A)
    unfolding link_list find_prev update_value_sums insert_fix
    link_at same x t up =
        elim (insert_fix x (value x) null null (update_value_sums value (value x) up)) [
          | none ↦ none
          | some fixed ↦ some (
              linked (record {
                tree = blackened fixed;
                list = link_list same (find_prev null up) x t.list;
                elements = t.elements + 1;
              }))
        ]

    unfoldable pub insert :
        (A → A → Ordering) → (A → A → Bool) → A → RedBlackTree A → Option (Insertion A)
    unfolding locate link_at
    insert cmp same x t = elim (locate cmp x t.tree root) [
      | occupied y ↦ some (found y)
      | free up ↦ link_at same x t up
    ]
