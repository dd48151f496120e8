-- ===== src/RedBlackTree.antt =====
-- src/redblacktree.h and src/redblacktree_impl.h with USE_LEAFLINKED, and the ring list of
-- src/doublelinkedringlist.c. A pointer to a node inside the tree is the subtree under it and the
-- context above it, which is reached by its Parent pointers. The NullNode of the tree stands both
-- below the leaves, where it is `null`, and above the root, where it is `root`. The ring list is the
-- list of its nodes from the head on. The result `none` is a failed CHECK, or a rotation in which the
-- NullNode would take part.
pub mod Insert
pub mod Shape
pub mod Sums
pub mod FixingRounds
pub mod Fixing
pub mod Locating
pub mod Inserting
pub mod Queries
pub mod Nearest
pub mod Neighbors
pub mod RemoveLoop
pub mod Remove
pub mod Steps
pub mod StepLeft
pub mod StepRight
pub mod Frames
pub mod RedSister
pub mod Rebalancing
pub mod Gaps
pub mod Unlinking
pub mod ListRemoval
pub mod Removing
pub mod Tests
use rsplib.Base.{
  ℕ, suc, ◌+◌, ◌-◌, ◌%◌, ◌^◌, List, [], ◌∷◌, ◌++◌, Option, none, some, Bool, true, false, Ordering,
  lt, eq, gt, ltb, if◌then◌else◌,
}
use rsplib.Storage.{or_last}

pub data Color : Type 0 where
  red black : Color

abbrev pub is_red : Color → Bool
is_red red = true
is_red black = false

-- A node with its color, its content and its ValueSum
pub data Tree {ℓ} (A : Type ℓ) : Type ℓ where
  null : Tree A
  node : Color → A → ℕ → Tree A → Tree A → Tree A

-- What is above a subtree: whether it is the left or the right one of its parent, the parent's other
-- subtree, and what is above the parent.
pub data Context {ℓ} (A : Type ℓ) : Type ℓ where
  root : Context A
  in_left in_right : Color → A → ℕ → Tree A → Context A → Context A

-- `NullNode.LeftSubtree` is the root of the tree.
pub record RedBlackTree {ℓ} (A : Type ℓ) : Type ℓ where
  pub tree : Tree A
  pub list : List A
  pub elements : ℕ

module _ {ℓ} {A : Type ℓ} where
  abbrev pub inorder : Tree A → List A
  inorder null = []
  inorder (node c x s l r) = inorder l ++ x ∷ inorder r

  abbrev pub plug : Tree A → Context A → Tree A
  plug t root = t
  plug t (in_left c x s r up) = plug (node c x s t r) up
  plug t (in_right c x s l up) = plug (node c x s l t) up

  -- The NullNode is black and its ValueSum is 0.
  abbrev pub color : Tree A → Color
  color null = black
  color (node c x s l r) = c

  abbrev pub value_sum : Tree A → ℕ
  value_sum null = 0
  value_sum (node c x s l r) = s

  -- `...->Color = Black`
  abbrev pub blackened : Tree A → Tree A
  blackened null = null
  blackened (node c x s l r) = node black x s l r

  -- RedBlackTreeNew
  unfoldable pub new : RedBlackTree A
  new = record { tree = null; list = []; elements = 0 }

  -- RedBlackTreeIsEmpty
  unfoldable pub is_empty : RedBlackTree A → Bool
  is_empty t = elim t.tree [ null ↦ true | node c x s l r ↦ false ]

  -- RedBlackTreeGetFirst and RedBlackTreeGetLast, by the ring list
  unfoldable pub get_first : RedBlackTree A → Option A
  get_first t = elim t.list [ [] ↦ none | x ∷ xs ↦ some x ]

  abbrev pub last : List A → Option A
  last [] = none
  last (x ∷ xs) = or_last x (last xs)

  unfoldable pub get_last : RedBlackTree A → Option A
  get_last t = last t.list

  -- RedBlackTreeGetElements
  unfoldable pub get_elements : RedBlackTree A → ℕ
  get_elements t = t.elements

  -- RedBlackTreeGetValueSum
  unfoldable pub get_value_sum : RedBlackTree A → ℕ
  get_value_sum t = value_sum t.tree

  -- RedBlackTreeFind, from the root on
  unfoldable pub find : (A → A → Ordering) → A → Tree A → Option A
  find cmp k null = none
  find cmp k (node c x s l r) = elim (cmp k x) [
    | eq ↦ some x
    | lt ↦ find cmp k l
    | gt ↦ find cmp k r
  ]

  -- RedBlackTreeInternalFindPrev and ...FindNext: the last node of a left subtree, or the nearest
  -- parent to the left.
  unfoldable pub last_node : Tree A → Option A
  last_node null = none
  last_node (node c x s l r) = or_last x (last_node r)

  unfoldable pub first_node : Tree A → Option A
  first_node null = none
  first_node (node c x s l r) = or_last x (first_node l)

  unfoldable pub left_parent : Context A → Option A
  left_parent root = none
  left_parent (in_left c x s r up) = left_parent up
  left_parent (in_right c x s l up) = some x

  unfoldable pub right_parent : Context A → Option A
  right_parent root = none
  right_parent (in_left c x s r up) = some x
  right_parent (in_right c x s l up) = right_parent up

  unfoldable pub find_prev : Tree A → Context A → Option A
  unfolding last_node left_parent
  find_prev left up = elim (last_node left) [ none ↦ left_parent up | some y ↦ some y ]

  unfoldable pub find_next : Tree A → Context A → Option A
  unfolding first_node right_parent
  find_next right up = elim (first_node right) [ none ↦ right_parent up | some y ↦ some y ]

  module _ (value : A → ℕ) where
    -- RedBlackTreeUpdateValueSum. The sum is an `unsigned long long`.
    abbrev pub updated : Tree A → Tree A
    updated null = null
    updated (node c x s l r) = node c x ((value_sum l + value x + value_sum r) % 2 ^ 64) l r

    -- RedBlackTreeUpdateValueSumsUpToRoot, from the parent on, above a subtree with the given sum
    unfoldable pub update_value_sums : ℕ → Context A → Context A
    update_value_sums v root = root
    update_value_sums v (in_left c x s r up) =
        let s' = (v + value x + value_sum r) % 2 ^ 64 in in_left c x s' r (update_value_sums s' up)
    update_value_sums v (in_right c x s l up) =
        let s' = (value_sum l + value x + v) % 2 ^ 64 in in_right c x s' l (update_value_sums s' up)

    -- RedBlackTreeRotateLeft and RedBlackTreeRotateRight, on the subtree under the node
    unfoldable pub rotate_left : Tree A → Option (Tree A)
    rotate_left null = none
    rotate_left (node c x s a null) = none
    rotate_left (node c x s a (node d y s' b e)) =
        some (updated (node d y s' (updated (node c x s a b)) e))

    unfoldable pub rotate_right : Tree A → Option (Tree A)
    rotate_right null = none
    rotate_right (node c x s null e) = none
    rotate_right (node c x s (node d y s' a b) e) =
        some (updated (node d y s' a (updated (node c x s b e))))

    -- RedBlackTreeGetNodeByValue. The loop ends at the node itself where the subtree that it
    -- would go to is the NullNode.
    unfoldable pub get_node_by_value : ℕ → Tree A → Option A
    get_node_by_value v null = none
    get_node_by_value v (node c x s l r) =
        let before = (value_sum l + value x) % 2 ^ 64 in
        let left = get_node_by_value v l in
        let right = get_node_by_value (v - before) r in
        if ltb v (value_sum l)
        then or_last x left
        else if ltb v before
        then some x
        else or_last x right
