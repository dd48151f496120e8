-- ===== src/RedBlackTree/Remove.antt =====
-- RedBlackTreeRemove.
use rsplib.Base.{ℕ, ◌-◌, List, [], ◌∷◌, Option, none, some, Bool, ltb, if◌then◌else◌}
use rsplib.RedBlackTree.RemoveLoop.{remove_fix}
use rsplib.RedBlackTree.{
  Color, red, black, Tree, null, node, Context, in_left, in_right, RedBlackTree, plug, value_sum,
  blackened, update_value_sums,
}

-- A node in its place: what it holds, its subtrees, and what is above it.
pub record Position {ℓ} (A : Type ℓ) : Type ℓ where
  pub hue : Color
  pub content : A
  pub sum : ℕ
  pub left : Tree A
  pub right : Tree A
  pub above : Context A

-- The tree without the node: the color that the node has at last, and the subtree `child` in the
-- place that lacks it.
pub record Unlinked {ℓ} (A : Type ℓ) : Type ℓ where
  pub gone : Color
  pub child : Tree A
  pub above : Context A

module _ {ℓ} {A : Type ℓ} where
  abbrev pub position_tree : Position A → Tree A
  position_tree p = node p.hue p.content p.sum p.left p.right

  -- RedBlackTreeGetNext, by the ring list
  unfoldable pub get_next : (A → Bool) → List A → Option A
  get_next is_it [] = none
  get_next is_it (y ∷ []) = none
  get_next is_it (y ∷ z ∷ zs) =
      let rest = get_next is_it (z ∷ zs) in if is_it y then some z else rest

  -- doubleLinkedRingListRemNode
  unfoldable pub unlink_list : (A → Bool) → List A → List A
  unlink_list is_it [] = []
  unlink_list is_it (y ∷ ys) = let rest = unlink_list is_it ys in if is_it y then ys else y ∷ rest

  -- The place of the next node, which is the leftmost one of the right subtree
  unfoldable pub leftmost : Tree A → Context A → Option (Position A)
  leftmost null up = none
  leftmost (node c x s l r) up =
      let rest = leftmost l (in_left c x s r up) in
      elim l [
        | null ↦ some (record { hue = c; content = x; sum = s; left = null; right = r; above = up })
        | node cl xl sl ll rl ↦ rest
      ]

  -- The right subtree when that node has been replaced by its own right subtree
  unfoldable pub without_leftmost : Tree A → Tree A
  without_leftmost null = null
  without_leftmost (node c x s l r) =
      let rest = without_leftmost l in elim l [ null ↦ r | node cl xl sl ll rl ↦ node c x s rest r ]

  module _ (value : A → ℕ) where
    -- "Unlink node" and "Update parent's value sum". With two subtrees, the next node `y` takes the
    -- node's place and color. The sums are updated from there on, and then once more from the old
    -- parent of `y` on, or from the new place of `y` where the removed node is that parent.
    unfoldable pub replace_by : (A → A → Bool) → Position A → A → Option (Unlinked A)
    unfolding leftmost without_leftmost update_value_sums
    replace_by same p y =
        let up =
          update_value_sums value (value_sum (without_leftmost p.right))
            (in_right p.hue y p.sum p.left p.above) in
        elim (leftmost p.right up) [
          | none ↦ none
          | some next ↦
              if same y next.content
              then some (record {
                gone = next.hue;
                child = next.right;
                above = update_value_sums value (value_sum next.right) next.above;
              })
              else none
        ]

    abbrev pub replace_by_child : Position A → Tree A → Unlinked A
    replace_by_child p child = record {
      gone = p.hue;
      child = child;
      above = update_value_sums value (value_sum child) p.above;
    }

    abbrev pub replace_by_next : (A → A → Bool) → Position A → Option A → Option (Unlinked A)
    replace_by_next same p none = none
    replace_by_next same p (some y) = replace_by same p y

    unfoldable pub unlink_node : (A → A → Bool) → Position A → List A → Option (Unlinked A)
    unfolding get_next replace_by
    unlink_node same p list = elim p.left [
      | null ↦ some (replace_by_child p p.right)
      | node cl xl sl ll rl ↦ elim p.right [
        | null ↦ some (replace_by_child p p.left)
        | node cr xr sr lr rr ↦ replace_by_next same p (get_next (same p.content) list)
      ]
    ]

    -- "Ensure red-black properties", where the node that is gone was black
    abbrev pub fix_unlinked : Unlinked A → Option (Tree A)
    fix_unlinked u = elim u.gone [
      | red ↦ some (plug u.child u.above)
      | black ↦ elim (remove_fix value u.child u.above) [
        | none ↦ none
        | some t ↦ some (blackened t)
      ]
    ]

    unfoldable pub remove : (A → A → Bool) → Position A → RedBlackTree A → Option (RedBlackTree A)
    unfolding unlink_node unlink_list
    remove same p t = elim (unlink_node same p t.list) [
      | none ↦ none
      | some u ↦
          if ltb 0 t.elements
          then elim (fix_unlinked u) [
            | none ↦ none
            | some tree ↦ some (record {
              tree = tree;
              list = unlink_list (same p.content) t.list;
              elements = t.elements - 1;
            })
          ]
          else none
    ]
