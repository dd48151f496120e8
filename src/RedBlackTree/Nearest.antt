-- ===== src/RedBlackTree/Nearest.antt =====
-- RedBlackTreeGetPrev and RedBlackTreeGetNext by the ring list, and RedBlackTreeGetNearestPrev and
-- RedBlackTreeGetNearestNext.
use rsplib.Base.{List, [], ◌∷◌, Option, none, some, Bool, Ordering, if◌then◌else◌}
use rsplib.RedBlackTree.{
  Tree, null, Context, root, in_left, in_right, RedBlackTree, find_prev, find_next,
}
use rsplib.RedBlackTree.Insert.{occupied, free, locate}
use rsplib.RedBlackTree.Remove.{get_next}

module _ {ℓ} {A : Type ℓ} where
  -- The node in the list that `is_it` tells from the others is given by the test, as for get_next.
  unfoldable pub get_prev : (A → Bool) → List A → Option A
  get_prev is_it [] = none
  get_prev is_it (y ∷ []) = none
  get_prev is_it (y ∷ z ∷ zs) =
      let rest = get_prev is_it (z ∷ zs) in if is_it z then some y else rest

  -- Where the search ends at a place without a node: the subtree `t` there is empty. At `root` no
  -- comparison was made, and the result is NULL.
  unfoldable pub nearest_prev_at : Tree A → Context A → Option A
  unfolding find_prev
  nearest_prev_at t root = none
  nearest_prev_at t (in_right c x s l up) = some x
  nearest_prev_at t (in_left c x s r up) = find_prev t up

  unfoldable pub nearest_next_at : Tree A → Context A → Option A
  unfolding find_next
  nearest_next_at t root = none
  nearest_next_at t (in_left c x s r up) = some x
  nearest_next_at t (in_right c x s l up) = find_next t up

  module _ (cmp : A → A → Ordering) (same : A → A → Bool) (k : A) (t : RedBlackTree A) where
    unfoldable pub get_nearest_prev : Option A
    unfolding locate get_prev nearest_prev_at
    get_nearest_prev = elim (locate cmp k t.tree root) [
      | occupied y ↦ get_prev (same y) t.list
      | free up ↦ nearest_prev_at null up
    ]

    unfoldable pub get_nearest_next : Option A
    unfolding locate get_next nearest_next_at
    get_nearest_next = elim (locate cmp k t.tree root) [
      | occupied y ↦ get_next (same y) t.list
      | free up ↦ nearest_next_at null up
    ]
