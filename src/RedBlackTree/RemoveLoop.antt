-- ===== src/RedBlackTree/RemoveLoop.antt =====
-- The loop of RedBlackTreeRemove, which restores the red-black properties.
use rsplib.Base.{ℕ, Option, none, some, ◌||◌, if◌then◌else◌}
use rsplib.RedBlackTree.{
  Color, red, black, is_red, Tree, null, node, Context, root, in_left, in_right, plug, color,
  blackened, rotate_left, rotate_right,
}

-- A round of the loop goes on with the parent as `child`, or ends the loop.
pub data Step {ℓ} (A : Type ℓ) : Type ℓ where
  again : Tree A → Step A
  settled : Tree A → Step A

module _ {ℓ} {A : Type ℓ} where
  -- `rbt->NullNode.LeftSubtree->Color = Red`: during the loop, the root is red.
  abbrev pub in_loop : Color → Context A → Color
  in_loop c root = red
  in_loop c (in_left d x s r up) = c
  in_loop c (in_right d x s l up) = c

  abbrev pub settle : Option (Tree A) → Option (Step A)
  settle none = none
  settle (some t) = some (settled t)

  abbrev pub attach : Option (Tree A) → Context A → Option (Tree A)
  attach none up = none
  attach (some t) up = some (plug t up)

  module _ (value : A → ℕ) where
    -- The child is the left subtree: where the farther subtree of the sister is black, the nearer one,
    -- which is red, is rotated up.
    unfoldable pub turned_left : Tree A → Option (Tree A)
    unfolding rotate_right
    turned_left null = none
    turned_left (node c x s near far) =
        if is_red (color far)
        then some (node c x s near far)
        else if is_red (color near)
        then rotate_right value (node red x s (blackened near) far)
        else none

    unfoldable pub raised_left : Color → A → ℕ → Tree A → Tree A → Option (Tree A)
    unfolding rotate_left
    raised_left pc p ps child null = none
    raised_left pc p ps child (node c x s near far) =
        rotate_left value (node black p ps child (node pc x s near (blackened far)))

    -- A round for a black sister, from the parent's color, content and sum on
    unfoldable pub step_left : Color → A → ℕ → Tree A → Tree A → Option (Step A)
    unfolding turned_left raised_left
    step_left pc p ps child null = none
    step_left pc p ps child (node c x s near far) =
        if is_red (color near) || is_red (color far)
        then elim (turned_left (node c x s near far)) [
          | none ↦ none
          | some sister ↦ settle (raised_left pc p ps child sister)
        ]
        else some (again (node pc p ps child (node red x s near far)))

    -- A red sister becomes black and is rotated up. The round is made below it with the parent red;
    -- then the loop ends, whose test sees the parent where the round goes on with it.
    abbrev pub below_left : Tree A → Option (Tree A)
    below_left null = none
    below_left (node c x s null far) = none
    below_left (node c x s (node pc p ps child sister) far) =
        elim (step_left pc p ps child sister) [
          | none ↦ none
          | some (again t) ↦ some (node c x s (blackened t) far)
          | some (settled t) ↦ some (node c x s t far)
        ]

    unfoldable pub red_sister_left : A → ℕ → Tree A → Tree A → Option (Tree A)
    unfolding rotate_left step_left
    red_sister_left p ps child sister =
        elim (rotate_left value (node red p ps child (blackened sister))) [
          | none ↦ none
          | some t ↦ below_left t
        ]

    -- The child is the right subtree: where the farther subtree of the sister is black, the nearer one,
    -- which is red, is rotated up.
    unfoldable pub turned_right : Tree A → Option (Tree A)
    unfolding rotate_left
    turned_right null = none
    turned_right (node c x s far near) =
        if is_red (color far)
        then some (node c x s far near)
        else if is_red (color near)
        then rotate_left value (node red x s far (blackened near))
        else none

    unfoldable pub raised_right : Color → A → ℕ → Tree A → Tree A → Option (Tree A)
    unfolding rotate_right
    raised_right pc p ps child null = none
    raised_right pc p ps child (node c x s far near) =
        rotate_right value (node black p ps (node pc x s (blackened far) near) child)

    -- A round for a black sister, from the parent's color, content and sum on
    unfoldable pub step_right : Color → A → ℕ → Tree A → Tree A → Option (Step A)
    unfolding turned_right raised_right
    step_right pc p ps child null = none
    step_right pc p ps child (node c x s far near) =
        if is_red (color near) || is_red (color far)
        then elim (turned_right (node c x s far near)) [
          | none ↦ none
          | some sister ↦ settle (raised_right pc p ps child sister)
        ]
        else some (again (node pc p ps (node red x s far near) child))

    -- A red sister becomes black and is rotated up. The round is made below it with the parent red;
    -- then the loop ends, whose test sees the parent where the round goes on with it.
    abbrev pub below_right : Tree A → Option (Tree A)
    below_right null = none
    below_right (node c x s far null) = none
    below_right (node c x s far (node pc p ps sister child)) =
        elim (step_right pc p ps child sister) [
          | none ↦ none
          | some (again t) ↦ some (node c x s far (blackened t))
          | some (settled t) ↦ some (node c x s far t)
        ]

    unfoldable pub red_sister_right : A → ℕ → Tree A → Tree A → Option (Tree A)
    unfolding rotate_right step_right
    red_sister_right p ps child sister =
        elim (rotate_right value (node red p ps (blackened sister) child)) [
          | none ↦ none
          | some t ↦ below_right t
        ]

    -- The loop, for the child and what is above it. The child that has become the root is red, so the
    -- loop ends. The colors of `child` and of the root are made black at last.
    unfoldable pub remove_fix : Tree A → Context A → Option (Tree A)
    unfolding step_left step_right red_sister_left red_sister_right
    remove_fix child root = some (blackened child)
    remove_fix child (in_left pc p ps sister up) =
        if is_red (color child)
        then some (plug (blackened child) (in_left pc p ps sister up))
        else if is_red (color sister)
        then attach (red_sister_left p ps child sister) up
        else elim (step_left (in_loop pc up) p ps child sister) [
          | none ↦ none
          | some (again t) ↦ remove_fix t up
          | some (settled t) ↦ some (plug t up)
        ]
    remove_fix child (in_right pc p ps sister up) =
        if is_red (color child)
        then some (plug (blackened child) (in_right pc p ps sister up))
        else if is_red (color sister)
        then attach (red_sister_right p ps child sister) up
        else elim (step_right (in_loop pc up) p ps child sister) [
          | none ↦ none
          | some (again t) ↦ remove_fix t up
          | some (settled t) ↦ some (plug t up)
        ]
