-- ===== src/RedBlackTree/Steps.antt =====
-- A round of the loop of RedBlackTreeRemove where the sister is black.
use rsplib.Base.{ℕ, suc, ◌≡◌}
use rsplib.RedBlackTree.{Color, red, black, Tree, node, inorder, color, blackened, value_sum}
use rsplib.RedBlackTree.Shape.{Height}
use rsplib.RedBlackTree.Sums.{IsSummed}

-- The height of a node with the color over subtrees of the height `n`
abbrev pub lifted : Color → ℕ → ℕ
lifted red n = n
lifted black n = suc n

module _ {ℓ} {A : Type ℓ} where
  pub node-Height :
      (c : Color) (x : A) (s : ℕ) (l r : Tree A) (n : ℕ)
      → Height l n × Height r n
      → (color l ≡ black) × (color r ≡ black)
      → Height (node c x s l r) (lifted c n)
  node-Height red x s l r n h b = (h.0, h.1, b.0, b.1)
  node-Height black x s l r n h b = h

  module _ (value : A → ℕ) where
    -- The subtree `u` takes the place of `t`, whose one side was a black node short: its nodes and
    -- its sum are the same.
    pub record Settles (c : Color) (n : ℕ) (t u : Tree A) : Type ℓ where
      pub height : Height u (lifted c (suc n))
      pub same_color : color u ≡ c
      pub same_order : inorder u ≡ inorder t
      pub summed : IsSummed value u
      pub same_sum : value_sum u ≡ value_sum t

    -- The same, where `u` is now a black node short as a whole, unless it is red.
    pub record GoesOn (c : Color) (n : ℕ) (t u : Tree A) : Type ℓ where
      pub height : Height (blackened u) (suc n)
      pub same_color : color u ≡ c
      pub same_order : inorder u ≡ inorder t
      pub summed : IsSummed value u
      pub same_sum : value_sum u ≡ value_sum t
