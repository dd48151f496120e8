-- ===== src/RedBlackTree/Sums.antt =====
-- The value sums of a tree and of the context of a subtree.
use rsplib.Base.{ℕ, suc, ◌+◌, ◌%◌, ◌^◌, ◌≡◌, refl, ◌∙◌}
use rsplib.RedBlackTree.{
  red, black, Tree, null, node, Context, root, in_left, in_right, inorder, plug, blackened,
  value_sum, update_value_sums,
}
use rsplib.RedBlackTree.Shape.{Fits, accepts, inorder-plug}

module _ {ℓ} {A : Type ℓ} (value : A → ℕ) where
  abbrev pub sum_of : ℕ → A → ℕ → ℕ
  sum_of l x r = (l + value x + r) % 2 ^ 64

  -- Each node's sum is that of its subtrees and its own value, in 64 bits.
  abbrev pub IsSummed : Tree A → Type 0
  IsSummed null = Unit
  IsSummed (node c x s l r) = (s ≡ sum_of (value_sum l) x (value_sum r)) × IsSummed l × IsSummed r

  -- The same for the nodes above a subtree that has the sum `v`.
  abbrev pub Sums : Context A → ℕ → Type 0
  Sums root v = Unit
  Sums (in_left c x s r up) v = (s ≡ sum_of v x (value_sum r)) × IsSummed r × Sums up s
  Sums (in_right c x s l up) v = (s ≡ sum_of (value_sum l) x v) × IsSummed l × Sums up s

  pub plug-IsSummed :
      (t : Tree A) (up : Context A) → IsSummed t → Sums up (value_sum t) → IsSummed (plug t up)
  plug-IsSummed t root h u = h
  plug-IsSummed t (in_left c x s r up) h u = plug-IsSummed (node c x s t r) up (u.0, h, u.1) u.2
  plug-IsSummed t (in_right c x s l up) h u = plug-IsSummed (node c x s l t) up (u.0, u.1, h) u.2

  pub blackened-IsSummed : (t : Tree A) → IsSummed t → IsSummed (blackened t)
  blackened-IsSummed null h = h
  blackened-IsSummed (node c x s l r) h = h

  pub value_sum-blackened : (t : Tree A) → value_sum (blackened t) ≡ value_sum t
  value_sum-blackened null = refl
  value_sum-blackened (node c x s l r) = refl

  -- What remains of that when the sums above are not right yet
  abbrev pub Sides : Context A → Type 0
  Sides root = Unit
  Sides (in_left c x s r up) = IsSummed r × Sides up
  Sides (in_right c x s l up) = IsSummed l × Sides up

  pub Sums-Sides : (v : ℕ) (up : Context A) → Sums up v → Sides up
  Sums-Sides v root h = tt
  Sums-Sides v (in_left c x s r up) h = (h.1, Sums-Sides s up h.2)
  Sums-Sides v (in_right c x s l up) h = (h.1, Sums-Sides s up h.2)

  pub update_value_sums-Sides :
      (v : ℕ) (up : Context A) → Sides up → Sides (update_value_sums value v up)
  unfolding update_value_sums
  update_value_sums-Sides v root h = tt
  update_value_sums-Sides v (in_left c x s r up) h =
      (h.0, update_value_sums-Sides (sum_of v x (value_sum r)) up h.1)
  update_value_sums-Sides v (in_right c x s l up) h =
      (h.0, update_value_sums-Sides (sum_of (value_sum l) x v) up h.1)

  -- Updating the sums up to the root makes them right for the new sum of the subtree, and changes
  -- nothing else.
  pub update_value_sums-Sums :
      (v : ℕ) (up : Context A) → Sides up → Sums (update_value_sums value v up) v
  unfolding update_value_sums
  update_value_sums-Sums v root h = tt
  update_value_sums-Sums v (in_left c x s r up) h =
      (refl, h.0, update_value_sums-Sums (sum_of v x (value_sum r)) up h.1)
  update_value_sums-Sums v (in_right c x s l up) h =
      (refl, h.0, update_value_sums-Sums (sum_of (value_sum l) x v) up h.1)

  pub accepts-update_value_sums :
      (v : ℕ) (up : Context A) → accepts (update_value_sums value v up) ≡ accepts up
  unfolding update_value_sums
  accepts-update_value_sums v root = refl
  accepts-update_value_sums v (in_left red x s r up) = refl
  accepts-update_value_sums v (in_left black x s r up) = refl
  accepts-update_value_sums v (in_right red x s l up) = refl
  accepts-update_value_sums v (in_right black x s l up) = refl

  pub update_value_sums-Fits :
      (v n : ℕ) (up : Context A) → Fits up n → Fits (update_value_sums value v up) n
  unfolding update_value_sums
  update_value_sums-Fits v n root f = tt
  update_value_sums-Fits v n (in_left red x s r up) f = (
    f.0,
    f.1,
    accepts-update_value_sums (sum_of v x (value_sum r)) up ∙ f.2,
    update_value_sums-Fits (sum_of v x (value_sum r)) n up f.3,
  )
  update_value_sums-Fits v n (in_left black x s r up) f =
      (f.0, update_value_sums-Fits (sum_of v x (value_sum r)) (suc n) up f.1)
  update_value_sums-Fits v n (in_right red x s l up) f = (
    f.0,
    f.1,
    accepts-update_value_sums (sum_of (value_sum l) x v) up ∙ f.2,
    update_value_sums-Fits (sum_of (value_sum l) x v) n up f.3,
  )
  update_value_sums-Fits v n (in_right black x s l up) f =
      (f.0, update_value_sums-Fits (sum_of (value_sum l) x v) (suc n) up f.1)

  pub inorder-update_value_sums :
      (v : ℕ) (t : Tree A) (up : Context A)
      → inorder (plug t (update_value_sums value v up)) ≡ inorder (plug t up)
  unfolding update_value_sums
  inorder-update_value_sums v t root = refl
  inorder-update_value_sums v t (in_left c x s r up) =
      inorder-update_value_sums (sum_of v x (value_sum r)) (node c x (sum_of v x (value_sum r)) t r)
        up
      ∙ inorder-plug (node c x (sum_of v x (value_sum r)) t r) (node c x s t r) up refl
  inorder-update_value_sums v t (in_right c x s l up) =
      inorder-update_value_sums (sum_of (value_sum l) x v) (node c x (sum_of (value_sum l) x v) l t)
        up
      ∙ inorder-plug (node c x (sum_of (value_sum l) x v) l t) (node c x s l t) up refl
