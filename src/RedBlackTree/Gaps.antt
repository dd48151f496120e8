-- ===== src/RedBlackTree/Gaps.antt =====
-- The place where RedBlackTreeRemove unlinks a node, and the places above it.
use rsplib.Base.{ℕ, zero, suc, List, [], ◌∷◌, ◌++◌, ◌≡◌, inl, inr, refl, ap, ◌∙◌, true}
use rsplib.RedBlackTree.{
  Color, red, black, Tree, null, node, Context, root, in_left, in_right, inorder, color,
  update_value_sums,
}
use rsplib.RedBlackTree.Locating.{before, behind, Stands}
use rsplib.RedBlackTree.Frames.{IsShort}
use rsplib.RedBlackTree.Shape.{Height, Fits, Matches, accepts}
use rsplib.RedBlackTree.Sums.{update_value_sums-Fits, accepts-update_value_sums}

module _ {ℓ} {A : Type ℓ} where
  -- The place where a node with the color `c` has been unlinked and `child` stands instead
  abbrev pub Gap : Color → Tree A → Context A → Type 0
  Gap red child up =
      (n : ℕ) × Height child n × (color child ≡ black) × (accepts up ≡ true) × Fits up n
  Gap black child up = (n : ℕ) × IsShort child n × Fits up (suc n)

  Height-IsShort : (t : Tree A) (n : ℕ) → Height t n → IsShort t n
  Height-IsShort null n h = inr (refl, h)
  Height-IsShort (node red x s l r) n h = inl (refl, (h.0, h.1))
  Height-IsShort (node black x s l r) n h = inr (refl, h)

  red_place :
      (x : A) (s : ℕ) (l r : Tree A) (up : Context A)
      → Matches (node red x s l r) up
      → accepts up ≡ true
  red_place x s l r up (inl a) = a
  red_place x s l r up (inr b) = cc

  pub right-Gap :
      (c : Color) (x : A) (s : ℕ) (l r : Tree A) (up : Context A)
      → Stands (node c x s l r) up
      → Gap c r up
  right-Gap red x s l r up (n, h, f, m) = (n, h.1, h.3, red_place x s l r up m, f)
  right-Gap black x s l r up (zero, h, f, m) = elim h [ ]
  right-Gap black x s l r up (suc n, h, f, m) = (n, Height-IsShort r n h.1, f)

  pub left-Gap :
      (c : Color) (x : A) (s : ℕ) (l r : Tree A) (up : Context A)
      → Stands (node c x s l r) up
      → Gap c l up
  left-Gap red x s l r up (n, h, f, m) = (n, h.0, h.2, red_place x s l r up m, f)
  left-Gap black x s l r up (zero, h, f, m) = elim h [ ]
  left-Gap black x s l r up (suc n, h, f, m) = (n, Height-IsShort l n h.0, f)

  pub first_of :
      (xs : List A) (x : A) (ys : List A) → (z : A) × (zs : List A) × (xs ++ x ∷ ys ≡ z ∷ zs)
  first_of [] x ys = (x, ys, refl)
  first_of (z ∷ zs) x ys = (z, zs ++ x ∷ ys, refl)

  pub other_content :
      (c : Color) (x y : A) (s s' : ℕ) (l t : Tree A) (up : Context A)
      → Stands t (in_right c x s l up)
      → Stands t (in_right c y s' l up)
  other_content red x y s s' l t up h = h
  other_content black x y s s' l t up h = h

  module _ (value : A → ℕ) where
    pub update_value_sums-Gap :
        (v : ℕ) (c : Color) (child : Tree A) (up : Context A)
        → Gap c child up
        → Gap c child (update_value_sums value v up)
    update_value_sums-Gap v red child up (n, h, b, a, f) =
        (n, h, b, accepts-update_value_sums value v up ∙ a, update_value_sums-Fits value v n up f)
    update_value_sums-Gap v black child up (n, h, f) =
        (n, h, update_value_sums-Fits value v (suc n) up f)

    pub update_value_sums-Stands :
        (v : ℕ) (t : Tree A) (up : Context A)
        → Stands t up
        → Stands t (update_value_sums value v up)
    update_value_sums-Stands v t up (n, h, f, inl a) = (
      n,
      h,
      update_value_sums-Fits value v n up f,
      inl (accepts-update_value_sums value v up ∙ a),
    )
    update_value_sums-Stands v t up (n, h, f, inr b) =
        (n, h, update_value_sums-Fits value v n up f, inr b)

    pub before-update_value_sums :
        (up : Context A) (v : ℕ) → before (update_value_sums value v up) ≡ before up
    unfolding update_value_sums
    before-update_value_sums root v = refl
    before-update_value_sums (in_left c x s r up) v = before-update_value_sums up _
    before-update_value_sums (in_right c x s l up) v =
        ap (λ ys. ys ++ (inorder l ++ x ∷ [])) (before-update_value_sums up _)

    pub behind-update_value_sums :
        (up : Context A) (v : ℕ) → behind (update_value_sums value v up) ≡ behind up
    unfolding update_value_sums
    behind-update_value_sums root v = refl
    behind-update_value_sums (in_left c x s r up) v =
        ap (λ ys. x ∷ (inorder r ++ ys)) (behind-update_value_sums up _)
    behind-update_value_sums (in_right c x s l up) v = behind-update_value_sums up _
