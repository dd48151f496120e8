-- ===== src/RedBlackTree/Shape.antt =====
-- The red-black properties, for a tree and for the context of a subtree.
use rsplib.Base.{ℕ, zero, suc, ◌∷◌, ◌++◌, ◌≡◌, ◌⊎◌, inl, inr, refl, ap, Bool, true, false}
use rsplib.RedBlackTree.{
  red, black, Tree, null, node, Context, root, in_left, in_right, inorder, plug, color, blackened,
}

module _ {ℓ} {A : Type ℓ} where
  -- Every way down meets `n` black nodes, and a red node has black subtrees.
  abbrev pub Height : Tree A → ℕ → Type 0
  Height null n = n ≡ 0
  Height (node red x s l r) n = Height l n × Height r n × (color l ≡ black) × (color r ≡ black)
  Height (node black x s l r) zero = ⊥
  Height (node black x s l r) (suc n) = Height l n × Height r n

  abbrev pub IsRedBlack : Tree A → Type 0
  IsRedBlack t = (n : ℕ) × Height t n

  -- A red subtree can stand below: the parent is black.
  abbrev pub accepts : Context A → Bool
  accepts root = false
  accepts (in_left red x s r up) = false
  accepts (in_left black x s r up) = true
  accepts (in_right red x s l up) = false
  accepts (in_right black x s l up) = true

  -- The context of a subtree with the height `n`. The root is not red.
  abbrev pub Fits : Context A → ℕ → Type 0
  Fits root n = Unit
  Fits (in_left red x s r up) n = Height r n × (color r ≡ black) × (accepts up ≡ true) × Fits up n
  Fits (in_left black x s r up) n = Height r n × Fits up (suc n)
  Fits (in_right red x s l up) n = Height l n × (color l ≡ black) × (accepts up ≡ true) × Fits up n
  Fits (in_right black x s l up) n = Height l n × Fits up (suc n)

  -- The subtree may stand in the context.
  abbrev pub Matches : Tree A → Context A → Type 0
  Matches t up = (accepts up ≡ true) ⊎ (color t ≡ black)

  pub plug-IsRedBlack :
      (t : Tree A) (n : ℕ) (up : Context A)
      → Height t n
      → Matches t up
      → Fits up n
      → IsRedBlack (plug t up)
  plug-IsRedBlack t n root h c f = (n, h)
  plug-IsRedBlack t n (in_left red x s r up) h (inl e) f = cc
  plug-IsRedBlack t n (in_left red x s r up) h (inr c) f =
      plug-IsRedBlack (node red x s t r) n up (h, f.0, c, f.1) (inl f.2) f.3
  plug-IsRedBlack t n (in_left black x s r up) h c f =
      plug-IsRedBlack (node black x s t r) (suc n) up (h, f.0) (inr refl) f.1
  plug-IsRedBlack t n (in_right red x s l up) h (inl e) f = cc
  plug-IsRedBlack t n (in_right red x s l up) h (inr c) f =
      plug-IsRedBlack (node red x s l t) n up (f.0, h, f.1, c) (inl f.2) f.3
  plug-IsRedBlack t n (in_right black x s l up) h c f =
      plug-IsRedBlack (node black x s l t) (suc n) up (f.0, h) (inr refl) f.1

  pub blackened-IsRedBlack : (t : Tree A) → IsRedBlack t → IsRedBlack (blackened t)
  blackened-IsRedBlack null h = h
  blackened-IsRedBlack (node red x s l r) (n, h) = (suc n, (h.0, h.1))
  blackened-IsRedBlack (node black x s l r) h = h

  pub color-blackened : (t : Tree A) → color (blackened t) ≡ black
  color-blackened null = refl
  color-blackened (node c x s l r) = refl

  pub inorder-blackened : (t : Tree A) → inorder (blackened t) ≡ inorder t
  inorder-blackened null = refl
  inorder-blackened (node c x s l r) = refl

  -- The order below a context depends on the order of the subtree alone.
  pub inorder-plug :
      (t u : Tree A) (up : Context A)
      → inorder t ≡ inorder u
      → inorder (plug t up) ≡ inorder (plug u up)
  inorder-plug t u root h = h
  inorder-plug t u (in_left c x s r up) h =
      inorder-plug (node c x s t r) (node c x s u r) up (ap (λ ys. ys ++ x ∷ inorder r) h)
  inorder-plug t u (in_right c x s l up) h =
      inorder-plug (node c x s l t) (node c x s l u) up (ap (λ ys. inorder l ++ x ∷ ys) h)
