-- ===== src/RedBlackTree/Frames.antt =====
-- What the context of a subtree in the loop of RedBlackTreeRemove says of its parent and sister.
use rsplib.Base.{ℕ, suc, ◌≡◌, ◌⊎◌, inl, inr, refl, subst, true}
use rsplib.RedBlackTree.{
  Color, red, black, Tree, null, node, Context, root, in_left, in_right, plug, color, blackened,
}
use rsplib.RedBlackTree.RemoveLoop.{in_loop}
use rsplib.RedBlackTree.Shape.{
  Height, IsRedBlack, Fits, accepts, plug-IsRedBlack, blackened-IsRedBlack,
}
use rsplib.RedBlackTree.Steps.{lifted}

module _ {ℓ} {A : Type ℓ} where
  -- A subtree that is a black node short of the height `n + 1`, unless it is red and can be made
  -- black
  abbrev pub IsShort : Tree A → ℕ → Type 0
  IsShort t n = ((color t ≡ red) × Height (blackened t) (suc n)) ⊎ ((color t ≡ black) × Height t n)

  -- What the context of such a subtree says of the parent with the color `c` and of the sister
  pub record Frame (c : Color) (sister : Tree A) (up : Context A) (n : ℕ) : Type 0 where
    pub height : Height sister (suc n)
    pub fits : Fits up (lifted c (suc n))
    pub under_red : c ≡ red → (accepts up ≡ true) × (color sister ≡ black)

  pub left-Frame :
      (c : Color) (x : A) (s : ℕ) (sister : Tree A) (up : Context A) (n : ℕ)
      → Fits (in_left c x s sister up) (suc n)
      → Frame c sister up n
  left-Frame red x s sister up n f = record {
    height = f.0;
    fits = f.3;
    under_red = λ e. (f.2, f.1);
  }
  left-Frame black x s sister up n f = record { height = f.0; fits = f.1; under_red = λ e. cc }

  pub right-Frame :
      (c : Color) (x : A) (s : ℕ) (sister : Tree A) (up : Context A) (n : ℕ)
      → Fits (in_right c x s sister up) (suc n)
      → Frame c sister up n
  right-Frame red x s sister up n f = record {
    height = f.0;
    fits = f.3;
    under_red = λ e. (f.2, f.1);
  }
  right-Frame black x s sister up n f = record { height = f.0; fits = f.1; under_red = λ e. cc }

  blackened_same : (t : Tree A) → color t ≡ black → blackened t ≡ t
  blackened_same null c = refl
  blackened_same (node red x s l r) c = cc
  blackened_same (node black x s l r) c = refl

  color-IsShort :
      (c : Color) (up : Context A) (t : Tree A) (n : ℕ)
      → Fits up (lifted c (suc n))
      → color t ≡ c
      → Height (blackened t) (suc n)
      → (m : ℕ) × IsShort t m × Fits up (suc m)
  color-IsShort red up t n f e h = (n, inl (e, h), f)
  color-IsShort black up t n f e h =
      (suc n, inr (e, subst (λ u. Height u (suc n)) (blackened_same t e) h), f)

  -- The loop goes on with a parent of the color that it has in the loop.
  pub parent-IsShort :
      (c : Color) (up : Context A) (t : Tree A) (n : ℕ)
      → Fits up (lifted c (suc n))
      → color t ≡ in_loop c up
      → Height (blackened t) (suc n)
      → (m : ℕ) × IsShort t m × Fits up (suc m)
  parent-IsShort c root t n f e h = (n, inl (e, h), tt)
  parent-IsShort c (in_left d x s r up) t n f e h = color-IsShort c (in_left d x s r up) t n f e h
  parent-IsShort c (in_right d x s l up) t n f e h = color-IsShort c (in_right d x s l up) t n f e h

  pub plug-color :
      (c : Color) (up : Context A) (sister t : Tree A) (n : ℕ)
      → Frame c sister up n
      → color t ≡ c
      → Height t (lifted c (suc n))
      → IsRedBlack (blackened (plug t up))
  plug-color red up sister t n f e h =
      blackened-IsRedBlack (plug t up)
        (plug-IsRedBlack t (suc n) up h (inl (f.under_red refl).0) f.fits)
  plug-color black up sister t n f e h =
      blackened-IsRedBlack (plug t up) (plug-IsRedBlack t (suc (suc n)) up h (inr e) f.fits)

  -- The loop ends with a subtree of the color that the parent has in the loop.
  pub plug_settled :
      (c : Color) (up : Context A) (sister t : Tree A) (n : ℕ)
      → Frame c sister up n
      → color t ≡ in_loop c up
      → Height t (lifted (in_loop c up) (suc n))
      → IsRedBlack (blackened (plug t up))
  plug_settled c root sister t n f e h = blackened-IsRedBlack t (_, h)
  plug_settled c (in_left d x s r up) sister t n f e h =
      plug-color c (in_left d x s r up) sister t n f e h
  plug_settled c (in_right d x s l up) sister t n f e h =
      plug-color c (in_right d x s l up) sister t n f e h
