-- ===== src/RedBlackTree/Locating.antt =====
-- The search for the place of a new node, against the order of the nodes.
use mathlib.Core.List.{append_assoc, append-nil}
use rsplib.Base.{
  ℕ, zero, suc, List, [], ◌∷◌, ◌++◌, ◌≡◌, ◌⊎◌, inl, inr, refl, sym, subst, ◌∙◌, Ordering, lt, eq,
  gt, IsLawful, All, All-imp, true,
}
use rsplib.RedBlackTree.{
  Color, red, black, Tree, null, node, Context, root, in_left, in_right, inorder, plug, value_sum,
}
use rsplib.RedBlackTree.Insert.{occupied, free, locate}
use rsplib.RedBlackTree.Shape.{Height, Fits, Matches, accepts}
use rsplib.RedBlackTree.Sums.{IsSummed, Sums}
use rsplib.Storage.{linked, found}
use rsplib.Storage
use rsplib.Storage.Order.{IsSorted, Above, Ordering-cases}

module _ {ℓ} {A : Type ℓ} where
  -- The nodes before and behind a subtree
  abbrev pub before : Context A → List A
  before root = []
  before (in_left c x s r up) = before up
  before (in_right c x s l up) = before up ++ (inorder l ++ x ∷ [])

  abbrev pub behind : Context A → List A
  behind root = []
  behind (in_left c x s r up) = x ∷ (inorder r ++ behind up)
  behind (in_right c x s l up) = behind up

  pub inorder-plug_parts :
      (t : Tree A) (up : Context A) → inorder (plug t up) ≡ before up ++ (inorder t ++ behind up)
  inorder-plug_parts t root = sym (append-nil (inorder t))
  inorder-plug_parts t (in_left c x s r up) =
      simp append_assoc at (inorder-plug_parts (node c x s t r) up)
  inorder-plug_parts t (in_right c x s l up) =
      simp append_assoc (simp append_assoc at (inorder-plug_parts (node c x s l t) up))

  module _ (cmp : A → A → Ordering) where
    pub All-append : (P : A → Type 0) (xs ys : List A) → All P xs → All P ys → All P (xs ++ ys)
    All-append P [] ys h k = k
    All-append P (x ∷ xs) ys h k = (h.0, All-append P xs ys h.1 k)

    -- The two sides of an element of a sorted storage
    pub IsSorted-parts :
        (xs : List A) (x : A) (ys : List A)
        → IsSorted cmp (xs ++ x ∷ ys)
        → IsSorted cmp xs × IsSorted cmp ys × All (λ y. cmp y x ≡ lt) xs × Above cmp x ys
    IsSorted-parts [] x ys s = (tt, s.1, tt, s.0)
    IsSorted-parts (z ∷ zs) x ys s =
        let (a, b, c, d) = IsSorted-parts zs x ys s.1 in
        let (e, f) = All-split (λ y. cmp z y ≡ lt) zs (x ∷ ys) s.0 in ((e, a), b, (f.0, c), d)
      where
        All-split : (P : A → Type 0) (xs ys : List A) → All P (xs ++ ys) → All P xs × All P ys
        All-split P [] ys h = (tt, h)
        All-split P (x ∷ xs) ys h = let (a, b) = All-split P xs ys h.1 in ((h.0, a), b)

    pub insert_between :
        (k : A) (xs ys : List A)
        → All (λ y. cmp k y ≡ gt) xs
        → All (λ y. cmp k y ≡ lt) ys
        → Storage.insert cmp k (xs ++ ys) ≡ linked (xs ++ k ∷ ys)
    unfolding Storage.insert
    insert_between k [] [] h g = refl
    insert_between k [] (y ∷ ys) h g = rw (g.0, Storage.insert) refl
    insert_between k (x ∷ xs) ys h g = rw (h.0, Storage.insert, insert_between k xs ys h.1 g) refl

    pub insert_occupied :
        (k x : A) (xs ys : List A)
        → All (λ y. cmp k y ≡ gt) xs
        → cmp k x ≡ eq
        → Storage.insert cmp k (xs ++ x ∷ ys) ≡ found x
    unfolding Storage.insert
    insert_occupied k x [] ys h e = rw (e, Storage.insert) refl
    insert_occupied k x (z ∷ zs) ys h e =
        rw (h.0, Storage.insert, insert_occupied k x zs ys h.1 e) refl

    -- All nodes on the left of a node are below what is above the node, and the other way round.
    pub greater_than_left :
        (laws : IsLawful cmp) (k x : A) (xs : List A)
        → cmp k x ≡ gt
        → All (λ y. cmp y x ≡ lt) xs
        → All (λ y. cmp k y ≡ gt) xs
    greater_than_left laws k x xs g h =
        All-imp (λ y l. laws.flips_up y k (laws.chains y x k l (laws.flips_down k x g))) xs h

    pub smaller_than_right :
        (laws : IsLawful cmp) (k x : A) (xs : List A)
        → cmp k x ≡ lt
        → Above cmp x xs
        → All (λ y. cmp k y ≡ lt) xs
    smaller_than_right laws k x xs l h = All-imp (λ y m. laws.chains k x y l m) xs h

    -- The nodes before the subtree are below the key, and those behind it are above.
    pub record IsBetween (k : A) (up : Context A) : Type 0 where
      pub below : All (λ y. cmp k y ≡ gt) (before up)
      pub above : All (λ y. cmp k y ≡ lt) (behind up)

  -- The subtree has its place in a red-black tree.
  abbrev pub Stands : Tree A → Context A → Type 0
  Stands t up = (n : ℕ) × Height t n × Fits up n × Matches t up

  accepting :
      (x : A) (s : ℕ) (l r : Tree A) (up : Context A)
      → Matches (node red x s l r) up
      → accepts up ≡ true
  accepting x s l r up (inl a) = a
  accepting x s l r up (inr b) = cc

  pub Stands-left :
      (c : Color) (x : A) (s : ℕ) (l r : Tree A) (up : Context A)
      → Stands (node c x s l r) up
      → Stands l (in_left c x s r up)
  Stands-left red x s l r up (n, h, f, m) = (n, h.0, (h.1, h.3, accepting x s l r up m, f), inr h.2)
  Stands-left black x s l r up (zero, h, f, m) = elim h [ ]
  Stands-left black x s l r up (suc n, h, f, m) = (n, h.0, (h.1, f), inl refl)

  pub Stands-right :
      (c : Color) (x : A) (s : ℕ) (l r : Tree A) (up : Context A)
      → Stands (node c x s l r) up
      → Stands r (in_right c x s l up)
  Stands-right red x s l r up (n, h, f, m) =
      (n, h.1, (h.0, h.2, accepting x s l r up m, f), inr h.3)
  Stands-right black x s l r up (zero, h, f, m) = elim h [ ]
  Stands-right black x s l r up (suc n, h, f, m) = (n, h.1, (h.0, f), inl refl)

  module _ (value : A → ℕ) where
    -- A sound subtree in a sound context
    pub record IsSound (t : Tree A) (up : Context A) : Type 0 where
      pub stands : Stands t up
      pub summed : IsSummed value t
      pub sums : Sums value up (value_sum t)

    pub IsSound-left :
        (c : Color) (x : A) (s : ℕ) (l r : Tree A) (up : Context A)
        → IsSound (node c x s l r) up
        → IsSound l (in_left c x s r up)
    IsSound-left c x s l r up v = record {
      stands = Stands-left c x s l r up v.stands;
      summed = v.summed.1;
      sums = (v.summed.0, v.summed.2, v.sums);
    }

    pub IsSound-right :
        (c : Color) (x : A) (s : ℕ) (l r : Tree A) (up : Context A)
        → IsSound (node c x s l r) up
        → IsSound r (in_right c x s l up)
    IsSound-right c x s l r up v = record {
      stands = Stands-right c x s l r up v.stands;
      summed = v.summed.2;
      sums = (v.summed.0, v.summed.1, v.sums);
    }

    module _ (cmp : A → A → Ordering) (laws : IsLawful cmp) (k : A) where
      abbrev whole : Tree A → Context A → List A
      whole t up = before up ++ (inorder t ++ behind up)

      -- The search ends at a free place between the nodes below and above the key, or at a node
      -- with the key.
      pub locate_lem :
          (t : Tree A) (up : Context A)
          → IsSorted cmp (inorder t)
          → IsBetween cmp k up
          → IsSound t up
          → ((up' : Context A) × (locate cmp k t up ≡ free up')
              × IsBetween cmp k up'
              × IsSound null up'
              × (whole null up' ≡ whole t up))
            ⊎ ((y : A) × (locate cmp k t up ≡ occupied y)
                × (Storage.insert cmp k (whole t up) ≡ found y))
      unfolding locate
      locate_lem null up s b v = inl (up, refl, b, v, refl)
      locate_lem (node c x w l r) up s b v =
          let (sl, sr, hl, hr) = IsSorted-parts cmp (inorder l) x (inorder r) s in
          let to_left : whole l (in_left c x w r up) ≡ whole (node c x w l r) up =
            simp append_assoc in
          let to_here : (before up ++ inorder l) ++ (x ∷ (inorder r ++ behind up))
              ≡ whole (node c x w l r) up =
            simp append_assoc in
          let to_right : whole r (in_right c x w l up) ≡ whole (node c x w l r) up =
            simp append_assoc in
          elim (Ordering-cases (cmp k x)) [
            | inl e ↦
                let b' : IsBetween cmp k (in_left c x w r up) = record {
                  below = b.below;
                  above = (
                    e,
                    All-append cmp (λ y. cmp k y ≡ lt) (inorder r) (behind up)
                        (smaller_than_right cmp laws k x (inorder r) e hr) b.above,
                  );
                } in
                elim (locate_lem l (in_left c x w r up) sl b' (IsSound-left c x w l r up v)) [
                  | inl (up', q, b₁, v₁, o) ↦ inl (up', rw (e, locate) q, b₁, v₁, o ∙ to_left)
                  | inr (y, q, o) ↦ inr (
                    y,
                    rw (e, locate) q,
                    subst (λ ys. Storage.insert cmp k ys ≡ found y) to_left o,
                  )
                ]
            | inr (inl e) ↦ inr (
              x,
              rw (e, locate) refl,
              subst (λ ys. Storage.insert cmp k ys ≡ found x) to_here
                  (insert_occupied cmp k x (before up ++ inorder l) (inorder r ++ behind up)
                    (All-append cmp (λ y. cmp k y ≡ gt) (before up) (inorder l) b.below
                      (All-imp (λ y q. laws.same_place k x y e q) (inorder l) hl))
                    e),
            )
            | inr (inr e) ↦
                let b' : IsBetween cmp k (in_right c x w l up) = record {
                  below =
                      All-append cmp (λ y. cmp k y ≡ gt) (before up) (inorder l ++ x ∷ []) b.below
                        (All-append cmp (λ y. cmp k y ≡ gt) (inorder l) (x ∷ [])
                          (greater_than_left cmp laws k x (inorder l) e hl) (e, tt));
                  above = b.above;
                } in
                elim (locate_lem r (in_right c x w l up) sr b' (IsSound-right c x w l r up v)) [
                  | inl (up', q, b₁, v₁, o) ↦ inl (up', rw (e, locate) q, b₁, v₁, o ∙ to_right)
                  | inr (y, q, o) ↦ inr (
                    y,
                    rw (e, locate) q,
                    subst (λ ys. Storage.insert cmp k ys ≡ found y) to_right o,
                  )
                ]
          ]
