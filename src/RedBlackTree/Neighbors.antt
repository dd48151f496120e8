-- ===== src/RedBlackTree/Neighbors.antt =====
-- RedBlackTreeGetNearestPrev and RedBlackTreeGetNearestNext against the sorted storage.
use mathlib.Core.List.{append-nil}
use rsplib.Base.{
  List, [], ◌∷◌, ◌++◌, ◌≡◌, ◌⊎◌, inl, inr, refl, sym, ap, subst, ◌∙◌, Option, none, some, Bool,
  true, false, Bool-cases, Option-cases, Ordering, lt, eq, gt, IsLawful, All, All-imp, ℕ,
}
use rsplib.RedBlackTree.{
  null, Context, root, in_left, in_right, RedBlackTree, inorder, last, last_node, first_node,
  left_parent, right_parent, find_prev, find_next,
}
use rsplib.RedBlackTree.Insert.{locate, free, occupied}
use rsplib.RedBlackTree.Inserting.{IsPointerTest, IsValid, left_parent_lem, other_node}
use rsplib.RedBlackTree.ListRemoval.{get_next_lem, get_next_last}
use rsplib.RedBlackTree.Locating.{before, behind, IsSorted-parts, IsSound, IsBetween, locate_lem}
use rsplib.RedBlackTree.Nearest.{
  get_prev, nearest_prev_at, nearest_next_at, get_nearest_prev, get_nearest_next,
}
use rsplib.RedBlackTree.Remove.{get_next}
use rsplib.Storage
use rsplib.Storage.{or_last, linked, found}
use rsplib.Storage.Order.{IsSorted, Ordering-cases}

module _ {ℓ} {A : Type ℓ} where
  -- The first element of a list
  abbrev pub first : List A → Option A
  first [] = none
  first (y ∷ ys) = some y

  last-append : (xs : List A) (y : A) → last (xs ++ y ∷ []) ≡ some y
  last-append [] y = refl
  last-append (x ∷ xs) y = rw (last-append xs y) refl

  last_tail : (x y : A) (ys : List A) → last (x ∷ y ∷ ys) ≡ last (y ∷ ys)
  last_tail x y ys = elim (Option-cases (last ys)) [ inl e ↦ rw e refl | inr (z, e) ↦ rw e refl ]

  right_parent_lem : (up : Context A) → right_parent up ≡ first (behind up)
  unfolding right_parent
  right_parent_lem root = refl
  right_parent_lem (in_left c x s r up) = refl
  right_parent_lem (in_right c x s l up) = right_parent_lem up

  nearest_prev_at-last : (up : Context A) → nearest_prev_at null up ≡ last (before up)
  unfolding nearest_prev_at find_prev last_node left_parent
  nearest_prev_at-last up = steps up ∙ parent up
    where
      steps : (up : Context A) → nearest_prev_at null up ≡ left_parent up
      steps root = refl
      steps (in_left c x s r up) = refl
      steps (in_right c x s l up) = refl

      parent : (up : Context A) → left_parent up ≡ last (before up)
      parent up = elim (left_parent_lem up) [
        | inl (q, e) ↦ q ∙ ap last (sym e)
        | inr (y, ys, q, e) ↦ q ∙ (sym (last-append ys y) ∙ ap last (sym e))
      ]

  nearest_next_at-first : (up : Context A) → nearest_next_at null up ≡ first (behind up)
  unfolding nearest_next_at find_next first_node right_parent
  nearest_next_at-first root = refl
  nearest_next_at-first (in_left c x s r up) = refl
  nearest_next_at-first (in_right c x s l up) = right_parent_lem up

  get_prev_lem :
      (is_it : A → Bool) (xs : List A) (x : A) (ys : List A)
      → All (λ z. is_it z ≡ false) xs
      → All (λ z. is_it z ≡ false) ys
      → is_it x ≡ true
      → get_prev is_it (xs ++ x ∷ ys) ≡ last xs
  unfolding get_prev
  get_prev_lem is_it [] x [] h k t = refl
  get_prev_lem is_it [] x (y ∷ ys) h k t = rw k.0 (none_behind is_it y ys k.1)
    where
      none_behind :
          (is_it : A → Bool) (y : A) (ys : List A)
          → All (λ z. is_it z ≡ false) ys
          → get_prev is_it (y ∷ ys) ≡ none
      none_behind is_it y [] h = refl
      none_behind is_it y (z ∷ zs) h = rw h.0 (none_behind is_it z zs h.1)
  get_prev_lem is_it (z ∷ []) x ys h k t = rw t refl
  get_prev_lem is_it (z ∷ z' ∷ zs) x ys h k t =
      rw h.1.0 (get_prev_lem is_it (z' ∷ zs) x ys h.1 k t ∙ sym (last_tail z z' zs))

  module _ (cmp : A → A → Ordering) (k : A) where
    -- The last element below the key `k`, and the first one above it
    abbrev pub last_below : List A → Option A
    last_below [] = none
    last_below (y ∷ ys) = elim (cmp k y) [ gt ↦ or_last y (last_below ys) | eq ↦ none | lt ↦ none ]

    abbrev pub first_above : List A → Option A
    first_above [] = none
    first_above (y ∷ ys) = elim (cmp k y) [
      | gt ↦ first_above ys
      | eq ↦ first_above ys
      | lt ↦ some y
    ]

    last_below-append :
        (xs ys : List A)
        → All (λ y. cmp k y ≡ gt) xs
        → last_below ys ≡ none
        → last_below (xs ++ ys) ≡ last xs
    last_below-append [] ys h e = e
    last_below-append (x ∷ xs) ys h e = rw (h.0, last_below-append xs ys h.1 e) refl

    first_above-append :
        (xs ys : List A) → All (λ y. cmp k y ≡ gt) xs → first_above (xs ++ ys) ≡ first_above ys
    first_above-append [] ys h = refl
    first_above-append (x ∷ xs) ys h = rw h.0 (first_above-append xs ys h.1)

    above_everywhere :
        (ys : List A)
        → All (λ y. cmp k y ≡ lt) ys
        → (last_below ys ≡ none) × (first_above ys ≡ first ys)
    above_everywhere [] h = (refl, refl)
    above_everywhere (y ∷ ys) h = (rw (h.0, last_below) refl, rw (h.0, first_above) refl)

    -- Where a node has the key, it stands behind those below the key.
    insert_cases :
        (zs : List A)
        → ((ws : List A) × (Storage.insert cmp k zs ≡ linked ws))
          ⊎ ((y : A) × (xs : List A) × (ys : List A) × (Storage.insert cmp k zs ≡ found y)
              × (zs ≡ xs ++ y ∷ ys)
              × All (λ z. cmp k z ≡ gt) xs
              × (cmp k y ≡ eq))
    unfolding Storage.insert
    insert_cases [] = inl (k ∷ [], refl)
    insert_cases (z ∷ zs) = elim (Ordering-cases (cmp k z)) [
      | inl c ↦ inl (k ∷ z ∷ zs, rw (c, Storage.insert) refl)
      | inr (inl c) ↦ inr (z, [], zs, rw (c, Storage.insert) refl, refl, tt, c)
      | inr (inr c) ↦ elim (insert_cases zs) [
        | inl (ws, q) ↦ inl (z ∷ ws, rw (c, Storage.insert, q) refl)
        | inr (y, xs, ys, q, e, h, d) ↦
            inr (y, z ∷ xs, ys, rw (c, Storage.insert, q) refl, ap (λ us. z ∷ us) e, (c, h), d)
      ]
    ]

    -- What is above an element with the key is above the key.
    behind_same : (laws : IsLawful cmp) (y z : A) → cmp k y ≡ eq → cmp y z ≡ lt → cmp k z ≡ lt
    behind_same laws y z e l = elim (Ordering-cases (cmp k z)) [
      | inl c ↦ c
      | inr (inl c) ↦ let d = laws.same_place k z y c l in cc
      | inr (inr c) ↦ let d = laws.flips_up y k (laws.chains y z k l (laws.flips_down k z c)) in cc
    ]

  module _ (cmp : A → A → Ordering) (laws : IsLawful cmp) (same : A → A → Bool)
      (test : IsPointerTest same) (value : A → ℕ) (k : A) (t : RedBlackTree A)
      (valid : IsValid cmp value t) where
    abbrev Nearest : List A → Type ℓ
    Nearest zs =
        (get_nearest_prev cmp same k t ≡ last_below cmp k zs)
        × (get_nearest_next cmp same k t ≡ first_above cmp k zs)

    free-Nearest :
        (up : Context A)
        → locate cmp k t.tree root ≡ free up
        → IsBetween cmp k up
        → Nearest (before up ++ behind up)
    unfolding get_nearest_prev get_nearest_next
    free-Nearest up q b =
        let (e, d) = above_everywhere cmp k (behind up) b.above in
        (
          rw (q, get_nearest_prev)
              (nearest_prev_at-last up
                ∙ sym (last_below-append cmp k (before up) (behind up) b.below e)),
          rw (q, get_nearest_next)
              (nearest_next_at-first up
                ∙ sym (first_above-append cmp k (before up) (behind up) b.below ∙ d)),
        )

    occupied-Nearest :
        (y : A) (xs ys : List A)
        → locate cmp k t.tree root ≡ occupied y
        → inorder t.tree ≡ xs ++ y ∷ ys
        → All (λ z. cmp k z ≡ gt) xs
        → cmp k y ≡ eq
        → Nearest (xs ++ y ∷ ys)
    unfolding get_nearest_prev get_nearest_next
    occupied-Nearest y xs ys q e h c =
        let (_, _, a, b) = IsSorted-parts cmp xs y ys (subst (IsSorted cmp) e valid.sorted) in
        let others = All-imp (λ z l. other_node cmp laws same test y z l) xs a in
        let later = All-imp (λ z l. later_node y z l) ys b in
        let above =
          above_everywhere cmp k ys (All-imp (λ z l. behind_same cmp k laws y z c l) ys b) in
        let hit = test.same_pointer y in
        (
          rw (q, get_nearest_prev)
              (ap (get_prev (same y)) (valid.same_list ∙ e)
                ∙ (get_prev_lem (same y) xs y ys others later hit
                    ∙ sym (last_below-append cmp k xs (y ∷ ys) h (rw (last_below, c) refl)))),
          rw (q, get_nearest_next)
              (ap (get_next (same y)) (valid.same_list ∙ e)
                ∙ (get_next-first xs ys others hit
                    ∙ sym (first_above-append cmp k xs (y ∷ ys) h ∙ rw (first_above, c) above.1))),
        )
      where
        later_node : (y z : A) → cmp y z ≡ lt → same y z ≡ false
        later_node y z l = elim (Bool-cases (same y z)) [
          | inl t ↦
              let q : lt ≡ eq =
                sym l ∙ (ap (cmp y) (sym (test.one_node y z t)) ∙ laws.same_key y) in
              cc
          | inr f ↦ f
        ]

        get_next-first :
            (xs ys : List A)
            → All (λ z. same y z ≡ false) xs
            → same y y ≡ true
            → get_next (same y) (xs ++ y ∷ ys) ≡ first ys
        get_next-first xs [] h t = get_next_last (same y) xs y h
        get_next-first xs (z ∷ zs) h t = get_next_lem (same y) xs y z zs h t

    -- In a valid tree, RedBlackTreeGetNearestPrev finds the last of its nodes, in their order, that is
    -- below the key, and RedBlackTreeGetNearestNext the first one that is above it, whether or not a
    -- node has the key.
    pub get_nearest_prev-refines :
        (get_nearest_prev cmp same k t ≡ last_below cmp k (inorder t.tree))
        × (get_nearest_next cmp same k t ≡ first_above cmp k (inorder t.tree))
    get_nearest_prev-refines =
        let sound : IsSound value t.tree root = record {
          stands = (valid.balanced.0, valid.balanced.1, tt, inr valid.black_root);
          summed = valid.summed;
          sums = tt;
        } in
        let all : inorder t.tree ++ [] ≡ inorder t.tree = append-nil (inorder t.tree) in
        elim (locate_lem value cmp laws k t.tree root valid.sorted
          (record { below = tt; above = tt }) sound) [
            | inl (up, q, b, v, e) ↦ subst Nearest (e ∙ all) (free-Nearest up q b)
            | inr (y, q, o) ↦ elim (insert_cases cmp k (inorder t.tree)) [
              | inl (ws, p) ↦
                  let d = ap (Storage.insert cmp k) all in
                  let clash : linked ws ≡ found y = sym p ∙ (sym d ∙ o) in cc
              | inr (z, xs, ys, p, e, h, c) ↦
                  let d = ap (Storage.insert cmp k) all in
                  let match : found z ≡ found y = sym p ∙ (sym d ∙ o) in
                  let same_node : y ≡ z = cc in
                  subst Nearest (sym e) (occupied-Nearest z xs ys (q ∙ ap occupied same_node) e h c)
            ]
          ]
