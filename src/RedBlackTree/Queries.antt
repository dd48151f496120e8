-- ===== src/RedBlackTree/Queries.antt =====
-- RedBlackTreeFind, RedBlackTreeGetValueSum and RedBlackTreeGetNodeByValue against the sorted
-- storage.
use rsplib.Base.{
  ℕ, ◌+◌, ◌-◌, ◌<◌, ◌≤◌, ◌%◌, ◌^◌, List, [], ◌∷◌, ◌++◌, ◌≡◌, inl, inr, refl, sym, ap, subst, ◌∙◌,
  arith, Option, none, some, false, Bool-cases, Ordering, lt, gt, IsLawful, All, All-imp, ltb,
  ltb→lt,
}
use rsplib.RedBlackTree.{Tree, null, node, inorder, value_sum, find, get_node_by_value}
use rsplib.RedBlackTree.Locating.{IsSorted-parts, greater_than_left}
use rsplib.RedBlackTree.Sums.{IsSummed}
use rsplib.Storage
use rsplib.Storage.{or_last, get_by_value}
use rsplib.Storage.Order.{IsSorted, Ordering-cases}

ltb_rest : (v s w : ℕ) → s ≤ v → ltb v (s + w) ≡ ltb (v - s) w
ltb_rest v s w h = ground arith

ltb_no : (v w : ℕ) → ltb v w ≡ false → w ≤ v
ltb_no v w h = ground arith

module _ {ℓ} {A : Type ℓ} where
  module _ (cmp : A → A → Ordering) (laws : IsLawful cmp) (k : A) where
    find_before :
        (x : A) (xs ys : List A)
        → cmp k x ≡ lt
        → Storage.find cmp k (xs ++ x ∷ ys) ≡ Storage.find cmp k xs
    unfolding Storage.find
    find_before x [] ys l = rw (l, Storage.find) refl
    find_before x (z ∷ zs) ys l = elim (Ordering-cases (cmp k z)) [
      | inl a ↦ rw (a, Storage.find) refl
      | inr (inl a) ↦ rw (a, Storage.find) refl
      | inr (inr a) ↦ rw (a, Storage.find) (find_before x zs ys l)
    ]

    find_behind :
        (xs ys : List A)
        → All (λ y. cmp k y ≡ gt) xs
        → Storage.find cmp k (xs ++ ys) ≡ Storage.find cmp k ys
    unfolding Storage.find
    find_behind [] ys h = refl
    find_behind (z ∷ zs) ys h = rw (h.0, Storage.find) (find_behind zs ys h.1)

    -- In a sorted tree, RedBlackTreeFind finds what the search of the sorted list of its nodes
    -- finds.
    pub find-refines :
        (t : Tree A) → IsSorted cmp (inorder t) → find cmp k t ≡ Storage.find cmp k (inorder t)
    unfolding find Storage.find
    find-refines null s = refl
    find-refines (node c x w l r) s =
        let (sl, sr, hl, hr) = IsSorted-parts cmp (inorder l) x (inorder r) s in
        elim (Ordering-cases (cmp k x)) [
          | inl e ↦ rw (e, find) (find-refines l sl ∙ sym (find_before x (inorder l) (inorder r) e))
          | inr (inl e) ↦
              rw (e, find)
                (sym (
                  find_behind (inorder l) (x ∷ inorder r)
                    (All-imp (λ y q. laws.same_place k x y e q) (inorder l) hl)
                  ∙ rw (e, Storage.find) refl))
          | inr (inr e) ↦
              rw (e, find)
                (find-refines r sr
                  ∙ sym (
                      find_behind (inorder l) (x ∷ inorder r)
                        (greater_than_left cmp laws k x (inorder l) e hl)
                      ∙ rw (e, Storage.find) refl))
        ]

  module _ (value : A → ℕ) where
    value_sum-append :
        (xs ys : List A)
        → Storage.value_sum value (xs ++ ys)
          ≡ Storage.value_sum value xs + Storage.value_sum value ys
    unfolding Storage.value_sum
    value_sum-append [] ys = omega arith
    value_sum-append (x ∷ xs) ys = omega (arith, value_sum-append xs ys)

    -- In a tree whose nodes have the right sums, the ValueSum of the root is the sum of all values,
    -- taken in 64 bits.
    pub value_sum-refines :
        (t : Tree A) → IsSummed value t → value_sum t ≡ Storage.value_sum value (inorder t) % 2 ^ 64
    unfolding Storage.value_sum
    value_sum-refines null h = refl
    value_sum-refines (node c x s l r) h =
        let a = value_sum-refines l h.1 in
        let b = value_sum-refines r h.2 in
        let e = h.0 in let d = value_sum-append (inorder l) (x ∷ inorder r) in omega arith

    or_last-some : (x : A) (o : Option A) → (y : A) × (or_last x o ≡ some y)
    or_last-some x none = (x, refl)
    or_last-some x (some y) = (y, refl)

    get_some : (v : ℕ) (x : A) (xs : List A) → (y : A) × (get_by_value value v (x ∷ xs) ≡ some y)
    unfolding get_by_value
    get_some v x xs = elim (Bool-cases (ltb v (value x))) [
      | inl t ↦ (x, rw t refl)
      | inr f ↦ let (y, e) = or_last-some x (get_by_value value (v - value x) xs) in (y, rw f e)
    ]

    -- Within the values of a front part, the node is found there.
    get_before :
        (v : ℕ) (xs ys : List A)
        → v < Storage.value_sum value xs
        → (y : A) × (get_by_value value v xs ≡ some y) × (get_by_value value v (xs ++ ys) ≡ some y)
    unfolding get_by_value Storage.value_sum
    get_before v [] ys h = absurd (omega arith)
    get_before v (x ∷ xs) ys h = elim (Bool-cases (ltb v (value x))) [
      | inl t ↦ (x, rw t refl, rw t refl)
      | inr f ↦
          let past : value x ≤ v = ground arith in
          let (y, e, d) = get_before (v - value x) xs ys (omega arith) in
          (y, rw (f, e) refl, rw (f, d) refl)
    ]

    get_behind :
        (v : ℕ) (xs : List A) (y : A) (ys : List A)
        → Storage.value_sum value xs ≤ v
        → get_by_value value v (xs ++ y ∷ ys)
          ≡ get_by_value value (v - Storage.value_sum value xs) (y ∷ ys)
    unfolding Storage.value_sum get_by_value
    get_behind v [] y ys h = ap (λ w. get_by_value value w (y ∷ ys)) (omega arith)
    get_behind v (x ∷ xs) y ys h =
        let past : value x ≤ v = omega arith in
        let f : ltb v (value x) ≡ false = ground arith in
        let rest = get_behind (v - value x) xs y ys (omega arith) in
        let e : v - value x - Storage.value_sum value xs
            ≡ v - (value x + Storage.value_sum value xs) =
          omega arith in
        let (z, d) = get_some (v - value x - Storage.value_sum value xs) y ys in
        rw (get_by_value, f, rest, d) (sym d ∙ ap (λ w. get_by_value value w (y ∷ ys)) e)

    -- In a tree whose nodes have the right sums, where the values together fit into 64 bits,
    -- RedBlackTreeGetNodeByValue finds the node whose share of the sum holds the given value, as
    -- the walk along the list of all nodes does.
    pub get_node_by_value-refines :
        (v : ℕ) (t : Tree A)
        → IsSummed value t
        → Storage.value_sum value (inorder t) < 2 ^ 64
        → get_node_by_value value v t ≡ get_by_value value v (inorder t)
    unfolding get_node_by_value Storage.value_sum get_by_value
    get_node_by_value-refines v null h b = refl
    get_node_by_value-refines v (node c x s l r) h b =
        let ls = inorder l in
        let rs = inorder r in
        let d = value_sum-append ls (x ∷ rs) in
        let total_left : value_sum l ≡ Storage.value_sum value ls =
          omega (arith, value_sum-refines l h.1) in
        let before : (value_sum l + value x) % 2 ^ 64 ≡ Storage.value_sum value ls + value x =
          omega arith in
        elim (Bool-cases (ltb v (value_sum l))) [
          | inl t ↦
              let (y, p, q) =
                get_before v ls (x ∷ rs)
                  (subst (λ w. v < w) total_left (ltb→lt v (value_sum l) t)) in
              let left = get_node_by_value-refines v l h.1 (omega arith) in rw (t, q, left, p) refl
          | inr f ↦
              let past : Storage.value_sum value ls ≤ v =
                subst (λ w. w ≤ v) total_left (ltb_no v (value_sum l) f) in
              let rest = v - Storage.value_sum value ls in
              let behind = get_behind v ls x rs past in
              elim (Bool-cases (ltb rest (value x))) [
                | inl t ↦
                    let t' = ltb_rest v (Storage.value_sum value ls) (value x) past ∙ t in
                    rw (f, before, t', behind, t) refl
                | inr f₁ ↦
                    let f' = ltb_rest v (Storage.value_sum value ls) (value x) past ∙ f₁ in
                    let e : v - (Storage.value_sum value ls + value x) ≡ rest - value x =
                      omega arith in
                    let right = get_node_by_value-refines (rest - value x) r h.2 (omega arith) in
                    rw (f, before, f', behind, f₁, e, right) refl
              ]
        ]
