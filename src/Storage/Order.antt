-- ===== src/Storage/Order.antt =====
-- What `insert` and `remove` do to a sorted storage and to the elements in it.
use mathlib.Core.List.{Perm}
use mathlib.Core.List.Perm
use rsplib.Base.{
  List, [], ◌∷◌, none, some, Bool, true, false, Ordering, lt, eq, gt, ◌≡◌, ◌≢◌, ◌⊎◌, inl, inr, refl,
  IsLawful, All, All-imp, Bool-cases,
}
use rsplib.Storage.{linked, found, insert, remove}

pub Ordering-cases : (o : Ordering) → (o ≡ lt) ⊎ (o ≡ eq) ⊎ (o ≡ gt)
Ordering-cases lt = inl refl
Ordering-cases eq = inr (inl refl)
Ordering-cases gt = inr (inr refl)

module _ {ℓ} {A : Type ℓ} (cmp : A → A → Ordering) where
  abbrev pub Above : A → List A → Type 0
  Above x = All (λ y. cmp x y ≡ lt)

  -- Strictly ascending: each element comes before all that follow it.
  abbrev pub IsSorted : List A → Type 0
  IsSorted [] = Unit
  IsSorted (x ∷ xs) = Above x xs × IsSorted xs

-- `zs` is `ys` with `x` put in its place.
pub data Inserts {ℓ} {A : Type ℓ} (cmp : A → A → Ordering) (x : A) : List A → List A → Type ℓ where
  last : Inserts cmp x [] (x ∷ [])
  here : {y : A} {ys : List A} → cmp x y ≡ lt → Inserts cmp x (y ∷ ys) (x ∷ y ∷ ys)
  there :
      {y : A} {ys zs : List A}
      → cmp x y ≡ gt
      → Inserts cmp x ys zs
      → Inserts cmp x (y ∷ ys) (y ∷ zs)

-- The element `z` of the storage has the key of `x`.
pub data Clashes {ℓ} {A : Type ℓ} (cmp : A → A → Ordering) (x z : A) : List A → Type ℓ where
  here : {ys : List A} → cmp x z ≡ eq → Clashes cmp x z (z ∷ ys)
  there : {y : A} {ys : List A} → Clashes cmp x z ys → Clashes cmp x z (y ∷ ys)

module _ {ℓ} {A : Type ℓ} (cmp : A → A → Ordering) (x : A) where
  abbrev pub Inserted : List A → Type ℓ
  Inserted ys =
      ((zs : List A) × (insert cmp x ys ≡ linked zs) × Inserts cmp x ys zs)
      ⊎ ((z : A) × (insert cmp x ys ≡ found z) × Clashes cmp x z ys)

  pub insert-Inserted : (ys : List A) → Inserted ys
  unfolding insert
  insert-Inserted [] = inl (x ∷ [], refl, Inserts.last)
  insert-Inserted (y ∷ ys) = elim (Ordering-cases (cmp x y)) [
    | inl l ↦ inl (x ∷ y ∷ ys, rw (l, insert), Inserts.here l)
    | inr (inl q) ↦ inr (y, rw (q, insert), Clashes.here q)
    | inr (inr g) ↦ elim (insert-Inserted ys) [
      | inl (zs, e, i) ↦ inl (y ∷ zs, rw (g, insert, e), Inserts.there g i)
      | inr (z, e, c) ↦ inr (z, rw (g, insert, e), Clashes.there c)
    ]
  ]

  pub Inserts-All {κ} :
      (P : A → Type κ) {ys zs : List A} → Inserts cmp x ys zs → P x → All P ys → All P zs
  Inserts-All P Inserts.last p h = (p, tt)
  Inserts-All P (Inserts.here l) p h = (p, h)
  Inserts-All P (Inserts.there g i) p h = (h.0, Inserts-All P i p h.1)

  pub Inserts-perm : {ys zs : List A} → Inserts cmp x ys zs → Perm zs (x ∷ ys)
  Inserts-perm Inserts.last = Perm.refl _
  Inserts-perm (Inserts.here l) = Perm.refl _
  Inserts-perm (Inserts.there g i) = Perm.trans (Perm.cons _ (Inserts-perm i)) (Perm.swap _ _ _)

  pub Inserts-IsSorted :
      {ys zs : List A} → IsLawful cmp → Inserts cmp x ys zs → IsSorted cmp ys → IsSorted cmp zs
  Inserts-IsSorted w Inserts.last s = (tt, tt)
  Inserts-IsSorted w (Inserts.here {y = y} {ys = ys} l) s =
      ((l, All-imp (λ z h. w.chains x y z l h) ys s.0), s)
  Inserts-IsSorted w (Inserts.there {y = y} g i) s =
      (Inserts-All (λ z. cmp y z ≡ lt) i (w.flips_down x y g) s.0, Inserts-IsSorted w i s.1)

  -- Where no element has the key of `x`, `insert` links it.
  pub insert_links :
      (ys : List A)
      → All (λ y. cmp x y ≢ eq) ys
      → (zs : List A) × (insert cmp x ys ≡ linked zs) × Inserts cmp x ys zs
  insert_links ys h = elim (insert-Inserted ys) [ inl r ↦ r | inr (z, e, c) ↦ absurd (clash c h) ]
    where
      clash : {z : A} {ys : List A} → Clashes cmp x z ys → All (λ y. cmp x y ≢ eq) ys → ⊥
      clash (Clashes.here q) h = h.0 q
      clash (Clashes.there c) h = clash c h.1

-- `zs` is `ys` without its first element that passes the test, which is `x`.
pub data Removes {ℓ} {A : Type ℓ} (is_it : A → Bool) (x : A) : List A → List A → Type ℓ where
  here : {ys : List A} → is_it x ≡ true → Removes is_it x (x ∷ ys) ys
  there :
      {y : A} {ys zs : List A}
      → is_it y ≡ false
      → Removes is_it x ys zs
      → Removes is_it x (y ∷ ys) (y ∷ zs)

module _ {ℓ} {A : Type ℓ} (is_it : A → Bool) where
  abbrev pub Removed : List A → Type ℓ
  Removed ys =
      ((x : A) × (zs : List A) × (remove is_it ys ≡ some (x, zs)) × Removes is_it x ys zs)
      ⊎ ((remove is_it ys ≡ none) × All (λ y. is_it y ≡ false) ys)

  pub remove-Removed : (ys : List A) → Removed ys
  unfolding remove
  remove-Removed [] = inr (refl, tt)
  remove-Removed (y ∷ ys) = elim (Bool-cases (is_it y)) [
    | inl t ↦ inl (y, ys, rw (t, remove), Removes.here t)
    | inr f ↦ elim (remove-Removed ys) [
      | inl (x, zs, e, r) ↦ inl (x, y ∷ zs, rw (f, remove, e), Removes.there f r)
      | inr (e, h) ↦ inr (rw (f, remove, e), (f, h))
    ]
  ]

module _ {ℓ} {A : Type ℓ} {is_it : A → Bool} {x : A} where
  pub Removes-hit : {ys zs : List A} → Removes is_it x ys zs → is_it x ≡ true
  Removes-hit (Removes.here t) = t
  Removes-hit (Removes.there f r) = Removes-hit r

  pub Removes-All {κ} :
      (P : A → Type κ) {ys zs : List A} → Removes is_it x ys zs → All P ys → P x × All P zs
  Removes-All P (Removes.here t) h = h
  Removes-All P (Removes.there f r) h = let k = Removes-All P r h.1 in (k.0, (h.0, k.1))

  pub Removes-perm : {ys zs : List A} → Removes is_it x ys zs → Perm ys (x ∷ zs)
  Removes-perm (Removes.here t) = Perm.refl _
  Removes-perm (Removes.there f r) = Perm.trans (Perm.cons _ (Removes-perm r)) (Perm.swap _ _ _)

  pub Removes-IsSorted :
      (cmp : A → A → Ordering) {ys zs : List A}
      → Removes is_it x ys zs
      → IsSorted cmp ys
      → IsSorted cmp zs
  Removes-IsSorted cmp (Removes.here t) s = s.1
  Removes-IsSorted cmp (Removes.there {y = y} f r) s =
      ((Removes-All (λ z. cmp y z ≡ lt) r s.0).1, Removes-IsSorted cmp r s.1)

-- Inserting into a sorted storage succeeds only where no element has the key.
module _ {ℓ} {A : Type ℓ} (cmp : A → A → Ordering) (w : IsLawful cmp) (x : A) where
  lt_ne : (y : A) → cmp x y ≡ lt → cmp x y ≢ eq
  lt_ne y l q = cc

  pub Inserts-fresh :
      {ys zs : List A} → Inserts cmp x ys zs → IsSorted cmp ys → All (λ y. cmp x y ≢ eq) ys
  Inserts-fresh Inserts.last s = tt
  Inserts-fresh (Inserts.here {y = y} {ys = ys} l) s =
      (lt_ne y l, All-imp (λ z h. lt_ne z (w.chains x y z l h)) ys s.0)
  Inserts-fresh (Inserts.there {y = y} {ys = ys} g i) s = ((λ q. cc), Inserts-fresh i s.1)

-- A symmetric relation between all elements of a storage.
module _ {ℓ} {A : Type ℓ} (R : A → A → Type 0) where
  abbrev pub AllPairs : List A → Type 0
  AllPairs [] = Unit
  AllPairs (x ∷ xs) = All (R x) xs × AllPairs xs

  module _ (symm : (a b : A) → R a b → R b a) where
    pub Inserts-AllPairs :
        {cmp : A → A → Ordering} {x : A} {ys zs : List A}
        → Inserts cmp x ys zs
        → All (R x) ys
        → AllPairs ys
        → AllPairs zs
    Inserts-AllPairs Inserts.last h p = (tt, tt)
    Inserts-AllPairs (Inserts.here l) h p = (h, p)
    Inserts-AllPairs {cmp} {x} (Inserts.there {y = y} g i) h p =
        (Inserts-All cmp x (R y) i (symm x y h.0) p.0, Inserts-AllPairs i h.1 p.1)

    pub Removes-AllPairs :
        {is_it : A → Bool} {x : A} {ys zs : List A}
        → Removes is_it x ys zs
        → AllPairs ys
        → All (R x) zs × AllPairs zs
    Removes-AllPairs (Removes.here t) p = p
    Removes-AllPairs {x} (Removes.there {y = y} f r) p =
        let k = Removes-AllPairs r p.1 in
        let l = Removes-All (R y) r p.0 in ((symm y x l.0, k.0), (l.1, k.1))
