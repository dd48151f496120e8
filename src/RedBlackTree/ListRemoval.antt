-- ===== src/RedBlackTree/ListRemoval.antt =====
-- The ring list and the sorted storage without one node.
use rsplib.Base.{
  none, List, [], ◌∷◌, ◌++◌, ◌≡◌, inl, inr, refl, subst, some, Bool, true, false, Ordering, All,
}
use rsplib.RedBlackTree.Remove.{get_next, unlink_list}
use rsplib.Storage
use rsplib.Storage.Order.{IsSorted, remove-Removed, Removes-IsSorted}

module _ {ℓ} {A : Type ℓ} (is_it : A → Bool) where
  pub get_next_lem :
      (xs : List A) (x y : A) (ys : List A)
      → All (λ z. is_it z ≡ false) xs
      → is_it x ≡ true
      → get_next is_it (xs ++ x ∷ y ∷ ys) ≡ some y
  unfolding get_next
  get_next_lem [] x y ys h t = rw t refl
  get_next_lem (z ∷ []) x y ys h t = rw (h.0, t) refl
  get_next_lem (z ∷ z' ∷ zs) x y ys h t = rw h.0 (get_next_lem (z' ∷ zs) x y ys h.1 t)

  pub get_next_last :
      (xs : List A) (x : A) → All (λ z. is_it z ≡ false) xs → get_next is_it (xs ++ x ∷ []) ≡ none
  unfolding get_next
  get_next_last [] x h = refl
  get_next_last (z ∷ []) x h = rw h.0 refl
  get_next_last (z ∷ z' ∷ zs) x h = rw h.0 (get_next_last (z' ∷ zs) x h.1)

  pub unlink_list_lem :
      (xs : List A) (x : A) (ys : List A)
      → All (λ z. is_it z ≡ false) xs
      → is_it x ≡ true
      → unlink_list is_it (xs ++ x ∷ ys) ≡ xs ++ ys
  unfolding unlink_list
  unlink_list_lem [] x ys h t = rw t refl
  unlink_list_lem (z ∷ zs) x ys h t = rw (h.0, unlink_list_lem zs x ys h.1 t) refl

  pub storage_remove_lem :
      (xs : List A) (x : A) (ys : List A)
      → All (λ z. is_it z ≡ false) xs
      → is_it x ≡ true
      → Storage.remove is_it (xs ++ x ∷ ys) ≡ some (x, xs ++ ys)
  unfolding Storage.remove
  storage_remove_lem [] x ys h t = rw (t, Storage.remove) refl
  storage_remove_lem (z ∷ zs) x ys h t =
      rw (h.0, Storage.remove, storage_remove_lem zs x ys h.1 t) refl

  pub remove-IsSorted :
      (cmp : A → A → Ordering) (x : A) (ys zs : List A)
      → Storage.remove is_it ys ≡ some (x, zs)
      → IsSorted cmp ys
      → IsSorted cmp zs
  remove-IsSorted cmp x ys zs e s = elim (remove-Removed is_it ys) [
    | inl (x', zs', q, r) ↦
        let same : zs' ≡ zs = cc in subst (IsSorted cmp) same (Removes-IsSorted cmp r s)
    | inr (q, h) ↦ cc
  ]
