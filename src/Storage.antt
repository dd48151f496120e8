-- ===== src/Storage.antt =====
-- The storage behind the ST_METHOD and STN_METHOD macros of the handlespace management, as its
-- users see it: the leaf-linked red-black tree of src/redblacktree_impl.h keeps its nodes in a
-- ring list, in the order of the comparison function, and that list is the storage here.
pub mod Order
use rsplib.Base.{
  ℕ, suc, ◌+◌, ◌-◌, List, [], ◌∷◌, Option, none, some, Bool, true, false, Ordering, lt, eq, gt, ltb,
  if◌then◌else◌,
}

-- Insert returns the node itself, or the node with the same key that is stored already.
pub data Insertion {ℓ} (A : Type ℓ) : Type ℓ where
  linked : List A → Insertion A
  found : A → Insertion A

module _ {ℓ} {A : Type ℓ} where
  abbrev pub behind : A → Insertion A → Insertion A
  behind y (linked ys) = linked (y ∷ ys)
  behind y (found z) = found z

  -- ST_METHOD(Insert)
  unfoldable pub insert : (A → A → Ordering) → A → List A → Insertion A
  insert cmp x [] = linked (x ∷ [])
  insert cmp x (y ∷ ys) = elim (cmp x y) [
    | lt ↦ linked (x ∷ y ∷ ys)
    | eq ↦ found y
    | gt ↦ behind y (insert cmp x ys)
  ]

  -- ST_METHOD(Find)
  unfoldable pub find : (A → A → Ordering) → A → List A → Option A
  find cmp x [] = none
  find cmp x (y ∷ ys) = elim (cmp x y) [ lt ↦ none | eq ↦ some y | gt ↦ find cmp x ys ]

  -- ST_METHOD(Remove) of the node that `is_it` tells from the others; `none` is its CHECK that the
  -- node is linked.
  unfoldable pub remove : (A → Bool) → List A → Option (A × List A)
  remove is_it [] = none
  remove is_it (y ∷ ys) = elim (is_it y) [
    | true ↦ some (y, ys)
    | false ↦ elim (remove is_it ys) [ none ↦ none | some (z, zs) ↦ some (z, y ∷ zs) ]
  ]

  -- ST_METHOD(GetValueSum)
  unfoldable pub value_sum : (A → ℕ) → List A → ℕ
  value_sum value [] = 0
  value_sum value (y ∷ ys) = value y + value_sum value ys

  -- ST_METHOD(GetNodeByValue): the node whose share of the value sum holds the given value. Past
  -- the value sum it is the last node.
  abbrev pub or_last : A → Option A → Option A
  or_last y none = some y
  or_last y (some z) = some z

  unfoldable pub get_by_value : (A → ℕ) → ℕ → List A → Option A
  get_by_value value v [] = none
  get_by_value value v (y ∷ ys) =
      if ltb v (value y) then some y else or_last y (get_by_value value (v - value y) ys)
