-- ===== src/PoolNode/Finding.antt =====
-- poolNodeFindPoolElementNode finds the elements of the pool and no others.
use mathlib.Core.List.{Mem, mem-cons}
use mathlib.Core.List.Perm
use mathlib.Core.Logic.Or
use rsplib.Base.{
  ℕ, List, [], ◌∷◌, ◌≡◌, ◌≢◌, ◌⊎◌, inl, inr, refl, sym, ap, arith, none, some, All, All-imp, ◌==◌,
  Bool-cases, compare, lt,
}
use rsplib.PoolElement.{PoolElementNode}
use rsplib.PoolNode.{PoolNode, ids, find_element, find}
use rsplib.PoolNode.Invariant.{IsValid}
use rsplib.PoolNode.Members.{All→not_mem}
use rsplib.Storage
use rsplib.Storage.Order.{IsSorted, Ordering-cases}

later_ne : (x y z : ℕ) → compare x y ≡ lt → compare y z ≡ lt → x ≢ z
later_ne x y z p q e = ground arith

-- The search of a sorted storage of numbers.
find-index :
    (x : ℕ) (ys : List ℕ)
    → IsSorted compare ys
    → ((Storage.find compare x ys ≡ some x) × Mem x ys)
      ⊎ ((Storage.find compare x ys ≡ none) × All (λ y. x ≢ y) ys)
unfolding Storage.find
find-index x [] s = inr (refl, tt)
find-index x (y ∷ ys) s = elim (Ordering-cases (compare x y)) [
  | inl l ↦
      inr (
        rw (l, Storage.find) refl,
        ((λ q. ground arith), All-imp (λ z h. later_ne x y z l h) ys s.0),
      )
  | inr (inl q) ↦
      let same : x ≡ y = ground arith in
      inl (rw (q, Storage.find) (ap some (sym same)), mem-cons.1 (Or.inl same))
  | inr (inr g) ↦ elim (find-index x ys s.1) [
    | inl (q, m) ↦ inl (rw (g, Storage.find) q, mem-cons.1 (Or.inr m))
    | inr (q, h) ↦ inr (rw (g, Storage.find) q, ((λ q. ground arith), h))
  ]
]

find_element-cases :
    (id : ℕ) (es : List PoolElementNode)
    → ((e : PoolElementNode) × (find_element id es ≡ some e) × (e.identifier ≡ id))
      ⊎ All (λ i. id ≢ i) (ids es)
unfolding find_element
find_element-cases id [] = inr tt
find_element-cases id (e ∷ es) = elim (Bool-cases (e.identifier == id)) [
  | inl t ↦ inl (e, rw t refl, ground arith)
  | inr f ↦ elim (find_element-cases id es) [
    | inl (x, q, i) ↦ inl (x, rw (f, find_element) q, i)
    | inr h ↦ inr ((λ q. ground arith), h)
  ]
]

pub find_element-Mem :
    (id : ℕ) (es : List PoolElementNode)
    → Mem id (ids es)
    → (e : PoolElementNode) × (find_element id es ≡ some e) × (e.identifier ≡ id)
find_element-Mem id es m = elim (find_element-cases id es) [
  | inl h ↦ h
  | inr h ↦ absurd (All→not_mem id (ids es) h m)
]

-- In a valid pool, the search by identifier returns the element with that identifier that the
-- selection storage holds, or NULL where the pool has none.
pub find-IsValid :
    (pool : PoolNode) (id : ℕ)
    → IsValid pool
    → ((e : PoolElementNode) × (find pool id ≡ some e)
        × (find_element id pool.selection ≡ some e)
        × (e.identifier ≡ id))
      ⊎ ((find pool id ≡ none) × (¬ Mem id (ids pool.selection)))
unfolding find
find-IsValid pool id v = elim (find-index id pool.index v.index_sorted) [
  | inl (q, m) ↦
      let (e, r, i) = find_element-Mem id pool.selection ((Perm.mem_iff v.indexed).0 m) in
      inl (e, rw (q, find) r, r, i)
  | inr (q, h) ↦
      inr (rw (q, find) refl, λ m. All→not_mem id pool.index h ((Perm.mem_iff v.indexed).1 m))
]
