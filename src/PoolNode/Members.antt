-- ===== src/PoolNode/Members.antt =====
-- Membership of identifiers in the storages of a pool.
use mathlib.Core.List.{Mem, Perm, mem-cons, not-mem-nil}
use mathlib.Core.List.Perm
use mathlib.Core.HLevel.{⊥_prop}
use mathlib.Core.Logic.Or
use rsplib.Base.{ℕ, List, [], ◌∷◌, ◌≡◌, ◌≢◌, arith, false, some, All, inl, inr}
use rsplib.PoolElement.{PoolElementNode}
use rsplib.PoolNode.{ids, has_id}
use rsplib.Storage.{remove}
use rsplib.Storage.Order.{Removes, remove-Removed, Removes-hit}

pub not_mem→All : (x : ℕ) (ys : List ℕ) → ¬ Mem x ys → All (λ y. x ≢ y) ys
not_mem→All x [] h = tt
not_mem→All x (y ∷ ys) h =
    ((λ e. h (mem-cons.1 (Or.inl e))), not_mem→All x ys (λ m. h (mem-cons.1 (Or.inr m))))

pub All→not_mem : (x : ℕ) (ys : List ℕ) → All (λ y. x ≢ y) ys → ¬ Mem x ys
All→not_mem x [] h m = not-mem-nil m
All→not_mem x (y ∷ ys) h m = Or.elim ⊥_prop (mem-cons.0 m) h.0 (All→not_mem x ys h.1)

pub All-ids :
    (x : ℕ) (es : List PoolElementNode)
    → All (λ y. x ≢ y) (ids es)
    → All (λ e. has_id x e ≡ false) es
All-ids x [] h = tt
All-ids x (e ∷ es) h = (ground arith, All-ids x es h.1)

pub All-ids_ne :
    (x : ℕ) (es : List PoolElementNode)
    → All (λ e. has_id x e ≡ false) es
    → All (λ y. x ≢ y) (ids es)
All-ids_ne x [] h = tt
All-ids_ne x (e ∷ es) h = ((λ q. ground arith), All-ids_ne x es h.1)

-- The element with an identifier that the storage has can be removed, and is the one.
pub remove-member :
    (x : ℕ) (es : List PoolElementNode)
    → Mem x (ids es)
    → (e : PoolElementNode) × (zs : List PoolElementNode) × (remove (has_id x) es ≡ some (e, zs))
      × Removes (has_id x) e es zs
      × (e.identifier ≡ x)
remove-member x es m = elim (remove-Removed (has_id x) es) [
  | inl (e, zs, q, r) ↦ (e, zs, q, r, (let hit = Removes-hit r in ground (arith, hit)))
  | inr (q, none) ↦ absurd (All→not_mem x (ids es) (All-ids_ne x es none) m)
]

pub perm-ids : {xs ys : List PoolElementNode} → Perm xs ys → Perm (ids xs) (ids ys)
perm-ids p = Perm.map (λ e. e.identifier) p
