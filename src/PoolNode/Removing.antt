-- ===== src/PoolNode/Removing.antt =====
-- poolNodeRemovePoolElementNode.
use mathlib.Core.List.{Mem, Perm}
use mathlib.Core.List.Perm
use rsplib.Base.{
  ℕ, List, [], ◌∷◌, ◌≡◌, ◌≢◌, inl, inr, ap, subst, ◌∙◌, arith, false, some, All, compare, ◌==◌,
}
use rsplib.PoolElement.{PoolElementNode}
use rsplib.PoolNode.{PoolNode, ids, remove}
use rsplib.PoolNode.Entries.{Differs}
use rsplib.PoolNode.Invariant.{IsValid, unlink_lem}
use rsplib.PoolNode.Members.{All→not_mem}
use rsplib.Storage
use rsplib.Storage.Order.{IsSorted, Removes-hit, Removes-IsSorted, Removes-perm, remove-Removed}

All-ne : (id : ℕ) (is : List ℕ) → All (λ i. (i == id) ≡ false) is → All (λ i. id ≢ i) is
All-ne id [] h = tt
All-ne id (i ∷ is) h = ((λ q. ground arith), All-ne id is h.1)

-- An identifier of the index storage can be removed from it.
remove-index :
    (id : ℕ) (is : List ℕ)
    → Mem id is
    → (js : List ℕ) × (Storage.remove (λ i. i == id) is ≡ some (id, js))
      × Perm is (id ∷ js)
      × (IsSorted compare is → IsSorted compare js)
remove-index id is m = elim (remove-Removed (λ i. i == id) is) [
  | inl (i, js, q, r) ↦
      let same : i ≡ id = (let hit = Removes-hit r in ground (arith, hit)) in
      (
        js,
        q ∙ ap (λ k. some (k, js)) same,
        subst (λ k. Perm is (k ∷ js)) same (Removes-perm r),
        Removes-IsSorted compare r,
      )
  | inr (q, absent) ↦ absurd (All→not_mem id is (All-ne id is absent) m)
]

Differs-ids :
    (e : PoolElementNode) (es : List PoolElementNode)
    → All (Differs e) es
    → All (λ i. e.identifier ≢ i) (ids es)
Differs-ids e [] d = tt
Differs-ids e (x ∷ es) d = (d.0.1, Differs-ids e es d.1)

-- Removing an element of a valid pool passes both CHECKs. It returns that element and leaves a valid
-- pool with all the others, and no other element with its identifier.
pub remove-IsValid :
    (pool : PoolNode) (id : ℕ)
    → IsValid pool
    → Mem id (ids pool.selection)
    → (e : PoolElementNode) × (pool' : PoolNode) × (remove id pool ≡ some (e, pool'))
      × (e.identifier ≡ id)
      × IsValid pool'
      × Perm (ids pool.selection) (id ∷ ids pool'.selection)
      × (¬ Mem id (ids pool'.selection))
unfolding remove
remove-IsValid pool id v m =
    let (js, q, π, sorted) = remove-index id pool.index ((Perm.mem_iff v.indexed).1 m) in
    let (e, zs, r, same, w, n, d, ρ) =
      unlink_lem (record pool { index = js }) id v.is_policy v.selected m in
    (
      e,
      record pool { index = js; selection = zs },
      rw (q, remove) r,
      same,
      record {
        is_policy = v.is_policy;
        seq_fits = v.seq_fits;
        selected = w;
        index_sorted = sorted v.index_sorted;
        indexed = Perm.cons_inv (Perm.trans (Perm.symm π) (Perm.trans v.indexed ρ));
      },
      ρ,
      All→not_mem id (ids zs) (subst (λ i. All (λ j. i ≢ j) (ids zs)) same (Differs-ids e zs d)),
    )
