-- ===== src/HandlespaceNode/Pools.antt =====
-- poolHandlespaceNodeAddPoolNode and poolHandlespaceNodeRemovePoolNode.
use rsplib.Base.{
  ℕ, List, [], ◌∷◌, ◌≡◌, refl, sym, ap, subst, ◌∙◌, some, All, true, false, inl, inr, arith, lt,
  Bool, ◌++◌, ◌⊎◌, ◌+◌, ◌^◌, ◌<◌, length,
}
use rsplib.PoolHandle.{comparison}
use rsplib.PoolHandle.Order.{comparison-IsLawful}
use rsplib.PoolNode.{PoolNode}
use rsplib.PoolNode
use rsplib.PoolNode.Invariant
use rsplib.Storage.{linked, found}
use rsplib.Storage
use rsplib.Storage.Order.{IsSorted, Above, Inserts, Inserts-All, insert-Inserted, Ordering-cases}
use rsplib.HandlespaceNode.{PoolHandlespaceNode, pool_comparison, pool_at}
use rsplib.HandlespaceNode.Books.{entries, entries_of}
use rsplib.HandlespaceNode.Focus.{handles, pool_at-here, pool_at-there}
use rsplib.HandlespaceNode.Invariant.{IsValid, Sums, Linked}
use rsplib.HandlespaceNode.Registration.{add_pool, remove_pool, is_eq}

comparison-lt : (x y z : List ℕ) → comparison x y ≡ lt → comparison y z ≡ lt → comparison x z ≡ lt
comparison-lt = comparison-IsLawful.0.chains

-- What the insertion of a pool does to the handles.
Inserts-handles :
    (pool : PoolNode) (h : List ℕ) {ys zs : List PoolNode}
    → Inserts pool_comparison pool ys zs
    → comparison h pool.handle ≡ lt
    → Above comparison h (handles ys)
    → Above comparison h (handles zs)
Inserts-handles pool h Inserts.last l d = (l, tt)
Inserts-handles pool h (Inserts.here _) l d = (l, d)
Inserts-handles pool h (Inserts.there _ i) l d = (d.0, Inserts-handles pool h i l d.1)

All-later :
    (pool : PoolNode) (y : List ℕ) (hs : List (List ℕ))
    → comparison pool.handle y ≡ lt
    → Above comparison y hs
    → Above comparison pool.handle hs
All-later pool y [] l d = tt
All-later pool y (h ∷ hs) l d = (comparison-lt pool.handle y h l d.0, All-later pool y hs l d.1)

Inserts-handles-IsSorted :
    (pool : PoolNode) {ys zs : List PoolNode}
    → Inserts pool_comparison pool ys zs
    → IsSorted comparison (handles ys)
    → IsSorted comparison (handles zs)
unfolding pool_comparison
Inserts-handles-IsSorted pool Inserts.last s = (tt, tt)
Inserts-handles-IsSorted pool (Inserts.here {y = y} {ys = ys} l) s =
    ((l, All-later pool y.handle (handles ys) l s.0), s)
Inserts-handles-IsSorted pool (Inserts.there {y = y} g i) s = (
  Inserts-handles pool y.handle i (comparison-IsLawful.0.flips_down pool.handle y.handle g) s.0,
  Inserts-handles-IsSorted pool i s.1,
)

-- An empty pool brings no elements.
Inserts-entries :
    (pool : PoolNode) {ys zs : List PoolNode}
    → Inserts pool_comparison pool ys zs
    → pool.selection ≡ []
    → entries zs ≡ entries ys
unfolding entries
Inserts-entries pool Inserts.last h = rw h refl
Inserts-entries pool (Inserts.here l) h = rw h refl
Inserts-entries pool (Inserts.there {y = y} g i) h =
    ap (λ bs. entries_of y ++ bs) (Inserts-entries pool i h)

Inserts-pool_at :
    (pool : PoolNode) {ys zs : List PoolNode}
    → Inserts pool_comparison pool ys zs
    → pool_at pool.handle zs ≡ some pool
unfolding pool_comparison
Inserts-pool_at pool Inserts.last =
    pool_at-here pool.handle pool [] (comparison-IsLawful.0.same_key pool.handle)
Inserts-pool_at pool (Inserts.here {y = y} {ys = ys} l) =
    pool_at-here pool.handle pool (y ∷ ys) (comparison-IsLawful.0.same_key pool.handle)
Inserts-pool_at pool (Inserts.there {y = y} {zs = zs} g i) =
    pool_at-there pool.handle y zs g ∙ Inserts-pool_at pool i

-- The pool that is in the way of the insertion is the one that the search finds.
insert-pool_at :
    (pool z : PoolNode) (ps : List PoolNode)
    → Storage.insert pool_comparison pool ps ≡ found z
    → pool_at pool.handle ps ≡ some z
unfolding Storage.insert pool_comparison
insert-pool_at pool z [] h = cc
insert-pool_at pool z (p ∷ ps) h = elim (Ordering-cases (comparison pool.handle p.handle)) [
  | inl l ↦
      let r : linked (pool ∷ p ∷ ps) ≡ found z = sym (rw (l, Storage.insert) refl) ∙ h in absurd cc
  | inr (inl q) ↦
      let r : found p ≡ found z = sym (rw (q, Storage.insert) refl) ∙ h in
      let it : p ≡ z = ground arith in pool_at-here pool.handle p ps q ∙ ap some it
  | inr (inr g) ↦ pool_at-there pool.handle p ps g ∙ insert-pool_at pool z ps (ground (arith, g))
]

-- Removing the pool by its handle undoes its insertion.
Inserts-remove :
    (pool : PoolNode) {ys zs : List PoolNode}
    → Inserts pool_comparison pool ys zs
    → Storage.remove (λ (p : PoolNode). is_eq (comparison pool.handle p.handle)) zs
      ≡ some (pool, ys)
unfolding Storage.remove pool_comparison
Inserts-remove pool Inserts.last =
    let q = comparison-IsLawful.0.same_key pool.handle in rw (q, Storage.remove) refl
Inserts-remove pool (Inserts.here l) =
    let q = comparison-IsLawful.0.same_key pool.handle in rw (q, Storage.remove) refl
Inserts-remove pool (Inserts.there g i) =
    let q = Inserts-remove pool i in rw (g, Storage.remove, q) refl

-- There is room for one more element in the pool.
abbrev pub HasRoom : PoolNode → Type 0
HasRoom p = length p.selection + 1 < 2 ^ 32

-- The handlespace that poolHandlespaceNodeAddPoolNode leaves: it has the same elements and a pool with
-- the handle; if that is the given pool, then removing it undoes the addition.
pub record Readied (pool : PoolNode) (ns : PoolHandlespaceNode) (is_new : Bool)
    (ns1 : PoolHandlespaceNode) (p : PoolNode) : Type 0 where
  pub valid : IsValid ns1
  pub same_entries : entries ns1.pools ≡ entries ns.pools
  pub rooms : All HasRoom ns1.pools
  pub pool_found : pool_at pool.handle ns1.pools ≡ some p
  pub undone :
      ((is_new ≡ true) × (remove_pool pool.handle ns1 ≡ some ns)) ⊎ ((is_new ≡ false) × (ns1 ≡ ns))

Inserts-Readied :
    (pool : PoolNode) (ns : PoolHandlespaceNode) (ps : List PoolNode)
    → IsValid ns
    → All HasRoom ns.pools
    → PoolNode.Invariant.IsValid pool
    → pool.selection ≡ []
    → Inserts pool_comparison pool ns.pools ps
    → Readied pool ns true (record ns { pools = ps }) pool
unfolding remove_pool
Inserts-Readied pool ns ps v rooms vp empty i =
    let same = Inserts-entries pool i empty in
    record {
      valid = record {
        sorted = Inserts-handles-IsSorted pool i v.sorted;
        pools_valid =
            Inserts-All pool_comparison pool PoolNode.Invariant.IsValid i vp v.pools_valid;
        sums = subst (Sums ns) (sym same) v.sums;
        links = subst (Linked ns) (sym same) v.links;
      };
      same_entries = same;
      rooms = Inserts-All pool_comparison pool HasRoom i (rw empty (omega arith)) rooms;
      pool_found = Inserts-pool_at pool i;
      undone = inl (refl, rw (Inserts-remove pool i, remove_pool) refl);
    }

-- Adding an empty pool changes no element, and there is a pool with its handle then.
pub add_pool-Readied :
    (pool : PoolNode) (ns : PoolHandlespaceNode)
    → IsValid ns
    → All HasRoom ns.pools
    → PoolNode.Invariant.IsValid pool
    → pool.selection ≡ []
    → (is_new : Bool) × (ns1 : PoolHandlespaceNode) × (p : PoolNode) × (add_pool pool ns
        ≡ (is_new, ns1))
      × Readied pool ns is_new ns1 p
unfolding add_pool
add_pool-Readied pool ns v rooms vp empty = elim (insert-Inserted pool_comparison pool ns.pools) [
  | inl (ps, q, i) ↦ (
    true,
    record ns { pools = ps },
    pool,
    rw (q, add_pool) refl,
    Inserts-Readied pool ns ps v rooms vp empty i,
  )
  | inr (z, q, _) ↦ (
    false,
    ns,
    z,
    rw (q, add_pool) refl,
    record {
      valid = v;
      same_entries = refl;
      rooms = rooms;
      pool_found = insert-pool_at pool z ns.pools q;
      undone = inr (refl, refl);
    },
  )
]
