-- ===== src/PoolNode/Invariant.antt =====
-- The invariant of a pool, and linking and unlinking one element.
use mathlib.Core.List.{Mem, Perm}
use rsplib.Base.{ℕ, ◌<◌, ◌^◌, List, ◌∷◌, ◌≡◌, subst, some, All, compare}
use rsplib.PoolElement.{PoolElementNode}
use rsplib.PoolPolicy.{run_update}
use rsplib.PoolPolicy.Order.{IsPolicy}
use rsplib.PoolNode.{PoolNode, ids, unlink, link, link_updated}
use rsplib.PoolNode.Entries.{
  Entry, Differs, IsSelection, insert-IsSelection, Removes-IsSelection, Keeps-Differs, Keeps-Entry,
}
use rsplib.PoolNode.Members.{remove-member, perm-ids}
use rsplib.Storage.Order.{IsSorted, Inserts-perm, Removes-perm}

-- The policy obeys its laws, both storages are sorted and hold the same elements, and the elements
-- are sound.
pub record IsValid (pool : PoolNode) : Type 0 where
  pub is_policy : IsPolicy pool.policy
  pub seq_fits : pool.global_seq_number < 2 ^ 32
  pub selected : IsSelection pool.policy pool.global_seq_number pool.selection
  pub index_sorted : IsSorted compare pool.index
  pub indexed : Perm pool.index (ids pool.selection)

-- Linking an element that differs from those in the selection storage passes both CHECKs.
pub link_lem :
    (pool : PoolNode) (e : PoolElementNode)
    → IsPolicy pool.policy
    → IsSelection pool.policy pool.global_seq_number pool.selection
    → Entry pool.global_seq_number e
    → All (Differs e) pool.selection
    → (zs : List PoolElementNode) × (link pool e ≡ some (record pool { selection = zs }))
      × IsSelection pool.policy pool.global_seq_number zs
      × Perm (ids zs) (e.identifier ∷ ids pool.selection)
unfolding link link_updated
link_lem pool e laws v n d =
    let e' = run_update pool.policy e in
    let k = laws.update_keeps e in
    let (zs, q, i, w) =
      insert-IsSelection pool.policy laws pool.global_seq_number e' pool.selection v
        (Keeps-Entry pool.policy laws pool.global_seq_number e e' k n)
        (Keeps-Differs pool.policy laws e e' pool.selection k d) in
    (
      zs,
      rw (n.1, link_updated, q),
      w,
      subst (λ id. Perm (ids zs) (id ∷ ids pool.selection)) k.same_identifier
          (perm-ids (Inserts-perm pool.policy.comparison e' i)),
    )

-- Unlinking an element of the pool.
pub unlink_lem :
    (pool : PoolNode) (id : ℕ)
    → IsPolicy pool.policy
    → IsSelection pool.policy pool.global_seq_number pool.selection
    → Mem id (ids pool.selection)
    → (e : PoolElementNode) × (zs : List PoolElementNode) × (unlink id pool
        ≡ some (e, record pool { selection = zs }))
      × (e.identifier ≡ id)
      × IsSelection pool.policy pool.global_seq_number zs
      × Entry pool.global_seq_number e
      × All (Differs e) zs
      × Perm (ids pool.selection) (id ∷ ids zs)
unfolding unlink
unlink_lem pool id laws v m =
    let (e, zs, q, r, same) = remove-member id pool.selection m in
    let (w, n, d) = Removes-IsSelection pool.policy laws pool.global_seq_number id v r in
    (
      e,
      zs,
      rw (q, unlink),
      same,
      w,
      n,
      d,
      subst (λ i. Perm (ids pool.selection) (i ∷ ids zs)) same (perm-ids (Removes-perm r)),
    )
