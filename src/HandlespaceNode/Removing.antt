-- ===== src/HandlespaceNode/Removing.antt =====
-- poolHandlespaceNodeRemovePoolElementNode.
use mathlib.Core.List.{Mem, Perm, mem-cons, mem-map_of_mem}
use mathlib.Core.List.Perm
use mathlib.Core.Logic.Or
use rsplib.Base.{
  ℕ, ◌-◌, List, [], ◌∷◌, ◌++◌, ◌≡◌, ◌≢◌, refl, sym, subst, ◌∙◌, none, some, All, true, inl, inr,
  map, arith, ltb, Bool-cases, ◌==◌,
}
use rsplib.PoolElement.{PoolElementNode, Account, account}
use rsplib.PoolNode.{PoolNode, ids, find_element}
use rsplib.PoolNode
use rsplib.PoolNode.Accounts.{accounts, remove-Unlinked}
use rsplib.PoolNode.Members.{not_mem→All}
use rsplib.PoolNode.Removing.{remove-IsValid}
use rsplib.PoolNode.Unique.{ids-accounts, find_element-account, same_account}
use rsplib.HandlespaceNode.{
  PoolHandlespaceNode, Notification, pool_at, put_pool, element_at, discount, notify, delete,
}
use rsplib.HandlespaceNode.Accounting.{discount-Sums, with_sums}
use rsplib.HandlespaceNode.Books.{Booked, booked, entries}
use rsplib.HandlespaceNode.Elements.{forget, remove_element}
use rsplib.HandlespaceNode.Distinct.{others-Fresh}
use rsplib.HandlespaceNode.Focus.{pool_at-Focus}
use rsplib.HandlespaceNode.Invariant.{
  timer_linkage, ownership_linkage, connection_linkage, IsValid, Sums-Perm, Linked-Perm,
  rebuild-IsValid,
}
use rsplib.HandlespaceNode.Linking.{Linkage, Fresh, Holds}
use rsplib.HandlespaceNode.Unlinking.{unlink_node-Holds}
use rsplib.HandlespaceNode.Links.{Link, unlink_node}
use rsplib.HandlespaceNode.Owning.{notify-notifications}
use rsplib.HandlespaceNode.Places.{element_at-Place, put_pool-entries}

forget-steps :
    (handle : List ℕ) (e : PoolElementNode) (ns ns1 ns2 : PoolHandlespaceNode)
    → ltb 0 ns.pool_elements ≡ true
    → discount e.home_registrar_identifier e.checksum
        (record ns { pool_elements = ns.pool_elements - 1 })
      ≡ some ns1
    → notify
        (record {
          action = delete;
          handle = handle;
          element = e;
          pre_update_checksum = e.checksum;
          pre_update_home_registrar = e.home_registrar_identifier;
        })
        ns1
      ≡ ns2
    → forget handle e ns ≡ some (e, ns2)
unfolding forget
forget-steps handle e ns ns1 ns2 t d n = rw (d, t, n) refl

remove_element-steps :
    (ns : PoolHandlespaceNode) (handle : List ℕ) (id : ℕ) (p p' : PoolNode) (e : PoolElementNode)
    → pool_at handle ns.pools ≡ some p
    → PoolNode.remove id p ≡ some (e, p')
    → remove_element handle id ns
      ≡ forget handle e (record ns {
        pools = put_pool p' ns.pools;
        timers = unlink_node handle id ns.timers;
        ownerships = unlink_node handle id ns.ownerships;
        connections = unlink_node handle id ns.connections;
      })
unfolding remove_element
remove_element-steps ns handle id p p' e h r = rw (h, remove_element, r) refl

find_element-none :
    (id : ℕ) (es : List PoolElementNode) → All (λ i. id ≢ i) (ids es) → find_element id es ≡ none
unfolding find_element
find_element-none id [] h = refl
find_element-none id (e ∷ es) h = elim (Bool-cases (e.identifier == id)) [
  | inl t ↦ let same : id ≡ e.identifier = ground arith in absurd (h.0 same)
  | inr f ↦ rw f (find_element-none id es h.1)
]

element_at-none :
    (handle : List ℕ) (id : ℕ) (pools : List PoolNode) (p : PoolNode)
    → pool_at handle pools ≡ some p
    → find_element id p.selection ≡ none
    → element_at handle id pools ≡ none
unfolding element_at
element_at-none handle id pools p h q = rw (h, element_at, q) refl

unlinked-Holds :
    {K : Type 0} (g : Linkage K) (handle : List ℕ) (id : ℕ) (a : Account) {ls : List (Link K)}
    {rest : List Booked}
    → a.account_identifier ≡ id
    → ((x : Booked) → Mem x rest → Fresh handle a.account_identifier x)
    → Holds g ls (booked handle a ∷ rest)
    → Holds g (unlink_node handle id ls) rest
unlinked-Holds g handle id a {ls} {rest} same f h =
    subst (λ i. Holds g (unlink_node handle i ls) rest) same
      (unlink_node-Holds g (booked handle a) f h).0

-- Removing an element of a valid handlespace passes every CHECK and leaves a valid handlespace. The
-- element that is returned has the account that the pointer leads to; this account is gone, with
-- the element, and all others are left.
pub remove_element-IsValid :
    (ns : PoolHandlespaceNode) (handle : List ℕ) (id : ℕ) (p : PoolNode) (e : PoolElementNode)
    → IsValid ns
    → element_at handle id ns.pools ≡ some (p, e)
    → (e' : PoolElementNode) × (ns' : PoolHandlespaceNode) × (remove_element handle id ns
        ≡ some (e', ns'))
      × IsValid ns'
      × (account e' ≡ account e)
      × (element_at handle id ns'.pools ≡ none)
      × Perm (entries ns.pools) (booked handle (account e) ∷ entries ns'.pools)
remove_element-IsValid ns handle id p e v h =
    let at = element_at-Place handle id ns.pools p e v.pools_valid h in
    let f : Account → ℕ = λ a. a.account_identifier in
    let here : Mem id (ids p.selection) =
      subst (λ i. Mem i (ids p.selection)) at.same_id
        (subst (Mem e.identifier) (ids-accounts p.selection)
          (mem-map_of_mem f (find_element-account p.selection e at.element_found))) in
    let (e', p', r, same_id, vp, _, gone) = remove-IsValid p id at.pool_valid here in
    let (same_handle, π) = remove-Unlinked p p' id e' r in
    let same : account e' ≡ account e =
      same_account p.selection e (account e') at.pool_valid.selected.distinct at.element_found
        ((Perm.mem_iff π).1 (mem-cons.1 (Or.inl refl))) (same_id ∙ sym at.same_id) in
    let (others, before, after) = put_pool-entries handle ns.pools p at.pool_found in
    let rest = map (booked handle) (accounts p'.selection) ++ others in
    let b = booked handle (account e') in
    let σ : Perm (entries ns.pools) (b ∷ rest) = before (account e' ∷ accounts p'.selection) π in
    let τ : Perm (entries (put_pool p' ns.pools)) rest =
      after p' (accounts p'.selection) same_handle (Perm.refl _) in
    let l = Linked-Perm ns σ v.links in
    let fresh = others-Fresh ns.pools b rest v.sorted v.pools_valid σ in
    let counted = l.counted in
    let ns0 : PoolHandlespaceNode = record ns {
      pools = put_pool p' ns.pools;
      timers = unlink_node handle id ns.timers;
      ownerships = unlink_node handle id ns.ownerships;
      connections = unlink_node handle id ns.connections;
    } in
    let ns1 : PoolHandlespaceNode = record ns0 { pool_elements = ns.pool_elements - 1 } in
    let (c, o, n, d, s) = discount-Sums ns1 b rest (Sums-Perm ns σ v.sums) in
    let note : Notification = record {
      action = delete;
      handle = handle;
      element = e';
      pre_update_checksum = e'.checksum;
      pre_update_home_registrar = e'.home_registrar_identifier;
    } in
    let (ks, t) = notify-notifications note (with_sums ns1 c o n) in
    let ns' : PoolHandlespaceNode = record (with_sums ns1 c o n) { notifications = ks } in
    let some_left : ltb 0 ns.pool_elements ≡ true = ground (arith, counted) in
    let found_pool =
      (pool_at-Focus handle ns.pools p at.pool_found).again p' (same_handle ∙ at.same_handle) in
    (
      e',
      ns',
      remove_element-steps ns handle id p p' e' at.pool_found r
          ∙ forget-steps handle e' ns0 (with_sums ns1 c o n) ns' some_left d t,
      rebuild-IsValid ns ns' p' rest v vp refl τ s (record {
        counted = omega (arith, counted);
        timers = unlinked-Holds timer_linkage handle id (account e') same_id fresh l.timers;
        ownerships =
            unlinked-Holds ownership_linkage handle id (account e') same_id fresh l.ownerships;
        connections =
            unlinked-Holds connection_linkage handle id (account e') same_id fresh l.connections;
      }),
      same,
      element_at-none handle id ns'.pools p' found_pool
          (find_element-none id p'.selection (not_mem→All id (ids p'.selection) gone)),
      subst (λ a. Perm (entries ns.pools) (booked handle a ∷ entries ns'.pools)) same
          (Perm.trans σ (Perm.cons b (Perm.symm τ))),
    )
