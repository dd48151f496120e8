-- ===== src/HandlespaceNode/Timers.antt =====
-- poolHandlespaceNodeActivateTimer and poolHandlespaceNodeDeactivateTimer.
use rsplib.Base.{ℕ, List, [], ◌∷◌, ◌≡◌, refl, sym, subst, ◌∙◌, inl, inr, none, some, All, compare}
use rsplib.PoolElement.{PoolElementNode, Account, account}
use rsplib.PoolPolicy.Order.{Marks, marks, with_marks}
use rsplib.PoolNode.{PoolNode}
use rsplib.Storage.{linked}
use rsplib.Storage
use rsplib.Storage.Order.{remove-Removed}
use rsplib.HandlespaceNode.{PoolHandlespaceNode, put_pool, element_at, write_element}
use rsplib.HandlespaceNode.Books.{booked, entries}
use rsplib.HandlespaceNode.Elements.{activate_timer, deactivate_timer}
use rsplib.HandlespaceNode.Invariant.{timer_linkage, ownership_linkage, connection_linkage, IsValid}
use rsplib.HandlespaceNode.Linking.{Misses, Holds-same, Holds-others, link_node-Holds}
use rsplib.HandlespaceNode.Unlinking.{unlink_node-Misses}
use rsplib.HandlespaceNode.LinkOrders.{number_links-IsLawful}
use rsplib.HandlespaceNode.Links.{Link, links_to, link_node}
use rsplib.HandlespaceNode.Places.{with_element, element_at-Place}
use rsplib.HandlespaceNode.Writing.{
  Changes, rest_of, balance_here, links_here, written-Changes, Summed-same,
}

remove-missed :
    {K : Type 0} (handle : List ℕ) (id : ℕ) (ls : List (Link K))
    → All (Misses handle id) ls
    → Storage.remove (links_to handle id) ls ≡ none
unfolding Storage.remove
remove-missed handle id [] h = refl
remove-missed handle id (l ∷ ls) h = rw (h.0, Storage.remove, remove-missed handle id ls h.1) refl

-- A timer that could be started was not running.
pub activate_timer-idle :
    (ns ns' : PoolHandlespaceNode) (handle : List ℕ) (id : ℕ) (p : PoolNode) (e : PoolElementNode)
    (code stamp : ℕ)
    → element_at handle id ns.pools ≡ some (p, e)
    → activate_timer handle id code stamp ns ≡ some ns'
    → All (Misses handle id) ns.timers
unfolding activate_timer
activate_timer-idle ns ns' handle id p e code stamp h s =
    elim (remove-Removed (links_to handle id) ns.timers) [
      | inr (q, absent) ↦ absent
      | inl (l, rest, q, r) ↦
          let aborts : activate_timer handle id code stamp ns ≡ none =
            rw (h, activate_timer, q) refl in
          let both : none ≡ some ns' = sym aborts ∙ s in absurd cc
    ]

-- The timer of an element is changed: the books, which have no link of its old one, have one of the
-- new one.
pub activate_timer-Changes :
    (ns : PoolHandlespaceNode) (handle : List ℕ) (id : ℕ) (p : PoolNode) (e : PoolElementNode)
    (code stamp : ℕ)
    → IsValid ns
    → element_at handle id ns.pools ≡ some (p, e)
    → All (Misses handle id) ns.timers
    → (ns' : PoolHandlespaceNode) × (activate_timer handle id code stamp ns ≡ some ns')
      × Changes handle id (account e) (record (account e) { account_timer = stamp }) ns ns'
unfolding activate_timer write_element
activate_timer-Changes ns handle id p e code stamp v h miss =
    let at = element_at-Place handle id ns.pools p e v.pools_valid h in
    let s = balance_here ns v at in
    let l = links_here ns v at in
    let m : Marks = record (marks e) { timer_code = code; timer = stamp } in
    let a' : Account = record (account e) { account_timer = stamp } in
    let b' = booked handle a' in
    let miss' : All (Misses handle e.identifier) ns.timers =
      subst (λ i. All (Misses handle i) ns.timers) (sym at.same_id) miss in
    let others = Holds-others timer_linkage (booked handle (account e)) miss' l.timers in
    let (ls, q, held) = link_node-Holds timer_linkage b' number_links-IsLawful refl miss' others in
    let q' : link_node compare stamp handle id ns.timers ≡ linked ls =
      subst (λ i. link_node compare stamp handle i ns.timers ≡ linked ls) at.same_id q in
    let ns' : PoolHandlespaceNode = record ns {
      pools = put_pool (with_element p (with_marks e m)) ns.pools;
      timers = ls;
    } in
    (
      ns',
      rw (h, activate_timer, remove-missed handle id ns.timers miss, q') refl,
      written-Changes ns v at m ns' refl
          (Summed-same handle (account e) stamp e.connection_socket_descriptor e.connection_assoc_id
            (rest_of ns v at) s)
          (record {
            counted = l.counted;
            timers = held;
            ownerships =
                Holds-same ownership_linkage {b = booked handle (account e)} {b' = b'} refl
                  l.ownerships;
            connections =
                Holds-same connection_linkage {b = booked handle (account e)} {b' = b'} refl
                  l.connections;
          }),
    )

-- The timer of an element is stopped, whether it runs or not: no link of the element is left.
pub deactivate_timer-IsValid :
    (ns : PoolHandlespaceNode) (handle : List ℕ) (id : ℕ)
    → IsValid ns
    → IsValid (deactivate_timer handle id ns)
      × All (Misses handle id) (deactivate_timer handle id ns).timers
unfolding deactivate_timer
deactivate_timer-IsValid ns handle id v =
    let (held, miss) =
      unlink_node-Misses timer_linkage handle id ns.timers (entries ns.pools) (λ _. refl)
        v.links.timers in
    (
      record {
        sorted = v.sorted;
        pools_valid = v.pools_valid;
        sums = v.sums;
        links = record {
          counted = v.links.counted;
          timers = held;
          ownerships = v.links.ownerships;
          connections = v.links.connections;
        };
      },
      miss,
    )
