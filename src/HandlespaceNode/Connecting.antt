-- ===== src/HandlespaceNode/Connecting.antt =====
-- poolHandlespaceNodeUpdateConnectionOfPoolElementNode.
use rsplib.Base.{
  ℕ, ℤ, List, ◌∷◌, ◌≡◌, refl, sym, ap₂, subst, some, All, Bool, true, inl, inr, ◌==◌, Bool-cases,
  arith, is_positive, ◌&&◌,
}
use rsplib.PoolElement.{PoolElementNode, Account, account}
use rsplib.PoolPolicy.Order.{Marks, marks, with_marks}
use rsplib.PoolNode.{PoolNode}
use rsplib.HandlespaceNode.{PoolHandlespaceNode, put_pool, element_at, write_element}
use rsplib.HandlespaceNode.Books.{Booked, booked}
use rsplib.HandlespaceNode.Elements.{link_connection, update_connection, same_int}
use rsplib.HandlespaceNode.Invariant.{
  timer_linkage, ownership_linkage, connection_linkage, IsValid, HoldsConnections,
}
use rsplib.HandlespaceNode.Linking.{Misses, Holds-same, Holds-more, link_node-Holds}
use rsplib.HandlespaceNode.Unlinking.{unlink_node-Holds}
use rsplib.HandlespaceNode.LinkOrders.{compare_int-eq, connection_links-IsLawful}
use rsplib.HandlespaceNode.Links.{Link, Connection, unlink_node}
use rsplib.HandlespaceNode.Places.{with_element, element_at-Place}
use rsplib.HandlespaceNode.Writing.{
  Changes, rest_of, rest-Fresh, balance_here, links_here, written-Changes, unchanged-Changes,
  Summed-same,
}

-- What the account of an element is with another connection.
abbrev pub connected : (socket_descriptor : ℤ) (assoc_id : ℕ) → Account → Account
connected socket assoc a = record a { account_socket = socket; account_assoc = assoc }

pub link_connection-Holds :
    (handle : List ℕ) (e : PoolElementNode) (ls : List (Link Connection)) (rest : List Booked)
    → All (Misses handle e.identifier) ls
    → HoldsConnections ls rest
    → (ls' : List (Link Connection)) × (link_connection handle e ls ≡ some ls')
      × HoldsConnections ls' (booked handle (account e) ∷ rest)
unfolding link_connection
link_connection-Holds handle e ls rest miss h =
    let b = booked handle (account e) in
    elim (Bool-cases (is_positive e.connection_socket_descriptor)) [
      | inl t ↦
          let (ls', q, held) =
            link_node-Holds connection_linkage b connection_links-IsLawful t miss h in
          (ls', rw (t, link_connection, q) refl, held)
      | inr f ↦ (ls, rw f refl, Holds-more connection_linkage b f h)
    ]

both-true : (a b : Bool) → (a && b) ≡ true → (a ≡ true) × (b ≡ true)
both-true a b h = (ground arith, ground arith)

-- The test for a change of the connection.
abbrev unchanged : PoolElementNode → ℤ → ℕ → Bool
unchanged e socket assoc =
    same_int socket e.connection_socket_descriptor && assoc == e.connection_assoc_id

unchanged-account :
    (e : PoolElementNode) (socket : ℤ) (assoc : ℕ)
    → unchanged e socket assoc ≡ true
    → account e ≡ connected socket assoc (account e)
unchanged-account e socket assoc t =
    let (s, i) =
      both-true (same_int socket e.connection_socket_descriptor) (assoc == e.connection_assoc_id)
        t in
    let same_socket : socket ≡ e.connection_socket_descriptor =
      compare_int-eq socket e.connection_socket_descriptor (ground arith) in
    let same_assoc : assoc ≡ e.connection_assoc_id = ground arith in
    ap₂ (λ s i. connected s i (account e)) (sym same_socket) (sym same_assoc)

-- On a valid handlespace, changing the connection of an element passes every CHECK and leaves a
-- valid handlespace: the element has the new connection, and no other account is changed.
pub update_connection-Changes :
    (ns : PoolHandlespaceNode) (handle : List ℕ) (id : ℕ) (p : PoolNode) (e : PoolElementNode)
    (socket : ℤ) (assoc : ℕ)
    → IsValid ns
    → element_at handle id ns.pools ≡ some (p, e)
    → (ns' : PoolHandlespaceNode) × (update_connection handle id socket assoc ns ≡ some ns')
      × Changes handle id (account e) (connected socket assoc (account e)) ns ns'
unfolding update_connection write_element
update_connection-Changes ns handle id p e socket assoc v h =
    let at = element_at-Place handle id ns.pools p e v.pools_valid h in
    let l = links_here ns v at in
    let b = booked handle (account e) in
    let b' = booked handle (connected socket assoc (account e)) in
    elim (Bool-cases (unchanged e socket assoc)) [
      | inl t ↦ (
        ns,
        rw (h, update_connection, t) refl,
        subst (λ a. Changes handle id (account e) a ns ns) (unchanged-account e socket assoc t)
            (unchanged-Changes ns v at h),
      )
      | inr f ↦
          let m : Marks = record (marks e) { socket = socket; assoc = assoc } in
          let (others, miss) =
            unlink_node-Holds connection_linkage b (rest-Fresh ns v at) l.connections in
          let (ls, q, held) =
            link_connection-Holds handle (with_marks e m)
              (unlink_node handle e.identifier ns.connections) (rest_of ns v at) miss others in
          let q' : link_connection handle (with_marks e m) (unlink_node handle id ns.connections)
              ≡ some ls =
            subst
              (λ i.
                link_connection handle (with_marks e m) (unlink_node handle i ns.connections)
                ≡ some ls)
              at.same_id q in
          let ns' : PoolHandlespaceNode = record ns {
            pools = put_pool (with_element p (with_marks e m)) ns.pools;
            connections = ls;
          } in
          (
            ns',
            rw (h, update_connection, f, q') refl,
            written-Changes ns v at m ns' refl
                (Summed-same handle (account e) e.timer_time_stamp socket assoc (rest_of ns v at)
                  (balance_here ns v at))
                (record {
                  counted = l.counted;
                  timers = Holds-same timer_linkage {b = b} {b' = b'} refl l.timers;
                  ownerships = Holds-same ownership_linkage {b = b} {b' = b'} refl l.ownerships;
                  connections = held;
                }),
          )
    ]
