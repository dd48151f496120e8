-- ===== src/HandlespaceNode/Fresh.antt =====
-- A new element of the handlespace has no links yet, and can be linked.
use mathlib.Core.List.{Mem, mem-cons, not-mem-nil}
use mathlib.Core.Logic.Or
use rsplib.Base.{
  ℕ, ◌+◌, List, [], ◌∷◌, ◌≡◌, refl, sym, subst, some, All, All-imp, inl, inr, arith, map,
  Bool-cases, ◌==◌,
}
use rsplib.PoolElement.{PoolElementNode, account}
use rsplib.HandlespaceNode.{PoolHandlespaceNode}
use rsplib.HandlespaceNode.Books.{Booked, booked}
use rsplib.HandlespaceNode.Elements.{link_ownership}
use rsplib.HandlespaceNode.Invariant.{
  timer_linkage, ownership_linkage, connection_linkage, Linked, LinkedAs, HoldsOwnerships,
}
use rsplib.HandlespaceNode.Linking.{
  Linkage, Fresh, Misses, Holds, Holds-more, link_node-Holds, link_of, links_to-true,
}
use rsplib.HandlespaceNode.LinkOrders.{number_links-IsLawful}
use rsplib.HandlespaceNode.Links.{Link, Connection, links_to}
use rsplib.HandlespaceNode.Connecting.{link_connection-Holds}
use rsplib.HandlespaceNode.Registration.{link_element}

Fresh-Misses :
    {K : Type 0} (g : Linkage K) (handle : List ℕ) (id : ℕ) (bs : List Booked) (l : Link K)
    → All (Fresh handle id) bs
    → Mem l (map (link_of g) bs)
    → Misses handle id l
Fresh-Misses g handle id [] l f m = absurd (not-mem-nil m)
Fresh-Misses g handle id (b ∷ bs) l f m =
    let unique : IsProp (Misses handle id l) = hlevel in
    let it_is : l ≡ link_of g b → Misses handle id l =
      λ q. subst (Misses handle id) (sym q) (not_linked b f.0) in
    let further : Mem l (map (link_of g) bs) → Misses handle id l =
      Fresh-Misses g handle id bs l f.1 in
    Or.elim unique (mem-cons.0 m) it_is further
  where
    not_linked : (b : Booked) → Fresh handle id b → Misses handle id (link_of g b)
    not_linked b f = elim (Bool-cases (links_to handle id (link_of g b))) [
      | inr n ↦ n
      | inl t ↦ let (h, i) = links_to-true handle id (link_of g b) t in absurd (f (sym h) i)
    ]

Holds-Misses :
    {K : Type 0} (g : Linkage K) (handle : List ℕ) (id : ℕ) {ls : List (Link K)} {bs : List Booked}
    → Holds g ls bs
    → All (Fresh handle id) bs
    → All (Misses handle id) ls
Holds-Misses g handle id {ls} {bs} h f =
    All-imp (λ l m. Fresh-Misses g handle id bs l f m) ls h.known

link_ownership-Holds :
    (handle : List ℕ) (e : PoolElementNode) (ls : List (Link ℕ)) (rest : List Booked)
    → All (Misses handle e.identifier) ls
    → HoldsOwnerships ls rest
    → (ls' : List (Link ℕ)) × (link_ownership handle e ls ≡ some ls')
      × HoldsOwnerships ls' (booked handle (account e) ∷ rest)
unfolding link_ownership
link_ownership-Holds handle e ls rest miss h =
    let b = booked handle (account e) in
    elim (Bool-cases (e.home_registrar_identifier == 0)) [
      | inl t ↦ (ls, rw t refl, Holds-more ownership_linkage b (ground (arith, t)) h)
      | inr f ↦
          let (ls', q, held) =
            link_node-Holds ownership_linkage b number_links-IsLawful refl miss h in
          (ls', rw (f, link_ownership, q) refl, held)
    ]

-- Linking a new element passes the CHECKs.
pub link_element-Linked :
    (ns : PoolHandlespaceNode) (handle : List ℕ) (e : PoolElementNode) (bs : List Booked)
    → Linked ns bs
    → All (Fresh handle e.identifier) bs
    → (os : List (Link ℕ)) × (cs : List (Link Connection)) × (link_element handle e ns
        ≡ some
            (record ns { pool_elements = ns.pool_elements + 1; ownerships = os; connections = cs }))
      × LinkedAs (ns.pool_elements + 1) ns.timers os cs (booked handle (account e) ∷ bs)
unfolding link_element
link_element-Linked ns handle e bs l f =
    let b = booked handle (account e) in
    let counted = l.counted in
    let (os, q, held_os) =
      link_ownership-Holds handle e ns.ownerships bs
        (Holds-Misses ownership_linkage handle e.identifier l.ownerships f) l.ownerships in
    let (cs, r, held_cs) =
      link_connection-Holds handle e ns.connections bs
        (Holds-Misses connection_linkage handle e.identifier l.connections f) l.connections in
    (
      os,
      cs,
      rw (q, link_element, r) refl,
      record {
        counted = omega (arith, counted);
        timers = Holds-more timer_linkage b refl l.timers;
        ownerships = held_os;
        connections = held_cs;
      },
    )
