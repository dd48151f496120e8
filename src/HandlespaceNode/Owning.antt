-- ===== src/HandlespaceNode/Owning.antt =====
-- poolHandlespaceNodeUpdateOwnershipOfPoolElementNode.
use mathlib.Core.List.{Mem}
use rsplib.Base.{
  ℕ, List, ◌∷◌, ◌≡◌, refl, ap, ◌∙◌, some, true, false, inl, inr, ◌==◌, Bool-cases, arith,
}
use rsplib.PoolElement.{PoolElementNode, Account, account, Flags}
use rsplib.PoolElement.Storages.{compute_checksum}
use rsplib.PoolPolicy.Order.{Marks, marks, with_marks}
use rsplib.PoolNode.{PoolNode}
use rsplib.HandlespaceNode.{
  PoolHandlespaceNode, element_at, write_element, discount, credit, notify, Notification, update,
}
use rsplib.HandlespaceNode.Accounting.{discount-Sums, credit-Sums, with_sums}
use rsplib.HandlespaceNode.Books.{Booked, booked, due_checksum}
use rsplib.HandlespaceNode.Elements.{change_home, update_checksum, update_ownership}
use rsplib.HandlespaceNode.Invariant.{
  timer_linkage, ownership_linkage, connection_linkage, IsValid, HoldsOwnerships,
}
use rsplib.HandlespaceNode.Linking.{Fresh, Holds-same, link_node-Holds}
use rsplib.HandlespaceNode.Unlinking.{unlink_node-Holds}
use rsplib.HandlespaceNode.LinkOrders.{number_links-IsLawful}
use rsplib.HandlespaceNode.Links.{Link}
use rsplib.HandlespaceNode.Places.{element_at-Place}
use rsplib.HandlespaceNode.Writing.{
  Changes, rest_of, rest-Fresh, balance_here, links_here, written-Changes,
}

-- The element under its new home registrar.
abbrev at_home : PoolElementNode → Flags → ℕ → PoolElementNode
at_home e f home = record e { flags = f; home_registrar_identifier = home }

change_home-Holds :
    (handle : List ℕ) (e : PoolElementNode) (home : ℕ) (ls : List (Link ℕ)) (rest : List Booked)
    → ((x : Booked) → Mem x rest → Fresh handle e.identifier x)
    → HoldsOwnerships ls (booked handle (account e) ∷ rest)
    → (f : Flags) × (ls' : List (Link ℕ)) × (change_home handle e home ls
        ≡ some (at_home e f home, ls'))
      × HoldsOwnerships ls' (booked handle (record (account e) { account_home = home }) ∷ rest)
unfolding change_home
change_home-Holds handle e home ls rest fresh h =
    let b' = booked handle (record (account e) { account_home = home }) in
    elim (Bool-cases (home == e.home_registrar_identifier)) [
      | inl t ↦
          let same : e.home_registrar_identifier ≡ home = ground (arith, t) in
          let f : Flags = record {
            marked = e.flags.marked;
            updated = false;
            is_new = e.flags.is_new;
          } in
          (
            f,
            ls,
            rw (t, change_home) (ap (λ k. some (at_home e f k, ls)) same),
            Holds-same ownership_linkage {b = booked handle (account e)} {b' = b'}
                (ap (λ k. record { key = k; identifier = e.identifier; handle = handle }) same) h,
          )
      | inr n ↦
          let (others, miss) =
            unlink_node-Holds ownership_linkage (booked handle (account e)) fresh h in
          let (ls', q, held) =
            link_node-Holds ownership_linkage b' number_links-IsLawful refl miss others in
          (
            record { marked = e.flags.marked; updated = true; is_new = e.flags.is_new },
            ls',
            rw (n, change_home, q) refl,
            held,
          )
    ]

-- The notification changes nothing but the calls made.
pub notify-notifications :
    (n : Notification) (ns : PoolHandlespaceNode)
    → (ks : List Notification) × (notify n ns ≡ record ns { notifications = ks })
unfolding notify
notify-notifications n ns = elim (Bool-cases ns.notifies) [
  | inl t ↦ (n ∷ ns.notifications, rw t refl)
  | inr f ↦ (ns.notifications, rw f refl)
]

pub compute_checksum-due :
    (handle : List ℕ) (e : PoolElementNode)
    → compute_checksum (record { handle = handle; element = e }) ≡ due_checksum handle e.identifier
unfolding compute_checksum due_checksum
compute_checksum-due handle e = refl

update_checksum-steps :
    (p : PoolNode) (e e' : PoolElementNode) (ns ns1 ns2 : PoolHandlespaceNode) (k : ℕ)
    → compute_checksum (record { handle = p.handle; element = e' }) ≡ k
    → discount e.home_registrar_identifier e.checksum ns ≡ some ns1
    → credit e'.home_registrar_identifier k (write_element p (record e' { checksum = k }) ns1) ≡ ns2
    → update_checksum p e e' ns
      ≡ some (
          notify
            (record {
              action = update;
              handle = p.handle;
              element = record e' { checksum = k };
              pre_update_checksum = e.checksum;
              pre_update_home_registrar = e.home_registrar_identifier;
            })
            ns2)
unfolding update_checksum
update_checksum-steps p e e' ns ns1 ns2 k d q c = rw (q, update_checksum, d, c) refl

-- What the account of an element is under another home registrar.
abbrev pub owned_by : List ℕ → ℕ → Account → Account
owned_by handle home a = record a {
  account_checksum = due_checksum handle a.account_identifier;
  account_home = home;
}

-- On a valid handlespace, changing the home registrar of an element passes every CHECK and leaves a
-- valid handlespace: the element has the new home registrar, is linked by it if it is not 0, and has
-- the right checksum; no other account is changed.
pub update_ownership-Changes :
    (ns : PoolHandlespaceNode) (handle : List ℕ) (id : ℕ) (p : PoolNode) (e : PoolElementNode)
    (home : ℕ)
    → IsValid ns
    → element_at handle id ns.pools ≡ some (p, e)
    → (ns' : PoolHandlespaceNode) × (update_ownership handle id home ns ≡ some ns')
      × Changes handle id (account e) (owned_by handle home (account e)) ns ns'
unfolding update_ownership write_element
update_ownership-Changes ns handle id p e home v h =
    let at = element_at-Place handle id ns.pools p e v.pools_valid h in
    let rest = rest_of ns v at in
    let l = links_here ns v at in
    let (f, ls, q, held) =
      change_home-Holds handle e home ns.ownerships rest (rest-Fresh ns v at) l.ownerships in
    let ns0 : PoolHandlespaceNode = record ns { ownerships = ls } in
    let (c, o, n, d, s) =
      discount-Sums ns0 (booked handle (account e)) rest (balance_here ns v at) in
    let k = due_checksum handle e.identifier in
    let e' = at_home e f home in
    let m : Marks = record (marks e) { flags = f; home = home; checksum = k } in
    let ns1 = write_element p (with_marks e m) (with_sums ns0 c o n) in
    let b' = booked handle (owned_by handle home (account e)) in
    let (c', o', n', r, s') = credit-Sums ns1 b' rest refl s in
    let due : compute_checksum (record { handle = p.handle; element = e' }) ≡ k =
      compute_checksum-due p.handle e' ∙ ap (λ h. due_checksum h e.identifier) at.same_handle in
    let steps =
      update_checksum-steps p e e' ns0 (with_sums ns0 c o n) (with_sums ns1 c' o' n') k due d r in
    let note : Notification = record {
      action = update;
      handle = p.handle;
      element = with_marks e m;
      pre_update_checksum = e.checksum;
      pre_update_home_registrar = e.home_registrar_identifier;
    } in
    let (ks, t) = notify-notifications note (with_sums ns1 c' o' n') in
    (
      record (with_sums ns1 c' o' n') { notifications = ks },
      rw (h, update_ownership, q) (steps ∙ ap some t),
      written-Changes ns v at m (record (with_sums ns1 c' o' n') { notifications = ks }) refl s'
          (record {
            counted = l.counted;
            timers =
                Holds-same timer_linkage {b = booked handle (account e)} {b' = b'} refl l.timers;
            ownerships =
                Holds-same ownership_linkage
                  {b = booked handle (record (account e) { account_home = home })} {b' = b'} refl
                  held;
            connections =
                Holds-same connection_linkage {b = booked handle (account e)} {b' = b'} refl
                  l.connections;
          }),
    )
