-- ===== src/HandlespaceNode/Crediting.antt =====
-- "New PE entry" of poolHandlespaceNodeAddOrUpdatePoolElementNode: the account of the new element
-- enters the books.
use mathlib.Core.List.{Perm}
use mathlib.Core.List.Perm
use rsplib.Base.{ℕ, List, ◌∷◌, ◌≡◌, refl, ap, ◌∙◌, some, All, true}
use rsplib.PoolElement.{PoolElementNode, Account, account}
use rsplib.PoolElement.Storages.{compute_checksum}
use rsplib.PoolHandle.{comparison}
use rsplib.PoolPolicy.Order.{Marks, marks, with_marks}
use rsplib.PoolNode.{PoolNode}
use rsplib.PoolNode
use rsplib.PoolNode.Invariant
use rsplib.Storage.Order.{IsSorted}
use rsplib.HandlespaceNode.{
  PoolHandlespaceNode, Notification, element_at, write_element, credit, notify, create,
}
use rsplib.HandlespaceNode.Accounting.{credit-Sums, with_sums}
use rsplib.HandlespaceNode.Books.{Booked, booked, entries, due_checksum}
use rsplib.HandlespaceNode.Elements.{set_new}
use rsplib.HandlespaceNode.Focus.{handles}
use rsplib.HandlespaceNode.Invariant.{
  timer_linkage, ownership_linkage, connection_linkage, IsValid, Sums, Linked, rebuilt-IsValid,
}
use rsplib.HandlespaceNode.Linking.{Holds-same}
use rsplib.HandlespaceNode.Owning.{notify-notifications, compute_checksum-due}
use rsplib.HandlespaceNode.Places.{
  with_element, element_at-Place, write_element-entries, write_element-IsValid,
  write_element-element_at,
}
use rsplib.HandlespaceNode.Registration.{begin_account}
use rsplib.HandlespaceNode.Writing.{set_new-Changes}

-- The account with the right checksum.
abbrev pub credited : List ℕ → Account → Account
credited handle a = record a { account_checksum = due_checksum handle a.account_identifier }

begin_account-steps :
    (handle : List ℕ) (id : ℕ) (p : PoolNode) (e : PoolElementNode)
    (ns ns1 ns2 : PoolHandlespaceNode) (k : ℕ)
    → element_at handle id ns.pools ≡ some (p, e)
    → compute_checksum (record { handle = p.handle; element = e }) ≡ k
    → credit e.home_registrar_identifier k (write_element p (record e { checksum = k }) ns) ≡ ns1
    → notify
        (record {
          action = create;
          handle = p.handle;
          element = record e { checksum = k };
          pre_update_checksum = 0;
          pre_update_home_registrar = 0;
        })
        ns1
      ≡ ns2
    → begin_account handle id ns ≡ set_new true handle id ns2
unfolding begin_account
begin_account-steps handle id p e ns ns1 ns2 k h d c n = rw (h, begin_account, d, c, n) refl

-- A linked element that is not in the sums yet is entered in them.
pub begin_account-Credited :
    (ns : PoolHandlespaceNode) (handle : List ℕ) (id : ℕ) (p : PoolNode) (e : PoolElementNode)
    (bs : List Booked)
    → IsSorted comparison (handles ns.pools)
    → All PoolNode.Invariant.IsValid ns.pools
    → element_at handle id ns.pools ≡ some (p, e)
    → Perm (entries ns.pools) (booked handle (account e) ∷ bs)
    → Sums ns bs
    → Linked ns (booked handle (account e) ∷ bs)
    → (ns' : PoolHandlespaceNode) × (begin_account handle id ns ≡ some ns')
      × IsValid ns'
      × Perm (entries ns'.pools) (booked handle (credited handle (account e)) ∷ bs)
unfolding write_element
begin_account-Credited ns handle id p e bs sorted vs h π s l =
    let at = element_at-Place handle id ns.pools p e vs h in
    let (others, before, changed) = write_element-entries at in
    let same_others : Perm others bs = Perm.cons_inv (Perm.trans (Perm.symm before) π) in
    let k = due_checksum handle e.identifier in
    let m : Marks = record (marks e) { checksum = k } in
    let b = booked handle (account e) in
    let b' = booked handle (credited handle (account e)) in
    let due : compute_checksum (record { handle = p.handle; element = e }) ≡ k =
      compute_checksum-due p.handle e ∙ ap (λ h. due_checksum h e.identifier) at.same_handle in
    let ns0 = write_element p (with_marks e m) ns in
    let (c, o, n, r, s') = credit-Sums ns0 b' bs refl s in
    let note : Notification = record {
      action = create;
      handle = p.handle;
      element = with_marks e m;
      pre_update_checksum = 0;
      pre_update_home_registrar = 0;
    } in
    let (ks, t) = notify-notifications note (with_sums ns0 c o n) in
    let ns1 : PoolHandlespaceNode = record (with_sums ns0 c o n) { notifications = ks } in
    let after : Perm (entries ns1.pools) (b' ∷ bs) =
      Perm.trans (changed m) (Perm.cons b' same_others) in
    let valid : IsValid ns1 =
      rebuilt-IsValid ns ns1 (with_element p (with_marks e m)) (b' ∷ bs) sorted vs
        (write_element-IsValid at m) refl after s'
        (record {
          counted = l.counted;
          timers = Holds-same timer_linkage {b = b} {b' = b'} refl l.timers;
          ownerships = Holds-same ownership_linkage {b = b} {b' = b'} refl l.ownerships;
          connections = Holds-same connection_linkage {b = b} {b' = b'} refl l.connections;
        }) in
    let (ns2, q, x) =
      set_new-Changes ns1 handle id (with_element p (with_marks e m)) (with_marks e m) true valid
        (write_element-element_at at m) in
    (
      ns2,
      begin_account-steps handle id p e ns (with_sums ns0 c o n) ns1 k h due r t ∙ q,
      x.valid,
      Perm.trans x.after (Perm.trans (Perm.symm x.before) after),
    )
