-- ===== src/HandlespaceNode/Updating.antt =====
-- poolHandlespaceNodeUpdatePoolElementNode.
use mathlib.Core.List.{Perm}
use mathlib.Core.List.Perm
use rsplib.Base.{ℕ, List, ◌≡◌, ◌≢◌, refl, sym, ap, subst, ◌∙◌, some, true, false, inl, inr}
use rsplib.PolicySettings.{is_valid}
use rsplib.PoolElement.{PoolElementNode, Account, account}
use rsplib.PoolNode.{
  PoolNode, Error, okay, invalid_id, wrong_protocol, invalid_registrator, invalid_addresses,
  wrong_controlchannel_handling, invalid_pool_policy, incompatible_pool_policy, duplicate_id, ids,
  find_element, check_compatibility,
}
use rsplib.PoolNode
use rsplib.PoolNode.Accounts.{accounts}
use rsplib.PoolNode.Adding.{Error-okay}
use rsplib.PoolNode.Changes.{update-accounts}
use rsplib.PoolNode.Updating.{update-IsValid}
use rsplib.HandlespaceNode.{PoolHandlespaceNode, put_pool, element_at}
use rsplib.HandlespaceNode.Books.{booked, entries}
use rsplib.HandlespaceNode.Elements.{update_relations, update_element}
use rsplib.HandlespaceNode.Invariant.{IsValid, rebuild-IsValid}
use rsplib.HandlespaceNode.Owning.{owned_by, update_ownership-Changes}
use rsplib.HandlespaceNode.Connecting.{connected, update_connection-Changes}
use rsplib.HandlespaceNode.Places.{element_at-Place, put_pool-entries, put_pool-element_at}
use rsplib.PoolNode.Unique.{found_again}
use rsplib.HandlespaceNode.Focus.{put_pool_self}
use rsplib.HandlespaceNode.Writing.{Changes, set_new-Changes}

-- One change after another.
pub Changes-trans :
    (handle : List ℕ) (id : ℕ) (a b c : Account) (ns ns1 ns2 : PoolHandlespaceNode)
    → Changes handle id a b ns ns1
    → Changes handle id b c ns1 ns2
    → Changes handle id a c ns ns2
Changes-trans handle id a b c ns ns1 ns2 x y =
    let same : Perm x.others y.others = Perm.cons_inv (Perm.trans (Perm.symm x.after) y.before) in
    record {
      valid = y.valid;
      others = y.others;
      before = Perm.trans x.before (Perm.cons (booked handle a) same);
      after = y.after;
      pool_after = y.pool_after;
      element_after = y.element_after;
      there = y.there;
      account_after = y.account_after;
    }

-- The accounts were the same before.
pub Changes-before :
    (handle : List ℕ) (id : ℕ) (a b : Account) (ns ns1 ns2 : PoolHandlespaceNode)
    → Perm (entries ns.pools) (entries ns1.pools)
    → Changes handle id a b ns1 ns2
    → Changes handle id a b ns ns2
Changes-before handle id a b ns ns1 ns2 π y = record {
  valid = y.valid;
  others = y.others;
  before = Perm.trans π y.before;
  after = y.after;
  pool_after = y.pool_after;
  element_after = y.element_after;
  there = y.there;
  account_after = y.account_after;
}

-- What the account of an element is after an update by the source.
abbrev pub updated_by : List ℕ → PoolElementNode → Account → Account
updated_by handle source a =
    owned_by handle source.home_registrar_identifier
      (connected source.connection_socket_descriptor source.connection_assoc_id a)

update_relations-Changes :
    (ns : PoolHandlespaceNode) (handle : List ℕ) (id : ℕ) (p : PoolNode)
    (e source : PoolElementNode)
    → IsValid ns
    → element_at handle id ns.pools ≡ some (p, e)
    → (ns' : PoolHandlespaceNode) × (update_relations handle id source ns ≡ some ns')
      × Changes handle id (account e) (updated_by handle source (account e)) ns ns'
unfolding update_relations
update_relations-Changes ns handle id p e source v h =
    let home = source.home_registrar_identifier in
    let (ns1, q1, c1) =
      update_connection-Changes ns handle id p e source.connection_socket_descriptor
        source.connection_assoc_id v h in
    let (ns2, q2, c2) =
      update_ownership-Changes ns1 handle id c1.pool_after c1.element_after home c1.valid
        c1.there in
    let (ns3, q3, c3) =
      set_new-Changes ns2 handle id c2.pool_after c2.element_after false c2.valid c2.there in
    let a1 = connected source.connection_socket_descriptor source.connection_assoc_id (account e) in
    let c2' : Changes handle id a1 (owned_by handle home a1) ns1 ns2 =
      subst (λ a. Changes handle id a (owned_by handle home a) ns1 ns2) c1.account_after c2 in
    let a2 : account c2.element_after ≡ owned_by handle home a1 =
      c2.account_after ∙ ap (owned_by handle home) c1.account_after in
    let c3' : Changes handle id (owned_by handle home a1) (owned_by handle home a1) ns2 ns3 =
      subst (λ a. Changes handle id a a ns2 ns3) a2 c3 in
    (
      ns3,
      rw (q1, update_relations, q2, q3) refl,
      Changes-trans handle id (account e) a1 (owned_by handle home a1) ns ns1 ns3 c1 (
          Changes-trans handle id a1 (owned_by handle home a1) (owned_by handle home a1) ns1 ns2 ns3
            c2' c3'),
    )

update_element-okay :
    (ns ns' : PoolHandlespaceNode) (handle : List ℕ) (id : ℕ) (p p' : PoolNode)
    (e source : PoolElementNode)
    → element_at handle id ns.pools ≡ some (p, e)
    → PoolNode.update p e source ≡ some (okay, p')
    → update_relations handle id source (record ns { pools = put_pool p' ns.pools }) ≡ some ns'
    → update_element handle id source ns ≡ some (okay, ns')
unfolding update_element
update_element-okay ns ns' handle id p p' e source h u r = rw (h, update_element, u, r) refl

update_element-refused :
    (x : Error) (ns : PoolHandlespaceNode) (handle : List ℕ) (id : ℕ) (p p' : PoolNode)
    (e source : PoolElementNode)
    → x ≢ okay
    → element_at handle id ns.pools ≡ some (p, e)
    → PoolNode.update p e source ≡ some (x, p')
    → update_element handle id source ns ≡ some (x, record ns { pools = put_pool p' ns.pools })
unfolding update_element
update_element-refused okay ns handle id p p' e source n h u = absurd (n refl)
update_element-refused invalid_id ns handle id p p' e source n h u = rw (h, update_element, u) refl
update_element-refused wrong_protocol ns handle id p p' e source n h u =
    rw (h, update_element, u) refl
update_element-refused invalid_registrator ns handle id p p' e source n h u =
    rw (h, update_element, u) refl
update_element-refused invalid_addresses ns handle id p p' e source n h u =
    rw (h, update_element, u) refl
update_element-refused wrong_controlchannel_handling ns handle id p p' e source n h u =
    rw (h, update_element, u) refl
update_element-refused invalid_pool_policy ns handle id p p' e source n h u =
    rw (h, update_element, u) refl
update_element-refused incompatible_pool_policy ns handle id p p' e source n h u =
    rw (h, update_element, u) refl
update_element-refused duplicate_id ns handle id p p' e source n h u =
    rw (h, update_element, u) refl

-- Updating an element of a valid handlespace by a source with valid settings passes every CHECK. If
-- the element is not compatible with its pool, the update has the error of that test and changes
-- nothing. Otherwise the handlespace is left valid: the element has the connection and the home
-- registrar of the source and the right checksum, and no other account is changed.
pub update_element-Changes :
    (ns : PoolHandlespaceNode) (handle : List ℕ) (id : ℕ) (p : PoolNode)
    (e source : PoolElementNode)
    → IsValid ns
    → element_at handle id ns.pools ≡ some (p, e)
    → is_valid source.policy_settings ≡ true
    → (ns' : PoolHandlespaceNode) × (update_element handle id source ns
        ≡ some (check_compatibility p e, ns'))
      × (check_compatibility p e ≢ okay → ns' ≡ ns)
      × (check_compatibility p e ≡ okay
          → Changes handle id (account e) (updated_by handle source (account e)) ns ns')
update_element-Changes ns handle id p e source v h ok =
    let at = element_at-Place handle id ns.pools p e v.pools_valid h in
    let (p', u, vp, _, refusal, _) = update-IsValid p e source at.pool_valid at.element_found ok in
    elim (Error-okay (check_compatibility p e)) [
      | inr n ↦
          let same : put_pool p' ns.pools ≡ ns.pools =
            ap (λ q. put_pool q ns.pools) (refusal n)
            ∙ put_pool_self handle ns.pools p at.pool_found in
          (
            ns,
            update_element-refused (check_compatibility p e) ns handle id p p' e source n h u
                ∙ ap (λ ps. some (check_compatibility p e, record ns { pools = ps })) same,
            λ _. refl,
            λ c. absurd (n c),
          )
      | inl c ↦
          let u' : PoolNode.update p e source ≡ some (okay, p') = u ∙ ap (λ x. some (x, p')) c in
          let (same, π) =
            update-accounts p p' e source okay at.pool_valid.is_policy at.element_found u' in
          let ns1 : PoolHandlespaceNode = record ns { pools = put_pool p' ns.pools } in
          let (others, before, after) = put_pool-entries handle ns.pools p at.pool_found in
          let ρ : Perm (entries ns1.pools) (entries ns.pools) =
            Perm.trans (after p' (accounts p.selection) same π)
              (Perm.symm (before (accounts p.selection) (Perm.refl _))) in
          let v1 = rebuild-IsValid ns ns1 p' (entries ns.pools) v vp refl ρ v.sums v.links in
          let (e1, q, same_account) =
            found_again p.selection p'.selection e at.pool_valid.selected.distinct at.element_found
              π in
          let there : element_at handle id ns1.pools ≡ some (p', e1) =
            put_pool-element_at handle id ns.pools p p' e e1 at same q in
          let (ns', r, k) = update_relations-Changes ns1 handle id p' e1 source v1 there in
          let k' : Changes handle id (account e) (updated_by handle source (account e)) ns1 ns' =
            subst (λ a. Changes handle id a (updated_by handle source a) ns1 ns') same_account k in
          (
            ns',
            update_element-okay ns ns' handle id p p' e source h u' r
                ∙ ap (λ x. some (x, ns')) (sym c),
            λ n. absurd (n c),
            λ _.
                Changes-before handle id (account e) (updated_by handle source (account e)) ns ns1
                  ns' (Perm.symm ρ) k',
          )
    ]
