-- ===== src/HandlespaceNode/Writing.antt =====
-- One element of the handlespace is changed where it stands.
use mathlib.Core.List.{Mem, Perm, mem-cons}
use mathlib.Core.Logic.Or
use rsplib.Base.{ℕ, List, ◌∷◌, ◌≡◌, refl, sym, subst, some, Bool, ℤ}
use rsplib.PoolElement.{PoolElementNode, Account, account}
use rsplib.PoolPolicy.Order.{Marks, marks, with_marks}
use rsplib.PoolNode.{PoolNode}
use rsplib.HandlespaceNode.{PoolHandlespaceNode, put_pool, element_at, write_element}
use rsplib.HandlespaceNode.Books.{Booked, booked, entries}
use rsplib.HandlespaceNode.Elements.{set_new}
use rsplib.HandlespaceNode.Invariant.{
  IsValid, Sums, Linked, Summed, Sums-Perm, Linked-Perm, rebuild-IsValid, IsSound-cons,
}
use rsplib.HandlespaceNode.Distinct.{others-Fresh}
use rsplib.HandlespaceNode.Linking.{Fresh}
use rsplib.HandlespaceNode.Places.{
  Place, with_element, element_at-Place, write_element-entries, write_element-IsValid,
  write_element-element_at,
}

-- The handlespace is valid, and as it was but for the account of one element, which is still there.
pub record Changes (handle : List ℕ) (id : ℕ) (a a' : Account) (ns ns' : PoolHandlespaceNode)
    : Type 0 where
  pub valid : IsValid ns'
  pub others : List Booked
  pub before : Perm (entries ns.pools) (booked handle a ∷ others)
  pub after : Perm (entries ns'.pools) (booked handle a' ∷ others)
  pub pool_after : PoolNode
  pub element_after : PoolElementNode
  pub there : element_at handle id ns'.pools ≡ some (pool_after, element_after)
  pub account_after : account element_after ≡ a'

module _ {handle : List ℕ} {id : ℕ} (ns : PoolHandlespaceNode) {p : PoolNode} {e : PoolElementNode}
    (v : IsValid ns) (at : Place handle id ns.pools p e) where
  -- The other elements.
  abbrev pub rest_of : List Booked
  rest_of = (write_element-entries at).0

  -- They have other handles or other identifiers.
  pub rest-Fresh : (x : Booked) → Mem x rest_of → Fresh handle e.identifier x
  rest-Fresh =
      others-Fresh ns.pools (booked handle (account e)) rest_of v.sorted v.pools_valid
        (write_element-entries at).1

  pub balance_here : Sums ns (booked handle (account e) ∷ rest_of)
  balance_here = Sums-Perm ns (write_element-entries at).1 v.sums

  pub links_here : Linked ns (booked handle (account e) ∷ rest_of)
  links_here = Linked-Perm ns (write_element-entries at).1 v.links

  -- The element was written to, and the books are right again.
  pub written-Changes :
      (m : Marks) (ns' : PoolHandlespaceNode)
      → ns'.pools ≡ put_pool (with_element p (with_marks e m)) ns.pools
      → Sums ns' (booked handle (account (with_marks e m)) ∷ rest_of)
      → Linked ns' (booked handle (account (with_marks e m)) ∷ rest_of)
      → Changes handle id (account e) (account (with_marks e m)) ns ns'
  written-Changes m ns' same s l =
      let e' = with_marks e m in
      let (_, before, changed) = write_element-entries at in
      record {
        valid =
            rebuild-IsValid ns ns' (with_element p e') (booked handle (account e') ∷ rest_of) v
              (write_element-IsValid at m) same (changed m) s l;
        others = rest_of;
        before = before;
        after =
            subst (λ ps. Perm (entries ps) (booked handle (account e') ∷ rest_of)) (sym same)
              (changed m);
        pool_after = with_element p e';
        element_after = e';
        there =
            subst (λ ps. element_at handle id ps ≡ some (with_element p e', e')) (sym same)
              (write_element-element_at at m);
        account_after = refl;
      }

  -- Nothing is done.
  pub unchanged-Changes :
      element_at handle id ns.pools ≡ some (p, e) → Changes handle id (account e) (account e) ns ns
  unchanged-Changes h = record {
    valid = v;
    others = rest_of;
    before = (write_element-entries at).1;
    after = (write_element-entries at).1;
    pool_after = p;
    element_after = e;
    there = h;
    account_after = refl;
  }

-- A change of flags changes no account.
pub set_new-Changes :
    (ns : PoolHandlespaceNode) (handle : List ℕ) (id : ℕ) (p : PoolNode) (e : PoolElementNode)
    (is_new : Bool)
    → IsValid ns
    → element_at handle id ns.pools ≡ some (p, e)
    → (ns' : PoolHandlespaceNode) × (set_new is_new handle id ns ≡ some ns')
      × Changes handle id (account e) (account e) ns ns'
unfolding set_new write_element
set_new-Changes ns handle id p e is_new v h =
    let at = element_at-Place handle id ns.pools p e v.pools_valid h in
    let m : Marks = record (marks e) {
      flags = record { marked = e.flags.marked; updated = e.flags.updated; is_new = is_new };
    } in
    let ns' : PoolHandlespaceNode = record ns {
      pools = put_pool (with_element p (with_marks e m)) ns.pools;
    } in
    (
      ns',
      rw (h, set_new) refl,
      written-Changes ns v at m ns' refl (balance_here ns v at) (links_here ns v at),
    )

-- The sums do not depend on the timer and the connection of an element.
pub Summed-same :
    {home c o n : ℕ} (handle : List ℕ) (a : Account) (stamp : ℕ) (socket : ℤ) (assoc : ℕ)
    (rest : List Booked)
    → Summed home c o n (booked handle a ∷ rest)
    → Summed home c o n (
        booked handle
          (record a { account_timer = stamp; account_socket = socket; account_assoc = assoc })
        ∷ rest)
Summed-same handle a stamp socket assoc rest s = record {
  checksum = s.checksum;
  owned_checksum = s.owned_checksum;
  owned = s.owned;
  sound =
      IsSound-cons
        (booked handle
          (record a { account_timer = stamp; account_socket = socket; account_assoc = assoc }))
        rest (s.sound (booked handle a) (mem-cons.1 (Or.inl refl)))
        (λ b m. s.sound b (mem-cons.1 (Or.inr m)));
}
