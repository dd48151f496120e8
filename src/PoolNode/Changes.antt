-- ===== src/PoolNode/Changes.antt =====
-- poolNodeUpdatePoolElementNode and poolNodeAddPoolElementNode, in the accounts of the elements.
use mathlib.Core.List.{Perm}
use mathlib.Core.List.Perm
use rsplib.Base.{
  List, [], ◌∷◌, ◌≡◌, inl, inr, refl, sym, ap, subst, ◌∙◌, arith, true, false, some, Bool-cases,
  ◌==◌,
}
use rsplib.PoolElement.{PoolElementNode, Account, account}
use rsplib.PoolElement
use rsplib.PoolPolicy.Order.{IsPolicy}
use rsplib.PoolNode
use rsplib.PoolNode.{
  PoolNode, Error, okay, Added, find_element, replace, has_id, link, relink, ensure_seq_numbers,
  renumber, resequence, update_changed, update, check_compatibility, add, add_to_index, add_new,
  initialized, next_seq_number,
}
use rsplib.PoolNode.Accounts.{accounts, perm-accounts, link-accounts}
use rsplib.PoolNode.Adding.{Error-okay}
use rsplib.PoolNode.Relinking.{find_element-remove}
use rsplib.PoolNode.Updating.{changed, unchanged, update-cases}
use rsplib.Storage.Order.{Removes-perm}

relink-accounts :
    (pool p : PoolNode) (e e' : PoolElementNode)
    → IsPolicy pool.policy
    → find_element e.identifier pool.selection ≡ some e
    → account e' ≡ account e
    → relink e.identifier pool e' ≡ some p
    → (p.handle ≡ pool.handle) × Perm (accounts p.selection) (accounts pool.selection)
unfolding relink PoolNode.unlink
relink-accounts pool p e e' laws h same r =
    let (ys, q, out, _) = find_element-remove e.identifier pool.selection e h in
    let linked_again : link (record pool { selection = ys }) e' ≡ some p =
      sym (rw (q, relink, PoolNode.unlink) refl) ∙ r in
    let (same_handle, _, π) =
      link-accounts (record pool { selection = ys }) p e' laws linked_again in
    (
      same_handle,
      Perm.trans (subst (λ a. Perm (accounts p.selection) (a ∷ accounts ys)) same π)
          (Perm.symm (perm-accounts (Removes-perm out))),
    )

-- A change where the element stands puts the account of the element in its place.
pub replace-accounts :
    (es : List PoolElementNode) (e : PoolElementNode)
    → find_element e.identifier es ≡ some e
    → (rest : List Account) × Perm (accounts es) (account e ∷ rest)
      × ((e' : PoolElementNode)
          → e'.identifier ≡ e.identifier
          → Perm (accounts (replace e' es)) (account e' ∷ rest))
unfolding find_element replace
replace-accounts [] e h = cc
replace-accounts (x ∷ xs) e h = elim (Bool-cases (x.identifier == e.identifier)) [
  | inl t ↦
      let found_here : x ≡ e = ground arith in
      (
        accounts xs,
        subst (λ y. Perm (account x ∷ accounts xs) (account y ∷ accounts xs)) found_here
            (Perm.refl _),
        λ e' same.
            let t' : (x.identifier == e'.identifier) ≡ true =
              ap (λ i. x.identifier == i) same ∙ t in
            rw t' (Perm.refl _),
      )
  | inr f ↦
      let (rest, π, ρ) = replace-accounts xs e (ground arith) in
      (
        account x ∷ rest,
        Perm.trans (Perm.cons (account x) π) (Perm.swap _ _ _),
        λ e' same.
            let f' : (x.identifier == e'.identifier) ≡ false =
              ap (λ i. x.identifier == i) same ∙ f in
            rw f' (Perm.trans (Perm.cons (account x) (ρ e' same)) (Perm.swap _ _ _)),
      )
]

update_changed-accounts :
    (pool p : PoolNode) (e source : PoolElementNode) (x : Error)
    → IsPolicy pool.policy
    → find_element e.identifier pool.selection ≡ some e
    → update_changed e.identifier pool (PoolElement.update e source) ≡ some (x, p)
    → (p.handle ≡ pool.handle) × Perm (accounts p.selection) (accounts pool.selection)
unfolding update_changed
update_changed-accounts pool p e source x laws h u = elim (update-cases e source) [
  | inl t ↦
      let u' : update_changed e.identifier pool (changed e source, true) ≡ some (x, p) =
        sym (ap (update_changed e.identifier pool) t) ∙ u in
      let r : relink e.identifier pool (changed e source) ≡ some p = ground arith in
      relink-accounts pool p e (changed e source) laws h refl r
  | inr (f, _) ↦
      let e' : PoolElementNode = record e { flags = unchanged e } in
      let u' : some (okay, record pool { selection = replace e' pool.selection }) ≡ some (x, p) =
        sym (ap (update_changed e.identifier pool) f) ∙ u in
      let same : record pool { selection = replace e' pool.selection } ≡ p = ground arith in
      let (rest, π, ρ) = replace-accounts pool.selection e h in
      subst (λ p. (p.handle ≡ pool.handle) × Perm (accounts p.selection) (accounts pool.selection))
        same (refl, Perm.trans (ρ e' refl) (Perm.symm π))
]

update_refusal :
    (pool p : PoolNode) (e source : PoolElementNode) (x : Error)
    → ¬ (check_compatibility pool e ≡ okay)
    → update pool e source ≡ some (x, p)
    → pool ≡ p
unfolding update
update_refusal pool p e source x h u = ground arith

-- poolNodeUpdatePoolElementNode changes no account.
pub update-accounts :
    (pool p : PoolNode) (e source : PoolElementNode) (x : Error)
    → IsPolicy pool.policy
    → find_element e.identifier pool.selection ≡ some e
    → update pool e source ≡ some (x, p)
    → (p.handle ≡ pool.handle) × Perm (accounts p.selection) (accounts pool.selection)
unfolding update
update-accounts pool p e source x laws h u = elim (Error-okay (check_compatibility pool e)) [
  | inl c ↦ update_changed-accounts pool p e source x laws h (sym (rw (c, update) refl) ∙ u)
  | inr r ↦
      subst (λ p. (p.handle ≡ pool.handle) × Perm (accounts p.selection) (accounts pool.selection))
        (update_refusal pool p e source x r u) (refl, Perm.refl _)
]
