-- ===== src/PoolNode/Accounts.antt =====
-- What the operations of a pool do to the accounts of its elements: the fields that the handlespace
-- relies on.
use mathlib.Core.List.{Perm}
use mathlib.Core.List.Perm
use rsplib.Base.{
  Bool-cases, ℕ, List, ◌∷◌, ◌≡◌, inl, inr, refl, sym, subst, ◌∙◌, arith, true, none, some, map,
  ◌==◌,
}
use rsplib.PolicySettings.{is_valid}
use rsplib.PoolElement.{PoolElementNode, Account, account}
use rsplib.PoolPolicy.{run_update}
use rsplib.PoolPolicy.Order.{IsPolicy}
use rsplib.PoolNode.{PoolNode, has_id, unlink, link, link_updated, remove}
use rsplib.Storage.Order.{Removes-perm, Inserts-perm, insert-Inserted, remove-Removed}

abbrev pub accounts : List PoolElementNode → List Account
accounts = map account

pub perm-accounts : {xs ys : List PoolElementNode} → Perm xs ys → Perm (accounts xs) (accounts ys)
perm-accounts p = Perm.map account p

-- Linking passes both CHECKs only with valid settings, and with the element in the selection storage.
link-is_valid :
    (pool p : PoolNode) (e : PoolElementNode)
    → link pool e ≡ some p
    → is_valid e.policy_settings ≡ true
unfolding link
link-is_valid pool p e h = elim (Bool-cases (is_valid e.policy_settings)) [
  | inl t ↦ t
  | inr f ↦ let r : none ≡ some p = sym (rw f refl) ∙ h in absurd cc
]

pub link-Linked :
    (pool p : PoolNode) (e : PoolElementNode)
    → link pool e ≡ some p
    → (p.handle ≡ pool.handle)
      × (p.policy ≡ pool.policy)
      × Perm p.selection (run_update pool.policy e ∷ pool.selection)
unfolding link link_updated
link-Linked pool p e h =
    let e' = run_update pool.policy e in
    let ok = link-is_valid pool p e h in
    let linked : link_updated pool e' ≡ some p = ground arith in
    elim (insert-Inserted pool.policy.comparison e' pool.selection) [
      | inl (zs, q, i) ↦
          let same : record pool { selection = zs } ≡ p =
            (let r : link_updated pool e' ≡ some (record pool { selection = zs }) =
                rw (q, link_updated) refl in
              ground arith) in
          subst
            (λ p.
              (p.handle ≡ pool.handle)
              × (p.policy ≡ pool.policy)
              × Perm p.selection (e' ∷ pool.selection))
            same (refl, refl, Inserts-perm pool.policy.comparison e' i)
      | inr (z, q, c) ↦ let r : link_updated pool e' ≡ none = rw (q, link_updated) refl in absurd cc
    ]

pub link-accounts :
    (pool p : PoolNode) (e : PoolElementNode)
    → IsPolicy pool.policy
    → link pool e ≡ some p
    → (p.handle ≡ pool.handle)
      × (p.policy ≡ pool.policy)
      × Perm (accounts p.selection) (account e ∷ accounts pool.selection)
link-accounts pool p e laws h =
    let (q, k, π) = link-Linked pool p e h in
    (
      q,
      k,
      subst (λ a. Perm (accounts p.selection) (a ∷ accounts pool.selection))
          (laws.update_keeps e).same_account (perm-accounts π),
    )

pub unlink-Unlinked :
    (pool p : PoolNode) (id : ℕ) (e : PoolElementNode)
    → unlink id pool ≡ some (e, p)
    → (p.handle ≡ pool.handle) × (p.policy ≡ pool.policy) × Perm pool.selection (e ∷ p.selection)
unfolding unlink
unlink-Unlinked pool p id e h = elim (remove-Removed (has_id id) pool.selection) [
  | inl (x, zs, q, r) ↦
      let found : unlink id pool ≡ some (x, record pool { selection = zs }) = rw (q, unlink) refl in
      let same_element : x ≡ e = ground arith in
      let same : record pool { selection = zs } ≡ p = ground arith in
      subst
        (λ p.
          (p.handle ≡ pool.handle)
          × (p.policy ≡ pool.policy)
          × Perm pool.selection (e ∷ p.selection))
        same (refl, refl, subst (λ x. Perm pool.selection (x ∷ zs)) same_element (Removes-perm r))
  | inr (q, absent) ↦ let r : unlink id pool ≡ none = rw (q, unlink) refl in absurd cc
]

-- poolNodeRemovePoolElementNode takes the account of the element that it returns, and no other.
pub remove-Unlinked :
    (pool p : PoolNode) (id : ℕ) (e : PoolElementNode)
    → remove id pool ≡ some (e, p)
    → (p.handle ≡ pool.handle) × Perm (accounts pool.selection) (account e ∷ accounts p.selection)
unfolding remove
remove-Unlinked pool p id e h = elim (remove-Removed (λ i. i == id) pool.index) [
  | inl (x, js, q, r) ↦
      let unlinked : unlink id (record pool { index = js }) ≡ some (e, p) =
        sym (rw (q, remove) refl) ∙ h in
      let (same, _, π) = unlink-Unlinked (record pool { index = js }) p id e unlinked in
      (same, perm-accounts π)
  | inr (q, absent) ↦ let r : remove id pool ≡ none = rw (q, remove) refl in absurd cc
]
