-- ===== src/PoolNode/Selected.antt =====
-- A selection changes no account of an element.
use mathlib.Core.List.{Perm}
use mathlib.Core.List.Perm
use rsplib.Base.{
  ℕ, ◌+◌, ◌%◌, ◌^◌, ◌≤◌, List, [], ◌∷◌, ◌≡◌, refl, sym, ap₂, subst, ◌∙◌, arith, none, some, ltb,
  Bool-cases, inl, inr, take, Option, ◌⊎◌,
}
use rsplib.PoolElement.{PoolElementNode, account}
use rsplib.PoolPolicy.{run_prepare, run_update}
use rsplib.PoolPolicy.Order.{IsPolicy, KeepAll}
use rsplib.PoolNode.{PoolNode, unlink, link, next_seq_number, ensure_seq_numbers, resequence, ids}
use rsplib.PoolNode.Accounts.{accounts, link-accounts, unlink-Unlinked, perm-accounts}
use rsplib.PoolNode.Entering.{ensure_seq_numbers-accounts}
use rsplib.PoolNode.SortingOrder.{select_run}
use rsplib.PoolNode.Select.{
  prepare, mark_selected, update_selected, update_all, take_and_update, select_by_sorting_order,
  increment_or_default,
}

-- The pool has the same handle, policy and accounts.
pub record Same (pool p : PoolNode) : Type 0 where
  pub same_handle : p.handle ≡ pool.handle
  pub same_policy : p.policy ≡ pool.policy
  pub same_accounts : Perm (accounts p.selection) (accounts pool.selection)

pub Same-trans : (a b c : PoolNode) → Same a b → Same b c → Same a c
Same-trans a b c x y = record {
  same_handle = y.same_handle ∙ x.same_handle;
  same_policy = y.same_policy ∙ x.same_policy;
  same_accounts = Perm.trans y.same_accounts x.same_accounts;
}

KeepAll-accounts : (es es' : List PoolElementNode) → KeepAll es es' → accounts es' ≡ accounts es
KeepAll-accounts [] [] k = refl
KeepAll-accounts [] (e' ∷ es') k = absurd k
KeepAll-accounts (e ∷ es) [] k = absurd k
KeepAll-accounts (e ∷ es) (e' ∷ es') k =
    ap₂ (λ a rest. a ∷ rest) k.0.same_account (KeepAll-accounts es es' k.1)

ensure_seq_numbers-policy :
    (n : ℕ) (pool : PoolNode) → (ensure_seq_numbers n pool).policy ≡ pool.policy
unfolding ensure_seq_numbers resequence
ensure_seq_numbers-policy n pool =
    elim (Bool-cases (ltb ((pool.global_seq_number + n) % 2 ^ 32) pool.global_seq_number)) [
      | inl t ↦ rw t refl
      | inr f ↦ rw f refl
    ]

-- What a selection begins with.
pub begun-Same :
    (n : ℕ) (pool : PoolNode)
    → IsPolicy pool.policy
    → Same pool (prepare (ensure_seq_numbers n pool))
begun-Same n pool laws =
    let begun = ensure_seq_numbers n pool in
    let (same_accounts, same_handle) = ensure_seq_numbers-accounts n pool in
    let same_policy = ensure_seq_numbers-policy n pool in
    let laws' : IsPolicy begun.policy = subst IsPolicy (sym same_policy) laws in
    let prepared =
      KeepAll-accounts begun.selection (run_prepare begun.policy begun.selection)
        (laws'.prepare_keeps begun.selection) in
    record {
      same_handle = same_handle;
      same_policy = same_policy;
      same_accounts =
          subst (λ as'. Perm as' (accounts pool.selection)) (sym (prepared ∙ same_accounts))
            (Perm.refl _);
    }

pub Option-cases {ℓ} : {A : Type ℓ} (x : Option A) → ((a : A) × (x ≡ some a)) ⊎ (x ≡ none)
Option-cases none = inr refl
Option-cases (some a) = inl (a, refl)

-- An element is unlinked, changed in its counters, and linked again.
update_selected-Same :
    (id : ℕ) (pool p : PoolNode)
    → IsPolicy pool.policy
    → update_selected id pool ≡ some p
    → Same pool p
unfolding update_selected mark_selected
update_selected-Same id pool p laws h = elim (Option-cases (unlink id pool)) [
  | inr q ↦ let r : none ≡ some p = sym (rw (q, update_selected) refl) ∙ h in absurd cc
  | inl ((e, rest), q) ↦
      let e' = run_update pool.policy (mark_selected pool e) in
      let linked : link (next_seq_number rest) e' ≡ some p =
        sym (rw (q, update_selected) refl) ∙ h in
      let (same_handle, same_policy, π) = unlink-Unlinked pool rest id e q in
      let laws' : IsPolicy rest.policy = subst IsPolicy (sym same_policy) laws in
      let (same_handle', same_policy', ρ) =
        link-accounts (next_seq_number rest) p e' laws' linked in
      let same_account : account e' ≡ account e =
        (laws.update_keeps (mark_selected pool e)).same_account in
      record {
        same_handle = same_handle' ∙ same_handle;
        same_policy = same_policy' ∙ same_policy;
        same_accounts =
            Perm.trans
              (subst (λ a. Perm (accounts p.selection) (a ∷ accounts rest.selection)) same_account
                ρ)
              (Perm.symm (perm-accounts π));
      }
]

update_all-Same :
    (is : List ℕ) (pool p : PoolNode)
    → IsPolicy pool.policy
    → update_all is pool ≡ some p
    → Same pool p
unfolding update_all
update_all-Same [] pool p laws h =
    let it : pool ≡ p = ground arith in
    subst (Same pool) it
      (record { same_handle = refl; same_policy = refl; same_accounts = Perm.refl _ })
update_all-Same (id ∷ is) pool p laws h = elim (Option-cases (update_selected id pool)) [
  | inr q ↦ let r : none ≡ some p = sym (rw (q, update_all) refl) ∙ h in absurd cc
  | inl (p', q) ↦
      let rest : update_all is p' ≡ some p = sym (rw (q, update_all) refl) ∙ h in
      let same = update_selected-Same id pool p' laws q in
      Same-trans pool p' p same
        (update_all-Same is p' p (subst IsPolicy (sym same.same_policy) laws) rest)
]

-- poolPolicySelectPoolElementNodesBySortingOrder changes no account.
pub select_by_sorting_order-Same :
    (pool p : PoolNode) (max_nodes max_increment : ℕ) (chosen : List ℕ)
    → IsPolicy pool.policy
    → 1 ≤ max_nodes
    → select_by_sorting_order pool max_nodes max_increment ≡ some (chosen, p)
    → Same pool p
unfolding take_and_update
select_by_sorting_order-Same pool p max_nodes max_increment chosen laws one h =
    let begun = prepare (ensure_seq_numbers max_nodes pool) in
    let inc = increment_or_default pool max_increment in
    let same = begun-Same max_nodes pool laws in
    let laws' : IsPolicy begun.policy = subst IsPolicy (sym same.same_policy) laws in
    let run : take_and_update max_nodes inc begun ≡ some (chosen, p) =
      sym (select_run pool max_nodes max_increment (take_and_update max_nodes inc begun) one refl)
      ∙ h in
    let updates = update_all (take inc (take max_nodes (ids begun.selection))) begun in
    elim (Option-cases updates) [
      | inr q ↦
          let r : none ≡ some (chosen, p) = sym (rw (q, take_and_update) refl) ∙ run in absurd cc
      | inl (p', q) ↦
          let r : some (take max_nodes (ids begun.selection), p') ≡ some (chosen, p) =
            sym (rw (q, take_and_update) refl) ∙ run in
          let it : p' ≡ p = ground arith in
          Same-trans pool begun p same (
            subst (Same begun) it
              (update_all-Same (take inc (take max_nodes (ids begun.selection))) begun p' laws' q))
    ]
