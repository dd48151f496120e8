-- ===== src/PoolNode/Picked.antt =====
-- A selection by value changes no account of an element.
use mathlib.Core.List.{Perm, perm_middle}
use mathlib.Core.List.Perm
use rsplib.Base.{
  ℕ, zero, suc, ◌%◌, ◌≤◌, List, [], ◌∷◌, ◌++◌, ◌≡◌, ◌⊎◌, refl, sym, subst, ◌∙◌, arith, none, some,
  ltb, Bool-cases, inl, inr, length, if◌then◌else◌,
}
use rsplib.PoolElement.{PoolElementNode, Account, account}
use rsplib.PoolPolicy.Order.{IsPolicy}
use rsplib.PoolNode.{PoolNode, unlink, link, next_seq_number, ensure_seq_numbers, ids}
use rsplib.PoolNode.Accounts.{accounts, link-accounts, unlink-Unlinked, perm-accounts}
use rsplib.PoolNode.Select.{
  Picking, prepare, mark_selected, update_picked, pick, pick_rounds, link_all, link_picked,
  pick_and_link, select_by_value_tree, increment_or_default,
}
use rsplib.PoolNode.Selected.{Same, Same-trans, begun-Same, Option-cases}
use rsplib.PoolNode.ValueTree.{select_by_value_tree_run}
use rsplib.Storage.{value_sum, get_by_value}

-- The pool and the elements unlinked from it have the handle, policy and accounts of the pool at the
-- beginning.
pub record SamePicking (pool : PoolNode) (s : Picking) : Type 0 where
  pub same_handle : s.pool.handle ≡ pool.handle
  pub same_policy : s.pool.policy ≡ pool.policy
  pub same_accounts :
      Perm (accounts s.picked ++ accounts s.pool.selection) (accounts pool.selection)

accounts_last :
    (xs : List PoolElementNode) (y : PoolElementNode) (rest : List Account)
    → Perm (accounts (xs ++ y ∷ []) ++ rest) (accounts xs ++ account y ∷ rest)
accounts_last [] y rest = Perm.refl _
accounts_last (x ∷ xs) y rest = Perm.cons (account x) (accounts_last xs y rest)

update_picked-account :
    (inc n : ℕ) (pool : PoolNode) (e : PoolElementNode)
    → IsPolicy pool.policy
    → account (update_picked inc n pool e) ≡ account e
unfolding update_picked mark_selected
update_picked-account inc n pool e laws = elim (Bool-cases (ltb n inc)) [
  | inl t ↦ rw t (laws.update_keeps (mark_selected pool e)).same_account
  | inr f ↦ rw f refl
]

pick-SamePicking :
    (inc : ℕ) (e : PoolElementNode) (pool : PoolNode) (s s' : Picking)
    → IsPolicy pool.policy
    → SamePicking pool s
    → pick inc e s ≡ some s'
    → SamePicking pool s'
unfolding pick
pick-SamePicking inc e pool s s' laws k h = elim (Option-cases (unlink e.identifier s.pool)) [
  | inr q ↦ let r : none ≡ some s' = sym (rw (q, pick) refl) ∙ h in absurd cc
  | inl ((e', rest), q) ↦
      let y = update_picked inc (length s.picked) s.pool e' in
      let it : some (record { pool = next_seq_number rest; picked = s.picked ++ y ∷ [] })
          ≡ some s' =
        sym (rw (q, pick) refl) ∙ h in
      let laws' : IsPolicy s.pool.policy = subst IsPolicy (sym k.same_policy) laws in
      let (same_handle, same_policy, π) = unlink-Unlinked s.pool rest e.identifier e' q in
      let same = update_picked-account inc (length s.picked) s.pool e' laws' in
      let moved : Perm (accounts (s.picked ++ y ∷ []) ++ accounts rest.selection)
          (accounts pool.selection) =
        Perm.trans
          (subst
            (λ a.
              Perm (accounts (s.picked ++ y ∷ []) ++ accounts rest.selection)
                (accounts s.picked ++ a ∷ accounts rest.selection))
            same (accounts_last s.picked y (accounts rest.selection)))
          (Perm.trans (Perm.append_left (accounts s.picked) (Perm.symm (perm-accounts π)))
            k.same_accounts) in
      let s0 : Picking = record { pool = next_seq_number rest; picked = s.picked ++ y ∷ [] } in
      let given : s0 ≡ s' = ground (arith, it) in
      subst (SamePicking pool) given (record {
        same_handle = same_handle ∙ k.same_handle;
        same_policy = same_policy ∙ k.same_policy;
        same_accounts = moved;
      })
]

ℕ-cases : (n : ℕ) → (n ≡ 0) ⊎ ((m : ℕ) × (n ≡ suc m))
ℕ-cases zero = inl refl
ℕ-cases (suc m) = inr (m, refl)

pick_rounds-SamePicking :
    (rounds inc : ℕ) (random : ℕ → ℕ) (pool : PoolNode) (s s' : Picking)
    → IsPolicy pool.policy
    → SamePicking pool s
    → pick_rounds rounds inc random s ≡ some s'
    → SamePicking pool s'
unfolding pick_rounds
pick_rounds-SamePicking zero inc random pool s s' laws k h =
    let it : s ≡ s' = ground arith in subst (SamePicking pool) it k
pick_rounds-SamePicking (suc rounds) inc random pool s s' laws k h =
    let value : PoolElementNode → ℕ = λ e. e.value in
    elim (ℕ-cases (value_sum value s.pool.selection)) [
      | inl q ↦
          let r : some s ≡ some s' = sym (rw (q, pick_rounds) refl) ∙ h in
          let it : s ≡ s' = ground (arith, r) in subst (SamePicking pool) it k
      | inr (m, q) ↦ elim (Option-cases (get_by_value value (random 0 % suc m) s.pool.selection)) [
        | inr n ↦
            let r : some s ≡ some s' = sym (rw (q, pick_rounds, n) refl) ∙ h in
            let it : s ≡ s' = ground (arith, r) in subst (SamePicking pool) it k
        | inl (e, g) ↦ elim (Option-cases (pick inc e s)) [
          | inr n ↦ let r : none ≡ some s' = sym (rw (q, pick_rounds, g, n) refl) ∙ h in absurd cc
          | inl (s1, p) ↦
              let r : pick_rounds rounds inc (λ i. random (suc i)) s1 ≡ some s' =
                sym (rw (q, pick_rounds, g, p) refl) ∙ h in
              pick_rounds-SamePicking rounds inc (λ i. random (suc i)) pool s1 s' laws
                (pick-SamePicking inc e pool s s1 laws k p) r
        ]
      ]
    ]

link_all-Same :
    (es : List PoolElementNode) (pool p : PoolNode)
    → IsPolicy pool.policy
    → link_all es pool ≡ some p
    → (p.handle ≡ pool.handle)
      × (p.policy ≡ pool.policy)
      × Perm (accounts p.selection) (accounts es ++ accounts pool.selection)
unfolding link_all
link_all-Same [] pool p laws h =
    let it : pool ≡ p = ground arith in
    subst
      (λ p.
        (p.handle ≡ pool.handle)
        × (p.policy ≡ pool.policy)
        × Perm (accounts p.selection) (accounts pool.selection))
      it (refl, refl, Perm.refl _)
link_all-Same (e ∷ es) pool p laws h = elim (Option-cases (link pool e)) [
  | inr q ↦ let r : none ≡ some p = sym (rw (q, link_all) refl) ∙ h in absurd cc
  | inl (p1, q) ↦
      let rest : link_all es p1 ≡ some p = sym (rw (q, link_all) refl) ∙ h in
      let (same_handle, same_policy, π) = link-accounts pool p1 e laws q in
      let (same_handle', same_policy', ρ) =
        link_all-Same es p1 p (subst IsPolicy (sym same_policy) laws) rest in
      (
        same_handle' ∙ same_handle,
        same_policy' ∙ same_policy,
        Perm.trans ρ (
            Perm.trans (Perm.append_left (accounts es) π)
              (perm_middle (accounts es) (accounts pool.selection))),
      )
]

link_picked-Same :
    (pool p : PoolNode) (s : Picking) (chosen : List ℕ)
    → IsPolicy pool.policy
    → SamePicking pool s
    → link_picked s ≡ some (chosen, p)
    → Same pool p
unfolding link_picked
link_picked-Same pool p s chosen laws k h = elim (Option-cases (link_all s.picked s.pool)) [
  | inr q ↦ let r : none ≡ some (chosen, p) = sym (rw (q, link_picked) refl) ∙ h in absurd cc
  | inl (p1, q) ↦
      let r : some (ids s.picked, p1) ≡ some (chosen, p) = sym (rw (q, link_picked) refl) ∙ h in
      let it : p1 ≡ p = ground (arith, r) in
      let (same_handle, same_policy, π) =
        link_all-Same s.picked s.pool p1 (subst IsPolicy (sym k.same_policy) laws) q in
      subst (Same pool) it (record {
        same_handle = same_handle ∙ k.same_handle;
        same_policy = same_policy ∙ k.same_policy;
        same_accounts = Perm.trans π k.same_accounts;
      })
]

pick_and_link-Same :
    (rounds inc : ℕ) (random : ℕ → ℕ) (pool p : PoolNode) (chosen : List ℕ)
    → IsPolicy pool.policy
    → pick_and_link rounds inc random pool ≡ some (chosen, p)
    → Same pool p
unfolding pick_and_link
pick_and_link-Same rounds inc random pool p chosen laws h =
    let s0 : Picking = record { pool = pool; picked = [] } in
    let k : SamePicking pool s0 = record {
      same_handle = refl;
      same_policy = refl;
      same_accounts = Perm.refl _;
    } in
    elim (Option-cases (pick_rounds rounds inc random s0)) [
      | inr q ↦ let r : none ≡ some (chosen, p) = sym (rw (q, pick_and_link) refl) ∙ h in absurd cc
      | inl (s, q) ↦
          let r : link_picked s ≡ some (chosen, p) = sym (rw (q, pick_and_link) refl) ∙ h in
          link_picked-Same pool p s chosen laws
            (pick_rounds-SamePicking rounds inc random pool s0 s laws k q) r
    ]

-- poolPolicySelectPoolElementNodesByValueTree changes no account.
pub select_by_value_tree-Same :
    (random : ℕ → ℕ) (pool p : PoolNode) (max_nodes max_increment : ℕ) (chosen : List ℕ)
    → IsPolicy pool.policy
    → 1 ≤ max_nodes
    → select_by_value_tree random pool max_nodes max_increment ≡ some (chosen, p)
    → Same pool p
select_by_value_tree-Same random pool p n max_increment chosen laws one h =
    let begun = prepare (ensure_seq_numbers n pool) in
    let inc = increment_or_default pool max_increment in
    let rounds = if ltb (length pool.selection) n then length pool.selection else n in
    let same = begun-Same n pool laws in
    let laws' : IsPolicy begun.policy = subst IsPolicy (sym same.same_policy) laws in
    let run : pick_and_link rounds inc random begun ≡ some (chosen, p) =
      sym (
        select_by_value_tree_run random pool n max_increment rounds
          (pick_and_link rounds inc random begun) one refl refl)
      ∙ h in
    Same-trans pool begun p same (pick_and_link-Same rounds inc random begun p chosen laws' run)
