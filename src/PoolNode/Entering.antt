-- ===== src/PoolNode/Entering.antt =====
-- poolNodeAddPoolElementNode, in the accounts of the elements.
use mathlib.Core.List.{Perm}
use rsplib.Base.{
  ℕ, List, [], ◌∷◌, ◌≡◌, inl, inr, refl, sym, ap, subst, ◌∙◌, arith, true, some, All-imp,
  Bool-cases, compare, ◌+◌, ◌%◌, ◌^◌, ltb, ◌<◌, length,
}
use rsplib.PolicySettings.{is_valid}
use rsplib.PoolElement.{PoolElementNode, account}
use rsplib.PoolPolicy.{run_initialize}
use rsplib.PoolPolicy.Order.{IsPolicy, Keeps}
use rsplib.PoolNode
use rsplib.PoolNode.{
  PoolNode, Error, okay, Added, link, ensure_seq_numbers, renumber, resequence, check_compatibility,
  add, add_to_index, add_new, initialized, next_seq_number,
}
use rsplib.PoolNode.Accounts.{accounts, link-accounts}
use rsplib.PoolNode.Adding.{Error-okay, check_compatibility-is_valid, add_refused}
use rsplib.PoolNode.Entries.{IsSelection}
use rsplib.PoolNode.Invariant.{IsValid}
use rsplib.PoolNode.Renumber.{ensure_seq_numbers-Ensured}
use rsplib.Storage.Order.{insert-Inserted}

accounts-renumber : (n : ℕ) (es : List PoolElementNode) → accounts (renumber n es) ≡ accounts es
unfolding renumber
accounts-renumber n [] = refl
accounts-renumber n (e ∷ es) =
    ap (λ rest. account e ∷ rest) (accounts-renumber ((n + 1) % 2 ^ 32) es)

-- Resequencing changes neither the accounts nor the handle.
pub ensure_seq_numbers-accounts :
    (n : ℕ) (pool : PoolNode)
    → (accounts (ensure_seq_numbers n pool).selection ≡ accounts pool.selection)
      × ((ensure_seq_numbers n pool).handle ≡ pool.handle)
unfolding ensure_seq_numbers resequence
ensure_seq_numbers-accounts n pool =
    elim (Bool-cases (ltb ((pool.global_seq_number + n) % 2 ^ 32) pool.global_seq_number)) [
      | inl t ↦ rw t (accounts-renumber 0 pool.selection, refl)
      | inr f ↦ rw f (refl, refl)
    ]

abbrev Entered : PoolNode → PoolElementNode → PoolNode → Type 0
Entered pool e p =
    (p.handle ≡ pool.handle) × Perm (accounts p.selection) (account e ∷ accounts pool.selection)

add_new-Entered :
    (pool : PoolNode) (e : PoolElementNode) (r : Added)
    → IsPolicy pool.policy
    → pool.global_seq_number < 2 ^ 32
    → IsSelection pool.policy pool.global_seq_number pool.selection
    → length pool.selection + 1 < 2 ^ 32
    → is_valid e.policy_settings ≡ true
    → add_new pool e ≡ some r
    → Entered pool e r.pool
unfolding add_new initialized
add_new-Entered pool e r laws fits v small ok h =
    let begun = ensure_seq_numbers 1 pool in
    let en = ensure_seq_numbers-Ensured 1 pool laws fits v small in
    let (same_accounts, same_handle) = ensure_seq_numbers-accounts 1 pool in
    let laws' : IsPolicy begun.policy = rw en.same_policy laws in
    let e₀ : PoolElementNode = record e {
      flags = record { marked = e.flags.marked; updated = true; is_new = e.flags.is_new };
      seq_number = begun.global_seq_number;
      virtual_counter = 0;
      round_counter = 0;
      selection_counter = 0;
      degradation = 0;
    } in
    let e' = run_initialize begun.policy begun.selection e₀ in
    let k : Keeps e₀ e' =
      laws'.initialize_keeps begun.selection e₀
        (All-imp (λ y n. n.2) begun.selection en.selected.entries) in
    let linked : link (next_seq_number begun) e' ≡ some r.pool = ground arith in
    let (h', _, π) = link-accounts (next_seq_number begun) r.pool e' laws' linked in
    (
      h' ∙ same_handle,
      subst (λ rest. Perm (accounts r.pool.selection) (account e ∷ rest)) same_accounts
          (subst (λ a. Perm (accounts r.pool.selection) (a ∷ accounts begun.selection))
            k.same_account π),
    )

add_to_index-Entered :
    (pool : PoolNode) (e : PoolElementNode) (r : Added)
    → IsValid pool
    → length pool.selection + 1 < 2 ^ 32
    → check_compatibility pool e ≡ okay
    → add_to_index pool e ≡ some r
    → r.error ≡ okay
    → Entered pool e r.pool
unfolding add_to_index
add_to_index-Entered pool e r v small c h okay_given =
    elim (insert-Inserted compare e.identifier pool.index) [
      | inl (ids', q, i) ↦
          add_new-Entered (record pool { index = ids' }) e r v.is_policy v.seq_fits v.selected small
            (check_compatibility-is_valid pool e c) (sym (rw (q, add_to_index) refl) ∙ h)
      | inr (z, q, x) ↦
          let other : some (record { error = PoolNode.duplicate_id; element = some z; pool = pool })
              ≡ some r =
            sym (rw (q, add_to_index) refl) ∙ h in
          let clash : r.error ≡ PoolNode.duplicate_id = ground arith in absurd cc
    ]

-- Where poolNodeAddPoolElementNode succeeds, the account of the new element is added to those of
-- the pool.
pub add-Entered :
    (pool : PoolNode) (e : PoolElementNode) (r : Added)
    → IsValid pool
    → length pool.selection + 1 < 2 ^ 32
    → add pool e ≡ some r
    → r.error ≡ okay
    → (r.pool.handle ≡ pool.handle)
      × Perm (accounts r.pool.selection) (account e ∷ accounts pool.selection)
unfolding add
add-Entered pool e r v small h okay_given = elim (Error-okay (check_compatibility pool e)) [
  | inl c ↦ add_to_index-Entered pool e r v small c (sym (rw (c, add) refl) ∙ h) okay_given
  | inr n ↦
      let refusal = sym (add_refused pool e (check_compatibility pool e) refl n) ∙ h in
      let other : check_compatibility pool e ≡ r.error = ground arith in
      absurd (n (other ∙ okay_given))
]
