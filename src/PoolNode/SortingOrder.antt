-- ===== src/PoolNode/SortingOrder.antt =====
-- Selection by sorting order: it passes every CHECK, keeps the pool valid, and returns the first
-- elements of the selection storage.
use mathlib.Core.List.{Mem, Perm, mem-cons}
use mathlib.Core.List.Perm
use mathlib.Core.Logic.Or
use rsplib.Base.{
  ℕ, zero, suc, ◌+◌, ◌<◌, ◌≤◌, ◌^◌, List, [], ◌∷◌, ◌≡◌, refl, sym, ap, subst, ◌∙◌, arith, true,
  some, Option, All, All-imp, length, length-take, take, leb,
}
use rsplib.PoolElement.{PoolElementNode}
use rsplib.PoolPolicy.Order.{IsPolicy}
use rsplib.PoolNode.{PoolNode, ids, ensure_seq_numbers}
use rsplib.PoolNode.Entries.{IsSelection}
use rsplib.PoolNode.Invariant.{IsValid}
use rsplib.PoolNode.Renumber.{ensure_seq_numbers-Ensured}
use rsplib.PoolNode.Preparing.{prepare-IsSelection}
use rsplib.PoolNode.Selecting.{update_all_lem}
use rsplib.PoolNode.Select.{
  begin_selection, take_and_update, select_by_sorting_order, increment_or_default, prepare,
}

take-Mem : (n : ℕ) (xs : List ℕ) → All (λ x. Mem x xs) (take n xs)
take-Mem zero xs = tt
take-Mem (suc n) [] = tt
take-Mem (suc n) (x ∷ xs) =
    (mem-cons.1 (Or.inl refl), All-imp (λ y m. mem-cons.1 (Or.inr m)) (take n xs) (take-Mem n xs))

take-All {κ} : (P : ℕ → Type κ) (n : ℕ) (xs : List ℕ) → All P xs → All P (take n xs)
take-All P zero xs h = tt
take-All P (suc n) [] h = tt
take-All P (suc n) (x ∷ xs) h = (h.0, take-All P n xs h.1)

-- The part of the selection behind its beginning.
take_and_update_lem :
    (max_nodes max_increment : ℕ) (pool : PoolNode)
    → IsPolicy pool.policy
    → IsSelection pool.policy pool.global_seq_number pool.selection
    → pool.global_seq_number + max_nodes < 2 ^ 32
    → (g : ℕ) × (zs : List PoolElementNode) × (take_and_update max_nodes max_increment pool
        ≡ some (
          take max_nodes (ids pool.selection),
          record pool { global_seq_number = g; selection = zs },
        ))
      × (g < 2 ^ 32)
      × IsSelection pool.policy g zs
      × Perm (ids zs) (ids pool.selection)
unfolding take_and_update
take_and_update_lem max_nodes max_increment pool laws v small =
    let chosen = take max_nodes (ids pool.selection) in
    let is = take max_increment chosen in
    let short : length is ≤ max_nodes =
      omega (arith, length-take max_increment chosen, length-take max_nodes (ids pool.selection)) in
    let (zs, q, w, π) =
      update_all_lem is pool laws v (omega arith)
        (take-All _ max_increment chosen (take-Mem max_nodes (ids pool.selection))) in
    (pool.global_seq_number + length is, zs, rw (q, take_and_update), omega arith, w, π)

pub select_run :
    (pool : PoolNode) (max_nodes max_increment : ℕ) (r : Option (List ℕ × PoolNode))
    → 1 ≤ max_nodes
    → take_and_update max_nodes
        (increment_or_default pool max_increment)
        (prepare (ensure_seq_numbers max_nodes pool))
      ≡ r
    → select_by_sorting_order pool max_nodes max_increment ≡ r
unfolding select_by_sorting_order begin_selection
select_run pool max_nodes max_increment r one h =
    let t : leb 1 max_nodes ≡ true = ground arith in rw (t, select_by_sorting_order) h

-- On a valid pool, selection by sorting order passes every CHECK. It returns the first
-- `max_nodes` elements of the selection storage, in the order of the policy, and leaves a valid
-- pool with the same elements, the same policy and the same index storage.
pub select_by_sorting_order-IsValid :
    (pool : PoolNode) (max_nodes max_increment : ℕ)
    → IsValid pool
    → 1 ≤ max_nodes
    → length pool.selection + max_nodes < 2 ^ 32
    → (pool' : PoolNode) × (select_by_sorting_order pool max_nodes max_increment
        ≡ some (take max_nodes (ids pool.selection), pool'))
      × IsValid pool'
      × Perm (ids pool'.selection) (ids pool.selection)
      × (pool'.index ≡ pool.index)
      × (pool'.policy ≡ pool.policy)
select_by_sorting_order-IsValid pool max_nodes max_increment v one small =
    let inc = increment_or_default pool max_increment in
    let begun = ensure_seq_numbers max_nodes pool in
    let e = ensure_seq_numbers-Ensured max_nodes pool v.is_policy v.seq_fits v.selected small in
    let laws : IsPolicy begun.policy = rw e.same_policy v.is_policy in
    let (w, same) =
      prepare-IsSelection begun.policy begun.global_seq_number begun.selection laws e.selected in
    let (g, zs, q, fits, u, π) = take_and_update_lem max_nodes inc (prepare begun) laws w e.left in
    let all_same : ids (prepare begun).selection ≡ ids pool.selection = same ∙ e.same_ids in
    let final : PoolNode = record (prepare begun) { global_seq_number = g; selection = zs } in
    (
      final,
      select_run pool max_nodes max_increment _ one
          (q ∙ ap (λ is. some (take max_nodes is, final)) all_same),
      record {
        is_policy = laws;
        seq_fits = fits;
        selected = u;
        index_sorted = rw e.same_index v.index_sorted;
        indexed =
            Perm.trans (subst (λ is. Perm is (ids pool.selection)) (sym e.same_index) v.indexed)
              (Perm.symm (subst (Perm (ids zs)) all_same π));
      },
      subst (Perm (ids zs)) all_same π,
      e.same_index,
      e.same_policy,
    )
