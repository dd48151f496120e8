-- ===== src/PoolNode/ValueTree.antt =====
-- Selection by value, for all random numbers.
use mathlib.Core.List.{Perm, perm_middle}
use mathlib.Core.List.Perm
use rsplib.Base.{
  ℕ, zero, suc, ◌+◌, ◌%◌, ◌<◌, ◌≤◌, ◌^◌, List, [], ◌∷◌, ◌++◌, ◌≡◌, ◌⊎◌, inl, inr, refl, sym, subst,
  ◌∙◌, arith, true, some, Option, Option-cases, All, length, length-map, ltb, leb, if◌then◌else◌,
}
use rsplib.PoolElement.{PoolElementNode}
use rsplib.PoolPolicy.{run_update}
use rsplib.PoolPolicy.Order.{IsPolicy}
use rsplib.PoolNode.{PoolNode, ids, link, ensure_seq_numbers}
use rsplib.PoolNode.Entries.{Entry, Differs, IsSelection}
use rsplib.PoolNode.Invariant.{IsValid, link_lem}
use rsplib.PoolNode.Picking.{IsPicking, get_by_value-Mem, pick_lem}
use rsplib.PoolNode.Preparing.{prepare-IsSelection}
use rsplib.PoolNode.Renumber.{ensure_seq_numbers-Ensured}
use rsplib.PoolNode.Select.{
  Picking, pick_rounds, link_all, link_picked, pick_and_link, select_by_value_tree, begin_selection,
  increment_or_default, prepare,
}
use rsplib.PoolNode.Relinking.{link-All}
use rsplib.Storage.{value_sum, get_by_value}
use rsplib.Storage.Order.{AllPairs}

ℕ-cases : (n : ℕ) → (n ≡ 0) ⊎ ((m : ℕ) × (n ≡ suc m))
ℕ-cases zero = inl refl
ℕ-cases (suc m) = inr (m, refl)

-- What the loop leaves: at most `rounds` more elements are unlinked.
abbrev Picked : PoolNode → ℕ → Picking → Picking → Type 0
Picked begun rounds s s' =
    IsPicking begun s'
    × (s'.pool.global_seq_number ≤ s.pool.global_seq_number + rounds)
    × (length s'.picked ≤ length s.picked + rounds)

pick_rounds-Picked :
    (begun : PoolNode) (rounds inc : ℕ) (random : ℕ → ℕ) (s : Picking)
    → IsPicking begun s
    → s.pool.global_seq_number + rounds < 2 ^ 32
    → (s' : Picking) × (pick_rounds rounds inc random s ≡ some s') × Picked begun rounds s s'
unfolding pick_rounds
pick_rounds-Picked begun zero inc random s v small = (s, refl, (v, omega arith, omega arith))
pick_rounds-Picked begun (suc rounds) inc random s v small =
    elim (ℕ-cases (value_sum (λ e. e.value) s.pool.selection)) [
      | inl z ↦ (s, rw (z, pick_rounds) refl, (v, omega arith, omega arith))
      | inr (sum, z) ↦
          elim (Option-cases (get_by_value (λ e. e.value) (random 0 % suc sum) s.pool.selection)) [
            | inl q ↦ (s, rw (z, pick_rounds, q) refl, (v, omega arith, omega arith))
            | inr (e, q) ↦
                let m = get_by_value-Mem (λ e. e.value) (random 0 % suc sum) s.pool.selection e q in
                let (s₁, p, w, g, n) = pick_lem begun inc e s v (omega arith) m in
                let (s₂, r, (u, h, l)) =
                  pick_rounds-Picked begun rounds inc (λ i. random (suc i)) s₁ w (omega arith) in
                (s₂, rw (z, pick_rounds, q, p) r, (u, omega arith, omega arith))
          ]
    ]

still_apart :
    (pool p : PoolNode) (e : PoolElementNode) (xs : List PoolElementNode)
    → IsPolicy pool.policy
    → link pool e ≡ some p
    → Entry pool.global_seq_number e
    → All (Differs e) xs
    → All (λ x. All (Differs x) pool.selection) xs
    → All (λ x. All (Differs x) p.selection) xs
still_apart pool p e [] laws l n d h = tt
still_apart pool p e (x ∷ xs) laws l n d h =
    let k = laws.update_keeps e in
    let new : Differs x (run_update pool.policy e) =
      ((λ q. d.0.0 (sym (q ∙ k.same_seq))), (λ q. d.0.1 (sym (q ∙ k.same_identifier)))) in
    (link-All (Differs x) pool p e l n.1 new h.0, still_apart pool p e xs laws l n d.1 h.1)

-- The unlinked elements can all be linked again.
link_all_lem :
    (es : List PoolElementNode) (pool : PoolNode)
    → IsPolicy pool.policy
    → IsSelection pool.policy pool.global_seq_number pool.selection
    → All (Entry pool.global_seq_number) es
    → AllPairs Differs es
    → All (λ x. All (Differs x) pool.selection) es
    → (zs : List PoolElementNode) × (link_all es pool ≡ some (record pool { selection = zs }))
      × IsSelection pool.policy pool.global_seq_number zs
      × Perm (ids zs) (ids es ++ ids pool.selection)
unfolding link_all
link_all_lem [] pool laws v n d h = (pool.selection, refl, v, Perm.refl _)
link_all_lem (e ∷ es) pool laws v n d h =
    let (ys, q, w, π) = link_lem pool e laws v n.0 h.0 in
    let next : PoolNode = record pool { selection = ys } in
    let (zs, r, u, ρ) =
      link_all_lem es next laws w n.1 d.1 (still_apart pool next e es laws q n.0 d.0 h.1) in
    (
      zs,
      rw (q, link_all) r,
      u,
      Perm.trans ρ
          (Perm.trans (Perm.append_left (ids es) π) (perm_middle (ids es) (ids pool.selection))),
    )

pick_and_link_lem :
    (begun : PoolNode) (rounds inc : ℕ) (random : ℕ → ℕ)
    → IsPolicy begun.policy
    → IsSelection begun.policy begun.global_seq_number begun.selection
    → begun.global_seq_number + rounds < 2 ^ 32
    → (chosen : List ℕ) × (rest : List ℕ) × (pool' : PoolNode) × (pick_and_link rounds inc random
          begun
        ≡ some (chosen, pool'))
      × (length chosen ≤ rounds)
      × Perm (ids begun.selection) (chosen ++ rest)
      × Perm (ids pool'.selection) (ids begun.selection)
      × (pool'.global_seq_number < 2 ^ 32)
      × IsPolicy pool'.policy
      × IsSelection pool'.policy pool'.global_seq_number pool'.selection
      × (pool'.index ≡ begun.index)
      × (pool'.policy ≡ begun.policy)
unfolding pick_and_link link_picked
pick_and_link_lem begun rounds inc random laws v small =
    let first : IsPicking begun (record { pool = begun; picked = [] }) = record {
      is_policy = laws;
      selected = v;
      entries = tt;
      apart = tt;
      across = tt;
      all_ids = Perm.refl _;
      same_index = refl;
      same_policy = refl;
    } in
    let (s, q, (w, g, n)) = pick_rounds-Picked begun rounds inc random _ first small in
    let (zs, l, u, π) =
      link_all_lem s.picked s.pool w.is_policy w.selected w.entries w.apart w.across in
    (
      ids s.picked,
      ids s.pool.selection,
      record s.pool { selection = zs },
      rw (q, pick_and_link, link_picked, l) refl,
      omega (arith, length-map s.picked (λ e. e.identifier)),
      w.all_ids,
      Perm.trans π (Perm.symm w.all_ids),
      omega arith,
      w.is_policy,
      u,
      w.same_index,
      w.same_policy,
    )

pub select_by_value_tree_run :
    (random : ℕ → ℕ) (pool : PoolNode) (n inc rounds : ℕ) (r : Option (List ℕ × PoolNode))
    → 1 ≤ n
    → (if ltb (length pool.selection) n then length pool.selection else n) ≡ rounds
    → pick_and_link rounds
        (increment_or_default pool inc)
        random
        (prepare (ensure_seq_numbers n pool))
      ≡ r
    → select_by_value_tree random pool n inc ≡ r
unfolding select_by_value_tree begin_selection
select_by_value_tree_run random pool n inc rounds r one same h =
    let t : leb 1 n ≡ true = ground arith in rw (t, select_by_value_tree, same) h

-- On a valid pool, selection by value passes every CHECK, whatever the random numbers are. It
-- returns the identifiers of at most `max_nodes` different elements of the pool, and leaves a valid
-- pool with the same elements, the same policy and the same index storage: all elements that were
-- unlinked are linked again.
pub select_by_value_tree-IsValid :
    (random : ℕ → ℕ) (pool : PoolNode) (max_nodes max_increment : ℕ)
    → IsValid pool
    → 1 ≤ max_nodes
    → length pool.selection + max_nodes < 2 ^ 32
    → (chosen : List ℕ) × (rest : List ℕ) × (pool' : PoolNode) × (select_by_value_tree random pool
          max_nodes max_increment
        ≡ some (chosen, pool'))
      × (length chosen ≤ max_nodes)
      × Perm (ids pool.selection) (chosen ++ rest)
      × IsValid pool'
      × Perm (ids pool'.selection) (ids pool.selection)
      × (pool'.index ≡ pool.index)
      × (pool'.policy ≡ pool.policy)
select_by_value_tree-IsValid random pool n inc v one small =
    let len = length pool.selection in
    let rounds = if ltb len n then len else n in
    let few : rounds ≤ n = ground arith in
    let e = ensure_seq_numbers-Ensured n pool v.is_policy v.seq_fits v.selected small in
    let begun = ensure_seq_numbers n pool in
    let laws : IsPolicy begun.policy = rw e.same_policy v.is_policy in
    let (w, same) =
      prepare-IsSelection begun.policy begun.global_seq_number begun.selection laws e.selected in
    let all_same : ids (prepare begun).selection ≡ ids pool.selection = same ∙ e.same_ids in
    let (chosen, rest, pool', q, l, π, ρ, g, laws', u, index, policy) =
      pick_and_link_lem (prepare begun) rounds (increment_or_default pool inc) random laws w
        (let left = e.left in omega arith) in
    let kept : Perm (ids pool'.selection) (ids pool.selection) =
      subst (Perm (ids pool'.selection)) all_same ρ in
    (
      chosen,
      rest,
      pool',
      select_by_value_tree_run random pool n inc rounds _ one refl q,
      omega arith,
      subst (λ is. Perm is (chosen ++ rest)) all_same π,
      record {
        is_policy = laws';
        seq_fits = g;
        selected = u;
        index_sorted = rw (index ∙ e.same_index) v.index_sorted;
        indexed =
            Perm.trans
              (subst (λ is. Perm is (ids pool.selection)) (sym (index ∙ e.same_index)) v.indexed)
              (Perm.symm kept);
      },
      kept,
      index ∙ e.same_index,
      policy ∙ e.same_policy,
    )
