-- ===== src/PoolNode/Select.antt =====
-- The two general selection functions of src/poolpolicy-template_impl.h. The array that they fill
-- is the list of the selected elements' identifiers.
use rsplib.Base.{
  ℕ, zero, suc, ◌+◌, ◌%◌, ◌^◌, Option, none, some, List, [], ◌∷◌, ◌++◌, ltb, leb, ◌==◌,
  if◌then◌else◌, length, take,
}
use rsplib.PoolElement.{PoolElementNode}
use rsplib.PoolPolicy.{run_update, run_prepare}
use rsplib.PoolNode.{ids, PoolNode, unlink, link, ensure_seq_numbers, next_seq_number}
use rsplib.Storage.{value_sum, get_by_value}

abbrev pub prepare : PoolNode → PoolNode
prepare pool = record pool { selection = run_prepare pool.policy pool.selection }

-- "Common update functionality": SeqNumber and SelectionCounter of a selected element.
unfoldable pub mark_selected : PoolNode → PoolElementNode → PoolElementNode
mark_selected pool e = record e {
  seq_number = pool.global_seq_number;
  selection_counter = (e.selection_counter + 1) % 2 ^ 64;
}

-- One round of the second loop: the element is unlinked, changed and linked again.
unfoldable pub update_selected : ℕ → PoolNode → Option PoolNode
unfolding unlink link mark_selected
update_selected id pool = elim (unlink id pool) [
  | none ↦ none
  | some (e, rest) ↦ link (next_seq_number rest) (run_update pool.policy (mark_selected pool e))
]

unfoldable pub update_all : List ℕ → PoolNode → Option PoolNode
unfolding update_selected
update_all [] pool = some pool
update_all (id ∷ ids) pool = elim (update_selected id pool) [
  | none ↦ none
  | some p ↦ update_all ids p
]

abbrev pub increment_or_default : PoolNode → ℕ → ℕ
increment_or_default pool max_increment =
    if max_increment == 0 then pool.policy.default_max_increment else max_increment

-- Resequencing and preparation, with which both functions begin. `none` is a failed
-- CHECK(maxPoolElementNodes >= 1).
unfoldable pub begin_selection : ℕ → PoolNode → Option PoolNode
unfolding ensure_seq_numbers
begin_selection max_nodes pool =
    if leb 1 max_nodes then some (prepare (ensure_seq_numbers max_nodes pool)) else none

-- poolPolicySelectPoolElementNodesBySortingOrder, behind its beginning: the first
-- `max_nodes` elements are taken, and `max_increment` of them are updated.
unfoldable pub take_and_update : ℕ → ℕ → PoolNode → Option (List ℕ × PoolNode)
unfolding update_all
take_and_update max_nodes max_increment pool =
    let chosen = take max_nodes (ids pool.selection) in
    elim (update_all (take max_increment chosen) pool) [ none ↦ none | some p ↦ some (chosen, p) ]

unfoldable pub select_by_sorting_order : PoolNode → ℕ → ℕ → Option (List ℕ × PoolNode)
unfolding take_and_update begin_selection
select_by_sorting_order pool max_nodes max_increment = elim (begin_selection max_nodes pool) [
  | none ↦ none
  | some p ↦ take_and_update max_nodes (increment_or_default pool max_increment) p
]

-- The rest of poolPolicySelectPoolElementNodesByValueTree works on the pool and on the elements that
-- are unlinked, in the order in which they were chosen.
pub record Picking : Type 0 where
  pub pool : PoolNode
  pub picked : List PoolElementNode

-- The changes to the chosen element. It is policy-updated only within `max_increment`.
unfoldable pub update_picked : ℕ → ℕ → PoolNode → PoolElementNode → PoolElementNode
unfolding mark_selected
update_picked max_increment n pool e =
    if ltb n max_increment
    then run_update pool.policy (mark_selected pool e)
    else mark_selected pool e

-- One round with the draw `value` = random64(); `none` is a failed CHECK.
unfoldable pub pick : ℕ → PoolElementNode → Picking → Option Picking
unfolding unlink update_picked
pick max_increment e s = elim (unlink e.identifier s.pool) [
  | none ↦ none
  | some (e', rest) ↦ some (record {
    pool = next_seq_number rest;
    picked = s.picked ++ update_picked max_increment (length s.picked) s.pool e' ∷ [];
  })
]

-- The loop: `rounds` are left, and `random` counts the calls of random64() from here on.
unfoldable pub pick_rounds : ℕ → ℕ → (ℕ → ℕ) → Picking → Option Picking
unfolding pick value_sum get_by_value
pick_rounds zero max_increment random s = some s
pick_rounds (suc rounds) max_increment random s = elim (value_sum (λ e. e.value) s.pool.selection) [
  | zero ↦ some s
  | suc sum ↦ elim (get_by_value (λ e. e.value) (random 0 % suc sum) s.pool.selection) [
    | none ↦ some s
    | some e ↦ elim (pick max_increment e s) [
      | none ↦ none
      | some s' ↦ pick_rounds rounds max_increment (λ i. random (suc i)) s'
    ]
  ]
]

-- "Re-linking of all previously unlinked nodes"
unfoldable pub link_all : List PoolElementNode → PoolNode → Option PoolNode
unfolding link
link_all [] pool = some pool
link_all (e ∷ es) pool = elim (link pool e) [ none ↦ none | some p ↦ link_all es p ]

unfoldable pub link_picked : Picking → Option (List ℕ × PoolNode)
unfolding link_all
link_picked s = elim (link_all s.picked s.pool) [ none ↦ none | some p ↦ some (ids s.picked, p) ]

unfoldable pub pick_and_link : ℕ → ℕ → (ℕ → ℕ) → PoolNode → Option (List ℕ × PoolNode)
unfolding pick_rounds link_picked
pick_and_link rounds max_increment random pool =
    elim (pick_rounds rounds max_increment random (record { pool = pool; picked = [] })) [
      | none ↦ none
      | some s ↦ link_picked s
    ]

-- poolPolicySelectPoolElementNodesByValueTree
unfoldable pub select_by_value_tree : (ℕ → ℕ) → PoolNode → ℕ → ℕ → Option (List ℕ × PoolNode)
unfolding pick_and_link begin_selection
select_by_value_tree random pool max_nodes max_increment =
    let n = length pool.selection in
    let rounds = if ltb n max_nodes then n else max_nodes in
    elim (begin_selection max_nodes pool) [
      | none ↦ none
      | some p ↦ pick_and_link rounds (increment_or_default pool max_increment) random p
    ]
