-- ===== src/PoolNode/Tests.antt =====
-- The operations on a pool at concrete inputs: a Round Robin pool with two elements.
use mathlib.Core.List.{Mem, Perm, mem-cons}
use mathlib.Core.List.Perm
use mathlib.Core.Logic.Or
use rsplib.Base.{
  negsuc, ◌⊎◌, List, ◌≤◌, ◌++◌, length, ◌*◌, ◌+◌, All, ◌≢◌, ℕ, [], ◌∷◌, ◌≡◌, refl, arith, none,
  some, false, take,
}
use rsplib.PolicySettings.{PoolPolicySettings, ppt_roundrobin, is_valid}
use rsplib.PoolElement.{PoolElementNode}
use rsplib.PoolElement
use rsplib.PoolNode.{ensure_seq_numbers, PoolNode, Added, ids, add, remove}
use rsplib.PoolNode.Select.{select_by_sorting_order}
use rsplib.PoolNode.Entries.{IsSelection}
use rsplib.PoolNode.Invariant.{IsValid}
use rsplib.PoolNode.Adding.{Outcome, add-Outcome}
use rsplib.PoolNode.{update, check_compatibility, find_element, okay}
use rsplib.PoolNode.Updating.{update-IsValid}
use rsplib.PoolNode.Relinking.{Settled}
use rsplib.PoolNode.Rotation.{select_by_sorting_order-rotates}
use rsplib.PoolNode.Select.{select_by_value_tree}
use rsplib.PoolNode.ValueTree.{select_by_value_tree-IsValid}
use rsplib.PolicySettings.{ppt_random}
use rsplib.PoolPolicy.Table.{random}
use rsplib.PoolPolicy.Compare.{random_comparison}
use rsplib.PoolNode.{find}
use rsplib.PoolNode.Finding.{find-IsValid}
use rsplib.PoolNode.Removing.{remove-IsValid}
use rsplib.PoolNode.SortingOrder.{select_by_sorting_order-IsValid}
use rsplib.PoolPolicy.Compare.{round_robin_comparison}
use rsplib.PoolPolicy.Laws.{get_pool_policy_by_type-IsPolicy}
use rsplib.PoolPolicy.Table.{round_robin, pool_policy_array, get_pool_policy_by_type}
use rsplib.PoolPolicy.Tests.{whole_numbers}
use rsplib.PoolNode.Renumber.{Ensured, ensure_seq_numbers-Ensured}
use rsplib.PoolPolicy.Order.{IsPolicy}

abbrev settings : PoolPolicySettings
settings = record {
  policy_type = ppt_roundrobin;
  weight = 1;
  load = 0;
  load_degradation = 0;
  load_dpf = 0;
  weight_dpf = 0;
  distance = 0;
}

abbrev element : (id seq : ℕ) → PoolElementNode
element id seq =
    record (PoolElement.new id 1 30000 settings
      (record { protocol = 132; port = 1024; control_channel = false; addresses = 1 }) none
      (negsuc 0) 0) { seq_number = seq }

-- The sequence numbers are about to overflow.
abbrev two_elements : PoolNode
two_elements = record {
  handle = 69 ∷ 99 ∷ 104 ∷ 111 ∷ [];
  policy = round_robin whole_numbers;
  protocol = 132;
  control_channel = false;
  global_seq_number = 0xffffffff;
  index = 7 ∷ 9 ∷ [];
  selection = element 9 3 ∷ element 7 5 ∷ [];
}

round_robin-IsPolicy : IsPolicy (round_robin whole_numbers)
unfolding get_pool_policy_by_type pool_policy_array round_robin
round_robin-IsPolicy =
    (get_pool_policy_by_type-IsPolicy whole_numbers ppt_roundrobin (round_robin whole_numbers)
      refl).0

two_elements-IsSelection : IsSelection (round_robin whole_numbers) 0xffffffff two_elements.selection
unfolding PoolElement.new round_robin round_robin_comparison is_valid
two_elements-IsSelection = record {
  sorted = ((refl, tt), (tt, tt));
  entries = ((omega arith, refl, omega arith), ((omega arith, refl, omega arith), tt));
  distinct = ((((λ q. omega arith), (λ q. omega arith)), tt), (tt, tt));
}

two_elements-IsValid : IsValid two_elements
unfolding PoolElement.new
two_elements-IsValid = record {
  is_policy = round_robin-IsPolicy;
  seq_fits = omega arith;
  selected = two_elements-IsSelection;
  index_sorted = ((refl, tt), (tt, tt));
  indexed = Perm.swap _ _ _;
}

add-Outcome_example :
    (r : Added) × (add two_elements (element 8 0) ≡ some r)
    × Outcome two_elements (element 8 0) r
    × IsValid r.pool
add-Outcome_example = add-Outcome two_elements (element 8 0) two_elements-IsValid (omega arith)

remove-IsValid_example :
    (e : PoolElementNode) × (pool' : PoolNode) × (remove 7 two_elements ≡ some (e, pool'))
    × (e.identifier ≡ 7)
    × IsValid pool'
    × Perm (ids two_elements.selection) (7 ∷ ids pool'.selection)
    × (¬ Mem 7 (ids pool'.selection))
unfolding PoolElement.new
remove-IsValid_example =
    remove-IsValid two_elements 7 two_elements-IsValid
      (mem-cons.1 (Or.inr (mem-cons.1 (Or.inl refl))))

select_by_sorting_order-IsValid_example :
    (pool' : PoolNode) × (select_by_sorting_order two_elements 2 1
      ≡ some (take 2 (ids two_elements.selection), pool'))
    × IsValid pool'
    × Perm (ids pool'.selection) (ids two_elements.selection)
    × (pool'.index ≡ two_elements.index)
    × (pool'.policy ≡ two_elements.policy)
select_by_sorting_order-IsValid_example =
    select_by_sorting_order-IsValid two_elements 2 1 two_elements-IsValid (omega arith)
      (omega arith)

ensure_seq_numbers-Ensured_example : Ensured 2 two_elements (ensure_seq_numbers 2 two_elements)
ensure_seq_numbers-Ensured_example =
    ensure_seq_numbers-Ensured 2 two_elements round_robin-IsPolicy (omega arith)
      two_elements-IsSelection (omega arith)

-- The new settings differ in the weight.
abbrev heavier : PoolElementNode
heavier = record (element 9 0) { policy_settings = record settings { weight = 5 } }

update-IsValid_example :
    (pool' : PoolNode) × (update two_elements (element 9 3) heavier
      ≡ some (check_compatibility two_elements (element 9 3), pool'))
    × IsValid pool'
    × Perm (ids pool'.selection) (ids two_elements.selection)
    × (check_compatibility two_elements (element 9 3) ≢ okay → pool' ≡ two_elements)
    × (check_compatibility two_elements (element 9 3) ≡ okay
        → All (Settled (element 9 3) heavier) pool'.selection)
unfolding PoolElement.new find_element is_valid
update-IsValid_example =
    update-IsValid two_elements (element 9 3) heavier two_elements-IsValid refl refl

select_by_sorting_order-rotates_example :
    (pool' : PoolNode) × (select_by_sorting_order two_elements 2 1 ≡ some (9 ∷ 7 ∷ [], pool'))
    × (ids pool'.selection ≡ 7 ∷ 9 ∷ [])
unfolding PoolElement.new
select_by_sorting_order-rotates_example =
    select_by_sorting_order-rotates whole_numbers two_elements 2 1 two_elements-IsValid refl
      (omega arith) (omega arith)

-- The two elements under Random. Both have the value 1.
abbrev random_pool : PoolNode
random_pool = record two_elements {
  policy = random whole_numbers;
  selection = record (element 7 5) { value = 1 } ∷ record (element 9 3) { value = 1 } ∷ [];
}

random-IsPolicy : IsPolicy (random whole_numbers)
unfolding get_pool_policy_by_type pool_policy_array random
random-IsPolicy =
    (get_pool_policy_by_type-IsPolicy whole_numbers ppt_random (random whole_numbers) refl).0

random_pool-IsValid : IsValid random_pool
unfolding PoolElement.new random random_comparison is_valid
random_pool-IsValid = record {
  is_policy = random-IsPolicy;
  seq_fits = omega arith;
  selected = record {
    sorted = ((refl, tt), (tt, tt));
    entries = ((omega arith, refl, omega arith), ((omega arith, refl, omega arith), tt));
    distinct = ((((λ q. omega arith), (λ q. omega arith)), tt), (tt, tt));
  };
  index_sorted = ((refl, tt), (tt, tt));
  indexed = Perm.refl _;
}

select_by_value_tree-IsValid_example :
    (chosen : List ℕ) × (rest : List ℕ) × (pool' : PoolNode) × (select_by_value_tree
        (λ i. 2 * i + 1)
        random_pool
        2
        1
      ≡ some (chosen, pool'))
    × (length chosen ≤ 2)
    × Perm (ids random_pool.selection) (chosen ++ rest)
    × IsValid pool'
    × Perm (ids pool'.selection) (ids random_pool.selection)
    × (pool'.index ≡ random_pool.index)
    × (pool'.policy ≡ random_pool.policy)
select_by_value_tree-IsValid_example =
    select_by_value_tree-IsValid (λ i. 2 * i + 1) random_pool 2 1 random_pool-IsValid (omega arith)
      (omega arith)

find-IsValid_example :
    ((e : PoolElementNode) × (find two_elements 7 ≡ some e)
      × (find_element 7 two_elements.selection ≡ some e)
      × (e.identifier ≡ 7))
    ⊎ ((find two_elements 7 ≡ none) × (¬ Mem 7 (ids two_elements.selection)))
find-IsValid_example = find-IsValid two_elements 7 two_elements-IsValid
