-- ===== src/PoolPolicy/Compare.antt =====
-- The comparison functions of src/poolpolicy-template_impl.h that need no floating point.
use rsplib.Base.{ℕ, ◌+◌, ◌-◌, leb, ltb, if◌then◌else◌, Ordering, eq, ascending, descending}
use rsplib.PolicySettings.{ppv_max}
use rsplib.PoolElement.{PoolElementNode}

-- getSum: the sum of three `unsigned int`, computed in 64 bits and cut off at PPV_MAX_LOAD. It
-- cannot be negative.
unfoldable pub get_sum : ℕ → ℕ → ℕ → ℕ
get_sum v1 v2 v3 = if ltb ppv_max (v1 + v2 + v3) then ppv_max else v1 + v2 + v3

-- getValueFraction: base - v1 - v2 - v3 in signed 64 bits, but at least 1 and at most
-- PPV_MAX_WEIGHT. The first test is v < 1.
unfoldable pub get_value_fraction : ℕ → ℕ → ℕ → ℕ → ℕ
get_value_fraction base v1 v2 v3 =
    if leb base (v1 + v2 + v3)
    then 1
    else if ltb ppv_max (base - v1 - v2 - v3)
    then ppv_max
    else base - v1 - v2 - v3

unfoldable pub round_robin_comparison : PoolElementNode → PoolElementNode → Ordering
round_robin_comparison a b = ascending a.seq_number b.seq_number eq

unfoldable pub weighted_round_robin_comparison : PoolElementNode → PoolElementNode → Ordering
weighted_round_robin_comparison a b =
    ascending a.round_counter b.round_counter
      (ascending a.virtual_counter b.virtual_counter (ascending a.seq_number b.seq_number eq))

unfoldable pub random_comparison : PoolElementNode → PoolElementNode → Ordering
random_comparison a b = ascending a.identifier b.identifier eq

unfoldable pub weighted_random_comparison : PoolElementNode → PoolElementNode → Ordering
weighted_random_comparison a b = ascending a.identifier b.identifier eq

unfoldable pub weighted_random_dpf_comparison : PoolElementNode → PoolElementNode → Ordering
weighted_random_dpf_comparison a b = ascending a.identifier b.identifier eq

unfoldable pub priority_comparison : PoolElementNode → PoolElementNode → Ordering
priority_comparison a b =
    descending a.policy_settings.weight b.policy_settings.weight
      (ascending a.seq_number b.seq_number eq)

unfoldable pub least_used_comparison : PoolElementNode → PoolElementNode → Ordering
least_used_comparison a b =
    ascending a.policy_settings.load b.policy_settings.load (ascending a.seq_number b.seq_number eq)

unfoldable pub least_used_degradation_comparison : PoolElementNode → PoolElementNode → Ordering
unfolding get_sum
least_used_degradation_comparison a b =
    ascending (get_sum a.policy_settings.load a.degradation 0)
      (get_sum b.policy_settings.load b.degradation 0) (ascending a.seq_number b.seq_number eq)

unfoldable pub priority_least_used_comparison : PoolElementNode → PoolElementNode → Ordering
unfolding get_sum
priority_least_used_comparison a b =
    ascending (get_sum a.policy_settings.load a.policy_settings.load_degradation 0)
      (get_sum b.policy_settings.load b.policy_settings.load_degradation 0)
      (ascending a.seq_number b.seq_number eq)

unfoldable pub priority_least_used_degradation_comparison :
    PoolElementNode → PoolElementNode → Ordering
unfolding get_sum
priority_least_used_degradation_comparison a b =
    ascending (get_sum a.policy_settings.load a.policy_settings.load_degradation a.degradation)
      (get_sum b.policy_settings.load b.policy_settings.load_degradation b.degradation)
      (ascending a.seq_number b.seq_number eq)

unfoldable pub randomized_least_used_comparison : PoolElementNode → PoolElementNode → Ordering
randomized_least_used_comparison a b = ascending a.identifier b.identifier eq

unfoldable pub randomized_least_used_degradation_comparison :
    PoolElementNode → PoolElementNode → Ordering
randomized_least_used_degradation_comparison a b = ascending a.identifier b.identifier eq

unfoldable pub randomized_priority_least_used_comparison :
    PoolElementNode → PoolElementNode → Ordering
randomized_priority_least_used_comparison a b = ascending a.identifier b.identifier eq

unfoldable pub randomized_priority_least_used_degradation_comparison :
    PoolElementNode → PoolElementNode → Ordering
randomized_priority_least_used_degradation_comparison a b = ascending a.identifier b.identifier eq
