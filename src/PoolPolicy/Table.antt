-- ===== src/PoolPolicy/Table.antt =====
-- PoolPolicyArray of src/poolpolicy-template_impl.h, in its order and without the names, and the
-- search by type.
use rsplib.Base.{ℕ, List, [], ◌∷◌, Option, none, some, ◌==◌, if◌then◌else◌}
use rsplib.PolicySettings.{
  ppt_leastused, ppt_leastused_degradation, ppt_leastused_degradation_dpf, ppt_leastused_dpf,
  ppt_priority, ppt_priority_leastused, ppt_priority_leastused_degradation,
  ppt_priority_leastused_degradation_dpf, ppt_priority_leastused_dpf, ppt_random,
  ppt_randomized_leastused, ppt_randomized_leastused_degradation, ppt_randomized_priority_leastused,
  ppt_randomized_priority_leastused_degradation, ppt_roundrobin, ppt_weighted_random,
  ppt_weighted_random_dpf, ppt_weighted_roundrobin,
}
use rsplib.PoolPolicy.{PoolPolicy, by_sorting_order, by_value_tree}
use rsplib.PoolPolicy.Compare.{
  round_robin_comparison, weighted_round_robin_comparison, random_comparison,
  weighted_random_comparison, weighted_random_dpf_comparison, priority_comparison,
  least_used_comparison, least_used_degradation_comparison, priority_least_used_comparison,
  priority_least_used_degradation_comparison, randomized_least_used_comparison,
  randomized_least_used_degradation_comparison, randomized_priority_least_used_comparison,
  randomized_priority_least_used_degradation_comparison,
}
use rsplib.PoolPolicy.Update.{
  weighted_round_robin_initialize, weighted_round_robin_update, weighted_round_robin_prepare,
  random_update, weighted_random_update, least_used_degradation_update,
  randomized_least_used_update, randomized_least_used_degradation_update,
  randomized_priority_least_used_update, randomized_priority_least_used_degradation_update,
}
use rsplib.PoolPolicy.Dpf.{
  DoubleArith, least_used_dpf_comparison, priority_least_used_dpf_comparison,
  least_used_degradation_dpf_comparison, priority_least_used_degradation_dpf_comparison,
  weighted_random_dpf_update,
}

module _ (d : DoubleArith) where
  unfoldable pub round_robin : PoolPolicy
  round_robin = record {
    type = ppt_roundrobin;
    default_max_increment = 1;
    comparison = round_robin_comparison;
    selection = by_sorting_order;
    initialize = none;
    update = none;
    prepare = none;
  }

  unfoldable pub weighted_round_robin : PoolPolicy
  weighted_round_robin = record {
    type = ppt_weighted_roundrobin;
    default_max_increment = 1;
    comparison = weighted_round_robin_comparison;
    selection = by_sorting_order;
    initialize = some weighted_round_robin_initialize;
    update = some weighted_round_robin_update;
    prepare = some weighted_round_robin_prepare;
  }

  unfoldable pub random : PoolPolicy
  random = record {
    type = ppt_random;
    default_max_increment = 0;
    comparison = random_comparison;
    selection = by_value_tree;
    initialize = none;
    update = some random_update;
    prepare = none;
  }

  unfoldable pub weighted_random : PoolPolicy
  weighted_random = record {
    type = ppt_weighted_random;
    default_max_increment = 0;
    comparison = weighted_random_comparison;
    selection = by_value_tree;
    initialize = none;
    update = some weighted_random_update;
    prepare = none;
  }

  unfoldable pub weighted_random_dpf : PoolPolicy
  weighted_random_dpf = record {
    type = ppt_weighted_random_dpf;
    default_max_increment = 0;
    comparison = weighted_random_dpf_comparison;
    selection = by_value_tree;
    initialize = none;
    update = some (weighted_random_dpf_update d);
    prepare = none;
  }

  unfoldable pub priority : PoolPolicy
  priority = record {
    type = ppt_priority;
    default_max_increment = 1;
    comparison = priority_comparison;
    selection = by_sorting_order;
    initialize = none;
    update = none;
    prepare = none;
  }

  unfoldable pub least_used : PoolPolicy
  least_used = record {
    type = ppt_leastused;
    default_max_increment = 1;
    comparison = least_used_comparison;
    selection = by_sorting_order;
    initialize = none;
    update = none;
    prepare = none;
  }

  unfoldable pub least_used_dpf : PoolPolicy
  least_used_dpf = record {
    type = ppt_leastused_dpf;
    default_max_increment = 1;
    comparison = least_used_dpf_comparison d;
    selection = by_sorting_order;
    initialize = none;
    update = none;
    prepare = none;
  }

  unfoldable pub priority_least_used_dpf : PoolPolicy
  priority_least_used_dpf = record {
    type = ppt_priority_leastused_dpf;
    default_max_increment = 1;
    comparison = priority_least_used_dpf_comparison d;
    selection = by_sorting_order;
    initialize = none;
    update = none;
    prepare = none;
  }

  unfoldable pub priority_least_used_degradation_dpf : PoolPolicy
  priority_least_used_degradation_dpf = record {
    type = ppt_priority_leastused_degradation_dpf;
    default_max_increment = 1;
    comparison = priority_least_used_degradation_dpf_comparison d;
    selection = by_sorting_order;
    initialize = none;
    update = some least_used_degradation_update;
    prepare = none;
  }

  unfoldable pub least_used_degradation : PoolPolicy
  least_used_degradation = record {
    type = ppt_leastused_degradation;
    default_max_increment = 1;
    comparison = least_used_degradation_comparison;
    selection = by_sorting_order;
    initialize = none;
    update = some least_used_degradation_update;
    prepare = none;
  }

  unfoldable pub least_used_degradation_dpf : PoolPolicy
  least_used_degradation_dpf = record {
    type = ppt_leastused_degradation_dpf;
    default_max_increment = 1;
    comparison = least_used_degradation_dpf_comparison d;
    selection = by_sorting_order;
    initialize = none;
    update = some least_used_degradation_update;
    prepare = none;
  }

  unfoldable pub priority_least_used : PoolPolicy
  priority_least_used = record {
    type = ppt_priority_leastused;
    default_max_increment = 1;
    comparison = priority_least_used_comparison;
    selection = by_sorting_order;
    initialize = none;
    update = none;
    prepare = none;
  }

  unfoldable pub priority_least_used_degradation : PoolPolicy
  priority_least_used_degradation = record {
    type = ppt_priority_leastused_degradation;
    default_max_increment = 1;
    comparison = priority_least_used_degradation_comparison;
    selection = by_sorting_order;
    initialize = none;
    update = some least_used_degradation_update;
    prepare = none;
  }

  unfoldable pub randomized_least_used : PoolPolicy
  randomized_least_used = record {
    type = ppt_randomized_leastused;
    default_max_increment = 1;
    comparison = randomized_least_used_comparison;
    selection = by_value_tree;
    initialize = none;
    update = some randomized_least_used_update;
    prepare = none;
  }

  unfoldable pub randomized_least_used_degradation : PoolPolicy
  randomized_least_used_degradation = record {
    type = ppt_randomized_leastused_degradation;
    default_max_increment = 1;
    comparison = randomized_least_used_degradation_comparison;
    selection = by_value_tree;
    initialize = none;
    update = some randomized_least_used_degradation_update;
    prepare = none;
  }

  unfoldable pub randomized_priority_least_used : PoolPolicy
  randomized_priority_least_used = record {
    type = ppt_randomized_priority_leastused;
    default_max_increment = 1;
    comparison = randomized_priority_least_used_comparison;
    selection = by_value_tree;
    initialize = none;
    update = some randomized_priority_least_used_update;
    prepare = none;
  }

  unfoldable pub randomized_priority_least_used_degradation : PoolPolicy
  randomized_priority_least_used_degradation = record {
    type = ppt_randomized_priority_leastused_degradation;
    default_max_increment = 1;
    comparison = randomized_priority_least_used_degradation_comparison;
    selection = by_value_tree;
    initialize = none;
    update = some randomized_priority_least_used_degradation_update;
    prepare = none;
  }

  unfoldable pub pool_policy_array : List PoolPolicy
  unfolding round_robin weighted_round_robin random weighted_random weighted_random_dpf priority
      least_used least_used_dpf priority_least_used_dpf priority_least_used_degradation_dpf
      least_used_degradation least_used_degradation_dpf priority_least_used
      priority_least_used_degradation randomized_least_used randomized_least_used_degradation
      randomized_priority_least_used randomized_priority_least_used_degradation
  pool_policy_array =
      round_robin ∷ weighted_round_robin ∷ random ∷ weighted_random ∷ weighted_random_dpf ∷ priority
      ∷ least_used ∷ least_used_dpf ∷ priority_least_used_dpf ∷ priority_least_used_degradation_dpf
      ∷ least_used_degradation ∷ least_used_degradation_dpf ∷ priority_least_used
      ∷ priority_least_used_degradation ∷ randomized_least_used ∷ randomized_least_used_degradation
      ∷ randomized_priority_least_used ∷ randomized_priority_least_used_degradation ∷ []

-- poolPolicyGetPoolPolicyByType
unfoldable pub get_pool_policy_by_type : List PoolPolicy → ℕ → Option PoolPolicy
get_pool_policy_by_type [] t = none
get_pool_policy_by_type (p ∷ ps) t = if p.type == t then some p else get_pool_policy_by_type ps t
