-- ===== src/PoolPolicy/Update.antt =====
-- The functions of src/poolpolicy-template_impl.h that initialize, update and prepare elements,
-- but for the one that needs floating point.
use rsplib.Base.{ℕ, ◌+◌, ◌-◌, ◌%◌, ◌^◌, ltb, if◌then◌else◌, List, [], ◌∷◌, map}
use rsplib.PolicySettings.{ppv_max}
use rsplib.PoolElement.{PoolElementNode}
use rsplib.PoolPolicy.Compare.{get_sum, get_value_fraction}

-- SeqNumberStart of src/poolhandlespacemanagement-basics.c: (~0) ^ 0xf as a `uint32_t`.
abbrev pub seq_number_start : ℕ
seq_number_start = 0xfffffff0

-- weightedRoundRobinGetCurrentRoundCounter, over the selection storage of the pool
unfoldable pub current_round_counter : List PoolElementNode → ℕ
current_round_counter [] = seq_number_start
current_round_counter (e ∷ es) = e.round_counter

-- weightedRoundRobinResetRoundCounters. A `uint32_t` is subtracted from another one.
unfoldable pub lower_round_counter : ℕ → PoolElementNode → PoolElementNode
lower_round_counter lowest e = record e {
  round_counter = (e.round_counter + 2 ^ 32 - lowest) % 2 ^ 32;
}

unfoldable pub reset_round_counters : List PoolElementNode → List PoolElementNode
unfolding lower_round_counter
reset_round_counters [] = []
reset_round_counters (e ∷ es) = map (lower_round_counter e.round_counter) (e ∷ es)

-- weightedRoundRobinInitializePoolElementNode
unfoldable pub weighted_round_robin_initialize :
    List PoolElementNode → PoolElementNode → PoolElementNode
unfolding current_round_counter
weighted_round_robin_initialize selection e = record e {
  round_counter = current_round_counter selection;
  virtual_counter = e.policy_settings.weight;
}

-- weightedRoundRobinUpdatePoolElementNode
unfoldable pub weighted_round_robin_update : PoolElementNode → PoolElementNode
weighted_round_robin_update e =
    if ltb 1 e.virtual_counter
    then record e { virtual_counter = e.virtual_counter - 1 }
    else record e {
      round_counter = (e.round_counter + 1) % 2 ^ 32;
      virtual_counter = e.policy_settings.weight;
    }

-- weightedRoundRobinPrepareSelection
unfoldable pub weighted_round_robin_prepare : List PoolElementNode → List PoolElementNode
unfolding current_round_counter reset_round_counters
weighted_round_robin_prepare selection =
    if ltb ((current_round_counter selection + 2) % 2 ^ 32) (current_round_counter selection)
    then reset_round_counters selection
    else selection

unfoldable pub random_update : PoolElementNode → PoolElementNode
random_update e = record e { value = 1 }

unfoldable pub weighted_random_update : PoolElementNode → PoolElementNode
weighted_random_update e = record e { value = e.policy_settings.weight }

unfoldable pub least_used_degradation_update : PoolElementNode → PoolElementNode
unfolding get_sum
least_used_degradation_update e = record e {
  degradation = get_sum e.degradation e.policy_settings.load_degradation 0;
}

unfoldable pub randomized_least_used_update : PoolElementNode → PoolElementNode
unfolding get_value_fraction
randomized_least_used_update e = record e {
  value = get_value_fraction ppv_max e.policy_settings.load 0 0;
}

unfoldable pub randomized_least_used_degradation_update : PoolElementNode → PoolElementNode
unfolding get_value_fraction
randomized_least_used_degradation_update e = record e {
  value = get_value_fraction ppv_max e.policy_settings.load e.degradation 0;
}

unfoldable pub randomized_priority_least_used_update : PoolElementNode → PoolElementNode
unfolding get_value_fraction
randomized_priority_least_used_update e = record e {
  value = get_value_fraction ppv_max e.policy_settings.load e.policy_settings.load_degradation 0;
}

unfoldable pub randomized_priority_least_used_degradation_update : PoolElementNode → PoolElementNode
unfolding get_value_fraction
randomized_priority_least_used_degradation_update e = record e {
  value =
      get_value_fraction ppv_max e.policy_settings.load e.policy_settings.load_degradation
        e.degradation;
}
