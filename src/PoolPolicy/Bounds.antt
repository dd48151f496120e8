-- ===== src/PoolPolicy/Bounds.antt =====
-- The numbers that the policies compute stay in their range.
use rsplib.Base.{ℕ, ◌+◌, ◌<◌, ◌≤◌, [], ◌∷◌, ◌≡◌, ◌↔◌, arith, All}
use rsplib.PolicySettings.{ppv_max}
use rsplib.PoolElement.{PoolElementNode}
use rsplib.PoolPolicy.Compare.{get_sum, get_value_fraction}
use rsplib.PoolPolicy.Dpf.{DoubleArith, weighted_random_dpf_value}
use rsplib.PoolPolicy.Update.{
  least_used_degradation_update, randomized_least_used_update,
  randomized_least_used_degradation_update, randomized_priority_least_used_update,
  randomized_priority_least_used_degradation_update,
}

get_value_fraction_bounds :
    (base v1 v2 v3 : ℕ)
    → (1 ≤ get_value_fraction base v1 v2 v3) × (get_value_fraction base v1 v2 v3 ≤ ppv_max)
unfolding get_value_fraction
get_value_fraction_bounds base v1 v2 v3 = (ground arith, ground arith)

-- After the update by each of the four randomized load policies, an element can be selected: its
-- value is at least 1, whatever its load and its degradation are, and at most PPV_MAX_WEIGHT.
pub randomized_least_used_update_bounds :
    (e : PoolElementNode)
    → All
        (λ update. (1 ≤ (update e).value) × ((update e).value ≤ ppv_max))
        (randomized_least_used_update ∷ randomized_least_used_degradation_update
          ∷ randomized_priority_least_used_update
          ∷ randomized_priority_least_used_degradation_update ∷ [])
unfolding randomized_least_used_update randomized_least_used_degradation_update
    randomized_priority_least_used_update randomized_priority_least_used_degradation_update
randomized_least_used_update_bounds e =
    let load = e.policy_settings.load in
    let step = e.policy_settings.load_degradation in
    (
      get_value_fraction_bounds ppv_max load 0 0,
      (
        get_value_fraction_bounds ppv_max load e.degradation 0,
        (
          get_value_fraction_bounds ppv_max load step 0,
          (get_value_fraction_bounds ppv_max load step e.degradation, tt),
        ),
      ),
    )

-- One call of the update function of Least Used with Degradation keeps a degradation of at most
-- PPV_MAX_LOAD in that range and does not lower it. It adds the load degradation, if the sum is at most
-- PPV_MAX_LOAD, and else has the result PPV_MAX_LOAD.
pub least_used_degradation_update_bounds :
    (e : PoolElementNode)
    → e.degradation ≤ ppv_max
    → let e' = least_used_degradation_update e in
      (e'.degradation ≤ ppv_max)
      × (e.degradation ≤ e'.degradation)
      × (e.degradation + e.policy_settings.load_degradation ≤ ppv_max
          → e'.degradation ≡ e.degradation + e.policy_settings.load_degradation)
      × (ppv_max < e.degradation + e.policy_settings.load_degradation → e'.degradation ≡ ppv_max)
unfolding least_used_degradation_update get_sum
least_used_degradation_update_bounds e h =
    (ground arith, ground arith, (λ k. ground arith), λ k. ground arith)

-- For a weight up to PPV_MAX_WEIGHT, the value that Weighted Random with a distance penalty computes is
-- 0, so that the element cannot be selected, exactly if the penalty is equal to the weight; for a
-- greater penalty it is 1.
pub weighted_random_dpf_value_zero :
    (d : DoubleArith) (weight penalty : ℕ)
    → weight ≤ ppv_max
    → ((weighted_random_dpf_value d weight penalty ≡ 0) ↔ (weight ≡ penalty))
      × (weight < penalty → weighted_random_dpf_value d weight penalty ≡ 1)
unfolding weighted_random_dpf_value
weighted_random_dpf_value_zero d weight penalty h =
    (((λ q. ground arith), (λ q. ground arith)), λ l. ground arith)
