-- ===== src/PoolPolicy/Tests.antt =====
-- The policies at concrete inputs. The parameter for `double` is computation in whole numbers here.
use rsplib.Base.{
  negsuc, ◌≤◌, ◌<◌, ◌↔◌, false, none, arith, ℕ, ◌+◌, ◌*◌, ◌/◌, List, [], ◌∷◌, ◌≡◌, refl, All,
}
use rsplib.PolicySettings.{PoolPolicySettings, ppt_weighted_roundrobin}
use rsplib.PoolElement.{PoolElementNode, new}
use rsplib.PoolPolicy.Dpf.{DoubleArith}
use rsplib.PoolPolicy.Order.{IsPolicy}
use rsplib.PoolPolicy.Table.{pool_policy_array}
use rsplib.PoolPolicy.Update.{weighted_round_robin_prepare}
use rsplib.PoolPolicy.Compare.{weighted_round_robin_comparison}
use rsplib.PoolPolicy.Laws.{pool_policy_array-IsPolicy}
use rsplib.PoolPolicy.Bounds.{
  randomized_least_used_update_bounds, least_used_degradation_update_bounds,
  weighted_random_dpf_value_zero,
}
use rsplib.PoolPolicy.Update.{
  least_used_degradation_update, randomized_least_used_update,
  randomized_least_used_degradation_update, randomized_priority_least_used_update,
  randomized_priority_least_used_degradation_update,
}
use rsplib.PoolPolicy.Dpf.{weighted_random_dpf_value}
use rsplib.PolicySettings.{ppv_max}
use rsplib.PoolPolicy.Rounds.{weighted_round_robin_prepare-IsSorted}
use rsplib.Storage.Order.{IsSorted}

abbrev pub whole_numbers : DoubleArith
whole_numbers = record {
  Double = ℕ;
  of_uint = λ n. n;
  add = λ a b. a + b;
  mul = λ a b. a * b;
  div = λ a b. a / b;
  rint = λ n. n;
}

pool_policy_array-IsPolicy_example : All IsPolicy (pool_policy_array whole_numbers)
pool_policy_array-IsPolicy_example = pool_policy_array-IsPolicy whole_numbers

abbrev weighted : ℕ → PoolPolicySettings
weighted w = record {
  policy_type = ppt_weighted_roundrobin;
  weight = w;
  load = 0;
  load_degradation = 0;
  load_dpf = 0;
  weight_dpf = 0;
  distance = 0;
}

abbrev in_round : (id round : ℕ) → PoolElementNode
in_round id round =
    record (new id 1 30000 (weighted 3)
      (record { protocol = 132; port = 1024; control_channel = false; addresses = 1 }) none
      (negsuc 0) 0) { round_counter = round; virtual_counter = 2 }

-- The round counter of the first element stands two below its overflow.
abbrev late : List PoolElementNode
late = in_round 1 0xfffffffe ∷ in_round 2 0xffffffff ∷ []

weighted_round_robin_prepare-IsSorted_example :
    IsSorted weighted_round_robin_comparison (weighted_round_robin_prepare late)
unfolding weighted_round_robin_comparison new
weighted_round_robin_prepare-IsSorted_example =
    weighted_round_robin_prepare-IsSorted late (omega arith, (omega arith, tt))
      ((refl, tt), (tt, tt))

abbrev loaded : PoolElementNode
loaded = record (in_round 1 0) {
  policy_settings = record (weighted 1) { load = 0xffffffff; load_degradation = 9 };
  degradation = 0xfffffff0;
}

randomized_least_used_update_bounds_example :
    All
      (λ update. (1 ≤ (update loaded).value) × ((update loaded).value ≤ ppv_max))
      (randomized_least_used_update ∷ randomized_least_used_degradation_update
        ∷ randomized_priority_least_used_update ∷ randomized_priority_least_used_degradation_update
        ∷ [])
randomized_least_used_update_bounds_example = randomized_least_used_update_bounds loaded

least_used_degradation_update_bounds_example :
    let e' = least_used_degradation_update loaded in
    (e'.degradation ≤ ppv_max)
    × (loaded.degradation ≤ e'.degradation)
    × (loaded.degradation + loaded.policy_settings.load_degradation ≤ ppv_max
        → e'.degradation ≡ loaded.degradation + loaded.policy_settings.load_degradation)
    × (ppv_max < loaded.degradation + loaded.policy_settings.load_degradation
        → e'.degradation ≡ ppv_max)
unfolding new
least_used_degradation_update_bounds_example =
    least_used_degradation_update_bounds loaded (omega arith)

abbrev five : ℕ
five = 5

weighted_random_dpf_value_zero_example :
    ((weighted_random_dpf_value whole_numbers five five ≡ 0) ↔ (five ≡ five))
    × (five < five → weighted_random_dpf_value whole_numbers five five ≡ 1)
weighted_random_dpf_value_zero_example =
    weighted_random_dpf_value_zero whole_numbers five five (omega arith)
