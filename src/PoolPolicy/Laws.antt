-- ===== src/PoolPolicy/Laws.antt =====
-- Every policy of PoolPolicyArray obeys the laws that a pool relies on.
use rsplib.Base.{ℕ, List, [], ◌∷◌, ◌≡◌, All, some, Bool-cases, inl, inr, arith, ◌==◌, subst}
use rsplib.PoolPolicy.{PoolPolicy}
use rsplib.PoolPolicy.Dpf.{DoubleArith}
use rsplib.PoolPolicy.Table.{pool_policy_array, get_pool_policy_by_type}
use rsplib.PoolPolicy.Order.{IsPolicy}
use rsplib.PoolPolicy.Fixed.{
  round_robin-IsPolicy, weighted_round_robin-IsPolicy, random-IsPolicy, weighted_random-IsPolicy,
  weighted_random_dpf-IsPolicy, priority-IsPolicy,
}
use rsplib.PoolPolicy.Adaptive.{
  least_used-IsPolicy, least_used_dpf-IsPolicy, priority_least_used_dpf-IsPolicy,
  priority_least_used_degradation_dpf-IsPolicy, least_used_degradation-IsPolicy,
  least_used_degradation_dpf-IsPolicy, priority_least_used-IsPolicy,
  priority_least_used_degradation-IsPolicy,
}
use rsplib.PoolPolicy.Randomized.{
  randomized_least_used-IsPolicy, randomized_least_used_degradation-IsPolicy,
  randomized_priority_least_used-IsPolicy, randomized_priority_least_used_degradation-IsPolicy,
}

module _ (d : DoubleArith) where
  -- Each of the 18 policies sorts strictly, distinguishes elements by their identifiers and sequence
  -- numbers, keeps its order under renumbering, and changes no field of an element but its round and
  -- virtual counters, its degradation and its value when it updates, initializes or prepares it;
  -- preparing a sorted selection leaves it sorted.
  pub pool_policy_array-IsPolicy : All IsPolicy (pool_policy_array d)
  unfolding pool_policy_array
  pool_policy_array-IsPolicy = (
    round_robin-IsPolicy d,
    (
      weighted_round_robin-IsPolicy d,
      (
        random-IsPolicy d,
        (
          weighted_random-IsPolicy d,
          (
            weighted_random_dpf-IsPolicy d,
            (
              priority-IsPolicy d,
              (
                least_used-IsPolicy d,
                (
                  least_used_dpf-IsPolicy d,
                  (
                    priority_least_used_dpf-IsPolicy d,
                    (
                      priority_least_used_degradation_dpf-IsPolicy d,
                      (
                        least_used_degradation-IsPolicy d,
                        (
                          least_used_degradation_dpf-IsPolicy d,
                          (
                            priority_least_used-IsPolicy d,
                            (
                              priority_least_used_degradation-IsPolicy d,
                              (
                                randomized_least_used-IsPolicy d,
                                (
                                  randomized_least_used_degradation-IsPolicy d,
                                  (
                                    randomized_priority_least_used-IsPolicy d,
                                    (randomized_priority_least_used_degradation-IsPolicy d, tt),
                                  ),
                                ),
                              ),
                            ),
                          ),
                        ),
                      ),
                    ),
                  ),
                ),
              ),
            ),
          ),
        ),
      ),
    ),
  )

-- What holds of every policy of a table holds of the one that the search by type returns, and that
-- one has the type.
pub get_pool_policy_by_type-All :
    (P : PoolPolicy → Type 0) (ps : List PoolPolicy) (t : ℕ) (p : PoolPolicy)
    → get_pool_policy_by_type ps t ≡ some p
    → All P ps
    → P p × (p.type ≡ t)
unfolding get_pool_policy_by_type
get_pool_policy_by_type-All P [] t p e h = cc
get_pool_policy_by_type-All P (q ∷ ps) t p e h = elim (Bool-cases (q.type == t)) [
  | inl y ↦ let found : q ≡ p = ground arith in (subst P found h.0, ground arith)
  | inr n ↦ get_pool_policy_by_type-All P ps t p (ground arith) h.1
]

-- A registered policy type leads to a policy of that type that obeys the laws.
pub get_pool_policy_by_type-IsPolicy :
    (d : DoubleArith) (t : ℕ) (p : PoolPolicy)
    → get_pool_policy_by_type (pool_policy_array d) t ≡ some p
    → IsPolicy p × (p.type ≡ t)
get_pool_policy_by_type-IsPolicy d t p e =
    get_pool_policy_by_type-All IsPolicy (pool_policy_array d) t p e (pool_policy_array-IsPolicy d)
