-- ===== src/PoolPolicy/Dpf.antt =====
-- The policies of src/poolpolicy-template_impl.h with a distance penalty factor (DPF). They compute
-- in the C type `double`, which is a parameter here, with the operations that the code uses.
use rsplib.Base.{ℕ, ◌-◌, ltb, if◌then◌else◌, Ordering, eq, ascending}
use rsplib.PolicySettings.{ppv_max}
use rsplib.PoolElement.{PoolElementNode}

-- `double`: the conversion from an `unsigned int`, three operations, and
-- `(unsigned long long)rint(x)`, or `(long long)rint(x)` where x is not negative.
pub record DoubleArith : Type 1 where
  pub Double : Type 0
  pub of_uint : ℕ → Double
  pub add : Double → Double → Double
  pub mul : Double → Double → Double
  pub div : Double → Double → Double
  pub rint : Double → ℕ

abbrev pub cut_off : ℕ → ℕ
cut_off v = if ltb ppv_max v then ppv_max else v

module _ (d : DoubleArith) where
  open d use {Double, of_uint, add, mul, div, rint}

  -- `dpf1` and `dpf2` of the comparison functions
  unfoldable pub load_penalty : PoolElementNode → Double
  load_penalty e =
      mul (of_uint e.policy_settings.distance)
        (div (of_uint e.policy_settings.load_dpf) (of_uint ppv_max))

  -- `v1` and `v2` of the four comparison functions: PPV_MAX_LOAD and PPV_MAX_LOADDPF, which the
  -- source mixes, have the same value.
  unfoldable pub least_used_dpf_value : PoolElementNode → ℕ
  unfolding load_penalty
  least_used_dpf_value e =
      cut_off (rint (add (of_uint e.policy_settings.load) (mul (load_penalty e) (of_uint ppv_max))))

  unfoldable pub priority_least_used_dpf_value : PoolElementNode → ℕ
  unfolding load_penalty
  priority_least_used_dpf_value e = cut_off (
      rint (
        add (add (of_uint e.policy_settings.load) (of_uint e.policy_settings.load_degradation))
          (mul (load_penalty e) (of_uint ppv_max))))

  unfoldable pub least_used_degradation_dpf_value : PoolElementNode → ℕ
  unfolding load_penalty
  least_used_degradation_dpf_value e = cut_off (
      rint (
        add (add (of_uint e.policy_settings.load) (of_uint e.degradation))
          (mul (load_penalty e) (of_uint ppv_max))))

  unfoldable pub priority_least_used_degradation_dpf_value : PoolElementNode → ℕ
  unfolding load_penalty
  priority_least_used_degradation_dpf_value e = cut_off (
      rint (
        add
          (add (add (of_uint e.policy_settings.load) (of_uint e.policy_settings.load_degradation))
            (of_uint e.degradation))
          (mul (load_penalty e) (of_uint ppv_max))))

  unfoldable pub least_used_dpf_comparison : PoolElementNode → PoolElementNode → Ordering
  least_used_dpf_comparison a b =
      ascending (least_used_dpf_value a) (least_used_dpf_value b)
        (ascending a.seq_number b.seq_number eq)

  unfoldable pub priority_least_used_dpf_comparison : PoolElementNode → PoolElementNode → Ordering
  priority_least_used_dpf_comparison a b =
      ascending (priority_least_used_dpf_value a) (priority_least_used_dpf_value b)
        (ascending a.seq_number b.seq_number eq)

  unfoldable pub least_used_degradation_dpf_comparison :
      PoolElementNode → PoolElementNode → Ordering
  least_used_degradation_dpf_comparison a b =
      ascending (least_used_degradation_dpf_value a) (least_used_degradation_dpf_value b)
        (ascending a.seq_number b.seq_number eq)

  unfoldable pub priority_least_used_degradation_dpf_comparison :
      PoolElementNode → PoolElementNode → Ordering
  priority_least_used_degradation_dpf_comparison a b =
      ascending (priority_least_used_degradation_dpf_value a)
        (priority_least_used_degradation_dpf_value b) (ascending a.seq_number b.seq_number eq)

  -- weightedRandomDPFUpdatePoolElementNode. The difference is computed in signed 64 bits, and a
  -- negative one becomes 1.
  unfoldable pub weighted_random_dpf_value : ℕ → ℕ → ℕ
  weighted_random_dpf_value weight penalty =
      if ltb weight penalty then 1 else cut_off (weight - penalty)

  unfoldable pub weighted_random_dpf_update : PoolElementNode → PoolElementNode
  unfolding weighted_random_dpf_value
  weighted_random_dpf_update e = record e {
    value = weighted_random_dpf_value e.policy_settings.weight (
        rint (
          mul (of_uint e.policy_settings.weight) (
            mul (of_uint e.policy_settings.distance)
              (div (of_uint e.policy_settings.weight_dpf) (of_uint ppv_max)))));
  }
