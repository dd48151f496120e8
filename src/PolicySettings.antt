-- ===== src/PolicySettings.antt =====
-- src/poolpolicysettings.c and .h: the settings of a pool element's policy, and the constants of
-- src/rserpool-policytypes.h. The fields are `unsigned int`.
use rsplib.Base.{ℕ, Bool, not, ◌&&◌, ◌||◌, leb, ◌==◌}

pub record PoolPolicySettings : Type 0 where
  pub policy_type : ℕ
  pub weight : ℕ
  pub load : ℕ
  pub load_degradation : ℕ
  pub load_dpf : ℕ
  pub weight_dpf : ℕ
  pub distance : ℕ

abbrev pub ppt_undefined : ℕ
ppt_undefined = 0x00000000

abbrev pub ppt_roundrobin : ℕ
ppt_roundrobin = 0x00000001

abbrev pub ppt_weighted_roundrobin : ℕ
ppt_weighted_roundrobin = 0x00000002

abbrev pub ppt_random : ℕ
ppt_random = 0x00000003

abbrev pub ppt_weighted_random : ℕ
ppt_weighted_random = 0x00000004

abbrev pub ppt_priority : ℕ
ppt_priority = 0x00000005

abbrev pub ppt_leastused : ℕ
ppt_leastused = 0x40000001

abbrev pub ppt_leastused_degradation : ℕ
ppt_leastused_degradation = 0x40000002

abbrev pub ppt_priority_leastused : ℕ
ppt_priority_leastused = 0x40000003

abbrev pub ppt_randomized_leastused : ℕ
ppt_randomized_leastused = 0x40000004

abbrev pub ppt_randomized_priority_leastused : ℕ
ppt_randomized_priority_leastused = 0xb0001001

abbrev pub ppt_randomized_leastused_degradation : ℕ
ppt_randomized_leastused_degradation = 0xb0001002

abbrev pub ppt_priority_leastused_degradation : ℕ
ppt_priority_leastused_degradation = 0xb0001003

abbrev pub ppt_randomized_priority_leastused_degradation : ℕ
ppt_randomized_priority_leastused_degradation = 0xb0001004

abbrev pub ppt_weighted_random_dpf : ℕ
ppt_weighted_random_dpf = 0xb0002001

abbrev pub ppt_leastused_dpf : ℕ
ppt_leastused_dpf = 0xb0002002

abbrev pub ppt_leastused_degradation_dpf : ℕ
ppt_leastused_degradation_dpf = 0xb0002003

abbrev pub ppt_priority_leastused_dpf : ℕ
ppt_priority_leastused_dpf = 0xb0002004

abbrev pub ppt_priority_leastused_degradation_dpf : ℕ
ppt_priority_leastused_degradation_dpf = 0xb0002005

-- PPV_MAX_WEIGHT, PPV_MAX_LOAD, PPV_MAX_LOAD_DEGRADATION, PPV_MAX_LOADDPF and PPV_MAX_WEIGHTDPF;
-- the PPV_MIN_... are all 0.
abbrev pub ppv_max : ℕ
ppv_max = 0xffffffff

-- PPT_IS_ADAPTIVE
unfoldable pub ppt_is_adaptive : ℕ → Bool
ppt_is_adaptive p =
    p == ppt_leastused
    || p == ppt_leastused_dpf
    || p == ppt_leastused_degradation
    || p == ppt_leastused_degradation_dpf
    || p == ppt_priority_leastused
    || p == ppt_priority_leastused_degradation
    || p == ppt_priority_leastused_dpf
    || p == ppt_priority_leastused_degradation_dpf
    || p == ppt_randomized_leastused
    || p == ppt_randomized_leastused_degradation
    || p == ppt_randomized_priority_leastused
    || p == ppt_randomized_priority_leastused_degradation

-- poolPolicySettingsNew and poolPolicySettingsDelete store the same values.
unfoldable pub cleared : PoolPolicySettings
cleared = record {
  policy_type = 0;
  weight = 0;
  load = 0;
  load_degradation = 0;
  load_dpf = 0;
  weight_dpf = 0;
  distance = 0;
}

-- poolPolicySettingsComparison: true if the settings differ.
unfoldable pub differ : PoolPolicySettings → PoolPolicySettings → Bool
differ p q =
    not (p.weight == q.weight)
    || not (p.load == q.load)
    || not (p.load_degradation == q.load_degradation)
    || not (p.load_dpf == q.load_dpf)
    || not (p.weight_dpf == q.weight_dpf)
    || not (p.distance == q.distance)

-- poolPolicySettingsIsValid
unfoldable pub is_valid : PoolPolicySettings → Bool
is_valid p =
    leb 0 p.weight
    && leb p.weight ppv_max
    && leb 0 p.load
    && leb p.load ppv_max
    && leb 0 p.load_degradation
    && leb p.load_degradation ppv_max

-- poolPolicySettingsAdapt
unfoldable pub adapt : PoolPolicySettings → ℕ → Bool
adapt p destination_type = p.policy_type == destination_type
