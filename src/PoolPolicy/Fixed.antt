-- ===== src/PoolPolicy/Fixed.antt =====
-- The laws of the policies that read no load: the rounds, the random ones and Priority.
use rsplib.Base.{refl}
use rsplib.PoolPolicy.Compare.{
  priority_comparison, random_comparison, round_robin_comparison, weighted_random_comparison,
  weighted_random_dpf_comparison, weighted_round_robin_comparison,
}
use rsplib.PoolPolicy.Update.{random_update, weighted_random_update, weighted_round_robin_update}
use rsplib.PoolPolicy.Dpf.{DoubleArith, weighted_random_dpf_update}
use rsplib.PoolPolicy.Table.{
  round_robin, weighted_round_robin, random, weighted_random, weighted_random_dpf, priority,
}
use rsplib.PoolPolicy.Order.{
  IsPolicy, Keeps-refl, KeepAll-refl, by_seq, by_identifier, by_key_descending, by_counters,
}
use rsplib.PoolPolicy.Rounds.{
  weighted_round_robin_update-Keeps, weighted_round_robin_initialize-Keeps,
  weighted_round_robin_prepare-KeepAll, weighted_round_robin_prepare-IsSorted,
}

module _ (d : DoubleArith) where
  pub round_robin-IsPolicy : IsPolicy (round_robin d)
  unfolding round_robin round_robin_comparison
  round_robin-IsPolicy = record {
    compares = by_seq;
    update_keeps = λ e. Keeps-refl e;
    initialize_keeps = λ es e h. Keeps-refl e;
    prepare_keeps = λ es. KeepAll-refl es;
    prepare_sorted = λ es h s. s;
  }

  pub weighted_round_robin-IsPolicy : IsPolicy (weighted_round_robin d)
  unfolding weighted_round_robin weighted_round_robin_comparison weighted_round_robin_update
  weighted_round_robin-IsPolicy = record {
    compares = by_counters;
    update_keeps = λ e. weighted_round_robin_update-Keeps e;
    initialize_keeps = λ es e h. weighted_round_robin_initialize-Keeps es e h;
    prepare_keeps = λ es. weighted_round_robin_prepare-KeepAll es;
    prepare_sorted = λ es h s. weighted_round_robin_prepare-IsSorted es h s;
  }

  pub random-IsPolicy : IsPolicy (random d)
  unfolding random random_comparison random_update
  random-IsPolicy = record {
    compares = by_identifier;
    update_keeps = λ e. record {
      same_identifier = refl;
      same_account = refl;
      same_seq = refl;
      same_settings = refl;
      only_counters = refl;
      fits = λ h. h;
    };
    initialize_keeps = λ es e h. Keeps-refl e;
    prepare_keeps = λ es. KeepAll-refl es;
    prepare_sorted = λ es h s. s;
  }

  pub weighted_random-IsPolicy : IsPolicy (weighted_random d)
  unfolding weighted_random weighted_random_comparison weighted_random_update
  weighted_random-IsPolicy = record {
    compares = by_identifier;
    update_keeps = λ e. record {
      same_identifier = refl;
      same_account = refl;
      same_seq = refl;
      same_settings = refl;
      only_counters = refl;
      fits = λ h. h;
    };
    initialize_keeps = λ es e h. Keeps-refl e;
    prepare_keeps = λ es. KeepAll-refl es;
    prepare_sorted = λ es h s. s;
  }

  pub weighted_random_dpf-IsPolicy : IsPolicy (weighted_random_dpf d)
  unfolding weighted_random_dpf weighted_random_dpf_comparison weighted_random_dpf_update
  weighted_random_dpf-IsPolicy = record {
    compares = by_identifier;
    update_keeps = λ e. record {
      same_identifier = refl;
      same_account = refl;
      same_seq = refl;
      same_settings = refl;
      only_counters = refl;
      fits = λ h. h;
    };
    initialize_keeps = λ es e h. Keeps-refl e;
    prepare_keeps = λ es. KeepAll-refl es;
    prepare_sorted = λ es h s. s;
  }

  pub priority-IsPolicy : IsPolicy (priority d)
  unfolding priority priority_comparison
  priority-IsPolicy = record {
    compares = by_key_descending (λ e. e.policy_settings.weight) (λ e n. refl) (λ e f. refl);
    update_keeps = λ e. Keeps-refl e;
    initialize_keeps = λ es e h. Keeps-refl e;
    prepare_keeps = λ es. KeepAll-refl es;
    prepare_sorted = λ es h s. s;
  }
