-- ===== src/PoolPolicy/Randomized.antt =====
-- The laws of the policies that choose at random, by the load.
use rsplib.Base.{refl}
use rsplib.PoolPolicy.Compare.{
  randomized_least_used_comparison, randomized_least_used_degradation_comparison,
  randomized_priority_least_used_comparison, randomized_priority_least_used_degradation_comparison,
}
use rsplib.PoolPolicy.Update.{
  randomized_least_used_degradation_update, randomized_least_used_update,
  randomized_priority_least_used_degradation_update, randomized_priority_least_used_update,
}
use rsplib.PoolPolicy.Dpf.{DoubleArith}
use rsplib.PoolPolicy.Table.{
  randomized_least_used, randomized_least_used_degradation, randomized_priority_least_used,
  randomized_priority_least_used_degradation,
}
use rsplib.PoolPolicy.Order.{IsPolicy, Keeps-refl, KeepAll-refl, by_identifier}

module _ (d : DoubleArith) where
  pub randomized_least_used-IsPolicy : IsPolicy (randomized_least_used d)
  unfolding randomized_least_used randomized_least_used_comparison randomized_least_used_update
  randomized_least_used-IsPolicy = record {
    compares = by_identifier;
    update_keeps = λ e. record {
      same_identifier = refl;
      same_account = refl;
      same_seq = refl;
      same_settings = refl;
      only_counters = refl;
      fits = λ h. h;
    };
    initialize_keeps = λ es e h. Keeps-refl e;
    prepare_keeps = λ es. KeepAll-refl es;
    prepare_sorted = λ es h s. s;
  }

  pub randomized_least_used_degradation-IsPolicy : IsPolicy (randomized_least_used_degradation d)
  unfolding randomized_least_used_degradation randomized_least_used_degradation_comparison
      randomized_least_used_degradation_update
  randomized_least_used_degradation-IsPolicy = record {
    compares = by_identifier;
    update_keeps = λ e. record {
      same_identifier = refl;
      same_account = refl;
      same_seq = refl;
      same_settings = refl;
      only_counters = refl;
      fits = λ h. h;
    };
    initialize_keeps = λ es e h. Keeps-refl e;
    prepare_keeps = λ es. KeepAll-refl es;
    prepare_sorted = λ es h s. s;
  }

  pub randomized_priority_least_used-IsPolicy : IsPolicy (randomized_priority_least_used d)
  unfolding randomized_priority_least_used randomized_priority_least_used_comparison
      randomized_priority_least_used_update
  randomized_priority_least_used-IsPolicy = record {
    compares = by_identifier;
    update_keeps = λ e. record {
      same_identifier = refl;
      same_account = refl;
      same_seq = refl;
      same_settings = refl;
      only_counters = refl;
      fits = λ h. h;
    };
    initialize_keeps = λ es e h. Keeps-refl e;
    prepare_keeps = λ es. KeepAll-refl es;
    prepare_sorted = λ es h s. s;
  }

  pub randomized_priority_least_used_degradation-IsPolicy :
      IsPolicy (randomized_priority_least_used_degradation d)
  unfolding randomized_priority_least_used_degradation
      randomized_priority_least_used_degradation_comparison
      randomized_priority_least_used_degradation_update
  randomized_priority_least_used_degradation-IsPolicy = record {
    compares = by_identifier;
    update_keeps = λ e. record {
      same_identifier = refl;
      same_account = refl;
      same_seq = refl;
      same_settings = refl;
      only_counters = refl;
      fits = λ h. h;
    };
    initialize_keeps = λ es e h. Keeps-refl e;
    prepare_keeps = λ es. KeepAll-refl es;
    prepare_sorted = λ es h s. s;
  }
