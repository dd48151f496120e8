-- ===== src/PoolPolicy/Adaptive.antt =====
-- The laws of the policies that sort by the load.
use rsplib.Base.{refl}
use rsplib.PoolPolicy.Compare.{
  least_used_comparison, least_used_degradation_comparison, priority_least_used_comparison,
  priority_least_used_degradation_comparison, get_sum,
}
use rsplib.PoolPolicy.Update.{least_used_degradation_update}
use rsplib.PoolPolicy.Dpf.{
  DoubleArith, least_used_degradation_dpf_comparison, least_used_degradation_dpf_value,
  least_used_dpf_comparison, least_used_dpf_value, priority_least_used_degradation_dpf_comparison,
  priority_least_used_degradation_dpf_value, priority_least_used_dpf_comparison,
  priority_least_used_dpf_value,
}
use rsplib.PoolPolicy.Table.{
  least_used, least_used_dpf, priority_least_used_dpf, priority_least_used_degradation_dpf,
  least_used_degradation, least_used_degradation_dpf, priority_least_used,
  priority_least_used_degradation,
}
use rsplib.PoolPolicy.Order.{IsPolicy, Keeps-refl, KeepAll-refl, by_key}

module _ (d : DoubleArith) where
  pub least_used-IsPolicy : IsPolicy (least_used d)
  unfolding least_used least_used_comparison
  least_used-IsPolicy = record {
    compares = by_key (λ e. e.policy_settings.load) (λ e n. refl) (λ e f. refl);
    update_keeps = λ e. Keeps-refl e;
    initialize_keeps = λ es e h. Keeps-refl e;
    prepare_keeps = λ es. KeepAll-refl es;
    prepare_sorted = λ es h s. s;
  }

  pub least_used_dpf-IsPolicy : IsPolicy (least_used_dpf d)
  unfolding least_used_dpf least_used_dpf_comparison least_used_dpf_value
  least_used_dpf-IsPolicy = record {
    compares = by_key (least_used_dpf_value d) (λ e n. refl) (λ e f. refl);
    update_keeps = λ e. Keeps-refl e;
    initialize_keeps = λ es e h. Keeps-refl e;
    prepare_keeps = λ es. KeepAll-refl es;
    prepare_sorted = λ es h s. s;
  }

  pub priority_least_used_dpf-IsPolicy : IsPolicy (priority_least_used_dpf d)
  unfolding priority_least_used_dpf priority_least_used_dpf_comparison priority_least_used_dpf_value
  priority_least_used_dpf-IsPolicy = record {
    compares = by_key (priority_least_used_dpf_value d) (λ e n. refl) (λ e f. refl);
    update_keeps = λ e. Keeps-refl e;
    initialize_keeps = λ es e h. Keeps-refl e;
    prepare_keeps = λ es. KeepAll-refl es;
    prepare_sorted = λ es h s. s;
  }

  pub priority_least_used_degradation_dpf-IsPolicy :
      IsPolicy (priority_least_used_degradation_dpf d)
  unfolding priority_least_used_degradation_dpf priority_least_used_degradation_dpf_comparison
      priority_least_used_degradation_dpf_value least_used_degradation_update
  priority_least_used_degradation_dpf-IsPolicy = record {
    compares = by_key (priority_least_used_degradation_dpf_value d) (λ e n. refl) (λ e f. refl);
    update_keeps = λ e. record {
      same_identifier = refl;
      same_account = refl;
      same_seq = refl;
      same_settings = refl;
      only_counters = refl;
      fits = λ h. h;
    };
    initialize_keeps = λ es e h. Keeps-refl e;
    prepare_keeps = λ es. KeepAll-refl es;
    prepare_sorted = λ es h s. s;
  }

  pub least_used_degradation-IsPolicy : IsPolicy (least_used_degradation d)
  unfolding least_used_degradation least_used_degradation_comparison least_used_degradation_update
  least_used_degradation-IsPolicy = record {
    compares =
        by_key (λ e. get_sum e.policy_settings.load e.degradation 0) (λ e n. refl) (λ e f. refl);
    update_keeps = λ e. record {
      same_identifier = refl;
      same_account = refl;
      same_seq = refl;
      same_settings = refl;
      only_counters = refl;
      fits = λ h. h;
    };
    initialize_keeps = λ es e h. Keeps-refl e;
    prepare_keeps = λ es. KeepAll-refl es;
    prepare_sorted = λ es h s. s;
  }

  pub least_used_degradation_dpf-IsPolicy : IsPolicy (least_used_degradation_dpf d)
  unfolding least_used_degradation_dpf least_used_degradation_dpf_comparison
      least_used_degradation_dpf_value least_used_degradation_update
  least_used_degradation_dpf-IsPolicy = record {
    compares = by_key (least_used_degradation_dpf_value d) (λ e n. refl) (λ e f. refl);
    update_keeps = λ e. record {
      same_identifier = refl;
      same_account = refl;
      same_seq = refl;
      same_settings = refl;
      only_counters = refl;
      fits = λ h. h;
    };
    initialize_keeps = λ es e h. Keeps-refl e;
    prepare_keeps = λ es. KeepAll-refl es;
    prepare_sorted = λ es h s. s;
  }

  pub priority_least_used-IsPolicy : IsPolicy (priority_least_used d)
  unfolding priority_least_used priority_least_used_comparison
  priority_least_used-IsPolicy = record {
    compares =
        by_key (λ e. get_sum e.policy_settings.load e.policy_settings.load_degradation 0)
          (λ e n. refl) (λ e f. refl);
    update_keeps = λ e. Keeps-refl e;
    initialize_keeps = λ es e h. Keeps-refl e;
    prepare_keeps = λ es. KeepAll-refl es;
    prepare_sorted = λ es h s. s;
  }

  pub priority_least_used_degradation-IsPolicy : IsPolicy (priority_least_used_degradation d)
  unfolding priority_least_used_degradation priority_least_used_degradation_comparison
      least_used_degradation_update
  priority_least_used_degradation-IsPolicy = record {
    compares =
        by_key
          (λ e. get_sum e.policy_settings.load e.policy_settings.load_degradation e.degradation)
          (λ e n. refl) (λ e f. refl);
    update_keeps = λ e. record {
      same_identifier = refl;
      same_account = refl;
      same_seq = refl;
      same_settings = refl;
      only_counters = refl;
      fits = λ h. h;
    };
    initialize_keeps = λ es e h. Keeps-refl e;
    prepare_keeps = λ es. KeepAll-refl es;
    prepare_sorted = λ es h s. s;
  }
