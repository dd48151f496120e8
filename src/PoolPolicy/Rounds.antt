-- ===== src/PoolPolicy/Rounds.antt =====
-- The counters of the weighted round robin policy.
use rsplib.Base.{
  ℕ, ◌+◌, ◌%◌, ◌<◌, ◌≤◌, ◌^◌, List, [], ◌∷◌, map, ◌≡◌, refl, arith, lt, All, Bool-cases, inl, inr,
  ltb,
}
use rsplib.PoolElement.{PoolElementNode}
use rsplib.PoolPolicy.Compare.{weighted_round_robin_comparison}
use rsplib.PoolPolicy.Update.{
  current_round_counter, lower_round_counter, reset_round_counters, weighted_round_robin_initialize,
  weighted_round_robin_update, weighted_round_robin_prepare,
}
use rsplib.PoolPolicy.Order.{Keeps, KeepAll, KeepAll-refl, FitsRound}
use rsplib.Storage.Order.{Above, IsSorted}

pub weighted_round_robin_update-Keeps :
    (e : PoolElementNode) → Keeps e (weighted_round_robin_update e)
unfolding weighted_round_robin_update
weighted_round_robin_update-Keeps e = ground arith

current_round_counter-lt :
    (es : List PoolElementNode) → All FitsRound es → current_round_counter es < 2 ^ 32
unfolding current_round_counter
current_round_counter-lt [] h = omega arith
current_round_counter-lt (e ∷ es) h = h.0

pub weighted_round_robin_initialize-Keeps :
    (es : List PoolElementNode) (e : PoolElementNode)
    → All FitsRound es
    → Keeps e (weighted_round_robin_initialize es e)
unfolding weighted_round_robin_initialize
weighted_round_robin_initialize-Keeps es e h = record {
  same_identifier = refl;
  same_account = refl;
  same_seq = refl;
  same_settings = refl;
  only_counters = refl;
  fits = λ _. current_round_counter-lt es h;
}

lower-KeepAll : (r : ℕ) (es : List PoolElementNode) → KeepAll es (map (lower_round_counter r) es)
unfolding lower_round_counter
lower-KeepAll r [] = tt
lower-KeepAll r (e ∷ es) = (
  record {
    same_identifier = refl;
    same_account = refl;
    same_seq = refl;
    same_settings = refl;
    only_counters = refl;
    fits = λ _. omega arith;
  },
  lower-KeepAll r es,
)

reset-KeepAll : (es : List PoolElementNode) → KeepAll es (reset_round_counters es)
unfolding reset_round_counters
reset-KeepAll [] = tt
reset-KeepAll (e ∷ es) = lower-KeepAll e.round_counter (e ∷ es)

pub weighted_round_robin_prepare-KeepAll :
    (es : List PoolElementNode) → KeepAll es (weighted_round_robin_prepare es)
unfolding weighted_round_robin_prepare
weighted_round_robin_prepare-KeepAll es =
    elim (Bool-cases (ltb ((current_round_counter es + 2) % 2 ^ 32) (current_round_counter es))) [
      | inl t ↦ rw t (reset-KeepAll es)
      | inr f ↦ rw f (KeepAll-refl es)
    ]

lower_lt :
    (r : ℕ) (a b : PoolElementNode)
    → r ≤ a.round_counter
    → a.round_counter < 2 ^ 32
    → b.round_counter < 2 ^ 32
    → weighted_round_robin_comparison a b ≡ lt
    → weighted_round_robin_comparison (lower_round_counter r a) (lower_round_counter r b) ≡ lt
unfolding weighted_round_robin_comparison lower_round_counter
lower_lt r a b low ha hb h = ground arith

round_le :
    (a b : PoolElementNode)
    → weighted_round_robin_comparison a b ≡ lt
    → a.round_counter ≤ b.round_counter
unfolding weighted_round_robin_comparison
round_le a b h = ground arith

lower-Above :
    (r : ℕ) (a : PoolElementNode) (es : List PoolElementNode)
    → r ≤ a.round_counter
    → FitsRound a
    → All FitsRound es
    → Above weighted_round_robin_comparison a es
    → Above weighted_round_robin_comparison
        (lower_round_counter r a)
        (map (lower_round_counter r) es)
lower-Above r a [] low ha h s = tt
lower-Above r a (e ∷ es) low ha h s =
    (lower_lt r a e low ha h.0 s.0, lower-Above r a es low ha h.1 s.1)

lower-IsSorted :
    (r : ℕ) (es : List PoolElementNode)
    → All (λ e. r ≤ e.round_counter) es
    → All FitsRound es
    → IsSorted weighted_round_robin_comparison es
    → IsSorted weighted_round_robin_comparison (map (lower_round_counter r) es)
lower-IsSorted r [] low h s = tt
lower-IsSorted r (e ∷ es) low h s =
    (lower-Above r e es low.0 h.0 h.1 s.0, lower-IsSorted r es low.1 h.1 s.1)

Above-le :
    (a : PoolElementNode) (es : List PoolElementNode)
    → Above weighted_round_robin_comparison a es
    → All (λ e. a.round_counter ≤ e.round_counter) es
Above-le a [] s = tt
Above-le a (e ∷ es) s = (round_le a e s.0, Above-le a es s.1)

reset-IsSorted :
    (es : List PoolElementNode)
    → All FitsRound es
    → IsSorted weighted_round_robin_comparison es
    → IsSorted weighted_round_robin_comparison (reset_round_counters es)
unfolding reset_round_counters
reset-IsSorted [] h s = tt
reset-IsSorted (e ∷ es) h s =
    lower-IsSorted e.round_counter (e ∷ es) (omega arith, Above-le e es s.0) h s

-- Preparing a selection that is sorted by the order of Weighted Round Robin, with round counters
-- that fit 32 bits, leaves it sorted, also where the round counters are lowered because the next
-- two rounds overflow.
pub weighted_round_robin_prepare-IsSorted :
    (es : List PoolElementNode)
    → All FitsRound es
    → IsSorted weighted_round_robin_comparison es
    → IsSorted weighted_round_robin_comparison (weighted_round_robin_prepare es)
unfolding weighted_round_robin_prepare
weighted_round_robin_prepare-IsSorted es h s =
    elim (Bool-cases (ltb ((current_round_counter es + 2) % 2 ^ 32) (current_round_counter es))) [
      | inl t ↦ rw t (reset-IsSorted es h s)
      | inr f ↦ rw f s
    ]
