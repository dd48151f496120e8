-- ===== src/Base/Orders.antt =====
-- Three-way comparisons. A C comparison function returns an `int` below, at or above 0; here it
-- returns an `Ordering`.
use Prim.Native.Nat.{ℕ, compare, Ordering}
use Prim.Native.Nat.Ordering.{lt, eq, gt}
use mathlib.Core.Path.{◌≡◌}
use native.Mathlib.Omega.{arith}

-- What a comparison function must satisfy for a sorted storage to work.
pub record IsLawful {ℓ} {K : Type ℓ} (cmp : K → K → Ordering) : Type ℓ where
  pub chains : (x y z : K) → cmp x y ≡ lt → cmp y z ≡ lt → cmp x z ≡ lt
  pub flips_up : (x y : K) → cmp x y ≡ lt → cmp y x ≡ gt
  pub flips_down : (x y : K) → cmp x y ≡ gt → cmp y x ≡ lt
  pub same_key : (x : K) → cmp x x ≡ eq
  pub same_place : (x y z : K) → cmp x y ≡ eq → cmp z y ≡ lt → cmp x z ≡ gt

-- COMPARE_KEY_ASCENDING(a, b) and COMPARE_KEY_DESCENDING(a, b), followed by `next`.
abbrev pub ascending : ℕ → ℕ → Ordering → Ordering
ascending a b next = elim (compare a b) [ lt ↦ lt | gt ↦ gt | eq ↦ next ]

abbrev pub descending : ℕ → ℕ → Ordering → Ordering
descending a b next = elim (compare a b) [ lt ↦ gt | gt ↦ lt | eq ↦ next ]

pub ascending-IsLawful {ℓ} : {A : Type ℓ} (k : A → ℕ) → IsLawful (λ x y. ascending (k x) (k y) eq)
ascending-IsLawful k = record {
  chains = λ x y z p q. ground arith;
  flips_up = λ x y p. ground arith;
  flips_down = λ x y p. ground arith;
  same_key = λ x. ground arith;
  same_place = λ x y z p q. ground arith;
}
