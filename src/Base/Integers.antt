-- ===== src/Base/Integers.antt =====
-- The integers over the native numbers, for the C type `int`.
use Prim.Native.Nat.{ℕ, zero, suc, compare, Ordering}
use Prim.Native.Nat.Ordering.{lt, eq, gt}
use mathlib.Core.Path.{◌≡◌, refl}
use mathlib.Core.Bool.{Bool, true, false}
use native.Mathlib.Omega.{arith}
use rsplib.Base.Orders.{IsLawful}

pub data ℤ : Type 0 where
  pos negsuc : ℕ → ℤ

abbrev pub compare_int : ℤ → ℤ → Ordering
compare_int (pos a) (pos b) = compare a b
compare_int (pos a) (negsuc b) = gt
compare_int (negsuc a) (pos b) = lt
compare_int (negsuc a) (negsuc b) = compare b a

abbrev pub is_positive : ℤ → Bool
is_positive (pos zero) = false
is_positive (pos (suc n)) = true
is_positive (negsuc n) = false

pub compare_int-IsLawful : IsLawful compare_int
compare_int-IsLawful = record {
  chains = chains;
  flips_up = flips_up;
  flips_down = flips_down;
  same_key = same_key;
  same_place = same_place;
}
  where
    chains : (x y z : ℤ) → compare_int x y ≡ lt → compare_int y z ≡ lt → compare_int x z ≡ lt
    chains (pos a) (pos b) (pos c) p q = ground arith
    chains (pos a) (pos b) (negsuc c) p q = cc
    chains (pos a) (negsuc b) z p q = cc
    chains (negsuc a) (pos b) (pos c) p q = refl
    chains (negsuc a) (pos b) (negsuc c) p q = cc
    chains (negsuc a) (negsuc b) (pos c) p q = refl
    chains (negsuc a) (negsuc b) (negsuc c) p q = ground arith

    flips_up : (x y : ℤ) → compare_int x y ≡ lt → compare_int y x ≡ gt
    flips_up (pos a) (pos b) p = ground arith
    flips_up (pos a) (negsuc b) p = cc
    flips_up (negsuc a) (pos b) p = refl
    flips_up (negsuc a) (negsuc b) p = ground arith

    flips_down : (x y : ℤ) → compare_int x y ≡ gt → compare_int y x ≡ lt
    flips_down (pos a) (pos b) p = ground arith
    flips_down (pos a) (negsuc b) p = refl
    flips_down (negsuc a) (pos b) p = cc
    flips_down (negsuc a) (negsuc b) p = ground arith

    same_key : (x : ℤ) → compare_int x x ≡ eq
    same_key (pos a) = ground arith
    same_key (negsuc a) = ground arith

    same_place : (x y z : ℤ) → compare_int x y ≡ eq → compare_int z y ≡ lt → compare_int x z ≡ gt
    same_place (pos a) (pos b) (pos c) p q = ground arith
    same_place (pos a) (pos b) (negsuc c) p q = refl
    same_place (pos a) (negsuc b) z p q = cc
    same_place (negsuc a) (pos b) z p q = cc
    same_place (negsuc a) (negsuc b) (pos c) p q = cc
    same_place (negsuc a) (negsuc b) (negsuc c) p q = ground arith
