-- ===== src/PoolHandle/Order.antt =====
-- The comparison of pool handles sorts strictly and distinguishes them.
use rsplib.Base.{ℕ, List, [], ◌∷◌, ◌≡◌, refl, ap₂, arith, lt, eq, gt, compare, IsLawful}
use rsplib.PoolHandle.{memcmp, comparison}

memcmp_refl : (a : List ℕ) → memcmp a a ≡ eq
unfolding memcmp
memcmp_refl [] = refl
memcmp_refl (x ∷ xs) = let q : compare x x ≡ eq = ground arith in rw (q, memcmp) (memcmp_refl xs)

memcmp-eq : (a b : List ℕ) → memcmp a b ≡ eq → a ≡ b
unfolding memcmp
memcmp-eq [] [] h = refl
memcmp-eq [] (y ∷ ys) h = cc
memcmp-eq (x ∷ xs) [] h = cc
memcmp-eq (x ∷ xs) (y ∷ ys) h =
    let same : x ≡ y = ground arith in ap₂ (λ v vs. v ∷ vs) same (memcmp-eq xs ys (ground arith))

memcmp-gt : (a b : List ℕ) → memcmp a b ≡ gt → memcmp b a ≡ lt
unfolding memcmp
memcmp-gt [] [] h = cc
memcmp-gt [] (y ∷ ys) h = cc
memcmp-gt (x ∷ xs) [] h = refl
memcmp-gt (x ∷ xs) (y ∷ ys) h = let rest = memcmp-gt xs ys in ground arith

memcmp-lt : (a b : List ℕ) → memcmp a b ≡ lt → memcmp b a ≡ gt
unfolding memcmp
memcmp-lt [] [] h = cc
memcmp-lt [] (y ∷ ys) h = refl
memcmp-lt (x ∷ xs) [] h = cc
memcmp-lt (x ∷ xs) (y ∷ ys) h = let rest = memcmp-lt xs ys in ground arith

memcmp_trans : (a b c : List ℕ) → memcmp a b ≡ lt → memcmp b c ≡ lt → memcmp a c ≡ lt
unfolding memcmp
memcmp_trans [] [] c h k = cc
memcmp_trans [] (y ∷ ys) [] h k = cc
memcmp_trans [] (y ∷ ys) (z ∷ zs) h k = refl
memcmp_trans (x ∷ xs) [] c h k = cc
memcmp_trans (x ∷ xs) (y ∷ ys) [] h k = cc
memcmp_trans (x ∷ xs) (y ∷ ys) (z ∷ zs) h k = let rest = memcmp_trans xs ys zs in ground arith

-- The comparison of pool handles is a strict total order: it takes only a handle itself for
-- equal, swaps its result with its arguments, and is transitive.
pub comparison-IsLawful : IsLawful comparison × ((a b : List ℕ) → comparison a b ≡ eq → a ≡ b)
unfolding comparison
comparison-IsLawful = (
  record {
    same_place = λ a b c h k. let r = memcmp-eq a b in let q = memcmp-lt c b in ground arith;
    same_key = λ a. let r = memcmp_refl a in ground arith;
    flips_down = λ a b h. let r = memcmp-gt a b in ground arith;
    flips_up = λ a b h. let r = memcmp-lt a b in ground arith;
    chains = λ a b c h k. let r = memcmp_trans a b c in ground arith;
  },
  λ a b h. let r = memcmp-eq a b in ground arith,
)
