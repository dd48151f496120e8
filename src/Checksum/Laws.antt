-- ===== src/Checksum/Laws.antt =====
-- What the handlespace relies on of its checksum.
use rsplib.Base.{
  ℕ, ◌+◌, ◌-◌, ◌*◌, ◌/◌, ◌%◌, ◌^◌, ◌<◌, List, [], ◌∷◌, ◌≡◌, refl, arith, some, ltb, Bool-cases, inl,
  inr, true, false, Bool, ◌∙◌, tests,
}
use rsplib.Checksum.{add, sub, compute, finish, strip_carry}

-- Taking the checksum of an element out of a sum undoes adding it, in 32 bits, in any order.
pub sub-add :
    (s a b : ℕ)
    → s < 2 ^ 32
    → a < 2 ^ 32
    → b < 2 ^ 32
    → (sub (add s a) a ≡ s) × (sub (add (add s a) b) a ≡ add s b)
unfolding sub add
sub-add s a b hs ha hb = (omega arith, omega arith)

-- The sum of every second byte, from the first one on or from the second one on
abbrev pub sum_alternate : (from_first : Bool) → List ℕ → ℕ
sum_alternate from_first [] = 0
sum_alternate true (b ∷ bytes) = b + sum_alternate false bytes
sum_alternate false (b ∷ bytes) = sum_alternate true bytes

-- For an accumulator of 32 bits, the checksum of a buffer is the accumulator and the sum of the bytes at
-- even positions and of 256 times those at odd positions, counted from 0, modulo 2 ^ 32. This holds
-- for buffers of even and of odd size.
pub compute-sum_alternate :
    (sum : ℕ) (bytes : List ℕ)
    → sum < 2 ^ 32
    → compute sum bytes
      ≡ (sum + sum_alternate true bytes + 256 * sum_alternate false bytes) % 2 ^ 32
unfolding compute
compute-sum_alternate sum [] h = omega arith
compute-sum_alternate sum (b ∷ []) h = omega arith
compute-sum_alternate sum (low ∷ high ∷ bytes) h =
    let rest = compute-sum_alternate ((sum + (low + 256 * high)) % 2 ^ 32) bytes (omega arith) in
    rest ∙ omega arith

stripped :
    (sum : ℕ)
    → sum < 2 ^ 32
    → (s : ℕ) × (strip_carry 3 sum ≡ some s) × (s < 2 ^ 16) × (s % 65535 ≡ sum % 65535)
unfolding strip_carry
stripped sum h =
    let s1 = sum % 2 ^ 16 + sum / 2 ^ 16 in
    let s2 = s1 % 2 ^ 16 + s1 / 2 ^ 16 in
    elim (Bool-cases (ltb sum (2 ^ 16))) [
      | inl t ↦ (sum, rw t refl, omega tests, refl)
      | inr f ↦ elim (Bool-cases (ltb s1 (2 ^ 16))) [
        | inl t1 ↦ (s1, rw (f, t1) refl, omega tests, omega arith)
        | inr f1 ↦
            let small : ltb s2 (2 ^ 16) ≡ true = ground arith in
            (s2, rw (f, f1, small) refl, omega tests, omega arith)
      ]
    ]

-- The loop of the last step ends within two rounds for every 32-bit sum. The result is a 16-bit
-- number that makes the sum a multiple of 65535.
pub finish-sum :
    (sum : ℕ)
    → sum < 2 ^ 32
    → (c : ℕ) × (finish sum ≡ some c) × (c < 2 ^ 16) × ((sum + c) % 65535 ≡ 0)
unfolding finish
finish-sum sum h =
    let (s, q, fits, same) = stripped sum h in
    (2 ^ 16 - 1 - s, rw (q, finish) refl, omega arith, omega arith)
