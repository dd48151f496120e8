-- ===== src/Message/Layout.antt =====
-- Bytes in the buffer of a message.
use rsplib.Base.{
  ℕ, zero, suc, ◌+◌, ◌^◌, ◌<◌, ◌≤◌, List, [], ◌∷◌, ◌++◌, ◌≡◌, refl, ap, ◌∙◌, arith, All, length,
  take, drop, get_or,
}
use rsplib.Message.{RSerPoolMessage, word_at}

-- The buffer holds as many bytes as the message says, and the position is inside it.
pub record IsMessage (m : RSerPoolMessage) : Type 0 where
  pub whole : length m.buffer ≡ m.buffer_size
  pub bytes : All (λ b. b < 256) m.buffer
  pub small : m.buffer_size < 2 ^ 62
  pub inside : m.position ≤ m.buffer_size

get_or_byte : (bs : List ℕ) (i : ℕ) → All (λ b. b < 256) bs → get_or bs i 0 < 256
get_or_byte [] i h = omega arith
get_or_byte (b ∷ bs) zero h = h.0
get_or_byte (b ∷ bs) (suc i) h = get_or_byte bs i h.1

pub word_at_bound : (bs : List ℕ) (i : ℕ) → All (λ b. b < 256) bs → word_at bs i < 2 ^ 16
word_at_bound bs i h = omega (arith, get_or_byte bs i h, get_or_byte bs (i + 1) h)

pub get_or-append : (xs ys : List ℕ) (i : ℕ) → get_or (xs ++ ys) (length xs + i) 0 ≡ get_or ys i 0
get_or-append [] ys i = let e : 0 + i ≡ i = omega arith in ap (λ j. get_or ys j 0) e
get_or-append (x ∷ xs) ys i =
    let e : length (x ∷ xs) + i ≡ suc (length xs + i) = omega arith in
    ap (λ j. get_or (x ∷ (xs ++ ys)) j 0) e ∙ get_or-append xs ys i

pub drop-append : (xs ys : List ℕ) (n : ℕ) → n ≡ length xs → drop n (xs ++ ys) ≡ ys
drop-append [] ys zero e = refl
drop-append [] ys (suc n) e = absurd (omega arith)
drop-append (x ∷ xs) ys zero e = absurd (omega arith)
drop-append (x ∷ xs) ys (suc n) e = drop-append xs ys n (omega arith)

pub take-append : (xs ys : List ℕ) (n : ℕ) → n ≡ length xs → take n (xs ++ ys) ≡ xs
take-append [] ys zero e = refl
take-append [] ys (suc n) e = absurd (omega arith)
take-append (x ∷ xs) ys zero e = absurd (omega arith)
take-append (x ∷ xs) ys (suc n) e = ap (λ zs. x ∷ zs) (take-append xs ys n (omega arith))
