-- ===== src/IdentifierBitmap/Slots.antt =====
-- The slots of an identifier bitmap: how many bits are set, and what the two loops of the search
-- find.
use rsplib.Base.{
  ℕ, zero, suc, ◌+◌, ◌*◌, ◌<◌, ◌≤◌, List, [], ◌∷◌, none, some, Bool, true, false, ◌≡◌, ◌⊎◌, inl,
  inr, refl, ◌∙◌, arith, tests, ◌%◌, ◌^◌, length, get_or, All, Bool-cases,
}
use rsplib.IdentifierBitmap.{all_set, first_slot, passed_bits, int_less}

abbrev pub count : List Bool → ℕ
count [] = 0
count (true ∷ bs) = suc (count bs)
count (false ∷ bs) = count bs

abbrev pub total : List (List Bool) → ℕ
total [] = 0
total (s ∷ ss) = count s + total ss

abbrev pub IsSlot : List Bool → Type 0
IsSlot s = length s ≡ 64

count-all_set : (s : List Bool) → all_set s ≡ true → count s ≡ length s
count-all_set [] h = refl
count-all_set (true ∷ bs) h = omega (arith, count-all_set bs h)
count-all_set (false ∷ bs) h = cc

-- What the first loop finds in slots of 64 bits.
abbrev pub Found : List (List Bool) → ℕ → List Bool → Type 0
Found ss i bits =
    (first_slot ss ≡ some (i, bits))
    × (i < length ss)
    × (get_or ss i [] ≡ bits)
    × (all_set bits ≡ false)
    × (64 * i + count bits ≤ total ss)
    × ((k : ℕ) → k < i → all_set (get_or ss k []) ≡ true)

earlier :
    (s : List Bool) (ss : List (List Bool)) (i : ℕ)
    → all_set s ≡ true
    → ((k : ℕ) → k < i → all_set (get_or ss k []) ≡ true)
    → (k : ℕ) → k < suc i
    → all_set (get_or (s ∷ ss) k []) ≡ true
earlier s ss i t h zero l = t
earlier s ss i t h (suc k) l = h k (omega arith)

pub first_slot-Found :
    (ss : List (List Bool))
    → All IsSlot ss
    → ((first_slot ss ≡ none) × (total ss ≡ 64 * length ss))
      ⊎ ((i : ℕ) × (bits : List Bool) × Found ss i bits)
unfolding first_slot
first_slot-Found [] h = inl (refl, refl)
first_slot-Found (s ∷ ss) h = elim (Bool-cases (all_set s)) [
  | inr f ↦ inr (0, s, (rw f refl, omega arith, refl, f, omega arith, λ k l. absurd (omega arith)))
  | inl t ↦
      let full : count s ≡ 64 = count-all_set s t ∙ h.0 in
      elim (first_slot-Found ss h.1) [
        | inl (q, n) ↦ inl (rw (t, first_slot, q) refl, omega arith)
        | inr (i, bits, (q, l, g, c, n, b)) ↦ inr (
          suc i,
          bits,
          (rw (t, first_slot, q) refl, omega arith, g, c, omega arith, earlier s ss i t b),
        )
      ]
]

pub int_less-small : (a b : ℕ) → a < b → b < 2 ^ 31 → int_less a b ≡ true
unfolding int_less
int_less-small a b l h =
    let x : (a + 2 ^ 31) % 2 ^ 32 ≡ a + 2 ^ 31 = omega arith in
    let y : (b + 2 ^ 31) % 2 ^ 32 ≡ b + 2 ^ 31 = omega arith in rw (x, y) (omega tests)

-- What the second loop passes: only bits that are set. It stops at one that is not, or at `entries`.
pub passed_bits-count : (entries id : ℕ) (bs : List Bool) → passed_bits entries id bs ≤ count bs
unfolding passed_bits
passed_bits-count entries id [] = omega arith
passed_bits-count entries id (true ∷ bs) =
    let rest = passed_bits-count entries ((id + 1) % 2 ^ 32) bs in ground arith
passed_bits-count entries id (false ∷ bs) = ground arith

pub passed_bits_set :
    (entries id : ℕ) (bs : List Bool) (k : ℕ)
    → k < passed_bits entries id bs
    → get_or bs k false ≡ true
unfolding passed_bits
passed_bits_set entries id [] k l = absurd (omega arith)
passed_bits_set entries id (true ∷ bs) zero l = refl
passed_bits_set entries id (true ∷ bs) (suc k) l =
    passed_bits_set entries ((id + 1) % 2 ^ 32) bs k (ground arith)
passed_bits_set entries id (false ∷ bs) k l = ground arith

pub passed_bits_clear :
    (entries id : ℕ) (bs : List Bool)
    → entries < 2 ^ 31
    → id + passed_bits entries id bs < entries
    → all_set bs ≡ false
    → (passed_bits entries id bs < length bs)
      × (get_or bs (passed_bits entries id bs) false ≡ false)
unfolding passed_bits
passed_bits_clear entries id [] small l h = cc
passed_bits_clear entries id (false ∷ bs) small l h = (ground arith, ground arith)
passed_bits_clear entries id (true ∷ bs) small l h =
    let t : int_less id entries ≡ true = int_less-small id entries (omega arith) small in
    let next : (id + 1) % 2 ^ 32 ≡ id + 1 = omega arith in
    let l' : id + suc (passed_bits entries ((id + 1) % 2 ^ 32) bs) < entries = ground arith in
    let rest = passed_bits_clear entries ((id + 1) % 2 ^ 32) bs small (omega arith) h in
    rw (t, passed_bits) ((let p = rest.0 in omega arith), rest.1)
