-- ===== src/IdentifierBitmap/Allocating.antt =====
-- Allocation and release of identifiers.
use rsplib.Base.{
  ◌%◌, ◌/◌, ◌^◌, ℕ, zero, suc, ◌+◌, ◌-◌, ◌*◌, ◌<◌, ◌≤◌, List, [], ◌∷◌, some, Bool, true, false, ◌≡◌,
  inl, inr, refl, sym, ◌∙◌, ap, subst, arith, tests, length, length-set, length-replicate,
  replicate, get_or, set, All, ltb,
}
use rsplib.IdentifierBitmap.{
  IdentifierBitmap, slotsize, new, is_set, with_bit, take_id, allocate_id, passed_bits, all_set,
}
use rsplib.IdentifierBitmap.Slots.{
  IsSlot, count, total, first_slot-Found, passed_bits-count, passed_bits_set, passed_bits_clear,
  int_less-small,
}

-- The slots have 64 bits, there is room for every entry, and the counter is right.
pub record IsValid (m : IdentifierBitmap) : Type 0 where
  pub all_slots : All IsSlot m.bitmap
  pub room : m.entries < 64 * length m.bitmap
  pub balance : m.available + total m.bitmap ≡ m.entries

count-set :
    (s : List Bool) (j : ℕ)
    → j < length s
    → get_or s j false ≡ false
    → count (set s j true) ≡ suc (count s)
count-set [] j l h = absurd (omega arith)
count-set (true ∷ bs) zero l h = cc
count-set (false ∷ bs) zero l h = refl
count-set (true ∷ bs) (suc j) l h = ap suc (count-set bs j (omega arith) h)
count-set (false ∷ bs) (suc j) l h = count-set bs j (omega arith) h

total-set :
    (ss : List (List Bool)) (i : ℕ) (s : List Bool)
    → i < length ss
    → total (set ss i s) + count (get_or ss i []) ≡ total ss + count s
total-set [] i s l = absurd (omega arith)
total-set (x ∷ xs) zero s l = omega arith
total-set (x ∷ xs) (suc i) s l = omega (arith, total-set xs i s (omega arith))

All-set :
    (ss : List (List Bool)) (i : ℕ) (s : List Bool)
    → All IsSlot ss
    → IsSlot s
    → All IsSlot (set ss i s)
All-set [] i s h p = tt
All-set (x ∷ xs) zero s h p = (p, h.1)
All-set (x ∷ xs) (suc i) s h p = (h.0, All-set xs i s h.1 p)

pub get_or-IsSlot :
    (ss : List (List Bool)) (i : ℕ) → i < length ss → All IsSlot ss → IsSlot (get_or ss i [])
get_or-IsSlot [] i l h = absurd (omega arith)
get_or-IsSlot (x ∷ xs) zero l h = h.0
get_or-IsSlot (x ∷ xs) (suc i) l h = get_or-IsSlot xs i (omega arith) h.1

-- Setting a clear bit.
pub with_bit-IsValid :
    (m : IdentifierBitmap) (i j available : ℕ)
    → IsValid m
    → i < length m.bitmap
    → j < 64
    → is_set m i j ≡ false
    → suc available ≡ m.available
    → IsValid (record m { bitmap = with_bit i j true m.bitmap; available = available })
with_bit-IsValid m i j available v l k clear a =
    let s = get_or m.bitmap i [] in
    let slot = get_or-IsSlot m.bitmap i l v.all_slots in
    let s' = set s j true in
    let same = length-set m.bitmap i s' in
    let sum = total-set m.bitmap i s' l in
    let more = count-set s j (omega arith) clear in
    let room = v.room in
    let balance = v.balance in
    record {
      all_slots = All-set m.bitmap i s' v.all_slots (length-set s j true ∙ slot);
      room = omega arith;
      balance = omega arith;
    }

-- The bits below (i, j) are set and this one is clear.
abbrev pub IsFirst : IdentifierBitmap → (i j : ℕ) → Type 0
IsFirst m i j =
    (is_set m i j ≡ false)
    × ((k : ℕ) → k < i → all_set (get_or m.bitmap k []) ≡ true)
    × ((k : ℕ) → k < j → is_set m i k ≡ true)

-- Where an identifier is available and the entries are less than 2 ^ 31, the allocation passes its CHECK, returns the least identifier
-- that is not in use, marks it as used, and leaves a valid bitmap.
pub allocate_id-IsFirst :
    (m : IdentifierBitmap)
    → IsValid m
    → m.entries < 2 ^ 31
    → 1 ≤ m.available
    → (i j : ℕ) × (allocate_id m
        ≡ some (
          some (i * slotsize + j),
          record m { bitmap = with_bit i j true m.bitmap; available = m.available - 1 },
        ))
      × (j < slotsize)
      × (i * slotsize + j < m.entries)
      × IsFirst m i j
      × IsValid (record m { bitmap = with_bit i j true m.bitmap; available = m.available - 1 })
unfolding allocate_id take_id
allocate_id-IsFirst m v small one = elim (first_slot-Found m.bitmap v.all_slots) [
  | inl (q, full) ↦ absurd (let room = v.room in let balance = v.balance in omega arith)
  | inr (i, bits, (q, l, g, c, n, b)) ↦
      let start = i * slotsize % 2 ^ 32 in
      let j = passed_bits m.entries start bits in
      let few = passed_bits-count m.entries start bits in
      let below : i * slotsize + j < m.entries = (let balance = v.balance in omega arith) in
      let exact : start ≡ i * slotsize = omega arith in
      let (short, clear) = passed_bits_clear m.entries start bits small (omega arith) c in
      let slot : IsSlot bits = subst IsSlot g (get_or-IsSlot m.bitmap i l v.all_slots) in
      let clear' : is_set m i j ≡ false = subst (λ s. get_or s j false ≡ false) (sym g) clear in
      let t : ltb 0 m.available ≡ true = omega tests in
      let u = int_less-small (i * slotsize + j) m.entries below small in
      let id : (i * slotsize + j) % 2 ^ 32 ≡ i * slotsize + j = omega arith in
      (
        i,
        j,
        rw (t, allocate_id, q, take_id, u, id) refl,
        omega arith,
        below,
        (
          clear',
          b,
          λ k less.
              subst (λ s. get_or s k false ≡ true) (sym g)
                (passed_bits_set m.entries start bits k less),
        ),
        with_bit-IsValid m i j (m.available - 1) v l (omega arith) clear' (omega arith),
      )
]

replicate-All : (n : ℕ) → All IsSlot (replicate n (replicate slotsize false))
replicate-All zero = tt
replicate-All (suc n) = (refl, replicate-All n)

total-replicate : (n : ℕ) → total (replicate n (replicate slotsize false)) ≡ 0
total-replicate zero = refl
total-replicate (suc n) = omega (arith, total-replicate n)

-- A new bitmap is valid, and all its identifiers are available.
pub new-available : (entries : ℕ) → IsValid (new entries) × ((new entries).available ≡ entries)
unfolding new
new-available entries =
    let slots = (entries + (slotsize - entries % slotsize)) / slotsize in
    (
      record {
        all_slots = replicate-All (slots + 1);
        room = omega (arith, length-replicate (slots + 1) (replicate slotsize false));
        balance = omega (arith, total-replicate (slots + 1));
      },
      refl,
    )
