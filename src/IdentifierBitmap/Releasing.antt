-- ===== src/IdentifierBitmap/Releasing.antt =====
-- Releasing an identifier undoes its allocation.
use rsplib.Base.{
  ℕ, zero, suc, ◌+◌, ◌-◌, ◌/◌, ◌%◌, ◌^◌, ◌<◌, ◌≤◌, List, [], ◌∷◌, none, some, true, false, ◌≡◌,
  refl, sym, ◌∙◌, ap, ap₂, arith, tests, length, get_or, set, ltb,
}
use rsplib.IdentifierBitmap.{
  IdentifierBitmap, slotsize, is_set, with_bit, allocate_specific_id, free_id,
}
use rsplib.IdentifierBitmap.Slots.{int_less-small}
use rsplib.IdentifierBitmap.Allocating.{IsValid, with_bit-IsValid, get_or-IsSlot}

get_or-set {ℓ} :
    {A : Type ℓ} (xs : List A) (i : ℕ) (x d : A) → i < length xs → get_or (set xs i x) i d ≡ x
get_or-set [] i x d l = absurd (omega arith)
get_or-set (y ∷ ys) zero x d l = refl
get_or-set (y ∷ ys) (suc i) x d l = get_or-set ys i x d (omega arith)

set_restored {ℓ} :
    {A : Type ℓ} (xs : List A) (i : ℕ) (x d : A)
    → i < length xs
    → set (set xs i x) i (get_or xs i d) ≡ xs
set_restored [] i x d l = refl
set_restored (y ∷ ys) zero x d l = refl
set_restored (y ∷ ys) (suc i) x d l = ap (λ zs. y ∷ zs) (set_restored ys i x d (omega arith))

-- A bit of a slot, after it was set and after it was cleared again.
with_bit_set :
    (m : IdentifierBitmap) (i j : ℕ)
    → i < length m.bitmap
    → j < length (get_or m.bitmap i [])
    → get_or (get_or (with_bit i j true m.bitmap) i []) j false ≡ true
with_bit_set m i j l k =
    ap (λ s. get_or s j false) (get_or-set m.bitmap i (set (get_or m.bitmap i []) j true) [] l)
    ∙ get_or-set (get_or m.bitmap i []) j true false k

with_bit_restored :
    (m : IdentifierBitmap) (i j : ℕ)
    → i < length m.bitmap
    → j < length (get_or m.bitmap i [])
    → is_set m i j ≡ false
    → with_bit i j false (with_bit i j true m.bitmap) ≡ m.bitmap
with_bit_restored m i j l k clear =
    let s = get_or m.bitmap i [] in
    let s' = set s j true in
    let back : set s' j false ≡ s =
      ap (λ b. set s' j b) (sym clear) ∙ set_restored s j true false k in
    ap (λ t. set (set m.bitmap i s') i (set t j false)) (get_or-set m.bitmap i s' [] l)
    ∙ ap (λ t. set (set m.bitmap i s') i t) back
    ∙ set_restored m.bitmap i s' [] l

-- An identifier that is not in use can be allocated by its number. Then it is in use, so that
-- allocating it again has the result -1; and releasing it restores the bitmap.
pub allocate_specific_id-free_id :
    (m : IdentifierBitmap) (id : ℕ)
    → IsValid m
    → m.entries < 2 ^ 31
    → id < m.entries
    → 1 ≤ m.available
    → is_set m (id / slotsize) (id % slotsize) ≡ false
    → (m' : IdentifierBitmap) × (allocate_specific_id m id ≡ some (some id, m'))
      × IsValid m'
      × (allocate_specific_id m' id ≡ some (none, m'))
      × (free_id m' id ≡ some m)
unfolding allocate_specific_id free_id
allocate_specific_id-free_id m id v fits below one clear =
    let i = id / slotsize in
    let j = id % slotsize in
    let available = (m.available + 2 ^ 64 - 1) % 2 ^ 64 in
    let m' : IdentifierBitmap = record m {
      bitmap = with_bit i j true m.bitmap;
      available = available;
    } in
    let l : i < length m.bitmap = (let room = v.room in omega arith) in
    let slot = get_or-IsSlot m.bitmap i l v.all_slots in
    let k : j < length (get_or m.bitmap i []) = omega arith in
    let n : ltb id (2 ^ 31) ≡ true = omega tests in
    let t = int_less-small id m.entries below fits in
    let now : is_set m' i j ≡ true = with_bit_set m i j l k in
    let less : suc available ≡ m.available = (let balance = v.balance in omega arith) in
    let again : (available + 1) % 2 ^ 64 ≡ m.available = (let balance = v.balance in omega arith) in
    (
      m',
      rw (n, t, clear) refl,
      with_bit-IsValid m i j available v l (omega arith) clear less,
      rw (n, t, now) refl,
      rw (n, t, now)
          (ap₂ (λ b a. some (record m { bitmap = b; available = a }))
            (with_bit_restored m i j l k clear) again),
    )
