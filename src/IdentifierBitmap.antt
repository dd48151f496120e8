-- ===== src/IdentifierBitmap.antt =====
-- src/identifierbitmap.c and .h: a set of identifiers below a bound. A slot, an `unsigned long`, is
-- the list of its 64 bits, the lowest first. An identifier, an `int`, is the number that its 32 bits
-- are. The result `none` is a failed CHECK, or a read behind the last slot.
pub mod Slots
pub mod Allocating
pub mod Releasing
mod Tests
use rsplib.Base.{
  ℕ, zero, suc, ◌+◌, ◌-◌, ◌*◌, ◌/◌, ◌%◌, ◌^◌, List, [], ◌∷◌, Option, none, some, Bool, true, false,
  ◌&&◌, ltb, if◌then◌else◌, get_or, set, replicate,
}

abbrev pub slotsize : ℕ
slotsize = 64

pub record IdentifierBitmap : Type 0 where
  pub entries : ℕ
  pub available : ℕ
  pub bitmap : List (List Bool)

-- identifierBitmapNew, when malloc succeeds. One slot more than `Slots` is allocated.
unfoldable pub new : ℕ → IdentifierBitmap
new entries =
    let slots = (entries + (slotsize - entries % slotsize)) / slotsize in
    record {
      entries = entries;
      available = entries;
      bitmap = replicate (slots + 1) (replicate slotsize false);
    }

-- The test `a < b` of two `int`, by their 32 bits in two's complement; of a `size_t`, `(int)b` takes
-- the 32 lowest. Adding 2 ^ 31 turns the order of the `int` into that of the numbers.
unfoldable pub int_less : ℕ → ℕ → Bool
int_less a b = ltb ((a + 2 ^ 31) % 2 ^ 32) ((b + 2 ^ 31) % 2 ^ 32)

-- The test `slot == ~((size_t)0)`
abbrev pub all_set : List Bool → Bool
all_set [] = true
all_set (b ∷ bs) = b && all_set bs

-- The first loop of identifierBitmapAllocateID: the number and the bits of the slot.
unfoldable pub first_slot : List (List Bool) → Option (ℕ × List Bool)
first_slot [] = none
first_slot (s ∷ ss) =
    let rest = first_slot ss in
    if all_set s
    then elim rest [ none ↦ none | some (i, bits) ↦ some (suc i, bits) ]
    else some (0, s)

-- The second loop: `id` counts with the bits, and the result is how many bits it passes.
unfoldable pub passed_bits : (entries id : ℕ) → List Bool → ℕ
unfolding int_less
passed_bits entries id [] = 0
passed_bits entries id (b ∷ bs) =
    let rest = passed_bits entries ((id + 1) % 2 ^ 32) bs in
    if int_less id entries && b then suc rest else 0

-- Whether a bit is set, and the slots with a bit set or cleared
abbrev pub is_set : IdentifierBitmap → (i j : ℕ) → Bool
is_set m i j = get_or (get_or m.bitmap i []) j false

abbrev pub with_bit : (i j : ℕ) → Bool → List (List Bool) → List (List Bool)
with_bit i j b slots = set slots i (set (get_or slots i []) j b)

-- The end of identifierBitmapAllocateID, from the CHECK on.
unfoldable pub take_id : IdentifierBitmap → (i j : ℕ) → Option (Option ℕ × IdentifierBitmap)
unfolding int_less
take_id m i j =
    if int_less (i * slotsize + j) m.entries
    then some (
      some ((i * slotsize + j) % 2 ^ 32),
      record m { bitmap = with_bit i j true m.bitmap; available = m.available - 1 },
    )
    else none

-- identifierBitmapAllocateID: the result -1 is `some (none, ...)`.
unfoldable pub allocate_id : IdentifierBitmap → Option (Option ℕ × IdentifierBitmap)
unfolding first_slot passed_bits take_id
allocate_id m =
    if ltb 0 m.available
    then elim (first_slot m.bitmap) [
      | none ↦ none
      | some (i, bits) ↦ take_id m i (passed_bits m.entries (i * slotsize % 2 ^ 32) bits)
    ]
    else some (none, m)

-- identifierBitmapAllocateSpecificID. An identifier from 2 ^ 31 on is a negative `int`. The counter is decremented as a `size_t`.
unfoldable pub allocate_specific_id : IdentifierBitmap → ℕ → Option (Option ℕ × IdentifierBitmap)
unfolding int_less
allocate_specific_id m id =
    if ltb id (2 ^ 31) && int_less id m.entries
    then (if is_set m (id / slotsize) (id % slotsize)
        then some (none, m)
        else some (
          some id,
          record m {
            bitmap = with_bit (id / slotsize) (id % slotsize) true m.bitmap;
            available = (m.available + 2 ^ 64 - 1) % 2 ^ 64;
          },
        ))
    else none

-- identifierBitmapFreeID
unfoldable pub free_id : IdentifierBitmap → ℕ → Option IdentifierBitmap
unfolding int_less
free_id m id =
    if ltb id (2 ^ 31) && int_less id m.entries && is_set m (id / slotsize) (id % slotsize)
    then some (record m {
      bitmap = with_bit (id / slotsize) (id % slotsize) false m.bitmap;
      available = (m.available + 1) % 2 ^ 64;
    })
    else none
