-- ===== src/IdentifierBitmap/Tests.antt =====
-- An identifier bitmap at concrete inputs.
use rsplib.Base.{ℕ, ◌+◌, ◌*◌, ◌<◌, [], ◌∷◌, none, some, true, false, ◌≡◌, refl, arith, replicate}
use rsplib.IdentifierBitmap.{
  IdentifierBitmap, slotsize, with_bit, allocate_id, allocate_specific_id, free_id,
}
use rsplib.IdentifierBitmap.Allocating.{IsValid, IsFirst, allocate_id-IsFirst}
use rsplib.IdentifierBitmap.Releasing.{allocate_specific_id-free_id}

-- Of 70 identifiers, 0, 1 and 3 are in use.
abbrev three_used : IdentifierBitmap
three_used = record {
  entries = 70;
  available = 67;
  bitmap =
      (true ∷ true ∷ false ∷ true ∷ replicate 60 false)
      ∷ replicate 64 false
      ∷ replicate 64 false
      ∷ [];
}

three_used-IsValid : IsValid three_used
three_used-IsValid = record {
  all_slots = (refl, (refl, (refl, tt)));
  room = omega arith;
  balance = refl;
}

allocate_id_full :
    allocate_id (record three_used { available = 0 })
    ≡ some (none, record three_used { available = 0 })
unfolding allocate_id
allocate_id_full = refl

allocate_id-IsFirst_example :
    (i j : ℕ) × (allocate_id three_used
      ≡ some (
        some (i * slotsize + j),
        record three_used { bitmap = with_bit i j true three_used.bitmap; available = 66 },
      ))
    × (j < slotsize)
    × (i * slotsize + j < 70)
    × IsFirst three_used i j
    × IsValid (record three_used { bitmap = with_bit i j true three_used.bitmap; available = 66 })
allocate_id-IsFirst_example =
    allocate_id-IsFirst three_used three_used-IsValid (omega arith) (omega arith)

allocate_specific_id-free_id_example :
    (m' : IdentifierBitmap) × (allocate_specific_id three_used 2 ≡ some (some 2, m'))
    × IsValid m'
    × (allocate_specific_id m' 2 ≡ some (none, m'))
    × (free_id m' 2 ≡ some three_used)
allocate_specific_id-free_id_example =
    allocate_specific_id-free_id three_used 2 three_used-IsValid (omega arith) (omega arith)
      (omega arith) refl
