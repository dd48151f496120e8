-- ===== src/TimeStampHashTable/Tests.antt =====
-- The table of time stamps at concrete inputs.
use rsplib.Base.{ℕ, List, [], ◌∷◌, ◌≡◌, ◌≤◌, ◌⊎◌, refl, true, false, arith, set, All}
use rsplib.TimeStampHashTable.{TimeStampHashTable, add_time_stamp}
use rsplib.TimeStampHashTable.Window.{IsValid, Window, add_time_stamp-IsValid}

-- Two buckets, the second of them full.
abbrev some_stamps : TimeStampHashTable
some_stamps = record { max_entries = 3; buckets = (4 ∷ []) ∷ (2 ∷ 5 ∷ 5 ∷ []) ∷ [] }

some_stamps-IsValid : IsValid some_stamps
some_stamps-IsValid = record {
  some_buckets = omega arith;
  some_entries = omega arith;
  all_buckets = (
    (omega arith, (tt, tt)),
    ((omega arith, ((omega arith, (omega arith, tt)), ((omega arith, tt), (tt, tt)))), tt),
  );
}

add_time_stamp_full :
    add_time_stamp some_stamps 7 6
    ≡ (true, record some_stamps { buckets = (4 ∷ []) ∷ (5 ∷ 5 ∷ 6 ∷ []) ∷ [] })
unfolding add_time_stamp
add_time_stamp_full = refl

add_time_stamp_late : add_time_stamp some_stamps 7 4 ≡ (false, some_stamps)
unfolding add_time_stamp
add_time_stamp_late = refl

add_time_stamp-IsValid_example :
    IsValid (add_time_stamp some_stamps 7 6).1
    × (((b' : List ℕ) × (add_time_stamp some_stamps 7 6
            ≡ (true, record some_stamps { buckets = set some_stamps.buckets 1 b' }))
          × Window 3 6 (2 ∷ 5 ∷ 5 ∷ []) b')
        ⊎ ((add_time_stamp some_stamps 7 6 ≡ (false, some_stamps))
            × (¬ All (λ x. x ≤ 6) (2 ∷ 5 ∷ 5 ∷ []))))
add_time_stamp-IsValid_example = add_time_stamp-IsValid some_stamps 7 6 some_stamps-IsValid
