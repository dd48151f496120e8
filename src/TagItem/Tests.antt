-- ===== src/TagItem/Tests.antt =====
-- Tag lists at concrete inputs.
use rsplib.Base.{ℕ, ◌+◌, [], ◌∷◌, ◌++◌, some, ◌≡◌, refl, arith, length}
use rsplib.TagItem.{TagItem, get_size, duplicate, duplicate_filter}
use rsplib.TagItem.Copies.{duplicate-get_size, duplicate_filter_stops}

abbrev item : ℕ → TagItem
item t = record { tag = t; value = 7 }

-- The filter 5, 6 drops an item with the tag 5 behind one with the tag 6.
duplicate_filter_order :
    duplicate_filter (some (item 6 ∷ item 5 ∷ item 0 ∷ [])) (5 ∷ 6 ∷ [])
    ≡ some (some (item 6 ∷ record { tag = 0; value = 0 } ∷ []))
unfolding duplicate_filter
duplicate_filter_order = refl

duplicate-get_size_example :
    (get_size (some ((item 5 ∷ item 6 ∷ []) ++ item 0 ∷ item 9 ∷ []))
      ≡ some (length (item 5 ∷ item 6 ∷ []) + 1))
    × (duplicate (some ((item 5 ∷ item 6 ∷ []) ++ item 0 ∷ item 9 ∷ []))
        ≡ some (some ((item 5 ∷ item 6 ∷ []) ++ item 0 ∷ [])))
    × (duplicate (some ((item 5 ∷ item 6 ∷ []) ++ item 0 ∷ []))
        ≡ some (some ((item 5 ∷ item 6 ∷ []) ++ item 0 ∷ [])))
duplicate-get_size_example =
    duplicate-get_size (item 5 ∷ item 6 ∷ []) (item 9 ∷ []) (item 0)
      ((λ q. omega arith), ((λ q. omega arith), tt)) refl

duplicate_filter_stops_example :
    duplicate_filter (some (((item 5 ∷ []) ++ item 9 ∷ item 6 ∷ []) ++ item 0 ∷ [])) (5 ∷ 6 ∷ [])
    ≡ duplicate_filter (some ((item 5 ∷ []) ++ item 0 ∷ [])) (5 ∷ 6 ∷ [])
duplicate_filter_stops_example =
    duplicate_filter_stops (item 5 ∷ []) (item 6 ∷ []) (item 9) (item 0) (5 ∷ 6 ∷ [])
      ((λ q. omega arith), ((λ q. omega arith), ((λ q. omega arith), tt))) ((λ q. omega arith), tt)
      refl ((λ q. omega arith), ((λ q. omega arith), tt))
      ((λ q. omega arith), ((λ q. omega arith), tt))
