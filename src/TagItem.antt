-- ===== src/TagItem.antt =====
-- src/tagitem.c and .h: arrays of tags with data, up to an item with the tag TAG_DONE. An array is
-- the list of the items in its memory; the result `none` is a read behind it.
pub mod Copies
mod Tests
use rsplib.Base.{ℕ, suc, List, [], ◌∷◌, ◌++◌, Option, none, some, ◌==◌, if◌then◌else◌, take, map}

pub record TagItem : Type 0 where
  pub tag : ℕ
  pub value : ℕ

abbrev pub tag_done : ℕ
tag_done = 0

-- tagListGetSize: the loop, and the whole, in which a list that is absent is NULL.
unfoldable pub size_of : List TagItem → Option ℕ
size_of [] = none
size_of (x ∷ xs) =
    let rest = size_of xs in
    if x.tag == tag_done then some 1 else elim rest [ none ↦ none | some n ↦ some (suc n) ]

unfoldable pub get_size : Option (List TagItem) → Option ℕ
unfolding size_of
get_size none = some 0
get_size (some xs) = size_of xs

-- tagListDuplicate, when calloc succeeds
unfoldable pub duplicate : Option (List TagItem) → Option (Option (List TagItem))
unfolding size_of
duplicate none = some none
duplicate (some xs) = elim (size_of xs) [ none ↦ none | some n ↦ some (some (take n xs)) ]

-- tagListDuplicateFilter: the inner loop, from the place k of the filter on, ends at the tag or at
-- the end of the filter, which is a list without its TAG_DONE.
unfoldable pub seek : ℕ → List ℕ → List ℕ
seek t [] = []
seek t (f ∷ fs) = let rest = seek t fs in if t == f then f ∷ fs else rest

-- The outer loop. The place in the filter is kept from one item to the next.
unfoldable pub filter_items : List TagItem → List ℕ → List TagItem
unfolding seek
filter_items [] filter = []
filter_items (x ∷ xs) filter = elim (seek x.tag filter) [
  | [] ↦ filter_items xs []
  | f ∷ fs ↦ x ∷ filter_items xs (f ∷ fs)
]

-- The items behind the terminating one are as calloc leaves them, and are left out here.
unfoldable pub duplicate_filter : Option (List TagItem) → List ℕ → Option (Option (List TagItem))
unfolding size_of filter_items
duplicate_filter none filter = some none
duplicate_filter (some xs) filter = elim (size_of xs) [
  | none ↦ none
  | some n ↦
      some (some (filter_items (take n xs) filter ++ record { tag = tag_done; value = 0 } ∷ []))
]
