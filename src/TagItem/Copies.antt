-- ===== src/TagItem/Copies.antt =====
-- What the copies of a tag list hold.
use rsplib.Base.{
  ℕ, suc, ◌+◌, List, [], ◌∷◌, ◌++◌, ◌≡◌, ◌≢◌, ◌⊎◌, inl, inr, some, refl, sym, ap, subst, arith,
  true, false, ◌==◌, ◌∙◌, All, All-imp, length, take, Bool-cases,
}
use rsplib.TagItem.{
  TagItem, tag_done, size_of, get_size, duplicate, seek, filter_items, duplicate_filter,
}

size_of-append :
    (xs rest : List TagItem) (d : TagItem)
    → All (λ x. x.tag ≢ tag_done) xs
    → d.tag ≡ tag_done
    → size_of (xs ++ d ∷ rest) ≡ some (length xs + 1)
unfolding size_of
size_of-append [] rest d h q = let t : (d.tag == tag_done) ≡ true = ground arith in rw t refl
size_of-append (x ∷ xs) rest d h q =
    let f : (x.tag == tag_done) ≡ false = (let n = h.0 in ground arith) in
    rw (f, size_of, size_of-append xs rest d h.1 q) (ap some (omega arith))

take-append :
    (xs rest : List TagItem) (d : TagItem) → take (length xs + 1) (xs ++ d ∷ rest) ≡ xs ++ d ∷ []
take-append [] rest d = refl
take-append (x ∷ xs) rest d =
    let n : length (x ∷ xs) + 1 ≡ suc (length xs + 1) = omega arith in
    rw n (ap (λ ys. x ∷ ys) (take-append xs rest d))

-- The size of a tag list counts the items up to the first with the tag TAG_DONE and that one, and
-- its duplicate is an array of just these items, whatever stands behind them in memory.
pub duplicate-get_size :
    (xs rest : List TagItem) (d : TagItem)
    → All (λ x. x.tag ≢ tag_done) xs
    → d.tag ≡ tag_done
    → (get_size (some (xs ++ d ∷ rest)) ≡ some (length xs + 1))
      × (duplicate (some (xs ++ d ∷ rest)) ≡ some (some (xs ++ d ∷ [])))
      × (duplicate (some (xs ++ d ∷ [])) ≡ some (some (xs ++ d ∷ [])))
unfolding get_size duplicate
duplicate-get_size xs rest d h q = (
  size_of-append xs rest d h q,
  rw (size_of-append xs rest d h q, duplicate) (ap (λ ys. some (some ys)) (take-append xs rest d)),
  rw (size_of-append xs [] d h q, duplicate) (ap (λ ys. some (some ys)) (take-append xs [] d)),
)

seek_absent : (t : ℕ) (filter : List ℕ) → All (λ f. t ≢ f) filter → seek t filter ≡ []
unfolding seek
seek_absent t [] h = refl
seek_absent t (f ∷ fs) h =
    let n : (t == f) ≡ false = (let k = h.0 in ground arith) in rw n (seek_absent t fs h.1)

seek-All : (P : ℕ → Type 0) (t : ℕ) (filter : List ℕ) → All P filter → All P (seek t filter)
unfolding seek
seek-All P t [] h = tt
seek-All P t (f ∷ fs) h = elim (Bool-cases (t == f)) [
  | inl y ↦ rw y h
  | inr n ↦ rw n (seek-All P t fs h.1)
]

filter_items-nil : (xs : List TagItem) → filter_items xs [] ≡ []
unfolding filter_items seek
filter_items-nil [] = refl
filter_items-nil (x ∷ xs) = filter_items-nil xs

List-cases : (fs : List ℕ) → (fs ≡ []) ⊎ ((g : ℕ) × (gs : List ℕ) × (fs ≡ g ∷ gs))
List-cases [] = inl refl
List-cases (g ∷ gs) = inr (g, gs, refl)

-- Behind an item whose tag the filter has not, nothing is copied.
filter_items-absent :
    (xs ys : List TagItem) (x : TagItem) (filter : List ℕ)
    → All (λ f. x.tag ≢ f) filter
    → filter_items (xs ++ x ∷ ys) filter ≡ filter_items xs filter
unfolding filter_items
filter_items-absent [] ys x filter h =
    rw (seek_absent x.tag filter h, filter_items) (filter_items-nil ys)
filter_items-absent (z ∷ zs) ys x filter h = elim (List-cases (seek z.tag filter)) [
  | inl q ↦ rw (q, filter_items) (filter_items-nil (zs ++ x ∷ ys) ∙ sym (filter_items-nil zs))
  | inr (g, gs, q) ↦
      let k : All (λ f. x.tag ≢ f) (g ∷ gs) =
        subst (All (λ f. x.tag ≢ f)) q (seek-All (λ f. x.tag ≢ f) z.tag filter h) in
      rw (q, filter_items) (ap (λ r. z ∷ r) (filter_items-absent zs ys x (g ∷ gs) k))
]

duplicate_filter_run :
    (xs : List TagItem) (d : TagItem) (filter : List ℕ)
    → All (λ x. x.tag ≢ tag_done) xs
    → d.tag ≡ tag_done
    → All (λ f. f ≢ tag_done) filter
    → duplicate_filter (some (xs ++ d ∷ [])) filter
      ≡ some (some (filter_items xs filter ++ record { tag = tag_done; value = 0 } ∷ []))
unfolding duplicate_filter
duplicate_filter_run xs d filter h q f =
    let other : All (λ t. d.tag ≢ t) filter = All-imp (λ t n e. n (sym e ∙ q)) filter f in
    let same : filter_items (take (length xs + 1) (xs ++ d ∷ [])) filter ≡ filter_items xs filter =
      ap (λ ys. filter_items ys filter) (take-append xs [] d)
      ∙ filter_items-absent xs [] d filter other in
    rw (size_of-append xs [] d h q, duplicate_filter)
      (ap (λ ys. some (some (ys ++ record { tag = tag_done; value = 0 } ∷ []))) same)

-- A filtered copy has no item from the first one on whose tag is not in the filter: it is the
-- copy of the items before that one.
pub duplicate_filter_stops :
    (xs ys : List TagItem) (x d : TagItem) (filter : List ℕ)
    → All (λ y. y.tag ≢ tag_done) (xs ++ x ∷ ys)
    → All (λ y. y.tag ≢ tag_done) xs
    → d.tag ≡ tag_done
    → All (λ f. f ≢ tag_done) filter
    → All (λ f. x.tag ≢ f) filter
    → duplicate_filter (some ((xs ++ x ∷ ys) ++ d ∷ [])) filter
      ≡ duplicate_filter (some (xs ++ d ∷ [])) filter
duplicate_filter_stops xs ys x d filter h k q f absent =
    duplicate_filter_run (xs ++ x ∷ ys) d filter h q f
    ∙ ap (λ zs. some (some (zs ++ record { tag = tag_done; value = 0 } ∷ [])))
        (filter_items-absent xs ys x filter absent)
    ∙ sym (duplicate_filter_run xs d filter k q f)
