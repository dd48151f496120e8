-- ===== src/TimeStampHashTable/Window.antt =====
-- A bucket is a window on the time stamps that were given for it: the latest ones, in their order.
use rsplib.Base.{
  ℕ, zero, suc, ◌+◌, ◌-◌, ◌%◌, ◌≤◌, List, [], ◌∷◌, ◌++◌, none, some, true, false, ◌≡◌, refl, arith,
  tests, length, length-append, length-drop, length-set, length-replicate, ◌⊎◌, get_or, set, drop,
  replicate, All, Bool-cases, inl, inr, ltb,
}
use rsplib.TimeStampHashTable.{TimeStampHashTable, new, append, last_le, add_time_stamp}

-- The time stamps do not decrease.
abbrev pub Ascends : List ℕ → Type 0
Ascends [] = Unit
Ascends (x ∷ xs) = All (λ y. x ≤ y) xs × Ascends xs

-- At most `max` time stamps, which do not decrease.
abbrev pub IsBucket : ℕ → List ℕ → Type 0
IsBucket max b = (length b ≤ max) × Ascends b

pub record IsValid (table : TimeStampHashTable) : Type 0 where
  pub some_buckets : 1 ≤ length table.buckets
  pub some_entries : 1 ≤ table.max_entries
  pub all_buckets : All (IsBucket table.max_entries) table.buckets

-- The comparison with the last entry decides for all entries.
last_le-All : (b : List ℕ) (t : ℕ) → Ascends b → last_le b t ≡ true → All (λ x. x ≤ t) b
unfolding last_le
last_le-All [] t a h = tt
last_le-All (x ∷ []) t a h = (ground arith, tt)
last_le-All (x ∷ y ∷ ys) t a h =
    let rest = last_le-All (y ∷ ys) t a.1 h in
    ((let low = a.0.0 in let high = rest.0 in omega arith), rest)

All-last_le : (b : List ℕ) (t : ℕ) → All (λ x. x ≤ t) b → last_le b t ≡ true
unfolding last_le
All-last_le [] t h = refl
All-last_le (x ∷ []) t h = let le = h.0 in ground arith
All-last_le (x ∷ y ∷ ys) t h = All-last_le (y ∷ ys) t h.1

All-append : (P : ℕ → Type 0) (b : List ℕ) (t : ℕ) → All P b → P t → All P (b ++ t ∷ [])
All-append P [] t h p = (p, tt)
All-append P (x ∷ xs) t h p = (h.0, All-append P xs t h.1 p)

Ascends-append : (b : List ℕ) (t : ℕ) → Ascends b → All (λ x. x ≤ t) b → Ascends (b ++ t ∷ [])
Ascends-append [] t a h = (tt, tt)
Ascends-append (x ∷ xs) t a h = (All-append _ xs t a.0 h.0, Ascends-append xs t a.1 h.1)

Ascends-drop : (b : List ℕ) → Ascends b → Ascends (drop 1 b)
Ascends-drop [] a = tt
Ascends-drop (x ∷ xs) a = a.1

All-drop : (P : ℕ → Type 0) (b : List ℕ) → All P b → All P (drop 1 b)
All-drop P [] h = tt
All-drop P (x ∷ xs) h = h.1

abbrev pub Window : (max t : ℕ) → List ℕ → List ℕ → Type 0
Window max t b b' = (All (λ x. x ≤ t) b) × (b' ≡ drop (length b + 1 - max) (b ++ t ∷ []))

drop-full :
    (max t : ℕ) (b : List ℕ)
    → 1 ≤ max
    → length b ≡ max
    → drop 1 b ++ t ∷ [] ≡ drop (length b + 1 - max) (b ++ t ∷ [])
drop-full max t [] one h = absurd (omega arith)
drop-full max t (x ∷ xs) one h = let n : length (x ∷ xs) + 1 - max ≡ 1 = omega arith in rw n refl

-- What `append` does to a bucket, on both branches.
append-Window :
    (max t : ℕ) (b : List ℕ)
    → 1 ≤ max
    → IsBucket max b
    → ((b' : List ℕ) × (append max b t ≡ some b') × Window max t b b' × IsBucket max b')
      ⊎ ((append max b t ≡ none) × (¬ All (λ x. x ≤ t) b))
unfolding append
append-Window max t b one (fits, a) = elim (Bool-cases (last_le b t)) [
  | inr f ↦ inr (ground arith, (λ h. (let q = All-last_le b t h in cc)))
  | inl l ↦
      let h = last_le-All b t a l in
      elim (Bool-cases (ltb (length b) max)) [
        | inl free ↦
            let n : length b + 1 - max ≡ 0 = omega tests in
            inl (
              b ++ t ∷ [],
              rw (free, l) refl,
              (h, rw n refl),
              (omega (tests, length-append b (t ∷ [])), Ascends-append b t a h),
            )
        | inr full ↦ inl (
          drop 1 b ++ t ∷ [],
          rw (full, l) refl,
          (h, drop-full max t b one (ground arith)),
          (
            omega (arith, length-append (drop 1 b) (t ∷ []), length-drop 1 b),
            Ascends-append (drop 1 b) t (Ascends-drop b a) (All-drop _ b h),
          ),
        )
      ]
]

get_or-All :
    (P : List ℕ → Type 0) (bs : List (List ℕ)) (i : ℕ) (d : List ℕ)
    → All P bs
    → P d
    → P (get_or bs i d)
get_or-All P [] i d h p = p
get_or-All P (b ∷ bs) zero d h p = h.0
get_or-All P (b ∷ bs) (suc i) d h p = get_or-All P bs i d h.1 p

set-All :
    (P : List ℕ → Type 0) (bs : List (List ℕ)) (i : ℕ) (b : List ℕ)
    → All P bs
    → P b
    → All P (set bs i b)
set-All P [] i d h p = tt
set-All P (b ∷ bs) zero d h p = (p, h.1)
set-All P (b ∷ bs) (suc i) d h p = (h.0, set-All P bs i d h.1 p)

replicate-All : (max n : ℕ) → All (IsBucket max) (replicate n [])
replicate-All max zero = tt
replicate-All max (suc n) = ((omega arith, tt), replicate-All max n)

-- A new table is valid.
pub new-IsValid :
    (buckets max : ℕ)
    → 1 ≤ buckets
    → 1 ≤ max
    → (table : TimeStampHashTable) × (new buckets max ≡ some table) × IsValid table
unfolding new
new-IsValid n max one some_room = (
  record { max_entries = max; buckets = replicate n [] },
  ground arith,
  record {
    some_buckets = omega (arith, length-replicate {A = List ℕ} n []);
    some_entries = some_room;
    all_buckets = replicate-All max n;
  },
)

-- A time stamp is refused exactly if its bucket holds a later one, and then the table is unchanged.
-- Otherwise its bucket becomes the latest time stamps, the new one included, as many as there is
-- room for, and no other bucket is changed. The table stays valid in both cases: no bucket is too
-- long and none decreases.
pub add_time_stamp-IsValid :
    (table : TimeStampHashTable) (hash t : ℕ)
    → IsValid table
    → IsValid (add_time_stamp table hash t).1
      × (let i = hash % length table.buckets in
          let b = get_or table.buckets i [] in
          ((b' : List ℕ) × (add_time_stamp table hash t
              ≡ (true, record table { buckets = set table.buckets i b' }))
            × Window table.max_entries t b b')
          ⊎ ((add_time_stamp table hash t ≡ (false, table)) × (¬ All (λ x. x ≤ t) b)))
unfolding add_time_stamp
add_time_stamp-IsValid table hash t v =
    let i = hash % length table.buckets in
    let b = get_or table.buckets i [] in
    let ok : IsBucket table.max_entries b =
      get_or-All _ table.buckets i [] v.all_buckets (omega arith, tt) in
    elim (append-Window table.max_entries t b v.some_entries ok) [
      | inr (q, h) ↦ (rw (q, add_time_stamp) v, inr (rw (q, add_time_stamp) refl, h))
      | inl (b', q, w, ok') ↦ (
        rw (q, add_time_stamp)
            (record {
              some_buckets =
                  (let same = length-set table.buckets i b' in
                    let one = v.some_buckets in omega arith);
              some_entries = v.some_entries;
              all_buckets = set-All _ table.buckets i b' v.all_buckets ok';
            }),
        inl (b', rw (q, add_time_stamp) refl, w),
      )
    ]
