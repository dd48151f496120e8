-- ===== src/PoolNode/Marking.antt =====
-- A change of elements where they stand in the selection storage, in the fields that the
-- handlespace writes: the flags among them.
use rsplib.Base.{
  ℕ, List, [], ◌∷◌, ◌≡◌, inl, inr, refl, lt, All-imp, ap₂, subst, ◌∙◌, arith, some, All, ◌==◌,
  Bool-cases,
}
use rsplib.PoolElement.{PoolElementNode}
use rsplib.PoolPolicy.{PoolPolicy}
use rsplib.PoolPolicy.Order.{IsPolicy, Marks, marks, with_marks}
use rsplib.PoolNode.{ids, find_element, replace}
use rsplib.PoolNode.Entries.{Entry, Differs, IsSelection}
use rsplib.Storage.Order.{IsSorted, AllPairs}

-- The lists agree, element by element, but for those fields.
pub data Marked : List PoolElementNode → List PoolElementNode → Type 0 where
  nil : Marked [] []
  cons :
      (e : PoolElementNode) (f : Marks) {es es' : List PoolElementNode}
      → Marked es es'
      → Marked (e ∷ es) (with_marks e f ∷ es')

Marked-refl : (es : List PoolElementNode) → Marked es es
Marked-refl [] = Marked.nil
Marked-refl (e ∷ es) = Marked.cons e (marks e) (Marked-refl es)

pub replace-Marked :
    (es : List PoolElementNode) (e : PoolElementNode) (f : Marks)
    → find_element e.identifier es ≡ some e
    → Marked es (replace (with_marks e f) es)
unfolding find_element replace
replace-Marked [] e f h = Marked.nil
replace-Marked (x ∷ xs) e f h = elim (Bool-cases (x.identifier == e.identifier)) [
  | inl t ↦
      let same : x ≡ e = ground arith in
      rw t
        (subst (λ y. Marked (x ∷ xs) (with_marks y f ∷ xs)) same (Marked.cons x f (Marked-refl xs)))
  | inr n ↦ rw n (Marked.cons x (marks x) (replace-Marked xs e f (ground arith)))
]

-- A property that does not depend on them carries over.
pub Marked-All :
    (P : PoolElementNode → Type 0) {es es' : List PoolElementNode}
    → ((e : PoolElementNode) (f : Marks) → P e → P (with_marks e f))
    → Marked es es'
    → All P es
    → All P es'
Marked-All P keep Marked.nil h = tt
Marked-All P keep (Marked.cons e f m) h = (keep e f h.0, Marked-All P keep m h.1)

pub Marked-ids : {es es' : List PoolElementNode} → Marked es es' → ids es' ≡ ids es
Marked-ids Marked.nil = refl
Marked-ids (Marked.cons e f m) = ap₂ (λ i is. i ∷ is) refl (Marked-ids m)

module _ (p : PoolPolicy) (laws : IsPolicy p) where
  ignores :
      (a b : PoolElementNode) (f g : Marks)
      → p.comparison (with_marks a f) (with_marks b g) ≡ p.comparison a b
  ignores = laws.compares.ignores_marks

  Marked-IsSorted :
      {es es' : List PoolElementNode}
      → Marked es es'
      → IsSorted p.comparison es
      → IsSorted p.comparison es'
  Marked-IsSorted Marked.nil s = tt
  Marked-IsSorted (Marked.cons e f m) s = (
    Marked-All (λ y. p.comparison (with_marks e f) y ≡ lt)
        (λ y g h. ignores (with_marks e f) y f g ∙ h) m
        (All-imp (λ y h. ignores e y f (marks y) ∙ h) _ s.0),
    Marked-IsSorted m s.1,
  )

  Marked-distinct :
      {es es' : List PoolElementNode} → Marked es es' → AllPairs Differs es → AllPairs Differs es'
  Marked-distinct Marked.nil d = tt
  Marked-distinct (Marked.cons e f m) d =
      (Marked-All (Differs (with_marks e f)) (λ y g h. h) m d.0, Marked-distinct m d.1)

  pub Marked-IsSelection :
      (g : ℕ) {es es' : List PoolElementNode}
      → Marked es es'
      → IsSelection p g es
      → IsSelection p g es'
  Marked-IsSelection g m v = record {
    sorted = Marked-IsSorted m v.sorted;
    entries = Marked-All (Entry g) (λ y f h. h) m v.entries;
    distinct = Marked-distinct m v.distinct;
  }
