-- ===== src/PoolNode/Renumber.antt =====
-- poolNodeResequence: the comment in src/poolnode-template_impl.h claims that the new sequence
-- numbers do not affect the sorting order of the selection storage.
use rsplib.Base.{
  ℕ, suc, ◌+◌, ◌%◌, ◌<◌, ◌^◌, List, [], ◌∷◌, ◌≡◌, refl, sym, arith, Ordering, All, length, ap, ltb,
  Bool-cases, inl, inr,
}
use rsplib.PoolElement.{PoolElementNode}
use rsplib.PoolPolicy.{PoolPolicy}
use rsplib.PoolPolicy.Order.{IsPolicy, IsComparison, with_seq}
use rsplib.PoolNode.{PoolNode, ids, renumber, renumbered_to, resequence, ensure_seq_numbers}
use rsplib.PoolNode.Entries.{Entry, Differs, IsSelection}
use rsplib.Storage.Order.{IsSorted, Above, AllPairs}

mod_small : (n : ℕ) → n + 1 < 2 ^ 32 → (n + 1) % 2 ^ 32 ≡ n + 1
mod_small n h = omega arith

pub renumbered_to-length :
    (n : ℕ) (es : List PoolElementNode)
    → n + length es < 2 ^ 32
    → renumbered_to n es ≡ n + length es
unfolding renumbered_to
renumbered_to-length n [] h = omega arith
renumbered_to-length n (e ∷ es) h =
    rw (mod_small n (omega arith)) (omega (arith, renumbered_to-length (n + 1) es (omega arith)))

pub ids-renumber : (n : ℕ) (es : List PoolElementNode) → ids (renumber n es) ≡ ids es
unfolding renumber
ids-renumber n [] = refl
ids-renumber n (e ∷ es) = ap (λ is. e.identifier ∷ is) (ids-renumber ((n + 1) % 2 ^ 32) es)

pub length-renumber : (n : ℕ) (es : List PoolElementNode) → length (renumber n es) ≡ length es
unfolding renumber
length-renumber n [] = refl
length-renumber n (e ∷ es) = ap suc (length-renumber ((n + 1) % 2 ^ 32) es)

-- The lists agree, element by element, but for the sequence numbers.
abbrev pub Renumbered : List PoolElementNode → List PoolElementNode → Type 0
Renumbered [] [] = Unit
Renumbered [] (e' ∷ es') = ⊥
Renumbered (e ∷ es) [] = ⊥
Renumbered (e ∷ es) (e' ∷ es') = (e' ≡ with_seq e e'.seq_number) × Renumbered es es'

Renumbered-refl : (es : List PoolElementNode) → Renumbered es es
Renumbered-refl [] = tt
Renumbered-refl (e ∷ es) = (refl, Renumbered-refl es)

renumber-Renumbered : (n : ℕ) (es : List PoolElementNode) → Renumbered es (renumber n es)
unfolding renumber
renumber-Renumbered n [] = tt
renumber-Renumbered n (e ∷ es) = (refl, renumber-Renumbered ((n + 1) % 2 ^ 32) es)

module _ (cmp : PoolElementNode → PoolElementNode → Ordering) (c : IsComparison cmp) where
  renumber-Above :
      (a : PoolElementNode) (n m : ℕ) (es : List PoolElementNode)
      → n < m
      → m + length es < 2 ^ 32
      → Above cmp a es
      → Above cmp (with_seq a n) (renumber m es)
  unfolding renumber
  renumber-Above a n m [] h k s = tt
  renumber-Above a n m (e ∷ es) h k s = (
    c.renumbers a e n m s.0 h,
    rw (mod_small m (omega arith)) (renumber-Above a n (m + 1) es (omega arith) (omega arith) s.1),
  )

  -- A sorted storage that is numbered anew from `n` on is sorted.
  pub renumber-IsSorted :
      (n : ℕ) (es : List PoolElementNode)
      → n + length es < 2 ^ 32
      → IsSorted cmp es
      → IsSorted cmp (renumber n es)
  unfolding renumber
  renumber-IsSorted n [] h s = tt
  renumber-IsSorted n (e ∷ es) h s = rw (mod_small n (omega arith)) (
    renumber-Above e n (n + 1) es (omega arith) (omega arith) s.0,
    renumber-IsSorted (n + 1) es (omega arith) s.1,
  )

renumber-entries :
    (g n : ℕ) (es : List PoolElementNode) {m : ℕ}
    → n + length es ≡ m
    → m < 2 ^ 32
    → All (Entry g) es
    → All (Entry m) (renumber n es)
unfolding renumber
renumber-entries g n [] e h k = tt
renumber-entries g n (x ∷ es) e h k = (
  (omega arith, k.0.1, k.0.2),
  rw (mod_small n (omega arith)) (renumber-entries g (n + 1) es (omega arith) h k.1),
)

renumber-Differs :
    (a : PoolElementNode) (n m : ℕ) (es : List PoolElementNode)
    → n < m
    → m + length es < 2 ^ 32
    → All (Differs a) es
    → All (Differs (with_seq a n)) (renumber m es)
unfolding renumber
renumber-Differs a n m [] h k d = tt
renumber-Differs a n m (e ∷ es) h k d = (
  ((λ q. omega arith), d.0.1),
  rw (mod_small m (omega arith)) (renumber-Differs a n (m + 1) es (omega arith) (omega arith) d.1),
)

renumber-distinct :
    (n : ℕ) (es : List PoolElementNode)
    → n + length es < 2 ^ 32
    → AllPairs Differs es
    → AllPairs Differs (renumber n es)
unfolding renumber
renumber-distinct n [] h d = tt
renumber-distinct n (e ∷ es) h d = rw (mod_small n (omega arith)) (
  renumber-Differs e n (n + 1) es (omega arith) (omega arith) d.0,
  renumber-distinct (n + 1) es (omega arith) d.1,
)

-- Resequencing keeps a selection storage as good as it was, under the new GlobalSeqNumber.
pub renumber-IsSelection :
    (p : PoolPolicy) (g : ℕ) (es : List PoolElementNode)
    → IsPolicy p
    → length es < 2 ^ 32
    → IsSelection p g es
    → IsSelection p (renumbered_to 0 es) (renumber 0 es)
renumber-IsSelection p g es laws h v =
    let r = renumbered_to-length 0 es (omega arith) in
    record {
      sorted = renumber-IsSorted p.comparison laws.compares 0 es (omega arith) v.sorted;
      entries = renumber-entries g 0 es (sym r) (omega arith) v.entries;
      distinct = renumber-distinct 0 es (omega arith) v.distinct;
    }

-- What the test for a wrap of the sequence numbers ensures: `n` more of them are left, and no more than
-- sequence numbers and the GlobalSeqNumber are changed.
pub record Ensured (n : ℕ) (pool pool' : PoolNode) : Type 0 where
  pub same_policy : pool'.policy ≡ pool.policy
  pub same_index : pool'.index ≡ pool.index
  pub same_ids : ids pool'.selection ≡ ids pool.selection
  pub same_elements : Renumbered pool.selection pool'.selection
  pub same_pool :
      pool'
      ≡ record pool { selection = pool'.selection; global_seq_number = pool'.global_seq_number }
  pub selected : IsSelection pool'.policy pool'.global_seq_number pool'.selection
  pub left : pool'.global_seq_number + n < 2 ^ 32

-- Before `n` elements are given new sequence numbers, none of which may wrap, the elements are
-- numbered anew if need be. On a sound selection with room for `n` more elements below 2 ^ 32, this
-- keeps the order of the elements, every field of them but the sequence number, and every field of
-- the pool but its selection storage and GlobalSeqNumber. Then `n` sequence numbers above all that
-- are in use are left below 2 ^ 32, and the selection is sound.
pub ensure_seq_numbers-Ensured :
    (n : ℕ) (pool : PoolNode)
    → IsPolicy pool.policy
    → pool.global_seq_number < 2 ^ 32
    → IsSelection pool.policy pool.global_seq_number pool.selection
    → length pool.selection + n < 2 ^ 32
    → Ensured n pool (ensure_seq_numbers n pool)
unfolding ensure_seq_numbers resequence
ensure_seq_numbers-Ensured n pool laws g v small =
    elim (Bool-cases (ltb ((pool.global_seq_number + n) % 2 ^ 32) pool.global_seq_number)) [
      | inl t ↦ rw t (record {
        same_policy = refl;
        same_index = refl;
        same_ids = ids-renumber 0 pool.selection;
        same_elements = renumber-Renumbered 0 pool.selection;
        same_pool = refl;
        selected =
            renumber-IsSelection pool.policy pool.global_seq_number pool.selection laws
              (omega arith) v;
        left = omega (arith, renumbered_to-length 0 pool.selection (omega arith));
      })
      | inr f ↦ rw f (record {
        same_policy = refl;
        same_index = refl;
        same_ids = refl;
        same_elements = Renumbered-refl pool.selection;
        same_pool = refl;
        selected = v;
        left = ground arith;
      })
    ]
