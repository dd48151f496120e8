-- ===== src/PoolHandle.antt =====
-- src/poolhandle.c and .h: pool handles, which are byte strings, and their order.
pub mod Order
pub mod Sizes
use rsplib.Base.{
  ℕ, List, [], ◌∷◌, Option, none, some, Ordering, lt, eq, gt, compare, length, ltb, leb, ◌||◌, not,
  ◌&&◌, if◌then◌else◌,
}

abbrev pub max_poolhandlesize : ℕ
max_poolhandlesize = 32

-- poolHandleNew: the bytes are those of the handle; `none` is a failed CHECK of their number.
unfoldable pub new : List ℕ → Option (List ℕ)
new handle =
    if ltb 0 (length handle) && leb (length handle) max_poolhandlesize then some handle else none

-- memcmp, over two blocks of the same size
unfoldable pub memcmp : List ℕ → List ℕ → Ordering
memcmp [] [] = eq
memcmp [] (y ∷ ys) = lt
memcmp (x ∷ xs) [] = gt
memcmp (x ∷ xs) (y ∷ ys) = elim (compare x y) [ lt ↦ lt | gt ↦ gt | eq ↦ memcmp xs ys ]

-- poolHandleComparison
unfoldable pub comparison : List ℕ → List ℕ → Ordering
unfolding memcmp
comparison a b = elim (compare (length a) (length b)) [ lt ↦ lt | gt ↦ gt | eq ↦ memcmp a b ]
