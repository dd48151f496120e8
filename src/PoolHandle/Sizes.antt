-- ===== src/PoolHandle/Sizes.antt =====
-- poolHandleNew: which handles pass its CHECKs.
use rsplib.Base.{
  le→leb, lt→ltb, ℕ, ◌<◌, ◌≤◌, List, ◌≡◌, refl, arith, none, some, inl, inr, ◌⊎◌, length, ltb, leb,
  ◌&&◌, false, Bool-cases,
}
use rsplib.PoolHandle.{max_poolhandlesize}
use rsplib.PoolHandle

over : (a b : ℕ) → a < b → leb b a ≡ false
over a b h = ground arith

pub new-some :
    (handle : List ℕ)
    → 0 < length handle
    → length handle ≤ max_poolhandlesize
    → PoolHandle.new handle ≡ some handle
unfolding PoolHandle.new
new-some handle a b =
    rw (lt→ltb 0 (length handle) a, le→leb (length handle) max_poolhandlesize b) refl

pub new-none :
    (handle : List ℕ)
    → 0 < length handle
    → max_poolhandlesize < length handle
    → PoolHandle.new handle ≡ none
unfolding PoolHandle.new
new-none handle a b =
    rw (lt→ltb 0 (length handle) a, over max_poolhandlesize (length handle) b) refl

-- Either the CHECKs are passed, and the handle is stored as it is, or the program ends.
pub new-cases :
    (handle : List ℕ) → (PoolHandle.new handle ≡ some handle) ⊎ (PoolHandle.new handle ≡ none)
unfolding PoolHandle.new
new-cases handle =
    elim (Bool-cases (ltb 0 (length handle) && leb (length handle) max_poolhandlesize)) [
      | inl t ↦ inl (rw t refl)
      | inr f ↦ inr (rw f refl)
    ]
