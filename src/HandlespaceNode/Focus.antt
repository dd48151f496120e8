-- ===== src/HandlespaceNode/Focus.antt =====
-- Finding a pool of the handlespace, and changing it where it stands.
use mathlib.Core.List.{Perm, perm_middle}
use mathlib.Core.List.Perm
use rsplib.Base.{
  ℕ, List, [], ◌∷◌, ◌++◌, ◌≡◌, refl, sym, ap, subst, ◌∙◌, inl, inr, arith, none, some, All, map, eq,
  gt,
}
use rsplib.PoolHandle.{comparison}
use rsplib.PoolHandle.Order.{comparison-IsLawful}
use rsplib.PoolNode.{PoolNode}
use rsplib.Storage.Order.{Ordering-cases}
use rsplib.HandlespaceNode.{pool_at, put_pool}
use rsplib.HandlespaceNode.Books.{Booked, entries, entries_of}

abbrev pub handles : List PoolNode → List (List ℕ)
handles = map (λ p. p.handle)

-- A change of a pool keeps the handles.
pub handles-put_pool :
    (p' : PoolNode) (pools : List PoolNode) → handles (put_pool p' pools) ≡ handles pools
unfolding put_pool
handles-put_pool p' [] = refl
handles-put_pool p' (p ∷ ps) = elim (Ordering-cases (comparison p'.handle p.handle)) [
  | inl l ↦ rw (l, put_pool) (ap (λ hs. p.handle ∷ hs) (handles-put_pool p' ps))
  | inr (inl q) ↦
      rw (q, put_pool) (ap (λ h. h ∷ handles ps) (comparison-IsLawful.1 p'.handle p.handle q))
  | inr (inr g) ↦ rw (g, put_pool) (ap (λ hs. p.handle ∷ hs) (handles-put_pool p' ps))
]

pub put_pool-All :
    (P : PoolNode → Type 0) (p' : PoolNode) (pools : List PoolNode)
    → P p'
    → All P pools
    → All P (put_pool p' pools)
unfolding put_pool
put_pool-All P p' [] n h = tt
put_pool-All P p' (p ∷ ps) n h = elim (Ordering-cases (comparison p'.handle p.handle)) [
  | inl l ↦ rw (l, put_pool) (h.0, put_pool-All P p' ps n h.1)
  | inr (inl q) ↦ rw (q, put_pool) (n, h.1)
  | inr (inr g) ↦ rw (g, put_pool) (h.0, put_pool-All P p' ps n h.1)
]

-- The pool that the search finds, among the others.
pub record Focus (handle : List ℕ) (pools : List PoolNode) (p : PoolNode) : Type 1 where
  pub same_handle : p.handle ≡ handle
  pub everywhere : (P : PoolNode → Type 0) → All P pools → P p
  pub others : List Booked
  pub found : Perm (entries pools) (entries_of p ++ others)
  pub changed :
      (p' : PoolNode)
      → p'.handle ≡ handle
      → Perm (entries (put_pool p' pools)) (entries_of p' ++ others)
  pub again : (p' : PoolNode) → p'.handle ≡ handle → pool_at handle (put_pool p' pools) ≡ some p'

swap_front : (xs ys zs : List Booked) → Perm (xs ++ (ys ++ zs)) (ys ++ (xs ++ zs))
swap_front [] ys zs = Perm.refl _
swap_front (x ∷ xs) ys zs =
    Perm.trans (Perm.cons x (swap_front xs ys zs)) (Perm.symm (perm_middle ys (xs ++ zs)))

put_pool-here :
    (p' q : PoolNode) (qs : List PoolNode)
    → comparison p'.handle q.handle ≡ eq
    → put_pool p' (q ∷ qs) ≡ p' ∷ qs
unfolding put_pool
put_pool-here p' q qs h = rw (h, put_pool) refl

put_pool-there :
    (p' q : PoolNode) (qs : List PoolNode)
    → comparison p'.handle q.handle ≡ gt
    → put_pool p' (q ∷ qs) ≡ q ∷ put_pool p' qs
unfolding put_pool
put_pool-there p' q qs h = rw (h, put_pool) refl

pub pool_at-here :
    (handle : List ℕ) (q : PoolNode) (qs : List PoolNode)
    → comparison handle q.handle ≡ eq
    → pool_at handle (q ∷ qs) ≡ some q
unfolding pool_at
pool_at-here handle q qs h = rw (h, pool_at) refl

pub pool_at-there :
    (handle : List ℕ) (q : PoolNode) (qs : List PoolNode)
    → comparison handle q.handle ≡ gt
    → pool_at handle (q ∷ qs) ≡ pool_at handle qs
unfolding pool_at
pool_at-there handle q qs h = rw (h, pool_at) refl

pub pool_at-Focus :
    (handle : List ℕ) (pools : List PoolNode) (p : PoolNode)
    → pool_at handle pools ≡ some p
    → Focus handle pools p
unfolding pool_at entries
pool_at-Focus handle [] p h = cc
pool_at-Focus handle (q ∷ qs) p h = elim (Ordering-cases (comparison handle q.handle)) [
  | inl l ↦ let r : none ≡ some p = sym (rw (l, pool_at) refl) ∙ h in absurd cc
  | inr (inl e) ↦
      let r : some q ≡ some p = sym (rw (e, pool_at) refl) ∙ h in
      let it : q ≡ p = ground arith in
      subst (Focus handle (q ∷ qs)) it (record {
        same_handle = sym (comparison-IsLawful.1 handle q.handle e);
        everywhere = λ P a. a.0;
        others = entries qs;
        found = Perm.refl _;
        changed = λ p' s.
            rw (put_pool-here p' q qs (ap (λ h. comparison h q.handle) s ∙ e)) (Perm.refl _);
        again = λ p' s.
            ap (pool_at handle) (put_pool-here p' q qs (ap (λ h. comparison h q.handle) s ∙ e))
            ∙ pool_at-here handle p' qs
                (ap (comparison handle) s ∙ comparison-IsLawful.0.same_key handle);
      })
  | inr (inr g) ↦
      let f = pool_at-Focus handle qs p (sym (rw (g, pool_at) refl) ∙ h) in
      record {
        same_handle = f.same_handle;
        everywhere = λ P a. f.everywhere P a.1;
        others = entries_of q ++ f.others;
        found =
            Perm.trans (Perm.append_left (entries_of q) f.found)
              (swap_front (entries_of q) (entries_of p) f.others);
        changed = λ p' s. rw (put_pool-there p' q qs (ap (λ h. comparison h q.handle) s ∙ g)) (
            Perm.trans (Perm.append_left (entries_of q) (f.changed p' s))
              (swap_front (entries_of q) (entries_of p') f.others));
        again = λ p' s.
            ap (pool_at handle) (put_pool-there p' q qs (ap (λ h. comparison h q.handle) s ∙ g))
            ∙ pool_at-there handle q (put_pool p' qs) g
            ∙ f.again p' s;
      }
]

-- A pool that is put where it stands already changes nothing.
pub put_pool_self :
    (handle : List ℕ) (pools : List PoolNode) (p : PoolNode)
    → pool_at handle pools ≡ some p
    → put_pool p pools ≡ pools
unfolding pool_at
put_pool_self handle [] p h = cc
put_pool_self handle (q ∷ qs) p h = elim (Ordering-cases (comparison handle q.handle)) [
  | inl l ↦ let r : none ≡ some p = sym (rw (l, pool_at) refl) ∙ h in absurd cc
  | inr (inl e) ↦
      let r : some q ≡ some p = sym (rw (e, pool_at) refl) ∙ h in
      let it : q ≡ p = ground arith in
      subst (λ p. put_pool p (q ∷ qs) ≡ q ∷ qs) it
        (put_pool-here q q qs (comparison-IsLawful.0.same_key q.handle))
  | inr (inr g) ↦
      let found_later : pool_at handle qs ≡ some p = sym (rw (g, pool_at) refl) ∙ h in
      let f = pool_at-Focus handle qs p found_later in
      put_pool-there p q qs (ap (λ h. comparison h q.handle) f.same_handle ∙ g)
      ∙ ap (λ ps. q ∷ ps) (put_pool_self handle qs p found_later)
]
