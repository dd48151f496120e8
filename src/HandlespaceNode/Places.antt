-- ===== src/HandlespaceNode/Places.antt =====
-- An element of the handlespace, where a pointer to it leads, and writing to it there.
use mathlib.Core.List.{Perm}
use mathlib.Core.List.Perm
use rsplib.Base.{
  ℕ, List, [], ◌∷◌, ◌++◌, ◌≡◌, refl, sym, ap, subst, ◌∙◌, arith, some, All, map, true, false, inl,
  inr, ◌==◌, Bool-cases,
}
use rsplib.PoolElement.{PoolElementNode, Account, account}
use rsplib.PoolPolicy.Order.{Marks, with_marks}
use rsplib.PoolNode.{PoolNode, find_element, replace}
use rsplib.PoolNode.Accounts.{accounts}
use rsplib.PoolNode.Changes.{replace-accounts}
use rsplib.PoolNode.Invariant.{IsValid}
use rsplib.PoolNode.Marking.{replace-Marked, Marked-IsSelection, Marked-ids}
use rsplib.HandlespaceNode.{pool_at, put_pool, element_at}
use rsplib.HandlespaceNode.Books.{Booked, booked, entries}
use rsplib.HandlespaceNode.Focus.{pool_at-Focus}

-- The pool with the element changed in its selection storage.
abbrev pub with_element : PoolNode → PoolElementNode → PoolNode
with_element p e = record p { selection = replace e p.selection }

find_element-id :
    (id : ℕ) (es : List PoolElementNode) (e : PoolElementNode)
    → find_element id es ≡ some e
    → e.identifier ≡ id
unfolding find_element
find_element-id id [] e h = cc
find_element-id id (x ∷ xs) e h = elim (Bool-cases (x.identifier == id)) [
  | inl t ↦ let it : x ≡ e = ground arith in subst (λ y. y.identifier ≡ id) it (ground arith)
  | inr f ↦ find_element-id id xs e (ground arith)
]

pub record Place (handle : List ℕ) (id : ℕ) (pools : List PoolNode) (p : PoolNode)
    (e : PoolElementNode) : Type 0 where
  pub same_handle : p.handle ≡ handle
  pub same_id : e.identifier ≡ id
  pub pool_found : pool_at handle pools ≡ some p
  pub element_found : find_element e.identifier p.selection ≡ some e
  pub pool_valid : IsValid p

pub element_at-Place :
    (handle : List ℕ) (id : ℕ) (pools : List PoolNode) (p : PoolNode) (e : PoolElementNode)
    → All IsValid pools
    → element_at handle id pools ≡ some (p, e)
    → Place handle id pools p e
unfolding element_at
element_at-Place handle id pools p e valid h =
    let found_pool : pool_at handle pools ≡ some p = ground arith in
    let found_element : find_element id p.selection ≡ some e = ground arith in
    let f = pool_at-Focus handle pools p found_pool in
    let same = find_element-id id p.selection e found_element in
    record {
      same_handle = f.same_handle;
      same_id = same;
      pool_found = found_pool;
      element_found = ap (λ i. find_element i p.selection) same ∙ found_element;
      pool_valid = f.everywhere IsValid valid;
    }

entries-Perm :
    (handle : List ℕ) {xs ys : List Account} (zs : List Booked)
    → Perm xs ys
    → Perm (map (booked handle) xs ++ zs) (map (booked handle) ys ++ zs)
entries-Perm handle zs p = Perm.append_right zs (Perm.map (booked handle) p)

-- What is in a pool of the handlespace, besides what is in the others, and what is in its place once
-- it is changed.
pub put_pool-entries :
    (handle : List ℕ) (pools : List PoolNode) (p : PoolNode)
    → pool_at handle pools ≡ some p
    → (others : List Booked) × ((xs : List Account)
        → Perm (accounts p.selection) xs
        → Perm (entries pools) (map (booked handle) xs ++ others))
      × ((p' : PoolNode) (ys : List Account)
          → p'.handle ≡ p.handle
          → Perm (accounts p'.selection) ys
          → Perm (entries (put_pool p' pools)) (map (booked handle) ys ++ others))
put_pool-entries handle pools p found_pool =
    let f = pool_at-Focus handle pools p found_pool in
    (
      f.others,
      λ xs π. Perm.trans f.found (
          subst
            (λ h.
              Perm (map (booked h) (accounts p.selection) ++ f.others)
                (map (booked handle) xs ++ f.others))
            (sym f.same_handle) (entries-Perm handle f.others π)),
      λ p' ys same ρ. Perm.trans (f.changed p' (same ∙ f.same_handle)) (
          subst
            (λ h.
              Perm (map (booked h) (accounts p'.selection) ++ f.others)
                (map (booked handle) ys ++ f.others))
            (sym (same ∙ f.same_handle)) (entries-Perm handle f.others ρ)),
    )

module _ {handle : List ℕ} {id : ℕ} {pools : List PoolNode} {p : PoolNode} {e : PoolElementNode}
    (at : Place handle id pools p e) where
  -- Writing to the element where it stands changes its account, and no other.
  pub write_element-entries :
      (others : List Booked) × Perm (entries pools) (booked handle (account e) ∷ others)
      × ((m : Marks)
          → Perm
              (entries (put_pool (with_element p (with_marks e m)) pools))
              (booked handle (account (with_marks e m)) ∷ others))
  write_element-entries =
      let (rest, π, ρ) = replace-accounts p.selection e at.element_found in
      let (others, σ, τ) = put_pool-entries handle pools p at.pool_found in
      (
        map (booked handle) rest ++ others,
        σ (account e ∷ rest) π,
        λ m.
            τ (with_element p (with_marks e m)) (account (with_marks e m) ∷ rest) refl
              (ρ (with_marks e m) refl),
      )

  pub write_element-IsValid : (m : Marks) → IsValid (with_element p (with_marks e m))
  write_element-IsValid m =
      let v = at.pool_valid in
      let marked = replace-Marked p.selection e m at.element_found in
      record {
        is_policy = v.is_policy;
        seq_fits = v.seq_fits;
        selected = Marked-IsSelection p.policy v.is_policy p.global_seq_number marked v.selected;
        index_sorted = v.index_sorted;
        indexed = subst (Perm p.index) (sym (Marked-ids marked)) v.indexed;
      }

find_element-replace :
    (es : List PoolElementNode) (e e' : PoolElementNode)
    → find_element e.identifier es ≡ some e
    → e'.identifier ≡ e.identifier
    → find_element e.identifier (replace e' es) ≡ some e'
unfolding find_element replace
find_element-replace [] e e' h same = cc
find_element-replace (x ∷ xs) e e' h same = elim (Bool-cases (x.identifier == e.identifier)) [
  | inl t ↦
      let t' : (x.identifier == e'.identifier) ≡ true = ap (λ i. x.identifier == i) same ∙ t in
      let s : (e'.identifier == e.identifier) ≡ true = ground (arith, same) in rw (t', s) refl
  | inr f ↦
      let f' : (x.identifier == e'.identifier) ≡ false = ap (λ i. x.identifier == i) same ∙ f in
      rw (f', f) (find_element-replace xs e e' (ground arith) same)
]

pub element_at-found :
    (handle : List ℕ) (id : ℕ) (pools : List PoolNode) (p : PoolNode) (e : PoolElementNode)
    → pool_at handle pools ≡ some p
    → find_element id p.selection ≡ some e
    → element_at handle id pools ≡ some (p, e)
unfolding element_at
element_at-found handle id pools p e q r = rw (q, element_at, r) refl

-- The pointer then leads to the changed element.
pub write_element-element_at :
    {handle : List ℕ} {id : ℕ} {pools : List PoolNode} {p : PoolNode} {e : PoolElementNode}
    → Place handle id pools p e
    → (m : Marks)
    → element_at handle id (put_pool (with_element p (with_marks e m)) pools)
      ≡ some (with_element p (with_marks e m), with_marks e m)
write_element-element_at {handle} {id} {pools} {p} {e} at m =
    let e' = with_marks e m in
    let p' = with_element p e' in
    let f = pool_at-Focus handle pools p at.pool_found in
    let q : pool_at handle (put_pool p' pools) ≡ some p' = f.again p' f.same_handle in
    let r : find_element id p'.selection ≡ some e' =
      subst (λ i. find_element i p'.selection ≡ some e') at.same_id
        (find_element-replace p.selection e e' at.element_found refl) in
    element_at-found handle id (put_pool p' pools) p' e' q r

-- The pointer leads into a pool that was changed.
pub put_pool-element_at :
    (handle : List ℕ) (id : ℕ) (pools : List PoolNode) (p p' : PoolNode) (e e' : PoolElementNode)
    → Place handle id pools p e
    → p'.handle ≡ p.handle
    → find_element e.identifier p'.selection ≡ some e'
    → element_at handle id (put_pool p' pools) ≡ some (p', e')
put_pool-element_at handle id pools p p' e e' at same h =
    let f = pool_at-Focus handle pools p at.pool_found in
    element_at-found handle id (put_pool p' pools) p' e' (f.again p' (same ∙ f.same_handle))
      (subst (λ i. find_element i p'.selection ≡ some e') at.same_id h)
