-- ===== src/HandlespaceNode/Distinct.antt =====
-- No two elements of the handlespace have the same pool handle and the same identifier.
use mathlib.Core.HLevel.{⊥_prop}
use mathlib.Core.List.{
  Mem, Perm, Nodup, Nodup-nil, Nodup-cons, mem-cons, not-mem-nil, mem-map_of_mem,
}
use mathlib.Core.List.Perm
use mathlib.Core.Logic.Or
use rsplib.Base.{
  ℕ, List, [], ◌∷◌, ◌++◌, ◌≡◌, ◌≢◌, refl, sym, ap, ap₂, subst, ◌∙◌, none, some, All, inl, inr,
  arith, lt, eq, gt, map,
}
use rsplib.PoolElement.{PoolElementNode, Account}
use rsplib.PoolHandle.{comparison}
use rsplib.PoolHandle.Order.{comparison-IsLawful}
use rsplib.PoolNode.{PoolNode, ids}
use rsplib.PoolNode.Accounts.{accounts}
use rsplib.PoolNode.Entries.{Differs}
use rsplib.PoolNode
use rsplib.PoolNode.Invariant
use rsplib.Storage.Order.{AllPairs, IsSorted, Above, Ordering-cases}
use rsplib.HandlespaceNode.{pool_at}
use rsplib.HandlespaceNode.Books.{Booked, booked, entries, entries_of}
use rsplib.HandlespaceNode.Focus.{handles}
use rsplib.HandlespaceNode.Linking.{Fresh}

All-append : (P : Booked → Type 0) (xs ys : List Booked) → All P xs → All P ys → All P (xs ++ ys)
All-append P [] ys h k = k
All-append P (x ∷ xs) ys h k = (h.0, All-append P xs ys h.1 k)

other_handle :
    (handle : List ℕ) (id : ℕ) (h : List ℕ) (xs : List Account)
    → h ≢ handle
    → All (Fresh handle id) (map (booked h) xs)
other_handle handle id h [] n = tt
other_handle handle id h (x ∷ xs) n = ((λ q. absurd (n q)), other_handle handle id h xs n)

other_ids :
    (handle : List ℕ) (id : ℕ) (h : List ℕ) (es : List PoolElementNode)
    → All (λ i. id ≢ i) (ids es)
    → All (Fresh handle id) (map (booked h) (accounts es))
other_ids handle id h [] d = tt
other_ids handle id h (e ∷ es) d = ((λ _ q. d.0 (sym q)), other_ids handle id h es d.1)

lt_ne : (a b : List ℕ) → comparison a b ≡ lt → b ≢ a
lt_ne a b l q =
    let r : comparison a a ≡ eq = comparison-IsLawful.0.same_key a in
    let l' : comparison a a ≡ lt = subst (λ c. comparison a c ≡ lt) q l in absurd cc

gt_ne : (a b : List ℕ) → comparison a b ≡ gt → b ≢ a
gt_ne a b l q =
    let r : comparison a a ≡ eq = comparison-IsLawful.0.same_key a in
    let l' : comparison a a ≡ gt = subst (λ c. comparison a c ≡ gt) q l in absurd cc

later-Fresh :
    (handle : List ℕ) (id : ℕ) (ps : List PoolNode)
    → Above comparison handle (handles ps)
    → All (Fresh handle id) (entries ps)
unfolding entries
later-Fresh handle id [] s = tt
later-Fresh handle id (p ∷ ps) s =
    All-append (Fresh handle id) (entries_of p) (entries ps)
      (other_handle handle id p.handle (accounts p.selection) (lt_ne handle p.handle s.0))
      (later-Fresh handle id ps s.1)

-- No element of the handlespace has the handle and the identifier, if the pool with the handle has
-- none with the identifier.
pub entries-Fresh :
    (handle : List ℕ) (id : ℕ) (ps : List PoolNode) (p : PoolNode)
    → IsSorted comparison (handles ps)
    → pool_at handle ps ≡ some p
    → All (λ i. id ≢ i) (ids p.selection)
    → All (Fresh handle id) (entries ps)
unfolding entries pool_at
entries-Fresh handle id [] p s h d = cc
entries-Fresh handle id (q ∷ qs) p s h d = elim (Ordering-cases (comparison handle q.handle)) [
  | inl l ↦ let r : none ≡ some p = sym (rw (l, pool_at) refl) ∙ h in absurd cc
  | inr (inl e) ↦
      let r : some q ≡ some p = sym (rw (e, pool_at) refl) ∙ h in
      let it : p ≡ q = ground arith in
      let same = comparison-IsLawful.1 handle q.handle e in
      All-append (Fresh handle id) (entries_of q) (entries qs)
        (other_ids handle id q.handle q.selection
          (subst (λ p. All (λ i. id ≢ i) (ids p.selection)) it d))
        (later-Fresh handle id qs (subst (λ h. Above comparison h (handles qs)) (sym same) s.0))
  | inr (inr g) ↦
      All-append (Fresh handle id) (entries_of q) (entries qs)
        (other_handle handle id q.handle (accounts q.selection) (gt_ne handle q.handle g))
        (entries-Fresh handle id qs p s.1 (sym (rw (g, pool_at) refl) ∙ h) d)
]

-- Where a pointer to the element leads
abbrev place : Booked → List ℕ × ℕ
place b = (b.pool_handle, b.entry.account_identifier)

Fresh-absent :
    (handle : List ℕ) (id : ℕ) (bs : List Booked)
    → All (Fresh handle id) bs
    → ¬ Mem (handle, id) (map place bs)
Fresh-absent handle id [] f m = not-mem-nil m
Fresh-absent handle id (b ∷ bs) f m =
    let it_is : (handle, id) ≡ place b → ⊥ =
      λ q. f.0 (sym (ap (λ (x : List ℕ × ℕ). x.0) q)) (sym (ap (λ (x : List ℕ × ℕ). x.1) q)) in
    let further : Mem (handle, id) (map place bs) → ⊥ = Fresh-absent handle id bs f.1 in
    Or.elim ⊥_prop (mem-cons.0 m) it_is further

Differs-ids :
    (e : PoolElementNode) (es : List PoolElementNode)
    → All (Differs e) es
    → All (λ i. e.identifier ≢ i) (ids es)
Differs-ids e [] d = tt
Differs-ids e (x ∷ xs) d = (d.0.1, Differs-ids e xs d.1)

pool-Nodup :
    (handle : List ℕ) (es : List PoolElementNode) (bs : List Booked)
    → AllPairs Differs es
    → ((id : ℕ) → All (Fresh handle id) bs)
    → Nodup (map place bs)
    → Nodup (map place (map (booked handle) (accounts es) ++ bs))
pool-Nodup handle [] bs d f n = n
pool-Nodup handle (e ∷ es) bs d f n =
    let all_fresh =
      All-append (Fresh handle e.identifier) (map (booked handle) (accounts es)) bs
        (other_ids handle e.identifier handle es (Differs-ids e es d.0)) (f e.identifier) in
    Nodup-cons.1 (
      Fresh-absent handle e.identifier (map (booked handle) (accounts es) ++ bs) all_fresh,
      pool-Nodup handle es bs d.1 f n,
    )

entries-Nodup :
    (ps : List PoolNode)
    → IsSorted comparison (handles ps)
    → All PoolNode.Invariant.IsValid ps
    → Nodup (map place (entries ps))
unfolding entries
entries-Nodup [] s v = Nodup-nil
entries-Nodup (p ∷ ps) s v =
    pool-Nodup p.handle p.selection (entries ps) v.0.selected.distinct
      (λ id. later-Fresh p.handle id ps s.0) (entries-Nodup ps s.1 v.1)

-- All elements but the given one have another handle or another identifier.
pub others-Fresh :
    (ps : List PoolNode) (b : Booked) (rest : List Booked)
    → IsSorted comparison (handles ps)
    → All PoolNode.Invariant.IsValid ps
    → Perm (entries ps) (b ∷ rest)
    → (x : Booked) → Mem x rest
    → Fresh b.pool_handle b.entry.account_identifier x
others-Fresh ps b rest s v π x m h i =
    let n = (Perm.Nodup-iff (Perm.map place π)).0 (entries-Nodup ps s v) in
    let same : place x ≡ place b = ap₂ (λ h i. (h, i)) h i in
    (Nodup-cons.0 n).0 (subst (λ q. Mem q (map place rest)) same (mem-map_of_mem place m))
