-- ===== src/HandlespaceNode/Computing.antt =====
-- poolHandlespaceNodeComputeHandlespaceChecksum.
use mathlib.Core.List.{Mem, mem-cons}
use mathlib.Core.List.Perm
use mathlib.Core.Logic.Or
use rsplib.Base.{
  ℕ, ◌+◌, ◌%◌, ◌^◌, ◌<◌, List, [], ◌∷◌, ◌++◌, ◌≡◌, refl, ◌∙◌, some, All, inl, inr, map, arith,
}
use rsplib.Checksum
use rsplib.PoolElement.{PoolElementNode}
use rsplib.PoolNode.{PoolNode, ids, find}
use rsplib.PoolNode
use rsplib.PoolNode.Accounts.{accounts}
use rsplib.PoolNode.Finding.{find-IsValid}
use rsplib.PoolNode.Invariant
use rsplib.HandlespaceNode.{PoolHandlespaceNode}
use rsplib.HandlespaceNode.Books.{
  Booked, booked, entries, entries_of, total, total-Perm, checksum_of, due_checksum,
}
use rsplib.HandlespaceNode.Invariant.{IsValid, IsSound}
use rsplib.HandlespaceNode.Owning.{compute_checksum-due}
use rsplib.HandlespaceNode.Registration.{sum_elements, sum_pools, compute_handlespace_checksum}

total-append {ℓ} :
    {A : Type ℓ} (f : A → ℕ) (xs ys : List A) → total f (xs ++ ys) ≡ total f xs + total f ys
total-append f [] ys = omega arith
total-append f (x ∷ xs) ys = omega (arith, total-append f xs ys)

All-Mem {ℓ κ} : {A : Type ℓ} {P : A → Type κ} (xs : List A) → ((x : A) → Mem x xs → P x) → All P xs
All-Mem [] h = tt
All-Mem (x ∷ xs) h =
    (h x (mem-cons.1 (Or.inl refl)), All-Mem xs (λ y m. h y (mem-cons.1 (Or.inr m))))

All-parts : (P : Booked → Type 0) (xs ys : List Booked) → All P (xs ++ ys) → All P xs × All P ys
All-parts P [] ys h = (tt, h)
All-parts P (x ∷ xs) ys h = let (a, b) = All-parts P xs ys h.1 in ((h.0, a), b)

-- Where the elements are sound, their checksums sum up to those that are due to them.
total-due :
    (handle : List ℕ) (es : List PoolElementNode)
    → All IsSound (map (booked handle) (accounts es))
    → total checksum_of (map (booked handle) (accounts es)) ≡ total (due_checksum handle) (ids es)
total-due handle [] h = refl
total-due handle (e ∷ es) h = omega (arith, h.0, total-due handle es h.1)

sum_elements-found :
    (p : PoolNode) (id : ℕ) (is : List ℕ) (sum : ℕ) (e : PoolElementNode)
    → find p id ≡ some e
    → e.identifier ≡ id
    → sum_elements p (id ∷ is) sum ≡ sum_elements p is ((sum + due_checksum p.handle id) % 2 ^ 32)
unfolding sum_elements Checksum.add
sum_elements-found p id is sum e h same =
    rw (h, sum_elements, compute_checksum-due p.handle e, same) refl

sum_elements-total :
    (p : PoolNode) (is : List ℕ) (sum : ℕ)
    → PoolNode.Invariant.IsValid p
    → All (λ i. Mem i (ids p.selection)) is
    → sum < 2 ^ 32
    → sum_elements p is sum ≡ (sum + total (due_checksum p.handle) is) % 2 ^ 32
unfolding sum_elements
sum_elements-total p [] sum v m h = omega arith
sum_elements-total p (id ∷ is) sum v m h = elim (find-IsValid p id v) [
  | inr (_, absent) ↦ absurd (absent m.0)
  | inl (e, q, _, same) ↦
      let step = sum_elements-found p id is sum e q same in
      let rest =
        sum_elements-total p is ((sum + due_checksum p.handle id) % 2 ^ 32) v m.1 (omega arith) in
      step ∙ rest ∙ omega arith
]

sum_pools-total :
    (ps : List PoolNode) (sum : ℕ)
    → All PoolNode.Invariant.IsValid ps
    → All IsSound (entries ps)
    → sum < 2 ^ 32
    → sum_pools ps sum ≡ (sum + total checksum_of (entries ps)) % 2 ^ 32
unfolding sum_pools entries
sum_pools-total [] sum v s h = omega arith
sum_pools-total (p ∷ ps) sum v s h =
    let (mine, others) = All-parts IsSound (entries_of p) (entries ps) s in
    let members : All (λ i. Mem i (ids p.selection)) p.index =
      All-Mem p.index (λ i m. (Perm.mem_iff v.0.indexed).0 m) in
    let here = sum_elements-total p p.index sum v.0 members h in
    let all = total-Perm (due_checksum p.handle) v.0.indexed in
    let due = total-due p.handle p.selection mine in
    let split = total-append checksum_of (entries_of p) (entries ps) in
    let rest = sum_pools-total ps (sum_elements p p.index sum) v.1 others (omega (arith, here)) in
    rest ∙ omega (arith, here, all, due, split)

-- In a valid handlespace, the checksum computed anew over all elements of all pools is the one that is
-- kept.
pub compute_handlespace_checksum-kept :
    (ns : PoolHandlespaceNode)
    → IsValid ns
    → compute_handlespace_checksum ns ≡ ns.handlespace_checksum
unfolding compute_handlespace_checksum
compute_handlespace_checksum-kept ns v =
    let sums =
      sum_pools-total ns.pools 0 v.pools_valid (All-Mem (entries ns.pools) v.sums.sound)
        (omega arith) in
    let kept = v.sums.checksum in omega (arith, sums, kept)
