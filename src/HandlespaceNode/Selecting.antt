-- ===== src/HandlespaceNode/Selecting.antt =====
-- poolHandlespaceNodeSelectPoolElementNodesByPolicy.
use mathlib.Core.List.{Perm}
use mathlib.Core.List.Perm
use rsplib.Base.{
  ℕ, ◌+◌, ◌≤◌, ◌<◌, ◌^◌, List, ◌≡◌, ◌⊎◌, refl, sym, ◌∙◌, none, some, All, inl, inr, length, Option,
  leb, leb→le, Bool-cases, arith, false, take,
}
use rsplib.PoolPolicy.{Selection, by_sorting_order, by_value_tree}
use rsplib.PoolHandle.{max_poolhandlesize}
use rsplib.PoolHandle
use rsplib.PoolHandle.Sizes.{new-some, new-cases}
use rsplib.PoolNode.{PoolNode, ids}
use rsplib.PoolNode
use rsplib.PoolNode.Accounts.{accounts}
use rsplib.PoolNode.Invariant
use rsplib.PoolNode.Picked.{select_by_value_tree-Same}
use rsplib.PoolNode.Selected.{Same, Option-cases, select_by_sorting_order-Same}
use rsplib.PoolNode.Select.{begin_selection, select_by_sorting_order, select_by_value_tree}
use rsplib.PoolNode.SortingOrder.{select_by_sorting_order-IsValid}
use rsplib.PoolNode.ValueTree.{select_by_value_tree-IsValid}
use rsplib.HandlespaceNode.{PoolHandlespaceNode, pool_at, find_pool, put_pool}
use rsplib.HandlespaceNode.Books.{entries}
use rsplib.HandlespaceNode.Focus.{pool_at-Focus}
use rsplib.HandlespaceNode.Invariant.{IsValid, rebuild-IsValid}
use rsplib.HandlespaceNode.Places.{put_pool-entries}
use rsplib.HandlespaceNode.Registration.{select_elements, select_by_policy}

Selection-cases : (s : Selection) → (s ≡ by_sorting_order) ⊎ (s ≡ by_value_tree)
Selection-cases by_sorting_order = inl refl
Selection-cases by_value_tree = inr refl

-- Either way, a selection from a valid pool passes every CHECK and changes no account.
select_elements-Same :
    (random : ℕ → ℕ) (pool : PoolNode) (max_nodes max_increment : ℕ)
    → PoolNode.Invariant.IsValid pool
    → 1 ≤ max_nodes
    → length pool.selection + max_nodes < 2 ^ 32
    → (chosen : List ℕ) × (p : PoolNode) × (select_elements random pool max_nodes max_increment
        ≡ some (chosen, p))
      × PoolNode.Invariant.IsValid p
      × Same pool p
unfolding select_elements
select_elements-Same random pool n inc v one room = elim (Selection-cases pool.policy.selection) [
  | inl q ↦
      let (p, r, w, _, _, _) = select_by_sorting_order-IsValid pool n inc v one room in
      let chosen = take n (ids pool.selection) in
      (
        chosen,
        p,
        rw (q, select_elements) r,
        w,
        select_by_sorting_order-Same pool p n inc chosen v.is_policy one r,
      )
  | inr q ↦
      let (chosen, _, p, r, _, _, w, _, _, _) =
        select_by_value_tree-IsValid random pool n inc v one room in
      (
        chosen,
        p,
        rw (q, select_elements) r,
        w,
        select_by_value_tree-Same random pool p n inc chosen v.is_policy one r,
      )
]

-- There is room for the sequence numbers of a selection from the pool.
abbrev pub HasNumbers : ℕ → PoolNode → Type 0
HasNumbers n p = length p.selection + n < 2 ^ 32

find_pool-pool_at :
    (handle : List ℕ) (pools : List PoolNode)
    → PoolHandle.new handle ≡ some handle
    → find_pool handle pools ≡ some (pool_at handle pools)
unfolding find_pool
find_pool-pool_at handle pools h = rw (h, find_pool) refl

-- A selection that ends has passed the CHECKs of the handle.
pub select_by_policy-new :
    (random : ℕ → ℕ) (handle : List ℕ) (max_nodes max_increment : ℕ) (ns : PoolHandlespaceNode)
    (r : Option (List ℕ) × PoolHandlespaceNode)
    → select_by_policy random handle max_nodes max_increment ns ≡ some r
    → PoolHandle.new handle ≡ some handle
unfolding select_by_policy find_pool
select_by_policy-new random handle n inc ns r h = elim (new-cases handle) [
  | inl q ↦ q
  | inr q ↦
      let aborts : select_by_policy random handle n inc ns ≡ none =
        rw (q, select_by_policy, find_pool) refl in
      let both : none ≡ some r = sym aborts ∙ h in absurd cc
]

-- A selection that ends has passed the CHECK of the number of elements, or found no pool.
select_elements-none :
    (random : ℕ → ℕ) (pool : PoolNode) (max_nodes max_increment : ℕ)
    → leb 1 max_nodes ≡ false
    → select_elements random pool max_nodes max_increment ≡ none
unfolding select_elements select_by_sorting_order select_by_value_tree begin_selection
select_elements-none random pool n inc f = elim (Selection-cases pool.policy.selection) [
  | inl q ↦ rw (q, select_elements, select_by_sorting_order, begin_selection, f) refl
  | inr q ↦ rw (q, select_elements, select_by_value_tree, begin_selection, f) refl
]

pub select_by_policy-one :
    (random : ℕ → ℕ) (handle : List ℕ) (max_nodes max_increment : ℕ) (ns ns' : PoolHandlespaceNode)
    (chosen : Option (List ℕ))
    → PoolHandle.new handle ≡ some handle
    → select_by_policy random handle max_nodes max_increment ns ≡ some (chosen, ns')
    → (1 ≤ max_nodes) ⊎ (ns ≡ ns')
unfolding select_by_policy
select_by_policy-one random handle n inc ns ns' chosen new h = elim (Bool-cases (leb 1 n)) [
  | inl t ↦ inl (leb→le 1 n t)
  | inr f ↦
      let found = find_pool-pool_at handle ns.pools new in
      elim (Option-cases (pool_at handle ns.pools)) [
        | inl (p, q) ↦
            let aborts : select_by_policy random handle n inc ns ≡ none =
              rw (found, select_by_policy, q, select_elements-none random p n inc f) refl in
            let both : none ≡ some (chosen, ns') = sym aborts ∙ h in absurd cc
        | inr q ↦
            let nothing : select_by_policy random handle n inc ns ≡ some (none, ns) =
              rw (found, select_by_policy, q) refl in
            let both : some (none, ns) ≡ some (chosen, ns') = sym nothing ∙ h in inr (ground arith)
      ]
]

pub select_checked :
    (random : ℕ → ℕ) (handle : List ℕ) (max_nodes max_increment : ℕ) (ns : PoolHandlespaceNode)
    → IsValid ns
    → PoolHandle.new handle ≡ some handle
    → 1 ≤ max_nodes
    → All (HasNumbers max_nodes) ns.pools
    → (chosen : Option (List ℕ)) × (ns' : PoolHandlespaceNode) × (select_by_policy random handle
          max_nodes max_increment ns
        ≡ some (chosen, ns'))
      × IsValid ns'
      × Perm (entries ns'.pools) (entries ns.pools)
      × (find_pool handle ns.pools ≡ some none → (chosen ≡ none) × (ns' ≡ ns))
unfolding select_by_policy
select_checked random handle n inc ns v new one room =
    let found = find_pool-pool_at handle ns.pools new in
    elim (Option-cases (pool_at handle ns.pools)) [
      | inr q ↦ (none, ns, rw (found, select_by_policy, q) refl, v, Perm.refl _, λ _. (refl, refl))
      | inl (p, q) ↦
          let f = pool_at-Focus handle ns.pools p q in
          let vp = f.everywhere PoolNode.Invariant.IsValid v.pools_valid in
          let (chosen, p', r, w, same) =
            select_elements-Same random p n inc vp one (f.everywhere (HasNumbers n) room) in
          let (others, before, after) = put_pool-entries handle ns.pools p q in
          let ns' : PoolHandlespaceNode = record ns { pools = put_pool p' ns.pools } in
          let π : Perm (entries ns'.pools) (entries ns.pools) =
            Perm.trans (after p' (accounts p.selection) same.same_handle same.same_accounts)
              (Perm.symm (before (accounts p.selection) (Perm.refl _))) in
          (
            some chosen,
            ns',
            rw (found, select_by_policy, q, r) refl,
            rebuild-IsValid ns ns' p' (entries ns.pools) v w refl π v.sums v.links,
            π,
            λ n.
                absurd
                  (let both : some (pool_at handle ns.pools) ≡ some none = sym found ∙ n in cc),
          )
    ]

-- On a valid handlespace whose pools have room for the sequence numbers, asking for at least one
-- element, by a handle of 1 to 32 bytes, passes every CHECK and leaves a valid handlespace in which
-- no account is changed. Without a pool with the handle, nothing is chosen and nothing is changed.
pub select_by_policy-IsValid :
    (random : ℕ → ℕ) (handle : List ℕ) (max_nodes max_increment : ℕ) (ns : PoolHandlespaceNode)
    → IsValid ns
    → 0 < length handle
    → length handle ≤ max_poolhandlesize
    → 1 ≤ max_nodes
    → All (HasNumbers max_nodes) ns.pools
    → (chosen : Option (List ℕ)) × (ns' : PoolHandlespaceNode) × (select_by_policy random handle
          max_nodes max_increment ns
        ≡ some (chosen, ns'))
      × IsValid ns'
      × Perm (entries ns'.pools) (entries ns.pools)
      × (find_pool handle ns.pools ≡ some none → (chosen ≡ none) × (ns' ≡ ns))
select_by_policy-IsValid random handle n inc ns v some_bytes few =
    select_checked random handle n inc ns v (new-some handle some_bytes few)
