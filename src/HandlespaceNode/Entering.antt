-- ===== src/HandlespaceNode/Entering.antt =====
-- poolHandlespaceNodeAddPoolElementNode, on every branch.
use mathlib.Core.List.{Mem, Perm, mem-cons}
use mathlib.Core.List.Perm
use mathlib.Core.Logic.Or
use rsplib.Base.{
  ℕ, ◌+◌, List, ◌∷◌, ◌≡◌, ◌≢◌, refl, sym, ap, ap₂, subst, ◌∙◌, none, some, All, Option,
}
use rsplib.PoolElement.{PoolElementNode, account}
use rsplib.PoolHandle.{comparison}
use rsplib.PoolNode.{
  PoolNode, Added, Error, okay, invalid_id, wrong_protocol, invalid_registrator, invalid_addresses,
  wrong_controlchannel_handling, invalid_pool_policy, incompatible_pool_policy, duplicate_id, ids,
  check_compatibility, find_element,
}
use rsplib.PoolNode
use rsplib.PoolNode.Accounts.{accounts}
use rsplib.PoolNode.Adding.{Outcome, add-Outcome}
use rsplib.PoolNode.Entering.{add-Entered}
use rsplib.PoolNode.Finding.{find_element-Mem}
use rsplib.PoolNode.Invariant
use rsplib.PoolNode.Members.{not_mem→All}
use rsplib.PoolNode.Unique.{same_account}
use rsplib.Storage.Order.{IsSorted}
use rsplib.HandlespaceNode.{PoolHandlespaceNode, pool_at, put_pool, element_at}
use rsplib.HandlespaceNode.Books.{booked, entries}
use rsplib.HandlespaceNode.Focus.{
  pool_at-Focus, put_pool_self, handles, handles-put_pool, put_pool-All,
}
use rsplib.HandlespaceNode.Distinct.{entries-Fresh}
use rsplib.HandlespaceNode.Fresh.{link_element-Linked}
use rsplib.HandlespaceNode.Invariant.{IsValid, Sums, Linked}
use rsplib.HandlespaceNode.Places.{put_pool-entries, element_at-found}
use rsplib.HandlespaceNode.Pools.{HasRoom}
use rsplib.HandlespaceNode.Registration.{Registered, enter, add_element, link_element}

-- The handlespace that poolHandlespaceNodeAddPoolElementNode leaves with a new element: it is linked,
-- but not in the sums yet.
pub record Entered (handle : List ℕ) (e : PoolElementNode) (ns ns' : PoolHandlespaceNode)
    : Type 0 where
  pub sorted : IsSorted comparison (handles ns'.pools)
  pub pools_valid : All PoolNode.Invariant.IsValid ns'.pools
  pub pool : PoolNode
  pub element : PoolElementNode
  pub there : element_at handle e.identifier ns'.pools ≡ some (pool, element)
  pub same_account : account element ≡ account e
  pub more : Perm (entries ns'.pools) (booked handle (account e) ∷ entries ns.pools)
  pub sums : Sums ns' (entries ns.pools)
  pub links : Linked ns' (booked handle (account e) ∷ entries ns.pools)

-- What poolHandlespaceNodeAddPoolElementNode does, by its branches.
pub data Entering (handle : List ℕ) (e : PoolElementNode) (ns : PoolHandlespaceNode)
    (r : Registered) : Type 0 where
  refused :
      (x : Error)
      → x ≢ okay
      → r ≡ record { error = x; element = none; handlespace = ns }
      → Entering handle e ns r
  duplicate :
      (p : PoolNode) (old : PoolElementNode)
      → element_at handle e.identifier ns.pools ≡ some (p, old)
      → check_compatibility p e ≡ okay
      → r ≡ record { error = duplicate_id; element = some e.identifier; handlespace = ns }
      → Entering handle e ns r
  entered :
      (ns' : PoolHandlespaceNode)
      → Entered handle e ns ns'
      → r ≡ record { error = okay; element = some e.identifier; handlespace = ns' }
      → Entering handle e ns r

enter-refused :
    (x : Error) (handle : List ℕ) (e : PoolElementNode) (ns : PoolHandlespaceNode) (m : Option ℕ)
    (p : PoolNode)
    → x ≢ okay
    → enter handle e ns (record { error = x; element = m; pool = p })
      ≡ some (record {
        error = x;
        element = m;
        handlespace = record ns { pools = put_pool p ns.pools };
      })
unfolding enter
enter-refused okay handle e ns m p n = absurd (n refl)
enter-refused invalid_id handle e ns m p n = refl
enter-refused wrong_protocol handle e ns m p n = refl
enter-refused invalid_registrator handle e ns m p n = refl
enter-refused invalid_addresses handle e ns m p n = refl
enter-refused wrong_controlchannel_handling handle e ns m p n = refl
enter-refused invalid_pool_policy handle e ns m p n = refl
enter-refused incompatible_pool_policy handle e ns m p n = refl
enter-refused duplicate_id handle e ns m p n = refl

enter-okay :
    (handle : List ℕ) (e : PoolElementNode) (ns ns' : PoolHandlespaceNode) (m : Option ℕ)
    (p : PoolNode)
    → link_element handle e (record ns { pools = put_pool p ns.pools }) ≡ some ns'
    → enter handle e ns (record { error = okay; element = m; pool = p })
      ≡ some (record { error = okay; element = m; handlespace = ns' })
unfolding enter
enter-okay handle e ns ns' m p h = rw (h, enter) refl

add_element-steps :
    (handle : List ℕ) (e : PoolElementNode) (ns : PoolHandlespaceNode) (p : PoolNode) (r : Added)
    → pool_at handle ns.pools ≡ some p
    → PoolNode.add p e ≡ some r
    → add_element handle e ns ≡ enter handle e ns r
unfolding add_element
add_element-steps handle e ns p r h q = rw (h, add_element, q) refl

module _ (ns : PoolHandlespaceNode) (handle : List ℕ) (e : PoolElementNode) (p : PoolNode)
    (v : IsValid ns) (found_pool : pool_at handle ns.pools ≡ some p) where
  -- The pool has left the handlespace as it was.
  same_pools :
      (x : Error) (m : Option ℕ)
      → x ≢ okay
      → PoolNode.add p e ≡ some (record { error = x; element = m; pool = p })
      → add_element handle e ns ≡ some (record { error = x; element = m; handlespace = ns })
  same_pools x m n q =
      add_element-steps handle e ns p (record { error = x; element = m; pool = p }) found_pool q
      ∙ enter-refused x handle e ns m p n
      ∙ ap (λ ps. some (record { error = x; element = m; handlespace = record ns { pools = ps } }))
          (put_pool_self handle ns.pools p found_pool)

  -- The pool has a new element.
  new_element :
      (r : Added)
      → HasRoom p
      → PoolNode.add p e ≡ some r
      → PoolNode.Invariant.IsValid r.pool
      → ¬ Mem e.identifier (ids p.selection)
      → r.error ≡ okay
      → r.element ≡ some e.identifier
      → Perm (ids r.pool.selection) (e.identifier ∷ ids p.selection)
      → (ns' : PoolHandlespaceNode) × (add_element handle e ns
          ≡ some (record { error = okay; element = some e.identifier; handlespace = ns' }))
        × Entered handle e ns ns'
  new_element r room q w fresh ok named more_ids =
      let f = pool_at-Focus handle ns.pools p found_pool in
      let vp = f.everywhere PoolNode.Invariant.IsValid v.pools_valid in
      let (same, π) = add-Entered p e r vp room q ok in
      let ns1 : PoolHandlespaceNode = record ns { pools = put_pool r.pool ns.pools } in
      let (os, cs, linked, l) = link_element-Linked ns1 handle e (entries ns.pools) v.links (
        entries-Fresh handle e.identifier ns.pools p v.sorted found_pool
          (not_mem→All e.identifier (ids p.selection) fresh)) in
      let ns' : PoolHandlespaceNode = record ns1 {
        pool_elements = ns.pool_elements + 1;
        ownerships = os;
        connections = cs;
      } in
      let (others, before, after) = put_pool-entries handle ns.pools p found_pool in
      let there : Mem e.identifier (ids r.pool.selection) =
        (Perm.mem_iff more_ids).1 (mem-cons.1 (Or.inl refl)) in
      let (e', found_element, same_id) = find_element-Mem e.identifier r.pool.selection there in
      let again : find_element e'.identifier r.pool.selection ≡ some e' =
        subst (λ i. find_element i r.pool.selection ≡ some e') (sym same_id) found_element in
      let its : account e ≡ account e' =
        same_account r.pool.selection e' (account e) w.selected.distinct again
          ((Perm.mem_iff π).1 (mem-cons.1 (Or.inl refl))) (sym same_id) in
      let given : r ≡ record { error = okay; element = some e.identifier; pool = r.pool } =
        ap₂ (λ x m. record { error = x; element = m; pool = r.pool }) ok named in
      (
        ns',
        add_element-steps handle e ns p r found_pool q
            ∙ ap (enter handle e ns) given
            ∙ enter-okay handle e ns ns' (some e.identifier) r.pool linked,
        record {
          sorted = subst (IsSorted comparison) (sym (handles-put_pool r.pool ns.pools)) v.sorted;
          pools_valid = put_pool-All PoolNode.Invariant.IsValid r.pool ns.pools w v.pools_valid;
          pool = r.pool;
          element = e';
          there =
              element_at-found handle e.identifier ns'.pools r.pool e'
                (f.again r.pool (same ∙ f.same_handle)) found_element;
          same_account = sym its;
          more = Perm.trans (after r.pool (account e ∷ accounts p.selection) same π) (
              Perm.cons (booked handle (account e))
                (Perm.symm (before (accounts p.selection) (Perm.refl _))));
          sums = v.sums;
          links = l;
        },
      )

  -- On a valid handlespace, poolHandlespaceNodeAddPoolElementNode passes every CHECK.
  pub add_element-Entering :
      HasRoom p → (r : Registered) × (add_element handle e ns ≡ some r) × Entering handle e ns r
  add_element-Entering room =
      let f = pool_at-Focus handle ns.pools p found_pool in
      let vp = f.everywhere PoolNode.Invariant.IsValid v.pools_valid in
      let (r, q, o, w) = add-Outcome p e vp room in
      elim o [
        | Outcome.refused n same ↦
            let x = check_compatibility p e in
            (
              record { error = x; element = none; handlespace = ns },
              same_pools x none n (q ∙ ap some same),
              Entering.refused x n refl,
            )
        | Outcome.duplicate c m same ↦
            let (old, found_element, _) = find_element-Mem e.identifier p.selection m in
            let n : duplicate_id ≢ okay = λ q. cc in
            (
              record { error = duplicate_id; element = some e.identifier; handlespace = ns },
              same_pools duplicate_id (some e.identifier) n (q ∙ ap some same),
              Entering.duplicate p old
                  (element_at-found handle e.identifier ns.pools p old found_pool found_element) c
                  refl,
            )
        | Outcome.added c fresh ok named more_ids ↦
            let (ns', linked, t) = new_element r room q w fresh ok named more_ids in
            (
              record { error = okay; element = some e.identifier; handlespace = ns' },
              linked,
              Entering.entered ns' t refl,
            )
      ]
