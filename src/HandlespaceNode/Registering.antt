-- ===== src/HandlespaceNode/Registering.antt =====
-- poolHandlespaceNodeAddOrUpdatePoolElementNode, on every branch.
use mathlib.Core.List.{Perm}
use mathlib.Core.List.Perm
use rsplib.Base.{
  ℕ, List, [], ◌∷◌, ◌≡◌, ◌≢◌, refl, sym, ap, subst, ◌∙◌, none, some, All, inl, inr, ◌⊎◌, Bool, true,
  false,
}
use rsplib.PoolElement.{PoolElementNode, Account, account}
use rsplib.PoolNode.{PoolNode, Error, okay, duplicate_id, check_compatibility}
use rsplib.PoolNode
use rsplib.PoolNode.Adding.{Error-okay, check_compatibility-is_valid}
use rsplib.PoolNode.Invariant
use rsplib.HandlespaceNode.{PoolHandlespaceNode, element_at}
use rsplib.HandlespaceNode.Books.{booked, entries}
use rsplib.HandlespaceNode.Crediting.{credited, begin_account-Credited}
use rsplib.HandlespaceNode.Elements.{update_element}
use rsplib.HandlespaceNode.Entering.{Entering, Entered, add_element-Entering}
use rsplib.HandlespaceNode.Focus.{pool_at-Focus}
use rsplib.HandlespaceNode.Invariant.{IsValid, Linked}
use rsplib.HandlespaceNode.Pools.{HasRoom, add_pool-Readied}
use rsplib.HandlespaceNode.Registration.{
  Registered, add_pool, remove_pool, add_element, begin_account, settle, register, add_or_update,
}
use rsplib.HandlespaceNode.Updating.{updated_by, update_element-Changes, Changes-before}
use rsplib.HandlespaceNode.Writing.{Changes}

-- What a registration does: it is refused, and nothing is changed; a new element is added; or the
-- element with the identifier is updated, or found incompatible with its pool and left alone.
pub data Registering (handle : List ℕ) (e : PoolElementNode) (ns : PoolHandlespaceNode)
    (r : Registered) : Type 0 where
  refused : r.error ≢ okay → r.element ≡ none → r.handlespace ≡ ns → Registering handle e ns r
  created :
      r.error ≡ okay
      → r.element ≡ some e.identifier
      → Perm
          (entries r.handlespace.pools)
          (booked handle (credited handle (account e)) ∷ entries ns.pools)
      → Registering handle e ns r
  updated :
      (a : Account)
      → r.error ≡ okay
      → r.element ≡ some e.identifier
      → Changes handle e.identifier a (updated_by handle e a) ns r.handlespace
      → Registering handle e ns r
  kept :
      r.error ≢ okay
      → r.element ≡ some e.identifier
      → entries r.handlespace.pools ≡ entries ns.pools
      → Registering handle e ns r

settle_new :
    (handle : List ℕ) (e : PoolElementNode) (is_new : Bool) (id : ℕ) (ns ns' : PoolHandlespaceNode)
    → begin_account handle id ns ≡ some ns'
    → settle handle e is_new (record { error = okay; element = some id; handlespace = ns })
      ≡ some (record { error = okay; element = some id; handlespace = ns' })
unfolding settle
settle_new handle e is_new id ns ns' h = rw (h, settle) refl

settle_known :
    (handle : List ℕ) (e : PoolElementNode) (is_new : Bool) (id : ℕ) (x : Error)
    (ns ns' : PoolHandlespaceNode)
    → update_element handle id e ns ≡ some (x, ns')
    → settle handle e is_new (record { error = duplicate_id; element = some id; handlespace = ns })
      ≡ some (record { error = x; element = some id; handlespace = ns' })
unfolding settle
settle_known handle e is_new id x ns ns' h = rw (h, settle) refl

settle_refused :
    (handle : List ℕ) (e : PoolElementNode) (x : Error) (is_new : Bool)
    (ns ns1 : PoolHandlespaceNode)
    → ((is_new ≡ true) × (remove_pool handle ns1 ≡ some ns)) ⊎ ((is_new ≡ false) × (ns1 ≡ ns))
    → settle handle e is_new (record { error = x; element = none; handlespace = ns1 })
      ≡ some (record { error = x; element = none; handlespace = ns })
unfolding settle
settle_refused handle e x is_new ns ns1 (inl (t, q)) = rw (t, settle, q) refl
settle_refused handle e x is_new ns ns1 (inr (f, q)) =
    rw f (ap (λ n. some (record { error = x; element = none; handlespace = n })) q)

register-settle :
    (handle : List ℕ) (e : PoolElementNode) (ns : PoolHandlespaceNode) (is_new : Bool)
    (r : Registered)
    → add_element handle e ns ≡ some r
    → register handle e (is_new, ns) ≡ settle handle e is_new r
unfolding register
register-settle handle e ns is_new r h = rw (h, register) refl

add_or_update-steps :
    (pool : PoolNode) (e : PoolElementNode) (ns ns1 : PoolHandlespaceNode) (is_new : Bool)
    (r : Registered)
    → add_pool pool ns ≡ (is_new, ns1)
    → add_element pool.handle e ns1 ≡ some r
    → add_or_update pool e ns ≡ settle pool.handle e is_new r
unfolding add_or_update
add_or_update-steps pool e ns ns1 is_new r q h =
    ap (register pool.handle e) q ∙ register-settle pool.handle e ns1 is_new r h

-- A known element is updated.
update_known :
    (handle : List ℕ) (e : PoolElementNode) (is_new : Bool) (ns ns1 : PoolHandlespaceNode)
    (p : PoolNode) (old : PoolElementNode)
    → IsValid ns1
    → entries ns1.pools ≡ entries ns.pools
    → element_at handle e.identifier ns1.pools ≡ some (p, old)
    → check_compatibility p e ≡ okay
    → (r : Registered) × (settle handle e is_new
          (record { error = duplicate_id; element = some e.identifier; handlespace = ns1 })
        ≡ some r)
      × IsValid r.handlespace
      × Registering handle e ns r
update_known handle e is_new ns ns1 p old v same h c =
    let (ns', q, refusal, changes) =
      update_element-Changes ns1 handle e.identifier p old e v h
        (check_compatibility-is_valid p e c) in
    let x = check_compatibility p old in
    let r : Registered = record { error = x; element = some e.identifier; handlespace = ns' } in
    let s = settle_known handle e is_new e.identifier x ns1 ns' q in
    elim (Error-okay x) [
      | inl k ↦
          let y = changes k in
          (
            r,
            s,
            y.valid,
            Registering.updated (account old) k refl (
                Changes-before handle e.identifier (account old) (updated_by handle e (account old))
                  ns ns1 ns' (subst (Perm (entries ns.pools)) (sym same) (Perm.refl _)) y),
          )
      | inr n ↦ (
        r,
        s,
        subst IsValid (sym (refusal n)) v,
        Registering.kept n refl (ap (λ n. entries n.pools) (refusal n) ∙ same),
      )
    ]

-- A new element is entered in the books.
create_new :
    (handle : List ℕ) (e : PoolElementNode) (is_new : Bool) (ns ns1 ns2 : PoolHandlespaceNode)
    → entries ns1.pools ≡ entries ns.pools
    → Entered handle e ns1 ns2
    → (r : Registered) × (settle handle e is_new
          (record { error = okay; element = some e.identifier; handlespace = ns2 })
        ≡ some r)
      × IsValid r.handlespace
      × Registering handle e ns r
create_new handle e is_new ns ns1 ns2 same t =
    let b = booked handle (account t.element) in
    let given : booked handle (account e) ≡ b = ap (booked handle) (sym t.same_account) in
    let (ns', q, v, π) =
      begin_account-Credited ns2 handle e.identifier t.pool t.element (entries ns1.pools) t.sorted
        t.pools_valid t.there
        (subst (λ b. Perm (entries ns2.pools) (b ∷ entries ns1.pools)) given t.more) t.sums
        (subst (λ b. Linked ns2 (b ∷ entries ns1.pools)) given t.links) in
    (
      record { error = okay; element = some e.identifier; handlespace = ns' },
      settle_new handle e is_new e.identifier ns2 ns' q,
      v,
      Registering.created refl refl (
          subst (λ bs. Perm (entries ns'.pools) (booked handle (credited handle (account e)) ∷ bs))
            same
            (subst
              (λ a.
                Perm (entries ns'.pools) (booked handle (credited handle a) ∷ entries ns1.pools))
              t.same_account π)),
    )

pub add_or_update-IsValid :
    (pool : PoolNode) (e : PoolElementNode) (ns : PoolHandlespaceNode)
    → IsValid ns
    → All HasRoom ns.pools
    → PoolNode.Invariant.IsValid pool
    → pool.selection ≡ []
    → (r : Registered) × (add_or_update pool e ns ≡ some r)
      × IsValid r.handlespace
      × Registering pool.handle e ns r
add_or_update-IsValid pool e ns v rooms vp empty =
    let h = pool.handle in
    let (is_new, ns1, p, q, d) = add_pool-Readied pool ns v rooms vp empty in
    let room = (pool_at-Focus h ns1.pools p d.pool_found).everywhere HasRoom d.rooms in
    let (r, s, o) = add_element-Entering ns1 h e p d.valid d.pool_found room in
    let steps = add_or_update-steps pool e ns ns1 is_new r q s in
    elim o [
      | Entering.refused x n same ↦ (
        record { error = x; element = none; handlespace = ns },
        steps ∙ ap (settle h e is_new) same ∙ settle_refused h e x is_new ns ns1 d.undone,
        v,
        Registering.refused n refl refl,
      )
      | Entering.duplicate p' old there c same ↦
          let (r', t, w, k) =
            update_known h e is_new ns ns1 p' old d.valid d.same_entries there c in
          (r', steps ∙ ap (settle h e is_new) same ∙ t, w, k)
      | Entering.entered ns2 t same ↦
          let (r', t', w, k) = create_new h e is_new ns ns1 ns2 d.same_entries t in
          (r', steps ∙ ap (settle h e is_new) same ∙ t', w, k)
    ]
