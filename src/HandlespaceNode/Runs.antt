-- ===== src/HandlespaceNode/Runs.antt =====
-- The operations on the handlespace, one after another.
use rsplib.Base.{
  ℕ, ℤ, List, [], ◌≡◌, ap, inl, inr, none, true, subst, ◌∙◌, sym, some, All, Bool, Option,
}
use rsplib.PolicySettings.{is_valid}
use rsplib.PoolElement.{PoolElementNode}
use rsplib.PoolNode.{PoolNode, Error, okay, check_compatibility}
use rsplib.PoolNode
use rsplib.PoolNode.Adding.{Error-okay}
use rsplib.PoolNode.Invariant
use rsplib.HandlespaceNode.{PoolHandlespaceNode, new, element_at}
use rsplib.HandlespaceNode.Connecting.{update_connection-Changes}
use rsplib.HandlespaceNode.Computing.{compute_handlespace_checksum-kept}
use rsplib.HandlespaceNode.Elements.{
  activate_timer, deactivate_timer, update_ownership, update_connection, update_element,
  remove_element,
}
use rsplib.HandlespaceNode.Invariant.{IsValid, new-IsValid}
use rsplib.HandlespaceNode.Owning.{update_ownership-Changes}
use rsplib.HandlespaceNode.Pools.{HasRoom}
use rsplib.HandlespaceNode.Registering.{add_or_update-IsValid}
use rsplib.HandlespaceNode.Registration.{
  Registered, add_or_update, select_by_policy, compute_handlespace_checksum,
}
use rsplib.HandlespaceNode.Removing.{remove_element-IsValid}
use rsplib.HandlespaceNode.Selecting.{
  HasNumbers, select_by_policy-new, select_by_policy-one, select_checked,
}
use rsplib.HandlespaceNode.Updating.{update_element-Changes}
use rsplib.HandlespaceNode.Timers.{
  activate_timer-idle, activate_timer-Changes, deactivate_timer-IsValid,
}

-- One operation that ends, on an element that is there where it takes a pointer to one. A registration
-- is for a valid and empty pool, while the pools of the handlespace have room for one more element;
-- the source of an update has valid settings; and a selection is made while the pools have room for
-- the sequence numbers.
pub data Step (ns : PoolHandlespaceNode) : PoolHandlespaceNode → Type 0 where
  register :
      (pool : PoolNode) (e : PoolElementNode) (r : Registered)
      → All HasRoom ns.pools
      → PoolNode.Invariant.IsValid pool
      → pool.selection ≡ []
      → add_or_update pool e ns ≡ some r
      → Step ns r.handlespace
  remove :
      (handle : List ℕ) (id : ℕ) (p : PoolNode) (e e' : PoolElementNode) {ns' : PoolHandlespaceNode}
      → element_at handle id ns.pools ≡ some (p, e)
      → remove_element handle id ns ≡ some (e', ns')
      → Step ns ns'
  update :
      (handle : List ℕ) (id : ℕ) (p : PoolNode) (e source : PoolElementNode) (x : Error)
      {ns' : PoolHandlespaceNode}
      → element_at handle id ns.pools ≡ some (p, e)
      → is_valid source.policy_settings ≡ true
      → update_element handle id source ns ≡ some (x, ns')
      → Step ns ns'
  move :
      (handle : List ℕ) (id home : ℕ) (p : PoolNode) (e : PoolElementNode)
      {ns' : PoolHandlespaceNode}
      → element_at handle id ns.pools ≡ some (p, e)
      → update_ownership handle id home ns ≡ some ns'
      → Step ns ns'
  connect :
      (handle : List ℕ) (id : ℕ) (socket : ℤ) (assoc : ℕ) (p : PoolNode) (e : PoolElementNode)
      {ns' : PoolHandlespaceNode}
      → element_at handle id ns.pools ≡ some (p, e)
      → update_connection handle id socket assoc ns ≡ some ns'
      → Step ns ns'
  start_timer :
      (handle : List ℕ) (id code stamp : ℕ) (p : PoolNode) (e : PoolElementNode)
      {ns' : PoolHandlespaceNode}
      → element_at handle id ns.pools ≡ some (p, e)
      → activate_timer handle id code stamp ns ≡ some ns'
      → Step ns ns'
  stop_timer : (handle : List ℕ) (id : ℕ) → Step ns (deactivate_timer handle id ns)
  select :
      (random : ℕ → ℕ) (handle : List ℕ) (max_nodes max_increment : ℕ) (chosen : Option (List ℕ))
      {ns' : PoolHandlespaceNode}
      → All (HasNumbers max_nodes) ns.pools
      → select_by_policy random handle max_nodes max_increment ns ≡ some (chosen, ns')
      → Step ns ns'

-- What comes of a new handlespace.
pub data Reached (home : ℕ) (notifies : Bool) : PoolHandlespaceNode → Type 0 where
  begin : Reached home notifies (new home notifies)
  next :
      {ns ns' : PoolHandlespaceNode}
      → Reached home notifies ns
      → Step ns ns'
      → Reached home notifies ns'

abbrev or_else {ℓ} : {A : Type ℓ} → A → Option A → A
or_else a none = a
or_else a (some b) = b

-- What holds of the result that an operation has holds of the one that it was found to have.
agree {ℓ κ} :
    {A : Type ℓ} (P : A → Type κ) {x : Option A} {a b : A} → x ≡ some a → x ≡ some b → P a → P b
agree P {a = a} p q h = subst P (ap (or_else a) (sym p ∙ q)) h

Step-IsValid : {ns ns' : PoolHandlespaceNode} → IsValid ns → Step ns ns' → IsValid ns'
Step-IsValid {ns} v (Step.register pool e r rooms vp empty q) =
    let (r', q', w, _) = add_or_update-IsValid pool e ns v rooms vp empty in
    agree (λ (r : Registered). IsValid r.handlespace) q' q w
Step-IsValid {ns} v (Step.remove handle id p e e' h q) =
    let (_, _, q', w, _, _, _) = remove_element-IsValid ns handle id p e v h in
    agree (λ (x : PoolElementNode × PoolHandlespaceNode). IsValid x.1) q' q w
Step-IsValid {ns} v (Step.update handle id p e source x h ok q) =
    let (ns1, q', refusal, changes) = update_element-Changes ns handle id p e source v h ok in
    let w : IsValid ns1 = elim (Error-okay (check_compatibility p e)) [
      | inl c ↦ (changes c).valid
      | inr n ↦ subst IsValid (sym (refusal n)) v
    ] in
    agree (λ (x : Error × PoolHandlespaceNode). IsValid x.1) q' q w
Step-IsValid {ns} v (Step.move handle id home p e h q) =
    let (ns1, q', c) = update_ownership-Changes ns handle id p e home v h in
    agree IsValid q' q c.valid
Step-IsValid {ns} v (Step.connect handle id socket assoc p e h q) =
    let (ns1, q', c) = update_connection-Changes ns handle id p e socket assoc v h in
    agree IsValid q' q c.valid
Step-IsValid {ns} v (Step.start_timer handle id code stamp p e h q) =
    let idle = activate_timer-idle ns _ handle id p e code stamp h q in
    let (ns1, q', c) = activate_timer-Changes ns handle id p e code stamp v h idle in
    agree IsValid q' q c.valid
Step-IsValid {ns} v (Step.stop_timer handle id) = (deactivate_timer-IsValid ns handle id v).0
Step-IsValid {ns} {ns'} v (Step.select random handle n inc chosen room q) =
    let new = select_by_policy-new random handle n inc ns (chosen, ns') q in
    elim (select_by_policy-one random handle n inc ns ns' chosen new q) [
      | inr same ↦ subst IsValid same v
      | inl one ↦
          let (_, ns1, q', w, _, _) = select_checked random handle n inc ns v new one room in
          agree (λ (x : Option (List ℕ) × PoolHandlespaceNode). IsValid x.1) q' q w
    ]

-- Every handlespace that comes of a new one by a sequence of steps is valid, and the checksum that it
-- keeps is the one that is computed anew over all its elements. A step is an operation that ends: a
-- registration for a valid and empty pool, while the pools have room for one more element; the
-- removal of an element, a change of its home registrar or its connection, the update by a source with
-- valid settings, the start or the stop of its timer; or a selection, while the pools have room for
-- the sequence numbers.
pub Reached-IsValid :
    (home : ℕ) (notifies : Bool) (ns : PoolHandlespaceNode)
    → Reached home notifies ns
    → IsValid ns × (compute_handlespace_checksum ns ≡ ns.handlespace_checksum)
Reached-IsValid home notifies ns r = let v = valid r in (v, compute_handlespace_checksum-kept ns v)
  where
    valid : {ns : PoolHandlespaceNode} → Reached home notifies ns → IsValid ns
    valid Reached.begin = new-IsValid home notifies
    valid (Reached.next r s) = Step-IsValid (valid r) s
