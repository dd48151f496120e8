-- ===== src/HandlespaceNode/Registration.antt =====
-- src/poolhandlespacenode-template_impl.h: pools and elements enter the handlespace; a selection;
-- the checksum computed anew.
use rsplib.Base.{ℕ, ◌+◌, Bool, true, false, Option, none, some, List, [], ◌∷◌, Ordering, lt, eq, gt}
use rsplib.PoolElement.{PoolElementNode}
use rsplib.PoolElement.Storages.{compute_checksum}
use rsplib.PoolHandle.{comparison}
use rsplib.PoolNode.{PoolNode, Added, Error, okay, duplicate_id, find}
use rsplib.PoolNode
use rsplib.PoolNode.Select.{select_by_sorting_order, select_by_value_tree}
use rsplib.PoolPolicy.{by_sorting_order, by_value_tree}
use rsplib.Checksum
use rsplib.Storage.{Insertion, linked, found}
use rsplib.Storage
use rsplib.HandlespaceNode.{
  PoolHandlespaceNode, pool_comparison, pool_at, find_pool, put_pool, element_at, write_element,
  credit, notify, create,
}
use rsplib.HandlespaceNode.Elements.{link_ownership, link_connection, set_new, update_element}

-- poolHandlespaceNodeAddPoolNode: whether the given pool is linked, and the handlespace.
unfoldable pub add_pool : PoolNode → PoolHandlespaceNode → Bool × PoolHandlespaceNode
unfolding Storage.insert pool_comparison
add_pool pool ns = elim (Storage.insert pool_comparison pool ns.pools) [
  | linked ps ↦ (true, record ns { pools = ps })
  | found p ↦ (false, ns)
]

abbrev pub is_eq : Ordering → Bool
is_eq lt = false
is_eq eq = true
is_eq gt = false

-- poolHandlespaceNodeRemovePoolNode
unfoldable pub remove_pool : List ℕ → PoolHandlespaceNode → Option PoolHandlespaceNode
unfolding Storage.remove comparison
remove_pool handle ns =
    elim (Storage.remove (λ (p : PoolNode). is_eq (comparison handle p.handle)) ns.pools) [
      | none ↦ none
      | some (p, ps) ↦ some (record ns { pools = ps })
    ]

-- The outcome of poolHandlespaceNodeAddPoolElementNode and of
-- poolHandlespaceNodeAddOrUpdatePoolElementNode: the error code, the identifier of the element that
-- it returns a pointer to, if any, and the handlespace.
pub record Registered : Type 0 where
  pub error : Error
  pub element : Option ℕ
  pub handlespace : PoolHandlespaceNode

-- poolHandlespaceNodeAddPoolElementNode, behind poolNodeAddPoolElementNode: the element that the
-- pool returns is the given one if there is no error.
unfoldable pub link_element :
    List ℕ → PoolElementNode → PoolHandlespaceNode → Option PoolHandlespaceNode
unfolding link_ownership link_connection
link_element handle e ns = elim (link_ownership handle e ns.ownerships) [
  | none ↦ none
  | some os ↦ elim (link_connection handle e ns.connections) [
    | none ↦ none
    | some cs ↦
        some (record ns { pool_elements = ns.pool_elements + 1; ownerships = os; connections = cs })
  ]
]

unfoldable pub enter : List ℕ → PoolElementNode → PoolHandlespaceNode → Added → Option Registered
unfolding link_element put_pool
enter handle e ns r =
    let ns' : PoolHandlespaceNode = record ns { pools = put_pool r.pool ns.pools } in
    elim r.error [
      | okay ↦ elim (link_element handle e ns') [
        | none ↦ none
        | some ns'' ↦ some (record { error = okay; element = r.element; handlespace = ns'' })
      ]
      | error ↦ some (record { error = error; element = r.element; handlespace = ns' })
    ]

-- poolHandlespaceNodeAddPoolElementNode
unfoldable pub add_element : List ℕ → PoolElementNode → PoolHandlespaceNode → Option Registered
unfolding pool_at PoolNode.add enter
add_element handle e ns = elim (pool_at handle ns.pools) [
  | none ↦ none
  | some p ↦ elim (PoolNode.add p e) [ none ↦ none | some r ↦ enter handle e ns r ]
]

-- poolHandlespaceNodeAddOrUpdatePoolElementNode, "New PE entry"
unfoldable pub begin_account : List ℕ → ℕ → PoolHandlespaceNode → Option PoolHandlespaceNode
unfolding element_at write_element compute_checksum credit notify set_new
begin_account handle id ns = elim (element_at handle id ns.pools) [
  | none ↦ none
  | some (p, e) ↦
      let e' : PoolElementNode = record e {
        checksum = compute_checksum (record { handle = p.handle; element = e });
      } in
      set_new true handle id (
        notify
          (record {
            action = create;
            handle = p.handle;
            element = e';
            pre_update_checksum = 0;
            pre_update_home_registrar = 0;
          })
          (credit e'.home_registrar_identifier e'.checksum (write_element p e' ns)))
]

-- poolHandlespaceNodeAddOrUpdatePoolElementNode, behind poolHandlespaceNodeAddPoolElementNode: the
-- element that it returns is the given one if there is no error, and another one if there is one
-- with the identifier.
unfoldable pub settle :
    List ℕ → (source : PoolElementNode) → (is_new_pool : Bool) → Registered → Option Registered
unfolding begin_account update_element remove_pool
settle handle e is_new_pool r = elim r.element [
  | some id ↦ elim r.error [
    | okay ↦ elim (begin_account handle id r.handlespace) [
      | none ↦ none
      | some ns ↦ some (record { error = okay; element = some id; handlespace = ns })
    ]
    | other ↦ elim (update_element handle id e r.handlespace) [
      | none ↦ none
      | some (error, ns) ↦ some (record { error = error; element = some id; handlespace = ns })
    ]
  ]
  | none ↦ elim is_new_pool [
    | false ↦ some r
    | true ↦ elim (remove_pool handle r.handlespace) [
      | none ↦ none
      | some ns ↦ some (record { error = r.error; element = none; handlespace = ns })
    ]
  ]
]

-- poolHandlespaceNodeAddOrUpdatePoolElementNode, behind poolHandlespaceNodeAddPoolNode
unfoldable pub register : List ℕ → PoolElementNode → Bool × PoolHandlespaceNode → Option Registered
unfolding add_element settle
register handle e (is_new_pool, ns) = elim (add_element handle e ns) [
  | none ↦ none
  | some r ↦ settle handle e is_new_pool r
]

-- poolHandlespaceNodeAddOrUpdatePoolElementNode
unfoldable pub add_or_update : PoolNode → PoolElementNode → PoolHandlespaceNode → Option Registered
unfolding add_pool register
add_or_update pool e ns = register pool.handle e (add_pool pool ns)

-- poolHandlespaceNodeSelectPoolElementNodesByPolicy: `none` within `some` is RSPERR_NOT_FOUND.
unfoldable pub select_elements : (ℕ → ℕ) → PoolNode → ℕ → ℕ → Option (List ℕ × PoolNode)
unfolding select_by_sorting_order select_by_value_tree
select_elements random pool max_nodes max_increment = elim pool.policy.selection [
  | by_sorting_order ↦ select_by_sorting_order pool max_nodes max_increment
  | by_value_tree ↦ select_by_value_tree random pool max_nodes max_increment
]

unfoldable pub select_by_policy :
    (ℕ → ℕ)
    → List ℕ
    → (max_nodes max_increment : ℕ) → PoolHandlespaceNode
    → Option (Option (List ℕ) × PoolHandlespaceNode)
unfolding find_pool select_elements put_pool
select_by_policy random handle max_nodes max_increment ns = elim (find_pool handle ns.pools) [
  | none ↦ none
  | some pool ↦ elim pool [
    | none ↦ some (none, ns)
    | some p ↦ elim (select_elements random p max_nodes max_increment) [
      | none ↦ none
      | some (chosen, p') ↦ some (some chosen, record ns { pools = put_pool p' ns.pools })
    ]
  ]
]

-- poolHandlespaceNodeComputeHandlespaceChecksum: the loop over the elements of one pool, in the
-- order of the index storage, and the loop over the pools.
unfoldable pub sum_elements : PoolNode → List ℕ → ℕ → ℕ
unfolding find compute_checksum Checksum.add
sum_elements p [] sum = sum
sum_elements p (id ∷ ids) sum = elim (find p id) [
  | none ↦ sum
  | some e ↦
      sum_elements p ids
        (Checksum.add sum (compute_checksum (record { handle = p.handle; element = e })))
]

unfoldable pub sum_pools : List PoolNode → ℕ → ℕ
unfolding sum_elements
sum_pools [] sum = sum
sum_pools (p ∷ ps) sum = sum_pools ps (sum_elements p p.index sum)

unfoldable pub compute_handlespace_checksum : PoolHandlespaceNode → ℕ
unfolding sum_pools
compute_handlespace_checksum ns = sum_pools ns.pools 0
