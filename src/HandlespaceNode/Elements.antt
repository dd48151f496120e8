-- ===== src/HandlespaceNode/Elements.antt =====
-- src/poolhandlespacenode-template_impl.h: the operations on the elements of the handlespace.
use rsplib.Base.{
  ℕ, ◌-◌, ◌&&◌, ltb, Bool, true, false, Option, none, some, List, ◌==◌, lt, eq, gt, if◌then◌else◌,
  compare, ℤ, compare_int, is_positive,
}
use rsplib.PoolElement.{PoolElementNode}
use rsplib.PoolElement.Storages.{compute_checksum}
use rsplib.PoolNode.{PoolNode, Added, Error, okay, duplicate_id, find_element, replace}
use rsplib.PoolNode
use rsplib.Storage.{linked, found}
use rsplib.Storage
use rsplib.HandlespaceNode.{
  PoolHandlespaceNode, pool_at, put_pool, element_at, write_element, discount, credit, notify,
  delete, update,
}
use rsplib.HandlespaceNode.Links.{
  Link, Connection, compare_connections, unlink_node, link_node, links_to,
}

-- poolHandlespaceNodeActivateTimer: CHECK(!IsLinked) and the insertion.
unfoldable pub activate_timer :
    List ℕ
    → ℕ
    → (timer_code timer_time_stamp : ℕ) → PoolHandlespaceNode
    → Option PoolHandlespaceNode
unfolding element_at write_element link_node links_to Storage.remove
activate_timer handle id code stamp ns = elim (element_at handle id ns.pools) [
  | none ↦ none
  | some (p, e) ↦ elim (Storage.remove (links_to handle id) ns.timers) [
    | some l ↦ none
    | none ↦ elim (link_node compare stamp handle id ns.timers) [
      | found l ↦ none
      | linked ls ↦ some (
          write_element p (record e { timer_code = code; timer_time_stamp = stamp })
            (record ns { timers = ls }))
    ]
  ]
]

-- poolHandlespaceNodeDeactivateTimer
unfoldable pub deactivate_timer : List ℕ → ℕ → PoolHandlespaceNode → PoolHandlespaceNode
unfolding unlink_node
deactivate_timer handle id ns = record ns { timers = unlink_node handle id ns.timers }

-- poolHandlespaceNodeUpdateOwnershipOfPoolElementNode, "Change ownership": the element and the
-- ownership storage after it.
unfoldable pub change_home :
    List ℕ → PoolElementNode → ℕ → List (Link ℕ) → Option (PoolElementNode × List (Link ℕ))
unfolding unlink_node link_node
change_home handle e home ls =
    if home == e.home_registrar_identifier
    then some (
      record e {
        flags = record { marked = e.flags.marked; updated = false; is_new = e.flags.is_new };
      },
      ls,
    )
    else elim (link_node compare home handle e.identifier (unlink_node handle e.identifier ls)) [
      | found l ↦ none
      | linked ls' ↦ some (
        record e {
          flags = record { marked = e.flags.marked; updated = true; is_new = e.flags.is_new };
          home_registrar_identifier = home;
        },
        ls',
      )
    ]

-- "Update handlespace checksum" and the notification. `e` is the element as it was, `e'` as it is
-- behind "Change ownership".
unfoldable pub update_checksum :
    PoolNode → (e e' : PoolElementNode) → PoolHandlespaceNode → Option PoolHandlespaceNode
unfolding discount credit compute_checksum notify write_element
update_checksum p e e' ns = elim (discount e.home_registrar_identifier e.checksum ns) [
  | none ↦ none
  | some ns' ↦
      let e'' : PoolElementNode = record e' {
        checksum = compute_checksum (record { handle = p.handle; element = e' });
      } in
      some (
        notify
          (record {
            action = update;
            handle = p.handle;
            element = e'';
            pre_update_checksum = e.checksum;
            pre_update_home_registrar = e.home_registrar_identifier;
          })
          (credit e''.home_registrar_identifier e''.checksum (write_element p e'' ns')))
]

-- poolHandlespaceNodeUpdateOwnershipOfPoolElementNode
unfoldable pub update_ownership :
    List ℕ → ℕ → (home : ℕ) → PoolHandlespaceNode → Option PoolHandlespaceNode
unfolding element_at change_home update_checksum
update_ownership handle id home ns = elim (element_at handle id ns.pools) [
  | none ↦ none
  | some (p, e) ↦ elim (change_home handle e home ns.ownerships) [
    | none ↦ none
    | some (e', ls) ↦ update_checksum p e e' (record ns { ownerships = ls })
  ]
]

-- `if(ConnectionSocketDescriptor > 0) ST_METHOD(Insert)(&PoolElementConnectionStorage, ...)`
unfoldable pub link_connection :
    List ℕ → PoolElementNode → List (Link Connection) → Option (List (Link Connection))
unfolding link_node
link_connection handle e ls =
    if is_positive e.connection_socket_descriptor
    then elim (link_node compare_connections
        (record {
          socket_descriptor = e.connection_socket_descriptor;
          assoc_id = e.connection_assoc_id;
        })
        handle e.identifier ls) [ found l ↦ none | linked ls' ↦ some ls' ]
    else some ls

-- `if(HomeRegistrarIdentifier != 0) ST_METHOD(Insert)(&PoolElementOwnershipStorage, ...)`
unfoldable pub link_ownership : List ℕ → PoolElementNode → List (Link ℕ) → Option (List (Link ℕ))
unfolding link_node
link_ownership handle e ls =
    if e.home_registrar_identifier == 0
    then some ls
    else elim (link_node compare e.home_registrar_identifier handle e.identifier ls) [
      | found l ↦ none
      | linked ls' ↦ some ls'
    ]

abbrev pub same_int : ℤ → ℤ → Bool
same_int a b = elim (compare_int a b) [ lt ↦ false | eq ↦ true | gt ↦ false ]

-- poolHandlespaceNodeUpdateConnectionOfPoolElementNode
unfoldable pub update_connection :
    List ℕ
    → ℕ
    → (connection_socket_descriptor : ℤ) → (connection_assoc_id : ℕ) → PoolHandlespaceNode
    → Option PoolHandlespaceNode
unfolding element_at unlink_node link_connection write_element
update_connection handle id socket assoc ns = elim (element_at handle id ns.pools) [
  | none ↦ none
  | some (p, e) ↦
      let e' : PoolElementNode = record e {
        connection_socket_descriptor = socket;
        connection_assoc_id = assoc;
      } in
      if same_int socket e.connection_socket_descriptor && assoc == e.connection_assoc_id
      then some ns
      else elim (link_connection handle e' (unlink_node handle id ns.connections)) [
        | none ↦ none
        | some ls ↦ some (write_element p e' (record ns { connections = ls }))
      ]
]

-- `Flags &= ~PENF_NEW`, and `Flags |= PENF_NEW`
unfoldable pub set_new : Bool → List ℕ → ℕ → PoolHandlespaceNode → Option PoolHandlespaceNode
unfolding element_at write_element
set_new is_new handle id ns = elim (element_at handle id ns.pools) [
  | none ↦ none
  | some (p, e) ↦ some (
      write_element p
        (record e {
          flags = record { marked = e.flags.marked; updated = e.flags.updated; is_new = is_new };
        })
        ns)
]

-- poolHandlespaceNodeUpdatePoolElementNode, behind the update of the pool
unfoldable pub update_relations :
    List ℕ → ℕ → (source : PoolElementNode) → PoolHandlespaceNode → Option PoolHandlespaceNode
unfolding update_connection update_ownership set_new
update_relations handle id source ns =
    elim (update_connection handle id source.connection_socket_descriptor source.connection_assoc_id
      ns) [
        | none ↦ none
        | some ns1 ↦ elim (update_ownership handle id source.home_registrar_identifier ns1) [
          | none ↦ none
          | some ns2 ↦ set_new false handle id ns2
        ]
      ]

-- poolHandlespaceNodeUpdatePoolElementNode
unfoldable pub update_element :
    List ℕ
    → ℕ
    → (source : PoolElementNode) → PoolHandlespaceNode
    → Option (Error × PoolHandlespaceNode)
unfolding element_at PoolNode.update update_relations put_pool
update_element handle id source ns = elim (element_at handle id ns.pools) [
  | none ↦ none
  | some (p, e) ↦ elim (PoolNode.update p e source) [
    | none ↦ none
    | some (okay, p') ↦
        elim (update_relations handle id source (record ns { pools = put_pool p' ns.pools })) [
          | none ↦ none
          | some ns' ↦ some (okay, ns')
        ]
    | some (error, p') ↦ some (error, record ns { pools = put_pool p' ns.pools })
  ]
]

-- poolHandlespaceNodeRemovePoolElementNode, behind the removal from the pool: `e` is the element.
unfoldable pub forget :
    List ℕ
    → (e : PoolElementNode) → PoolHandlespaceNode
    → Option (PoolElementNode × PoolHandlespaceNode)
unfolding discount notify
forget handle e ns =
    let rest =
      discount e.home_registrar_identifier e.checksum
        (record ns { pool_elements = ns.pool_elements - 1 }) in
    if ltb 0 ns.pool_elements
    then elim rest [
      | none ↦ none
      | some ns' ↦ some (
        e,
        notify
            (record {
              action = delete;
              handle = handle;
              element = e;
              pre_update_checksum = e.checksum;
              pre_update_home_registrar = e.home_registrar_identifier;
            })
            ns',
      )
    ]
    else none

-- poolHandlespaceNodeRemovePoolElementNode: the element, and the handlespace without it.
unfoldable pub remove_element :
    List ℕ → ℕ → PoolHandlespaceNode → Option (PoolElementNode × PoolHandlespaceNode)
unfolding pool_at unlink_node PoolNode.remove put_pool forget
remove_element handle id ns = elim (pool_at handle ns.pools) [
  | none ↦ none
  | some p ↦ elim (PoolNode.remove id p) [
    | none ↦ none
    | some (e, p') ↦ forget handle e (record ns {
      pools = put_pool p' ns.pools;
      timers = unlink_node handle id ns.timers;
      ownerships = unlink_node handle id ns.ownerships;
      connections = unlink_node handle id ns.connections;
    })
  ]
]
