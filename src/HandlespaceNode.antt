-- ===== src/HandlespaceNode.antt =====
-- src/poolhandlespacenode-template.h and src/poolhandlespacenode-template_impl.h: the handlespace,
-- that is its pools, the storages of their elements by timer, ownership and connection, and the
-- checksums. A pointer to an element is the handle of its pool with its identifier. The result
-- `none` is a failed CHECK, which ends the program.
pub mod Links
pub mod Elements
pub mod Registration
pub mod Books
pub mod LinkOrders
pub mod Linking
pub mod Unlinking
pub mod Focus
pub mod Distinct
pub mod Invariant
pub mod Accounting
pub mod Places
pub mod Writing
pub mod Timers
pub mod Owning
pub mod Connecting
pub mod Updating
pub mod Removing
pub mod Pools
pub mod Fresh
pub mod Crediting
pub mod Entering
pub mod Registering
pub mod Computing
pub mod Selecting
pub mod Runs
mod Tests
use rsplib.Base.{
  ℕ, ◌+◌, ◌-◌, ltb, Bool, Option, none, some, List, [], ◌∷◌, Ordering, lt, eq, gt, ◌==◌,
  if◌then◌else◌, map,
}
use rsplib.PoolElement.{PoolElementNode, Account, account}
use rsplib.PoolElement.Storages.{compute_checksum}
use rsplib.PoolHandle.{comparison}
use rsplib.PoolHandle
use rsplib.PoolNode.{PoolNode, find_element, replace}
use rsplib.Checksum
use rsplib.Storage.{Insertion, linked, found}
use rsplib.Storage
use rsplib.HandlespaceNode.Links.{Link, Connection}

-- enum PoolNodeUpdateAction of src/poolhandlespacemanagement-basics.h
pub data PoolNodeUpdateAction : Type 0 where
  create delete update : PoolNodeUpdateAction

-- A call of PoolNodeUpdateNotification: what it is told.
pub record Notification : Type 0 where
  pub action : PoolNodeUpdateAction
  pub handle : List ℕ
  pub element : PoolElementNode
  pub pre_update_checksum : ℕ
  pub pre_update_home_registrar : ℕ

-- `notifies` tells whether the pointer PoolNodeUpdateNotification is set; `notifications` holds the
-- calls made through it, the last one first.
pub record PoolHandlespaceNode : Type 0 where
  pub pools : List PoolNode
  pub timers : List (Link ℕ)
  pub connections : List (Link Connection)
  pub ownerships : List (Link ℕ)
  pub handlespace_checksum : ℕ
  pub ownership_checksum : ℕ
  pub home_registrar_identifier : ℕ
  pub pool_elements : ℕ
  pub owned_pool_elements : ℕ
  pub notifies : Bool
  pub notifications : List Notification

-- poolHandlespaceNodeNew. INITIAL_HANDLESPACE_CHECKSUM is 0.
unfoldable pub new : ℕ → Bool → PoolHandlespaceNode
new home notifies = record {
  pools = [];
  timers = [];
  connections = [];
  ownerships = [];
  handlespace_checksum = 0;
  ownership_checksum = 0;
  home_registrar_identifier = home;
  pool_elements = 0;
  owned_pool_elements = 0;
  notifies = notifies;
  notifications = [];
}

-- poolIndexStorageNodeComparison of src/poolnode-template_impl.h
unfoldable pub pool_comparison : PoolNode → PoolNode → Ordering
unfolding comparison
pool_comparison a b = comparison a.handle b.handle

-- The pool that the index storage finds for a handle. A pointer to a pool leads there by the handle.
unfoldable pub pool_at : List ℕ → List PoolNode → Option PoolNode
unfolding comparison
pool_at handle [] = none
pool_at handle (p ∷ ps) = elim (comparison handle p.handle) [
  | lt ↦ none
  | eq ↦ some p
  | gt ↦ pool_at handle ps
]

-- poolHandlespaceNodeFindPoolNode: poolHandleNew checks the size of the handle.
unfoldable pub find_pool : List ℕ → List PoolNode → Option (Option PoolNode)
unfolding PoolHandle.new pool_at
find_pool handle pools = elim (PoolHandle.new handle) [
  | none ↦ none
  | some key ↦ some (pool_at key pools)
]

-- A pool is changed where it stands in the index storage.
unfoldable pub put_pool : PoolNode → List PoolNode → List PoolNode
unfolding comparison
put_pool p' [] = []
put_pool p' (p ∷ ps) = elim (comparison p'.handle p.handle) [
  | lt ↦ p ∷ put_pool p' ps
  | eq ↦ p' ∷ ps
  | gt ↦ p ∷ put_pool p' ps
]

-- What a pointer to an element points to, with the pool that owns it.
unfoldable pub element_at : List ℕ → ℕ → List PoolNode → Option (PoolNode × PoolElementNode)
unfolding pool_at find_element
element_at handle id pools = elim (pool_at handle pools) [
  | none ↦ none
  | some p ↦ elim (find_element id p.selection) [ none ↦ none | some e ↦ some (p, e) ]
]

-- An element is written where it stands.
unfoldable pub write_element :
    PoolNode → PoolElementNode → PoolHandlespaceNode → PoolHandlespaceNode
unfolding put_pool replace
write_element p e ns = record ns {
  pools = put_pool (record p { selection = replace e p.selection }) ns.pools;
}

-- The checksum of an element leaves the checksums of the handlespace, and enters them.
unfoldable pub discount : (home checksum : ℕ) → PoolHandlespaceNode → Option PoolHandlespaceNode
unfolding Checksum.sub
discount home checksum ns =
    let ns' : PoolHandlespaceNode = record ns {
      handlespace_checksum = Checksum.sub ns.handlespace_checksum checksum;
    } in
    if home == ns.home_registrar_identifier
    then (if ltb 0 ns.owned_pool_elements
        then some (record ns' {
          owned_pool_elements = ns.owned_pool_elements - 1;
          ownership_checksum = Checksum.sub ns.ownership_checksum checksum;
        })
        else none)
    else some ns'

unfoldable pub credit : (home checksum : ℕ) → PoolHandlespaceNode → PoolHandlespaceNode
unfolding Checksum.add
credit home checksum ns =
    let ns' : PoolHandlespaceNode = record ns {
      handlespace_checksum = Checksum.add ns.handlespace_checksum checksum;
    } in
    if home == ns.home_registrar_identifier
    then record ns' {
      owned_pool_elements = ns.owned_pool_elements + 1;
      ownership_checksum = Checksum.add ns.ownership_checksum checksum;
    }
    else ns'

-- `if(PoolNodeUpdateNotification) PoolNodeUpdateNotification(...)`
unfoldable pub notify : Notification → PoolHandlespaceNode → PoolHandlespaceNode
notify n ns = if ns.notifies then record ns { notifications = n ∷ ns.notifications } else ns
