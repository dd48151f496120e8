-- ===== src/PoolNode.antt =====
-- src/poolnode-template.h and src/poolnode-template_impl.h: a pool, with its two storages. An
-- element is linked into both; here the selection storage holds the elements, in the order of the
-- policy, and the index storage their identifiers. The result `none` is a failed CHECK, which ends
-- the program.
pub mod Select
pub mod Selecting
pub mod Preparing
pub mod SortingOrder
pub mod Adding
pub mod Removing
pub mod Finding
pub mod Picking
pub mod ValueTree
pub mod Rotation
pub mod Marking
pub mod Relinking
pub mod Updating
pub mod Entries
pub mod Renumber
pub mod Members
pub mod Accounts
pub mod Changes
pub mod Entering
pub mod Unique
pub mod Selected
pub mod Picked
pub mod Invariant
mod Tests
use rsplib.Base.{
  ℕ, ◌+◌, ◌%◌, ◌^◌, Bool, true, false, not, ◌&&◌, ◌||◌, Option, none, some, List, [], ◌∷◌, ltb, leb,
  ◌==◌, if◌then◌else◌, Ordering, compare, map,
}
use rsplib.PolicySettings.{is_valid, adapt}
use rsplib.PoolElement.{PoolElementNode, TransportAddressBlock}
use rsplib.PoolElement
use rsplib.PoolPolicy.{PoolPolicy, run_initialize, run_update}
use rsplib.PoolPolicy.Update.{seq_number_start}
use rsplib.Storage.{linked, found}
use rsplib.Storage

-- `control_channel` is the flag PNF_CONTROLCHANNEL, the only one.
pub record PoolNode : Type 0 where
  pub handle : List ℕ
  pub policy : PoolPolicy
  pub protocol : ℕ
  pub control_channel : Bool
  pub global_seq_number : ℕ
  pub index : List ℕ
  pub selection : List PoolElementNode

abbrev pub ids : List PoolElementNode → List ℕ
ids = map (λ e. e.identifier)

-- The RSPERR_... codes of src/rserpoolerror.h that are used here.
pub data Error : Type 0 where
  okay invalid_id wrong_protocol invalid_registrator invalid_addresses : Error
  wrong_controlchannel_handling invalid_pool_policy incompatible_pool_policy duplicate_id : Error

abbrev pub ipproto_sctp : ℕ
ipproto_sctp = 132

abbrev pub max_pe_transportaddresses : ℕ
max_pe_transportaddresses = 64

-- poolNodeNew
unfoldable pub new : List ℕ → PoolPolicy → ℕ → Bool → PoolNode
new handle policy protocol control_channel = record {
  handle = handle;
  policy = policy;
  protocol = protocol;
  control_channel = control_channel;
  global_seq_number = seq_number_start;
  index = [];
  selection = [];
}

-- The tests on the registrator's transport address in poolNodeCheckPoolElementNodeCompatibility.
unfoldable pub registrator_is_valid : Option TransportAddressBlock → Bool
registrator_is_valid none = true
registrator_is_valid (some t) =
    t.protocol == ipproto_sctp
    && not t.control_channel
    && not (ltb t.addresses 1 || ltb max_pe_transportaddresses t.addresses)
    && not (t.port == 0)

unfoldable pub same : Bool → Bool → Bool
same true b = b
same false b = not b

-- poolNodeCheckPoolElementNodeCompatibility
unfoldable pub check_compatibility : PoolNode → PoolElementNode → Error
unfolding registrator_is_valid same
check_compatibility pool e =
    if e.identifier == 0
    then invalid_id
    else if not (pool.protocol == e.user_transport.protocol)
    then wrong_protocol
    else if not (registrator_is_valid e.registrator_transport)
    then invalid_registrator
    else if ltb e.user_transport.addresses 1
        || ltb max_pe_transportaddresses e.user_transport.addresses
    then invalid_addresses
    else if e.user_transport.port == 0
    then invalid_addresses
    else if not (same pool.control_channel e.user_transport.control_channel)
    then wrong_controlchannel_handling
    else if not (is_valid e.policy_settings)
    then invalid_pool_policy
    else if not (adapt e.policy_settings pool.policy.type)
    then incompatible_pool_policy
    else okay

-- The pointer comparison that ST_METHOD(Remove) makes: the elements of a pool have different
-- identifiers.
abbrev pub has_id : ℕ → PoolElementNode → Bool
has_id id e = e.identifier == id

-- poolNodeUnlinkPoolElementNodeFromSelection
unfoldable pub unlink : ℕ → PoolNode → Option (PoolElementNode × PoolNode)
unfolding Storage.remove
unlink id pool = elim (Storage.remove (has_id id) pool.selection) [
  | none ↦ none
  | some (e, rest) ↦ some (e, record pool { selection = rest })
]

-- poolNodeLinkPoolElementNodeToSelection
unfoldable pub link_updated : PoolNode → PoolElementNode → Option PoolNode
unfolding Storage.insert
link_updated pool e = elim (Storage.insert pool.policy.comparison e pool.selection) [
  | linked s ↦ some (record pool { selection = s })
  | found other ↦ none
]

unfoldable pub link : PoolNode → PoolElementNode → Option PoolNode
unfolding link_updated
link pool e =
    if is_valid e.policy_settings then link_updated pool (run_update pool.policy e) else none

-- poolNodeResequence: the loop over the selection storage, and the whole.
unfoldable pub renumber : ℕ → List PoolElementNode → List PoolElementNode
renumber n [] = []
renumber n (e ∷ es) = record e { seq_number = n } ∷ renumber ((n + 1) % 2 ^ 32) es

unfoldable pub renumbered_to : ℕ → List PoolElementNode → ℕ
renumbered_to n [] = n
renumbered_to n (e ∷ es) = renumbered_to ((n + 1) % 2 ^ 32) es

unfoldable pub resequence : PoolNode → PoolNode
unfolding renumber renumbered_to
resequence pool = record pool {
  global_seq_number = renumbered_to 0 pool.selection;
  selection = renumber 0 pool.selection;
}

-- `if((PoolElementSeqNumberType)(GlobalSeqNumber + n) < GlobalSeqNumber) poolNodeResequence(...)`
unfoldable pub ensure_seq_numbers : ℕ → PoolNode → PoolNode
unfolding resequence
ensure_seq_numbers n pool =
    if ltb ((pool.global_seq_number + n) % 2 ^ 32) pool.global_seq_number
    then resequence pool
    else pool

-- poolNodeFindPoolElementNode
unfoldable pub find_element : ℕ → List PoolElementNode → Option PoolElementNode
find_element id [] = none
find_element id (e ∷ es) = if e.identifier == id then some e else find_element id es

unfoldable pub find : PoolNode → ℕ → Option PoolElementNode
unfolding Storage.find find_element
find pool id = elim (Storage.find compare id pool.index) [
  | none ↦ none
  | some i ↦ find_element i pool.selection
]

-- What poolNodeAddPoolElementNode sets in a new element: GlobalSeqNumber is that of `pool`.
unfoldable pub initialized : PoolNode → PoolElementNode → PoolElementNode
initialized pool e = run_initialize pool.policy pool.selection (record e {
  flags = record { marked = e.flags.marked; updated = true; is_new = e.flags.is_new };
  seq_number = pool.global_seq_number;
  virtual_counter = 0;
  round_counter = 0;
  selection_counter = 0;
  degradation = 0;
})

abbrev pub next_seq_number : PoolNode → PoolNode
next_seq_number pool = record pool { global_seq_number = (pool.global_seq_number + 1) % 2 ^ 32 }

-- The outcome of poolNodeAddPoolElementNode: the error code, the identifier of the element that it
-- returns a pointer to, if any, and the pool.
pub record Added : Type 0 where
  pub error : Error
  pub element : Option ℕ
  pub pool : PoolNode

-- poolNodeAddPoolElementNode, once the identifier stands in the index storage
unfoldable pub add_new : PoolNode → PoolElementNode → Option Added
unfolding ensure_seq_numbers initialized link
add_new pool e =
    let pool' = ensure_seq_numbers 1 pool in
    elim (link (next_seq_number pool') (initialized pool' e)) [
      | none ↦ none
      | some p ↦ some (record { error = okay; element = some e.identifier; pool = p })
    ]

unfoldable pub add_to_index : PoolNode → PoolElementNode → Option Added
unfolding add_new Storage.insert
add_to_index pool e = elim (Storage.insert compare e.identifier pool.index) [
  | linked ids ↦ add_new (record pool { index = ids }) e
  | found id ↦ some (record { error = duplicate_id; element = some id; pool = pool })
]

unfoldable pub add : PoolNode → PoolElementNode → Option Added
unfolding check_compatibility add_to_index
add pool e = elim (check_compatibility pool e) [
  | okay ↦ add_to_index pool e
  | other ↦ some (record { error = other; element = none; pool = pool })
]

-- poolNodeUpdatePoolElementNode, for the element with the given identifier. The compatibility test
-- is made on the element itself.
unfoldable pub relink : ℕ → PoolNode → PoolElementNode → Option PoolNode
unfolding unlink link
relink id pool e' = elim (unlink id pool) [ none ↦ none | some (e, rest) ↦ link rest e' ]

-- The element is changed where it stands in the selection storage.
unfoldable pub replace : PoolElementNode → List PoolElementNode → List PoolElementNode
replace e' [] = []
replace e' (e ∷ es) = if e.identifier == e'.identifier then e' ∷ es else e ∷ replace e' es

unfoldable pub update_changed : ℕ → PoolNode → PoolElementNode × Bool → Option (Error × PoolNode)
unfolding relink replace
update_changed id pool (e', true) = elim (relink id pool e') [
  | none ↦ none
  | some p ↦ some (okay, p)
]
update_changed id pool (e', false) =
    some (okay, record pool { selection = replace e' pool.selection })

unfoldable pub update : PoolNode → PoolElementNode → PoolElementNode → Option (Error × PoolNode)
unfolding check_compatibility update_changed PoolElement.update
update pool e source = elim (check_compatibility pool e) [
  | okay ↦ update_changed e.identifier pool (PoolElement.update e source)
  | other ↦ some (other, pool)
]

-- poolNodeRemovePoolElementNode
unfoldable pub remove : ℕ → PoolNode → Option (PoolElementNode × PoolNode)
unfolding Storage.remove unlink
remove id pool = elim (Storage.remove (λ i. i == id) pool.index) [
  | none ↦ none
  | some (i, ids) ↦ unlink id (record pool { index = ids })
]
