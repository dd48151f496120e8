-- ===== src/HandlespaceNode/Links.antt =====
-- src/poolhandlespacenode-template_impl.h: the links of elements in the storages of the handlespace.
-- A link holds what its comparison function reads of the element: the key of the storage, the
-- identifier, and the handle of the pool.
use rsplib.Base.{
  ℕ, ℤ, List, none, some, Bool, false, Ordering, lt, eq, gt, compare, ascending, ◌==◌, compare_int,
}
use rsplib.PoolHandle.{comparison}
use rsplib.Storage.{Insertion}
use rsplib.Storage

pub record Link (K : Type 0) : Type 0 where
  pub key : K
  pub identifier : ℕ
  pub handle : List ℕ

-- ConnectionSocketDescriptor and ConnectionAssocID
pub record Connection : Type 0 where
  pub socket_descriptor : ℤ
  pub assoc_id : ℕ

unfoldable pub compare_connections : Connection → Connection → Ordering
compare_connections a b = elim (compare_int a.socket_descriptor b.socket_descriptor) [
  | lt ↦ lt
  | gt ↦ gt
  | eq ↦ compare a.assoc_id b.assoc_id
]

-- poolElementTimerStorageNodeComparison, poolElementOwnershipStorageNodeComparison and
-- poolElementConnectionStorageNodeComparison of src/poolelementnode-template_impl.h, by the
-- comparison of their keys
unfoldable pub link_comparison : {K : Type 0} → (K → K → Ordering) → Link K → Link K → Ordering
unfolding comparison
link_comparison cmp a b = elim (cmp a.key b.key) [
  | lt ↦ lt
  | gt ↦ gt
  | eq ↦ ascending a.identifier b.identifier (comparison a.handle b.handle)
]

abbrev same_handle : Ordering → Bool → Bool
same_handle lt b = false
same_handle eq b = b
same_handle gt b = false

-- The node that is linked is that of the element.
unfoldable pub links_to : {K : Type 0} → List ℕ → ℕ → Link K → Bool
unfolding comparison
links_to handle id l = same_handle (comparison handle l.handle) (l.identifier == id)

-- `if(STN_METHOD(IsLinked)(...)) ST_METHOD(Remove)(...)`
unfoldable pub unlink_node : {K : Type 0} → List ℕ → ℕ → List (Link K) → List (Link K)
unfolding links_to Storage.remove
unlink_node handle id ls = elim (Storage.remove (links_to handle id) ls) [
  | none ↦ ls
  | some (l, rest) ↦ rest
]

unfoldable pub link_node :
    {K : Type 0} → (K → K → Ordering) → K → List ℕ → ℕ → List (Link K) → Insertion (Link K)
unfolding Storage.insert link_comparison
link_node cmp key handle id ls =
    Storage.insert (link_comparison cmp) (record { key = key; identifier = id; handle = handle }) ls
