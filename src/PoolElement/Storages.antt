-- ===== src/PoolElement/Storages.antt =====
-- src/poolelementnode-template_impl.h: the orders of the timer and the ownership storage of the
-- handlespace, and the checksum of an element. They read the handle of the pool that owns the
-- element.
use rsplib.Base.{ℕ, ◌%◌, ◌/◌, ◌^◌, List, [], ◌∷◌, Ordering, ascending}
use rsplib.PoolElement.{PoolElementNode}
use rsplib.PoolHandle.{comparison}
use rsplib.Checksum.{compute}

-- An element with OwnerPoolNode->Handle
pub record Owned : Type 0 where
  pub handle : List ℕ
  pub element : PoolElementNode

-- poolElementTimerStorageNodeComparison
unfoldable pub timer_comparison : Owned → Owned → Ordering
unfolding comparison
timer_comparison a b =
    ascending a.element.timer_time_stamp b.element.timer_time_stamp
      (ascending a.element.identifier b.element.identifier (comparison a.handle b.handle))

-- poolElementOwnershipStorageNodeComparison
unfoldable pub ownership_comparison : Owned → Owned → Ordering
unfolding comparison
ownership_comparison a b =
    ascending a.element.home_registrar_identifier b.element.home_registrar_identifier
      (ascending a.element.identifier b.element.identifier (comparison a.handle b.handle))

-- htonl(identifier), as bytes
abbrev pub network_bytes : ℕ → List ℕ
network_bytes n = n / 2 ^ 24 % 256 ∷ n / 2 ^ 16 % 256 ∷ n / 2 ^ 8 % 256 ∷ n % 256 ∷ []

-- poolElementNodeComputeChecksum. INITIAL_HANDLESPACE_CHECKSUM is 0.
unfoldable pub compute_checksum : Owned → ℕ
unfolding compute
compute_checksum e = compute (compute 0 e.handle) (network_bytes e.element.identifier)
