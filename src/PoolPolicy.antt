-- ===== src/PoolPolicy.antt =====
-- src/poolpolicy-template.h and src/poolpolicy-template_impl.h: the pool policies. A policy's
-- comparison sorts the selection storage of a pool, its update changes an element whenever it is
-- selected or linked, and its selection is one of two general functions, which are in
-- PoolNode/Select.
pub mod Order
pub mod Compare
pub mod Update
pub mod Dpf
pub mod Table
pub mod Rounds
pub mod Fixed
pub mod Adaptive
pub mod Randomized
pub mod Laws
pub mod Bounds
pub mod Tests
use rsplib.Base.{ℕ, Option, none, some, List, Ordering}
use rsplib.PoolElement.{PoolElementNode}

-- poolPolicySelectPoolElementNodesBySortingOrder and ...ByValueTree
pub data Selection : Type 0 where
  by_sorting_order by_value_tree : Selection

-- A function pointer that may be NULL is an Option. Initialize and PrepareSelection read and write
-- no more of the pool than its selection storage.
pub record PoolPolicy : Type 0 where
  pub type : ℕ
  pub default_max_increment : ℕ
  pub comparison : PoolElementNode → PoolElementNode → Ordering
  pub selection : Selection
  pub initialize : Option (List PoolElementNode → PoolElementNode → PoolElementNode)
  pub update : Option (PoolElementNode → PoolElementNode)
  pub prepare : Option (List PoolElementNode → List PoolElementNode)

-- The calls of the function pointers, each behind its test for NULL.
abbrev pub run_initialize : PoolPolicy → List PoolElementNode → PoolElementNode → PoolElementNode
run_initialize p selection e = elim p.initialize [ none ↦ e | some f ↦ f selection e ]

abbrev pub run_update : PoolPolicy → PoolElementNode → PoolElementNode
run_update p e = elim p.update [ none ↦ e | some f ↦ f e ]

abbrev pub run_prepare : PoolPolicy → List PoolElementNode → List PoolElementNode
run_prepare p selection = elim p.prepare [ none ↦ selection | some f ↦ f selection ]
