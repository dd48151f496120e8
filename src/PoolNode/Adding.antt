-- ===== src/PoolNode/Adding.antt =====
-- poolNodeAddPoolElementNode on every branch.
use mathlib.Core.List.{Mem, Perm, mem-cons}
use mathlib.Core.List.Perm
use mathlib.Core.Logic.Or
use rsplib.Base.{
  ℕ, ◌+◌, ◌%◌, ◌<◌, ◌^◌, List, [], ◌∷◌, ◌≡◌, ◌≢◌, ◌⊎◌, inl, inr, refl, sym, subst, arith, true,
  some, none, All, All-imp, compare, eq, length, IsLawful,
}
use rsplib.PolicySettings.{is_valid}
use rsplib.PoolElement.{PoolElementNode}
use rsplib.PoolPolicy.{run_initialize}
use rsplib.PoolPolicy.Order.{IsPolicy, Keeps}
use rsplib.PoolNode.{
  PoolNode, Error, okay, duplicate_id, ids, check_compatibility, ensure_seq_numbers,
  next_seq_number, initialized, Added, add_new, add_to_index, add,
}
use rsplib.PoolNode.Entries.{Entry, Differs, IsSelection, Keeps-Differs, Keeps-Entry}
use rsplib.PoolNode.Invariant.{IsValid, link_lem}
use rsplib.PoolNode.Members.{not_mem→All, All→not_mem}
use rsplib.PoolNode.Renumber.{ensure_seq_numbers-Ensured}
use rsplib.PoolNode.Selecting.{later}
use rsplib.Storage.Order.{Clashes, insert-Inserted, Inserts-fresh, Inserts-IsSorted, Inserts-perm}

pub compare-IsLawful : IsLawful compare
compare-IsLawful = record {
  same_key = λ a. ground arith;
  same_place = λ a b c h g. ground arith;
  flips_down = λ a b h. ground arith;
  flips_up = λ a b h. ground arith;
  chains = λ a b c h g. ground arith;
}

compare_ne : (x y : ℕ) → compare x y ≢ eq → x ≢ y
compare_ne x y h e = h (ground arith)

clash-eq : (x : ℕ) {z : ℕ} {ys : List ℕ} → Clashes compare x z ys → z ≡ x
clash-eq x (Clashes.here q) = ground arith
clash-eq x (Clashes.there c) = clash-eq x c

clash-Mem : (x : ℕ) {z : ℕ} {ys : List ℕ} → Clashes compare x z ys → Mem x ys
clash-Mem x (Clashes.here q) = mem-cons.1 (Or.inl (ground arith))
clash-Mem x (Clashes.there c) = mem-cons.1 (Or.inr (clash-Mem x c))

pub Error-discrete : Discrete Error
Error-discrete = hlevel

-- The settings of an element that is compatible with the pool are valid.
pub check_compatibility-is_valid :
    (pool : PoolNode) (e : PoolElementNode)
    → check_compatibility pool e ≡ okay
    → is_valid e.policy_settings ≡ true
unfolding check_compatibility
check_compatibility-is_valid pool e h = ground arith

fresh_Differs :
    (g : ℕ) (e : PoolElementNode) (es : List PoolElementNode)
    → e.seq_number ≡ g
    → All (Entry g) es
    → All (λ i. e.identifier ≢ i) (ids es)
    → All (Differs e) es
fresh_Differs g e [] s n d = tt
fresh_Differs g e (y ∷ es) s n d = (((λ q. omega arith), d.0), fresh_Differs g e es s n.1 d.1)

-- An element with a new identifier is added, behind a resequencing if one is due.
add_new_lem :
    (pool : PoolNode) (e : PoolElementNode)
    → IsPolicy pool.policy
    → pool.global_seq_number < 2 ^ 32
    → IsSelection pool.policy pool.global_seq_number pool.selection
    → length pool.selection + 1 < 2 ^ 32
    → is_valid e.policy_settings ≡ true
    → All (λ i. e.identifier ≢ i) (ids pool.selection)
    → (pool' : PoolNode) × (add_new pool e
        ≡ some (record { error = okay; element = some e.identifier; pool = pool' }))
      × (pool'.policy ≡ pool.policy)
      × (pool'.index ≡ pool.index)
      × (pool'.global_seq_number < 2 ^ 32)
      × IsSelection pool'.policy pool'.global_seq_number pool'.selection
      × Perm (ids pool'.selection) (e.identifier ∷ ids pool.selection)
unfolding add_new initialized
add_new_lem pool e laws fits v small ok new =
    let begun = ensure_seq_numbers 1 pool in
    let en = ensure_seq_numbers-Ensured 1 pool laws fits v small in
    let laws' : IsPolicy begun.policy = rw en.same_policy laws in
    let g = begun.global_seq_number in
    let e₀ : PoolElementNode = record e {
      flags = record { marked = e.flags.marked; updated = true; is_new = e.flags.is_new };
      seq_number = g;
      virtual_counter = 0;
      round_counter = 0;
      selection_counter = 0;
      degradation = 0;
    } in
    let e' = run_initialize begun.policy begun.selection e₀ in
    let k : Keeps e₀ e' =
      laws'.initialize_keeps begun.selection e₀
        (All-imp (λ y n. n.2) begun.selection en.selected.entries) in
    let n₀ : Entry (g + 1) e₀ = (omega arith, ok, omega arith) in
    let d₀ : All (Differs e₀) begun.selection =
      fresh_Differs g e₀ begun.selection refl en.selected.entries
        (subst (All (λ i. e.identifier ≢ i)) (sym en.same_ids) new) in
    let step : g + 1 ≡ (g + 1) % 2 ^ 32 = omega (arith, en.left) in
    let (zs, q, u, π) =
      link_lem (next_seq_number begun) e' laws'
        (subst (λ h. IsSelection begun.policy h begun.selection) step
          (later begun.policy g (g + 1) begun.selection (omega arith) en.selected))
        (subst (λ h. Entry h e') step (Keeps-Entry begun.policy laws' (g + 1) e₀ e' k n₀))
        (Keeps-Differs begun.policy laws' e₀ e' begun.selection k d₀) in
    (
      record (next_seq_number begun) { selection = zs },
      rw (q, add_new),
      en.same_policy,
      en.same_index,
      omega arith,
      u,
      subst (λ is. Perm (ids zs) (e.identifier ∷ is)) en.same_ids
          (subst (λ i. Perm (ids zs) (i ∷ ids begun.selection)) k.same_identifier π),
    )

-- What poolNodeAddPoolElementNode does, by its branches.
pub data Outcome (pool : PoolNode) (e : PoolElementNode) (r : Added) : Type 0 where
  refused :
      check_compatibility pool e ≢ okay
      → r ≡ record { error = check_compatibility pool e; element = none; pool = pool }
      → Outcome pool e r
  duplicate :
      check_compatibility pool e ≡ okay
      → Mem e.identifier (ids pool.selection)
      → r ≡ record { error = duplicate_id; element = some e.identifier; pool = pool }
      → Outcome pool e r
  added :
      check_compatibility pool e ≡ okay
      → ¬ Mem e.identifier (ids pool.selection)
      → r.error ≡ okay
      → r.element ≡ some e.identifier
      → Perm (ids r.pool.selection) (e.identifier ∷ ids pool.selection)
      → Outcome pool e r

add_to_index-Outcome :
    (pool : PoolNode) (e : PoolElementNode)
    → IsValid pool
    → length pool.selection + 1 < 2 ^ 32
    → check_compatibility pool e ≡ okay
    → (r : Added) × (add_to_index pool e ≡ some r) × Outcome pool e r × IsValid r.pool
unfolding add_to_index
add_to_index-Outcome pool e v small c = elim (insert-Inserted compare e.identifier pool.index) [
  | inl (ids', q, i) ↦
      let fresh : ¬ Mem e.identifier pool.index = All→not_mem e.identifier pool.index (
        All-imp (compare_ne e.identifier) pool.index
          (Inserts-fresh compare compare-IsLawful e.identifier i v.index_sorted)) in
      let new : ¬ Mem e.identifier (ids pool.selection) =
        λ m. fresh ((Perm.mem_iff v.indexed).1 m) in
      let (p, r, same_policy, same_index, fits, u, π) =
        add_new_lem (record pool { index = ids' }) e v.is_policy v.seq_fits v.selected small
          (check_compatibility-is_valid pool e c) (not_mem→All e.identifier _ new) in
      (
        record { error = okay; element = some e.identifier; pool = p },
        rw (q, add_to_index) r,
        Outcome.added c new refl refl π,
        record {
          is_policy = rw same_policy v.is_policy;
          seq_fits = fits;
          selected = u;
          index_sorted =
              rw same_index
                (Inserts-IsSorted compare e.identifier compare-IsLawful i v.index_sorted);
          indexed = rw same_index (
              Perm.trans (Inserts-perm compare e.identifier i)
                (Perm.trans (Perm.cons e.identifier v.indexed) (Perm.symm π)));
        },
      )
  | inr (z, q, x) ↦ (
    record { error = duplicate_id; element = some e.identifier; pool = pool },
    rw (q, add_to_index, clash-eq e.identifier x) refl,
    Outcome.duplicate c ((Perm.mem_iff v.indexed).0 (clash-Mem e.identifier x)) refl,
    v,
  )
]

pub Error-okay : (x : Error) → (x ≡ okay) ⊎ (x ≢ okay)
Error-okay x = elim (Error-discrete x okay) [ yes h ↦ inl h | no h ↦ inr h ]

pub add_refused :
    (pool : PoolNode) (e : PoolElementNode) (x : Error)
    → check_compatibility pool e ≡ x
    → x ≢ okay
    → add pool e ≡ some (record { error = x; element = none; pool = pool })
unfolding add
add_refused pool e x c h = ground arith

-- On a valid pool, adding an element passes every CHECK and leaves a valid pool. An element that is
-- not compatible with the pool is refused with the error of that test; one whose identifier is
-- known is a duplicate; in both cases the pool is unchanged. Any other is added, and no element is
-- lost.
pub add-Outcome :
    (pool : PoolNode) (e : PoolElementNode)
    → IsValid pool
    → length pool.selection + 1 < 2 ^ 32
    → (r : Added) × (add pool e ≡ some r) × Outcome pool e r × IsValid r.pool
unfolding add
add-Outcome pool e v small = elim (Error-okay (check_compatibility pool e)) [
  | inl c ↦ let (r, q, o, w) = add_to_index-Outcome pool e v small c in (r, rw (c, add) q, o, w)
  | inr h ↦ (
    record { error = check_compatibility pool e; element = none; pool = pool },
    add_refused pool e (check_compatibility pool e) refl h,
    Outcome.refused h refl,
    v,
  )
]
