-- ===== src/PoolNode/Selecting.antt =====
-- The update loop of a selection by sorting order passes every CHECK and keeps the selection
-- storage sound.
use mathlib.Core.List.{Mem, Perm}
use mathlib.Core.List.Perm
use rsplib.Base.{
  ℕ, ◌+◌, ◌%◌, ◌<◌, ◌≤◌, ◌^◌, List, [], ◌∷◌, ◌≡◌, refl, sym, ap, subst, ◌∙◌, arith, some, All,
  All-imp, length,
}
use rsplib.PoolElement.{PoolElementNode}
use rsplib.PoolPolicy.{PoolPolicy, run_update}
use rsplib.PoolPolicy.Order.{IsPolicy}
use rsplib.PoolNode.{PoolNode, ids, unlink, link}
use rsplib.PoolNode.Entries.{Entry, Differs, IsSelection, Keeps-Differs, Keeps-Entry}
use rsplib.PoolNode.Invariant.{link_lem, unlink_lem}
use rsplib.PoolNode.Select.{mark_selected, update_selected, update_all}

-- A later GlobalSeqNumber bounds the same sequence numbers.
pub later :
    (p : PoolPolicy) (g h : ℕ) (es : List PoolElementNode)
    → g ≤ h
    → IsSelection p g es
    → IsSelection p h es
later p g h es le v = record {
  sorted = v.sorted;
  entries = All-imp (λ e n. (omega arith, n.1, n.2)) es v.entries;
  distinct = v.distinct;
}

pub marked_Differs :
    (g : ℕ) (pool : PoolNode) (e : PoolElementNode) (zs : List PoolElementNode)
    → pool.global_seq_number ≡ g
    → All (Entry g) zs
    → All (Differs e) zs
    → All (Differs (mark_selected pool e)) zs
unfolding mark_selected
marked_Differs g pool e [] q n d = tt
marked_Differs g pool e (z ∷ zs) q n d =
    (((λ s. omega arith), d.0.1), marked_Differs g pool e zs q n.1 d.1)

update_selected_run :
    (id : ℕ) (pool r : PoolNode) (e : PoolElementNode) (ys : List PoolElementNode)
    → unlink id pool ≡ some (e, record pool { selection = ys })
    → pool.global_seq_number + 1 < 2 ^ 32
    → link
        (record pool { global_seq_number = pool.global_seq_number + 1; selection = ys })
        (run_update pool.policy (mark_selected pool e))
      ≡ some r
    → update_selected id pool ≡ some r
unfolding update_selected mark_selected
update_selected_run id pool r e ys q small l =
    let step : (pool.global_seq_number + 1) % 2 ^ 32 ≡ pool.global_seq_number + 1 = omega arith in
    let next : ℕ → PoolNode = λ g. record pool { global_seq_number = g; selection = ys } in
    rw (q, update_selected)
      (subst (λ g. link (next g) (run_update pool.policy (mark_selected pool e)) ≡ some r)
        (sym step) l)

-- One round of the update loop.
pub update_selected_lem :
    (id : ℕ) (pool : PoolNode)
    → IsPolicy pool.policy
    → IsSelection pool.policy pool.global_seq_number pool.selection
    → pool.global_seq_number + 1 < 2 ^ 32
    → Mem id (ids pool.selection)
    → (zs : List PoolElementNode) × (update_selected id pool
        ≡ some (record pool { global_seq_number = pool.global_seq_number + 1; selection = zs }))
      × IsSelection pool.policy (pool.global_seq_number + 1) zs
      × Perm (ids zs) (ids pool.selection)
unfolding update_selected mark_selected
update_selected_lem id pool laws v small m =
    let (e, ys, q, same, w, n, d, π) = unlink_lem pool id laws v m in
    let g = pool.global_seq_number in
    let e' = mark_selected pool e in
    let k = laws.update_keeps e' in
    let n' : Entry (g + 1) e' = (omega arith, n.1, n.2) in
    let rest : PoolNode = record pool { global_seq_number = g + 1; selection = ys } in
    let (zs, l, u, ρ) =
      link_lem rest (run_update pool.policy e') laws
        (later pool.policy g (g + 1) ys (omega arith) w)
        (Keeps-Entry pool.policy laws (g + 1) e' (run_update pool.policy e') k n')
        (Keeps-Differs pool.policy laws e' (run_update pool.policy e') ys k
          (marked_Differs g pool e ys refl w.entries d)) in
    (
      zs,
      update_selected_run id pool _ e ys q small l,
      u,
      Perm.trans ρ (
          subst (λ i. Perm (i ∷ ids ys) (ids pool.selection)) (sym (k.same_identifier ∙ same))
            (Perm.symm π)),
    )

-- The update loop, over identifiers of the pool.
pub update_all_lem :
    (is : List ℕ) (pool : PoolNode)
    → IsPolicy pool.policy
    → IsSelection pool.policy pool.global_seq_number pool.selection
    → pool.global_seq_number + length is < 2 ^ 32
    → All (λ id. Mem id (ids pool.selection)) is
    → (zs : List PoolElementNode) × (update_all is pool
        ≡ some (record pool {
          global_seq_number = pool.global_seq_number + length is;
          selection = zs;
        }))
      × IsSelection pool.policy (pool.global_seq_number + length is) zs
      × Perm (ids zs) (ids pool.selection)
unfolding update_all
update_all_lem [] pool laws v small m =
    let zero_more : pool.global_seq_number + 0 ≡ pool.global_seq_number = omega arith in
    (
      pool.selection,
      ap (λ g. some (record pool { global_seq_number = g })) (sym zero_more),
      rw zero_more v,
      Perm.refl _,
    )
update_all_lem (id ∷ is) pool laws v small m =
    let (ys, q, w, π) = update_selected_lem id pool laws v (omega arith) m.0 in
    let g = pool.global_seq_number in
    let one_more : g + 1 + length is ≡ g + length (id ∷ is) = omega arith in
    let (zs, r, u, ρ) =
      update_all_lem is (record pool { global_seq_number = g + 1; selection = ys }) laws w
        (omega arith) (All-imp (λ i n. (Perm.mem_iff π).1 n) is m.1) in
    (
      zs,
      rw (q, update_all)
          (r ∙ ap (λ n. some (record pool { global_seq_number = n; selection = zs })) one_more),
      subst (λ n. IsSelection pool.policy n zs) one_more u,
      Perm.trans ρ π,
    )
