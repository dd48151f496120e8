-- ===== src/PoolNode/Rotation.antt =====
-- Round Robin: the selected elements go to the end of the selection storage, in their order.
use Prim.Native.Nat.{min}
use mathlib.Core.List.{append-nil, append_assoc}
use rsplib.Base.{
  ℕ, zero, suc, ◌+◌, ◌%◌, ◌<◌, ◌≤◌, ◌^◌, List, [], ◌∷◌, ◌++◌, ◌≡◌, refl, sym, ap, ap₂, ◌∙◌, arith,
  true, some, All, All-imp, length, take, drop, gt, Ordering, ◌==◌, length-take, take-append-drop,
}
use rsplib.PoolElement.{PoolElementNode}
use rsplib.PoolPolicy.Compare.{round_robin_comparison}
use rsplib.PoolPolicy.Dpf.{DoubleArith}
use rsplib.PoolPolicy.Table.{round_robin}
use rsplib.PoolNode.{PoolNode, ids, unlink, link, link_updated, ensure_seq_numbers}
use rsplib.PoolNode.Entries.{Entry}
use rsplib.PoolNode.Invariant.{IsValid}
use rsplib.PoolNode.Renumber.{ensure_seq_numbers-Ensured}
use rsplib.PoolNode.Select.{
  mark_selected, update_selected, update_all, take_and_update, select_by_sorting_order,
  increment_or_default, prepare,
}
use rsplib.PoolNode.SortingOrder.{select_run}
use rsplib.Storage.{linked}
use rsplib.Storage

-- An element above all others is linked at the end.
insert_last :
    (cmp : PoolElementNode → PoolElementNode → Ordering) (e : PoolElementNode)
    (ys : List PoolElementNode)
    → All (λ y. cmp e y ≡ gt) ys
    → Storage.insert cmp e ys ≡ linked (ys ++ e ∷ [])
unfolding Storage.insert
insert_last cmp e [] h = refl
insert_last cmp e (y ∷ ys) h = rw (h.0, Storage.insert, insert_last cmp e ys h.1) refl

newest :
    (g : ℕ) (e : PoolElementNode) (ys : List PoolElementNode)
    → e.seq_number ≡ g
    → All (Entry g) ys
    → All (λ y. round_robin_comparison e y ≡ gt) ys
unfolding round_robin_comparison
newest g e [] s h = tt
newest g e (y ∷ ys) s h = (let below = h.0.0 in ground arith, newest g e ys s h.1)

All-both :
    (P : PoolElementNode → Type 0) (xs ys : List PoolElementNode)
    → All P xs
    → All P ys
    → All P (xs ++ ys)
All-both P [] ys h k = k
All-both P (x ∷ xs) ys h k = (h.0, All-both P xs ys h.1 k)

All-parts :
    (P : PoolElementNode → Type 0) (k : ℕ) (es : List PoolElementNode)
    → All P es
    → All P (take k es) × All P (drop k es)
All-parts P zero es h = (tt, h)
All-parts P (suc k) [] h = (tt, tt)
All-parts P (suc k) (e ∷ es) h = let (a, b) = All-parts P k es h.1 in ((h.0, a), b)

take-take : (a b : ℕ) (xs : List ℕ) → take a (take b xs) ≡ take (min a b) xs
take-take zero b xs = let m : min 0 b ≡ 0 = omega arith in rw m refl
take-take (suc a) zero xs = let m : min (suc a) 0 ≡ 0 = omega arith in rw m refl
take-take (suc a) (suc b) [] =
    let m : min (suc a) (suc b) ≡ suc (min a b) = omega arith in rw m refl
take-take (suc a) (suc b) (x ∷ xs) =
    let m : min (suc a) (suc b) ≡ suc (min a b) = omega arith in
    rw m (ap (λ ys. x ∷ ys) (take-take a b xs))

take-ids : (k : ℕ) (es : List PoolElementNode) → take k (ids es) ≡ ids (take k es)
take-ids zero es = refl
take-ids (suc k) [] = refl
take-ids (suc k) (e ∷ es) = ap (λ is. e.identifier ∷ is) (take-ids k es)

drop-ids : (k : ℕ) (es : List PoolElementNode) → drop k (ids es) ≡ ids (drop k es)
drop-ids zero es = refl
drop-ids (suc k) [] = refl
drop-ids (suc k) (e ∷ es) = drop-ids k es

ids-append : (xs ys : List PoolElementNode) → ids (xs ++ ys) ≡ ids xs ++ ids ys
ids-append [] ys = refl
ids-append (x ∷ xs) ys = ap (λ is. x.identifier ∷ is) (ids-append xs ys)

module _ (d : DoubleArith) (pool : PoolNode) where
  -- The pool with another selection storage and sequence number, under Round Robin.
  abbrev at : ℕ → List PoolElementNode → PoolNode
  at g es = record pool { policy = round_robin d; global_seq_number = g; selection = es }

  abbrev marked : ℕ → PoolElementNode → PoolElementNode
  marked g e = record e { seq_number = g; selection_counter = (e.selection_counter + 1) % 2 ^ 64 }

  abbrev mark_all : ℕ → List PoolElementNode → List PoolElementNode
  mark_all g [] = []
  mark_all g (e ∷ es) = marked g e ∷ mark_all (suc g) es

  update_selected_first :
      (g : ℕ) (e : PoolElementNode) (es : List PoolElementNode)
      → suc g < 2 ^ 32
      → Entry g e
      → All (Entry g) es
      → update_selected e.identifier (at g (e ∷ es)) ≡ some (at (suc g) (es ++ marked g e ∷ []))
  unfolding update_selected unlink link link_updated mark_selected round_robin Storage.remove
  update_selected_first g e es fits n h =
      let this : (e.identifier == e.identifier) ≡ true = ground arith in
      let last =
        insert_last round_robin_comparison (marked g e) es (newest g (marked g e) es refl h) in
      let step : (g + 1) % 2 ^ 32 ≡ suc g = omega arith in
      rw (this, update_selected, n.1, link_updated, last, step) refl

  All-later : (g : ℕ) (es : List PoolElementNode) → All (Entry g) es → All (Entry (suc g)) es
  All-later g es h = All-imp (λ y n. ((let below = n.0 in omega arith), n.1, n.2)) es h

  -- The second loop of the selection, over the first elements of the storage.
  update_all_rotates :
      (g : ℕ) (xs ys : List PoolElementNode)
      → g + length xs < 2 ^ 32
      → All (Entry g) xs
      → All (Entry g) ys
      → update_all (ids xs) (at g (xs ++ ys)) ≡ some (at (g + length xs) (ys ++ mark_all g xs))
  unfolding update_all
  update_all_rotates g [] ys fits n h =
      ap₂ (λ k zs. some (at k zs)) (omega arith) (sym (append-nil ys))
  update_all_rotates g (x ∷ xs) ys fits n h =
      let x' = marked g x in
      let n' : Entry (suc g) x' = (omega arith, n.0.1, n.0.2) in
      let first =
        update_selected_first g x (xs ++ ys) (omega arith) n.0 (All-both (Entry g) xs ys n.1 h)
        ∙ ap (λ zs. some (at (suc g) zs)) (append_assoc xs ys (x' ∷ [])) in
      let rest =
        update_all_rotates (suc g) xs (ys ++ x' ∷ []) (omega arith) (All-later g xs n.1)
          (All-both (Entry (suc g)) ys (x' ∷ []) (All-later g ys h) (n', tt)) in
      rw (first, update_all)
        (rest
          ∙ ap₂ (λ k zs. some (at k zs)) (omega arith)
              (append_assoc ys (x' ∷ []) (mark_all (suc g) xs)))

  ids-mark_all : (g : ℕ) (es : List PoolElementNode) → ids (mark_all g es) ≡ ids es
  ids-mark_all g [] = refl
  ids-mark_all g (e ∷ es) = ap (λ is. e.identifier ∷ is) (ids-mark_all (suc g) es)

  take_and_update_rotates :
      (g n inc : ℕ) (es : List PoolElementNode)
      → g + n < 2 ^ 32
      → All (Entry g) es
      → let k = min inc n in
        take_and_update n inc (at g es)
        ≡ some (take n (ids es), at (g + length (take k es)) (drop k es ++ mark_all g (take k es)))
  unfolding take_and_update
  take_and_update_rotates g n inc es fits h =
      let k = min inc n in
      let chosen : take inc (take n (ids es)) ≡ ids (take k es) =
        take-take inc n (ids es) ∙ take-ids k es in
      let whole = take-append-drop k es in
      let short = length-take k es in
      let (first, rest) = All-parts (Entry g) k es h in
      let run =
        ap₂ (λ is zs. update_all is (at g zs)) chosen (sym whole)
        ∙ update_all_rotates g (take k es) (drop k es) (omega arith) first rest in
      rw (run, take_and_update) refl

-- Under Round Robin, selection from a valid pool moves as many of the first elements as are
-- updated, the lesser of the number asked for and the increment, behind all the others, in their
-- order. The others stay as they are.
pub select_by_sorting_order-rotates :
    (d : DoubleArith) (pool : PoolNode) (max_nodes max_increment : ℕ)
    → IsValid pool
    → pool.policy ≡ round_robin d
    → 1 ≤ max_nodes
    → length pool.selection + max_nodes < 2 ^ 32
    → let k = min (increment_or_default pool max_increment) max_nodes in
      (pool' : PoolNode) × (select_by_sorting_order pool max_nodes max_increment
        ≡ some (take max_nodes (ids pool.selection), pool'))
      × (ids pool'.selection ≡ drop k (ids pool.selection) ++ take k (ids pool.selection))
unfolding round_robin
select_by_sorting_order-rotates d pool max_nodes max_increment v rr one small =
    let inc = increment_or_default pool max_increment in
    let k = min inc max_nodes in
    let begun = ensure_seq_numbers max_nodes pool in
    let e = ensure_seq_numbers-Ensured max_nodes pool v.is_policy v.seq_fits v.selected small in
    let g = begun.global_seq_number in
    let es = begun.selection in
    let same : begun ≡ at d begun g es =
      ap (λ p. record begun { policy = p }) (e.same_policy ∙ rr) in
    let run : take_and_update max_nodes inc (prepare begun)
        ≡ some (
          take max_nodes (ids es),
          at d begun (g + length (take k es)) (drop k es ++ mark_all d begun g (take k es)),
        ) =
      ap (λ q. take_and_update max_nodes inc (prepare q)) same
      ∙ take_and_update_rotates d begun g max_nodes inc es e.left e.selected.entries in
    let final = at d begun (g + length (take k es)) (drop k es ++ mark_all d begun g (take k es)) in
    (
      final,
      select_run pool max_nodes max_increment _ one
          (run ∙ ap (λ is. some (take max_nodes is, final)) e.same_ids),
      ids-append (drop k es) (mark_all d begun g (take k es))
          ∙ ap₂ (λ xs ys. xs ++ ys) (sym (drop-ids k es))
              (ids-mark_all d begun g (take k es) ∙ sym (take-ids k es))
          ∙ ap (λ is. drop k is ++ take k is) e.same_ids,
    )
