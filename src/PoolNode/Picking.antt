-- ===== src/PoolNode/Picking.antt =====
-- The rounds of a selection by value: what holds of the pool and the elements that are unlinked.
use mathlib.Core.List.{Mem, Perm, mem-cons}
use mathlib.Core.List.Perm
use mathlib.Core.Logic.Or
use rsplib.Base.{
  ℕ, ◌+◌, ◌%◌, ◌-◌, ◌<◌, ◌^◌, List, [], ◌∷◌, ◌++◌, ◌≡◌, inl, inr, refl, sym, ap, ◌∙◌, arith, some,
  Option-cases, All, All-imp, length, length-append, ltb, Bool-cases,
}
use rsplib.PoolElement.{PoolElementNode}
use rsplib.PoolPolicy.Order.{IsPolicy, Keeps, Keeps-refl}
use rsplib.PoolNode.{PoolNode, ids, unlink}
use rsplib.PoolNode.Entries.{
  Entry, Differs, IsSelection, Removes-IsSelection, Keeps-Differs, Keeps-Entry,
}
use rsplib.PoolNode.Members.{remove-member, perm-ids}
use rsplib.PoolNode.Select.{Picking, mark_selected, update_picked, pick}
use rsplib.PoolNode.Selecting.{later, marked_Differs}
use rsplib.Storage.{get_by_value}
use rsplib.Storage.Order.{Removes-All, Removes-perm, AllPairs}

-- The elements that are unlinked and those in the pool are those of the pool `begun`, all sound and
-- different from each other.
pub record IsPicking (begun : PoolNode) (s : Picking) : Type 0 where
  pub is_policy : IsPolicy s.pool.policy
  pub selected : IsSelection s.pool.policy s.pool.global_seq_number s.pool.selection
  pub entries : All (Entry s.pool.global_seq_number) s.picked
  pub apart : AllPairs Differs s.picked
  pub across : All (λ x. All (Differs x) s.pool.selection) s.picked
  pub all_ids : Perm (ids begun.selection) (ids s.picked ++ ids s.pool.selection)
  pub same_index : s.pool.index ≡ begun.index
  pub same_policy : s.pool.policy ≡ begun.policy

pub get_by_value-Mem :
    (value : PoolElementNode → ℕ) (v : ℕ) (es : List PoolElementNode) (e : PoolElementNode)
    → get_by_value value v es ≡ some e
    → Mem e.identifier (ids es)
unfolding get_by_value
get_by_value-Mem value v [] e h = cc
get_by_value-Mem value v (x ∷ xs) e h = elim (Bool-cases (ltb v (value x))) [
  | inl t ↦
      let same : x ≡ e = ground arith in mem-cons.1 (Or.inl (ap (λ y. y.identifier) (sym same)))
  | inr f ↦ elim (Option-cases (get_by_value value (v - value x) xs)) [
    | inl q ↦
        let same : x ≡ e = ground arith in mem-cons.1 (Or.inl (ap (λ y. y.identifier) (sym same)))
    | inr (y, q) ↦
        let same : y ≡ e = ground arith in
        mem-cons.1 (Or.inr (get_by_value-Mem value (v - value x) xs e (q ∙ ap some same)))
  ]
]

update_picked-Keeps :
    (inc n : ℕ) (pool : PoolNode) (e : PoolElementNode)
    → IsPolicy pool.policy
    → Keeps (mark_selected pool e) (update_picked inc n pool e)
unfolding update_picked
update_picked-Keeps inc n pool e laws = elim (Bool-cases (ltb n inc)) [
  | inl t ↦ rw t (laws.update_keeps (mark_selected pool e))
  | inr f ↦ rw f (Keeps-refl (mark_selected pool e))
]

pub All-last :
    (P : PoolElementNode → Type 0) (es : List PoolElementNode) (e : PoolElementNode)
    → All P es
    → P e
    → All P (es ++ e ∷ [])
All-last P [] e h p = (p, tt)
All-last P (x ∷ xs) e h p = (h.0, All-last P xs e h.1 p)

AllPairs-last :
    (es : List PoolElementNode) (e : PoolElementNode)
    → AllPairs Differs es
    → All (λ x. Differs x e) es
    → AllPairs Differs (es ++ e ∷ [])
AllPairs-last [] e p h = (tt, tt)
AllPairs-last (x ∷ xs) e p h = (All-last (Differs x) xs e p.0 h.0, AllPairs-last xs e p.1 h.1)

-- An element with a new sequence number and its old identifier differs from the same ones.
newest-Differs :
    (g : ℕ) (e e' : PoolElementNode) (ps : List PoolElementNode)
    → e'.seq_number ≡ g
    → e'.identifier ≡ e.identifier
    → All (Entry g) ps
    → All (λ x. Differs x e) ps
    → All (λ x. Differs x e') ps
newest-Differs g e e' [] s i n d = tt
newest-Differs g e e' (p ∷ ps) s i n d =
    (((λ q. omega arith), (λ q. d.0.1 (q ∙ i))), newest-Differs g e e' ps s i n.1 d.1)

ids-last :
    (ps : List PoolElementNode) (e : PoolElementNode) (is : List ℕ)
    → ids (ps ++ e ∷ []) ++ is ≡ ids ps ++ e.identifier ∷ is
ids-last [] e is = refl
ids-last (p ∷ ps) e is = ap (λ js. p.identifier ∷ js) (ids-last ps e is)

-- One round: the chosen element passes from the pool to the unlinked ones.
pub pick_lem :
    (begun : PoolNode) (inc : ℕ) (e : PoolElementNode) (s : Picking)
    → IsPicking begun s
    → s.pool.global_seq_number + 1 < 2 ^ 32
    → Mem e.identifier (ids s.pool.selection)
    → (s' : Picking) × (pick inc e s ≡ some s')
      × IsPicking begun s'
      × (s'.pool.global_seq_number ≡ s.pool.global_seq_number + 1)
      × (length s'.picked ≡ length s.picked + 1)
unfolding pick unlink mark_selected
pick_lem begun inc e s v small m =
    let pool = s.pool in
    let g = pool.global_seq_number in
    let laws = v.is_policy in
    let (x, zs, q, r, same) = remove-member e.identifier pool.selection m in
    let (w, n, d) = Removes-IsSelection pool.policy laws g e.identifier v.selected r in
    let x' = update_picked inc (length s.picked) pool x in
    let k = update_picked-Keeps inc (length s.picked) pool x laws in
    let n' =
      Keeps-Entry pool.policy laws (g + 1) (mark_selected pool x) x' k (omega arith, n.1, n.2) in
    let before = All-imp (λ y h. Removes-All (Differs y) r h) s.picked v.across in
    let new =
      newest-Differs g x x' s.picked k.same_seq k.same_identifier v.entries
        (All-imp (λ y h. h.0) s.picked before) in
    let away =
      Keeps-Differs pool.policy laws (mark_selected pool x) x' zs k
        (marked_Differs g pool x zs refl w.entries d) in
    let step : (g + 1) % 2 ^ 32 ≡ g + 1 = omega arith in
    (
      record {
        pool = record pool { global_seq_number = g + 1; selection = zs };
        picked = s.picked ++ x' ∷ [];
      },
      rw (q, pick, step) refl,
      record {
        is_policy = laws;
        selected = later pool.policy g (g + 1) zs (omega arith) w;
        entries =
            All-last (Entry (g + 1)) s.picked x'
              (All-imp (λ y h. (omega arith, h.1, h.2)) s.picked v.entries) n';
        apart = AllPairs-last s.picked x' v.apart new;
        across =
            All-last (λ y. All (Differs y) zs) s.picked x' (All-imp (λ y h. h.1) s.picked before)
              away;
        all_ids = Perm.trans v.all_ids (
            rw (ids-last s.picked x' (ids zs), k.same_identifier)
              (Perm.append_left (ids s.picked) (perm-ids (Removes-perm r))));
        same_index = v.same_index;
        same_policy = v.same_policy;
      },
      refl,
      length-append s.picked (x' ∷ []),
    )
