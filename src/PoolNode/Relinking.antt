-- ===== src/PoolNode/Relinking.antt =====
-- Unlinking an element of the pool and linking it again with other settings.
use mathlib.Core.List.{Perm}
use mathlib.Core.List.Perm
use rsplib.Base.{
  ℕ, List, [], ◌∷◌, ◌≡◌, inl, inr, refl, sym, ap, subst, ◌∙◌, arith, true, false, some, none, All,
  All-imp, ◌==◌, Bool-cases,
}
use rsplib.PolicySettings.{PoolPolicySettings, differ, is_valid}
use rsplib.PoolElement.{PoolElementNode}
use rsplib.PoolPolicy.{run_update}
use rsplib.PoolPolicy.Order.{IsPolicy}
use rsplib.PoolNode.{PoolNode, ids, has_id, find_element, unlink, link, link_updated, relink}
use rsplib.PoolNode.Entries.{Entry, Differs, IsSelection, Removes-IsSelection}
use rsplib.PoolNode.Invariant.{link_lem}
use rsplib.PoolNode.Members.{perm-ids}
use rsplib.Storage
use rsplib.Storage.Order.{Removes, Removes-perm, Inserts-All, insert-Inserted}

pub find_element-remove :
    (id : ℕ) (es : List PoolElementNode) (e : PoolElementNode)
    → find_element id es ≡ some e
    → (zs : List PoolElementNode) × (Storage.remove (has_id id) es ≡ some (e, zs))
      × Removes (has_id id) e es zs
      × (e.identifier ≡ id)
unfolding find_element Storage.remove
find_element-remove id [] e h = cc
find_element-remove id (x ∷ xs) e h = elim (Bool-cases (x.identifier == id)) [
  | inl t ↦
      let same : x ≡ e = ground arith in
      (
        xs,
        rw (t, Storage.remove) (ap (λ y. some (y, xs)) same),
        subst (λ y. Removes (has_id id) y (x ∷ xs) xs) same (Removes.here t),
        subst (λ y. y.identifier ≡ id) same (ground arith),
      )
  | inr f ↦
      let (zs, q, r, s) = find_element-remove id xs e (ground arith) in
      (x ∷ zs, rw (f, Storage.remove, q) refl, Removes.there f r, s)
]

-- What holds of the stored elements and of a linked one holds of all elements after the linking.
pub link-All :
    (P : PoolElementNode → Type 0) (pool p : PoolNode) (e : PoolElementNode)
    → link pool e ≡ some p
    → is_valid e.policy_settings ≡ true
    → P (run_update pool.policy e)
    → All P pool.selection
    → All P p.selection
unfolding link link_updated
link-All P pool p e h ok pe ps =
    let e' = run_update pool.policy e in
    let linked : link_updated pool e' ≡ some p = ground arith in
    elim (insert-Inserted pool.policy.comparison e' pool.selection) [
      | inl (zs, q, i) ↦
          let same : record pool { selection = zs } ≡ p =
            (let r : link_updated pool e' ≡ some (record pool { selection = zs }) =
                rw (q, link_updated) refl in
              ground arith) in
          subst (λ p. All P p.selection) same (Inserts-All pool.policy.comparison e' P i pe ps)
      | inr (z, q, c) ↦ let r : link_updated pool e' ≡ none = rw (q, link_updated) refl in absurd cc
    ]

-- No difference is left between the settings of the element and of what it was updated by.
abbrev pub Settled : PoolElementNode → PoolElementNode → PoolElementNode → Type 0
Settled e source y =
    y.identifier ≡ e.identifier → differ y.policy_settings source.policy_settings ≡ false

differ_self : (p : PoolPolicySettings) → differ p p ≡ false
unfolding differ
differ_self p = ground arith

pub Differs-Settled :
    (e source : PoolElementNode) (es : List PoolElementNode)
    → All (Differs e) es
    → All (Settled e source) es
Differs-Settled e source es d = All-imp (λ y h q. absurd (h.1 (sym q))) es d

-- Unlinking the element, and linking it again with other settings.
pub relink_lem :
    (pool : PoolNode) (e e' source : PoolElementNode)
    → IsPolicy pool.policy
    → IsSelection pool.policy pool.global_seq_number pool.selection
    → find_element e.identifier pool.selection ≡ some e
    → is_valid source.policy_settings ≡ true
    → e'.identifier ≡ e.identifier
    → e'.seq_number ≡ e.seq_number
    → e'.round_counter ≡ e.round_counter
    → e'.policy_settings ≡ source.policy_settings
    → (zs : List PoolElementNode) × (relink e.identifier pool e'
        ≡ some (record pool { selection = zs }))
      × IsSelection pool.policy pool.global_seq_number zs
      × Perm (ids zs) (ids pool.selection)
      × All (Settled e source) zs
unfolding relink unlink
relink_lem pool e e' source laws v h ok same_id same_seq same_round same_settings =
    let g = pool.global_seq_number in
    let (ys, q, r, _) = find_element-remove e.identifier pool.selection e h in
    let (w, n, d) = Removes-IsSelection pool.policy laws g e.identifier v r in
    let rest : PoolNode = record pool { selection = ys } in
    let ok' : is_valid e'.policy_settings ≡ true = rw same_settings ok in
    let n' : Entry g e' = (rw same_seq n.0, ok', rw same_round n.2) in
    let d' : All (Differs e') ys =
      All-imp (λ y k. ((λ z. k.0 (sym same_seq ∙ z)), (λ z. k.1 (sym same_id ∙ z)))) ys d in
    let (zs, l, u, π) = link_lem rest e' laws w n' d' in
    let k = laws.update_keeps e' in
    let settled : Settled e source (run_update pool.policy e') =
      λ _. rw (k.same_settings, same_settings) (differ_self source.policy_settings) in
    (
      zs,
      rw (q, relink, unlink) l,
      u,
      Perm.trans π (rw same_id (Perm.symm (perm-ids (Removes-perm r)))),
      link-All (Settled e source) rest (record rest { selection = zs }) e' l ok' settled
          (Differs-Settled e source ys d),
    )
