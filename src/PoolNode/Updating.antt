-- ===== src/PoolNode/Updating.antt =====
-- poolNodeUpdatePoolElementNode, on every branch.
use rsplib.PoolNode.Relinking.{Settled, find_element-remove, Differs-Settled, relink_lem}
use mathlib.Core.List.{Perm}
use mathlib.Core.List.Perm
use rsplib.Base.{
  ℕ, List, ◌≡◌, ◌≢◌, ◌⊎◌, inl, inr, refl, sym, ap, subst, ◌∙◌, arith, true, false, some, All, ◌==◌,
  Bool, Bool-cases, not, ◌||◌, ltb, if◌then◌else◌,
}
use rsplib.PolicySettings.{differ, is_valid}
use rsplib.PoolElement.{PoolElementNode, Flags}
use rsplib.PoolElement
use rsplib.PoolPolicy.Order.{IsPolicy, marks}
use rsplib.PoolNode.{
  PoolNode, Error, okay, ids, check_compatibility, find_element, relink, replace, update_changed,
  update,
}
use rsplib.PoolNode.Adding.{Error-okay}
use rsplib.PoolNode.Entries.{IsSelection, Removes-IsSelection}
use rsplib.PoolNode.Invariant.{IsValid}
use rsplib.PoolNode.Marking.{replace-Marked, Marked-IsSelection, Marked-ids, Marked-All}
use rsplib.Storage.Order.{Removes}

All-Removes :
    (P : PoolElementNode → Type 0) {is_it : PoolElementNode → Bool} {x : PoolElementNode}
    {ys zs : List PoolElementNode}
    → Removes is_it x ys zs
    → P x
    → All P zs
    → All P ys
All-Removes P (Removes.here t) p h = (p, h)
All-Removes P (Removes.there f r) p h = (h.0, All-Removes P r p h.1)

selection_Settled :
    (pool : PoolNode) (e source : PoolElementNode)
    → IsPolicy pool.policy
    → IsSelection pool.policy pool.global_seq_number pool.selection
    → find_element e.identifier pool.selection ≡ some e
    → differ e.policy_settings source.policy_settings ≡ false
    → All (Settled e source) pool.selection
selection_Settled pool e source laws v h same =
    let (ys, q, r, _) = find_element-remove e.identifier pool.selection e h in
    let (w, n, d) = Removes-IsSelection pool.policy laws pool.global_seq_number e.identifier v r in
    All-Removes (Settled e source) r (λ _. same) (Differs-Settled e source ys d)

abbrev pub changed : PoolElementNode → PoolElementNode → PoolElementNode
changed e source = record e {
  policy_settings = source.policy_settings;
  degradation = 0;
  virtual_counter =
      if ltb source.policy_settings.weight e.virtual_counter
      then source.policy_settings.weight
      else e.virtual_counter;
  flags = record { marked = false; updated = true; is_new = e.flags.is_new };
}

abbrev pub unchanged : PoolElementNode → Flags
unchanged e = record { marked = false; updated = false; is_new = e.flags.is_new }

pub update-cases :
    (e source : PoolElementNode)
    → (PoolElement.update e source ≡ (changed e source, true))
      ⊎ ((PoolElement.update e source ≡ (record e { flags = unchanged e }, false))
          × (differ e.policy_settings source.policy_settings ≡ false))
unfolding PoolElement.update
update-cases e source =
    elim (Bool-cases
      (differ e.policy_settings source.policy_settings || not (e.degradation == 0))) [
        | inl t ↦ inl (rw t refl)
        | inr f ↦ inr (rw f refl, ground arith)
      ]

update_changed-relink :
    (id : ℕ) (pool p : PoolNode) (e' : PoolElementNode)
    → relink id pool e' ≡ some p
    → update_changed id pool (e', true) ≡ some (okay, p)
unfolding update_changed
update_changed-relink id pool p e' q = rw (q, update_changed) refl

-- What the update of a compatible element leaves.
update_changed_lem :
    (pool : PoolNode) (e source : PoolElementNode)
    → IsPolicy pool.policy
    → IsSelection pool.policy pool.global_seq_number pool.selection
    → find_element e.identifier pool.selection ≡ some e
    → is_valid source.policy_settings ≡ true
    → (zs : List PoolElementNode) × (update_changed e.identifier pool (PoolElement.update e source)
        ≡ some (okay, record pool { selection = zs }))
      × IsSelection pool.policy pool.global_seq_number zs
      × Perm (ids zs) (ids pool.selection)
      × All (Settled e source) zs
unfolding update_changed
update_changed_lem pool e source laws v h ok = elim (update-cases e source) [
  | inl t ↦
      let (zs, q, u, π, s) =
        relink_lem pool e (changed e source) source laws v h ok refl refl refl refl in
      (
        zs,
        ap (update_changed e.identifier pool) t ∙ update_changed-relink e.identifier pool _ _ q,
        u,
        π,
        s,
      )
  | inr (f, same) ↦
      let m = replace-Marked pool.selection e (record (marks e) { flags = unchanged e }) h in
      (
        replace (record e { flags = unchanged e }) pool.selection,
        ap (update_changed e.identifier pool) f,
        Marked-IsSelection pool.policy laws pool.global_seq_number m v,
        subst (λ is. Perm is (ids pool.selection)) (sym (Marked-ids m)) (Perm.refl _),
        Marked-All (Settled e source) (λ y g s. s) m
            (selection_Settled pool e source laws v h same),
      )
]

update_refused :
    (pool : PoolNode) (e source : PoolElementNode) (x : Error)
    → check_compatibility pool e ≡ x
    → x ≢ okay
    → update pool e source ≡ some (x, pool)
unfolding update
update_refused pool e source x c h = ground arith

-- Updating an element of a valid pool by a source with valid settings passes every CHECK. If the
-- element is not compatible with the pool, the update has the error of that test and changes
-- nothing. Otherwise the pool is left valid, with the same elements, and no difference is left
-- between the settings of the element and those of the source, but perhaps in the policy type.
pub update-IsValid :
    (pool : PoolNode) (e source : PoolElementNode)
    → IsValid pool
    → find_element e.identifier pool.selection ≡ some e
    → is_valid source.policy_settings ≡ true
    → (pool' : PoolNode) × (update pool e source ≡ some (check_compatibility pool e, pool'))
      × IsValid pool'
      × Perm (ids pool'.selection) (ids pool.selection)
      × (check_compatibility pool e ≢ okay → pool' ≡ pool)
      × (check_compatibility pool e ≡ okay → All (Settled e source) pool'.selection)
unfolding update
update-IsValid pool e source v h ok = elim (Error-okay (check_compatibility pool e)) [
  | inr r ↦ (
    pool,
    update_refused pool e source (check_compatibility pool e) refl r,
    v,
    Perm.refl _,
    λ _. refl,
    λ c. absurd (r c),
  )
  | inl c ↦
      let (zs, q, u, π, s) = update_changed_lem pool e source v.is_policy v.selected h ok in
      (
        record pool { selection = zs },
        rw (c, update) q,
        record {
          is_policy = v.is_policy;
          seq_fits = v.seq_fits;
          selected = u;
          index_sorted = v.index_sorted;
          indexed = Perm.trans v.indexed (Perm.symm π);
        },
        π,
        λ r. absurd (r c),
        λ _. s,
      )
]
