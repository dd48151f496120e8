-- ===== src/PoolNode/Entries.antt =====
-- The selection storage of a pool: what holds of its elements, and that linking and unlinking keep
-- it. `g` is the pool's GlobalSeqNumber.
use rsplib.Base.{ℕ, ◌<◌, List, ◌≡◌, ◌≢◌, inl, inr, sym, ◌∙◌, true, eq, All, All-imp}
use rsplib.PolicySettings.{is_valid}
use rsplib.PoolElement.{PoolElementNode}
use rsplib.PoolPolicy.{PoolPolicy}
use rsplib.PoolPolicy.Order.{IsPolicy, FitsRound, Keeps}
use rsplib.PoolNode.{has_id}
use rsplib.Storage.{linked, insert}
use rsplib.Storage.Order.{
  IsSorted, Inserts, Removes, Inserts-All, Inserts-IsSorted, Inserts-AllPairs, Removes-All,
  Removes-IsSorted, Removes-AllPairs, insert_links, AllPairs,
}

abbrev pub Entry : ℕ → PoolElementNode → Type 0
Entry g e = (e.seq_number < g) × (is_valid e.policy_settings ≡ true) × FitsRound e

abbrev pub Differs : PoolElementNode → PoolElementNode → Type 0
Differs a b = (a.seq_number ≢ b.seq_number) × (a.identifier ≢ b.identifier)

Differs-symm : (a b : PoolElementNode) → Differs a b → Differs b a
Differs-symm a b h = ((λ e. h.0 (sym e)), (λ e. h.1 (sym e)))

-- The storage is sorted by the policy; sequence numbers lie below `g`, settings are valid; no two
-- elements share a sequence number or an identifier.
pub record IsSelection (p : PoolPolicy) (g : ℕ) (es : List PoolElementNode) : Type 0 where
  pub sorted : IsSorted p.comparison es
  pub entries : All (Entry g) es
  pub distinct : AllPairs Differs es

module _ (p : PoolPolicy) (laws : IsPolicy p) where
  -- An element that differs from those stored, with valid settings, can be linked, and then the
  -- storage is as good as before.
  pub insert-IsSelection :
      (g : ℕ) (e : PoolElementNode) (es : List PoolElementNode)
      → IsSelection p g es
      → Entry g e
      → All (Differs e) es
      → (zs : List PoolElementNode) × (insert p.comparison e es ≡ linked zs)
        × Inserts p.comparison e es zs
        × IsSelection p g zs
  insert-IsSelection g e es v n d =
      let (zs, q, i) = insert_links p.comparison e es (All-imp free es d) in
      (
        zs,
        q,
        i,
        record {
          sorted = Inserts-IsSorted p.comparison e laws.compares.lawful i v.sorted;
          entries = Inserts-All p.comparison e (Entry g) i n v.entries;
          distinct = Inserts-AllPairs Differs Differs-symm i d v.distinct;
        },
      )
    where
      free : (y : PoolElementNode) → Differs e y → p.comparison e y ≢ eq
      free y h q = elim (laws.compares.distinguishes e y q) [ inl s ↦ h.0 s | inr s ↦ h.1 s ]

  pub Removes-IsSelection :
      (g id : ℕ) {e : PoolElementNode} {es zs : List PoolElementNode}
      → IsSelection p g es
      → Removes (has_id id) e es zs
      → IsSelection p g zs × Entry g e × All (Differs e) zs
  Removes-IsSelection g id v r =
      let (n, ns) = Removes-All (Entry g) r v.entries in
      let (d, ds) = Removes-AllPairs Differs Differs-symm r v.distinct in
      (
        record { sorted = Removes-IsSorted p.comparison r v.sorted; entries = ns; distinct = ds },
        n,
        d,
      )

  -- A change of the counters alone leaves an element as different from the others as it was.
  pub Keeps-Differs :
      (e e' : PoolElementNode) (es : List PoolElementNode)
      → Keeps e e'
      → All (Differs e) es
      → All (Differs e') es
  Keeps-Differs e e' es k =
      All-imp (λ y h. ((λ q. h.0 (sym k.same_seq ∙ q)), (λ q. h.1 (sym k.same_identifier ∙ q)))) es

  pub Keeps-Entry : (g : ℕ) (e e' : PoolElementNode) → Keeps e e' → Entry g e → Entry g e'
  Keeps-Entry g e e' k n = (rw k.same_seq n.0, rw k.same_settings n.1, k.fits n.2)
