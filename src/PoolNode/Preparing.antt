-- ===== src/PoolNode/Preparing.antt =====
-- Preparing a selection changes nothing but counters, and keeps the selection storage sound.
use rsplib.Base.{ℕ, List, [], ◌∷◌, ◌≡◌, refl, sym, ap₂, ◌∙◌, All, All-imp}
use rsplib.PoolElement.{PoolElementNode}
use rsplib.PoolPolicy.{PoolPolicy, run_prepare}
use rsplib.PoolPolicy.Order.{IsPolicy, Keeps, KeepAll}
use rsplib.PoolNode.{ids}
use rsplib.PoolNode.Entries.{Entry, Differs, IsSelection, Keeps-Entry}
use rsplib.Storage.Order.{AllPairs}

KeepAll-ids : (es es' : List PoolElementNode) → KeepAll es es' → ids es' ≡ ids es
KeepAll-ids [] [] k = refl
KeepAll-ids [] (e' ∷ es') k = absurd k
KeepAll-ids (e ∷ es) [] k = absurd k
KeepAll-ids (e ∷ es) (e' ∷ es') k =
    ap₂ (λ i is. i ∷ is) k.0.same_identifier (KeepAll-ids es es' k.1)

KeepAll-All :
    (P Q : PoolElementNode → Type 0) (es es' : List PoolElementNode)
    → ((e e' : PoolElementNode) → Keeps e e' → P e → Q e')
    → KeepAll es es'
    → All P es
    → All Q es'
KeepAll-All P Q [] [] f k h = tt
KeepAll-All P Q [] (e' ∷ es') f k h = absurd k
KeepAll-All P Q (e ∷ es) [] f k h = absurd k
KeepAll-All P Q (e ∷ es) (e' ∷ es') f k h = (f e e' k.0 h.0, KeepAll-All P Q es es' f k.1 h.1)

Keeps-both : (a a' b b' : PoolElementNode) → Keeps a a' → Keeps b b' → Differs a b → Differs a' b'
Keeps-both a a' b b' k l d = (
  (λ q. d.0 (sym k.same_seq ∙ q ∙ l.same_seq)),
  (λ q. d.1 (sym k.same_identifier ∙ q ∙ l.same_identifier)),
)

KeepAll-distinct :
    (es es' : List PoolElementNode) → KeepAll es es' → AllPairs Differs es → AllPairs Differs es'
KeepAll-distinct [] [] k d = tt
KeepAll-distinct [] (e' ∷ es') k d = absurd k
KeepAll-distinct (e ∷ es) [] k d = absurd k
KeepAll-distinct (e ∷ es) (e' ∷ es') k d = (
  KeepAll-All (Differs e) (Differs e') es es' (λ x x' l h. Keeps-both e e' x x' k.0 l h) k.1 d.0,
  KeepAll-distinct es es' k.1 d.1,
)

-- Preparing keeps the selection storage as good as it was.
pub prepare-IsSelection :
    (p : PoolPolicy) (g : ℕ) (es : List PoolElementNode)
    → IsPolicy p
    → IsSelection p g es
    → IsSelection p g (run_prepare p es) × (ids (run_prepare p es) ≡ ids es)
prepare-IsSelection p g es laws v =
    let k = laws.prepare_keeps es in
    (
      record {
        sorted = laws.prepare_sorted es (All-imp (λ e n. n.2) es v.entries) v.sorted;
        entries =
            KeepAll-All (Entry g) (Entry g) es (run_prepare p es)
              (λ e e' l n. Keeps-Entry p laws g e e' l n) k v.entries;
        distinct = KeepAll-distinct es (run_prepare p es) k v.distinct;
      },
      KeepAll-ids es (run_prepare p es) k,
    )
