-- ===== src/PoolNode/Unique.antt =====
-- A pool has one account for an identifier.
use mathlib.Core.HLevel.{⊥_prop}
use mathlib.Core.List.{Mem, Perm, mem-cons, not-mem-nil, mem-map_of_mem}
use mathlib.Core.List.Perm
use mathlib.Core.Logic.Or
use rsplib.Base.{ℕ, List, [], ◌∷◌, ◌≡◌, ◌≢◌, refl, sym, ap, subst, ◌∙◌, some, All, map}
use rsplib.PoolElement.{PoolElementNode, Account, account}
use rsplib.PoolNode.{ids, find_element}
use rsplib.PoolNode.Accounts.{accounts, perm-accounts}
use rsplib.PoolNode.Changes.{replace-accounts}
use rsplib.PoolNode.Entries.{Differs}
use rsplib.PoolNode.Finding.{find_element-Mem}
use rsplib.PoolNode.Relinking.{find_element-remove}
use rsplib.Storage.Order.{Removes-perm, Removes-AllPairs, AllPairs}

Account-IsSet : IsSet Account
Account-IsSet = hlevel

others_differ :
    (e : PoolElementNode) (es : List PoolElementNode) (a : Account)
    → All (Differs e) es
    → Mem a (accounts es)
    → a.account_identifier ≢ e.identifier
others_differ e [] a d m q = not-mem-nil m
others_differ e (x ∷ xs) a d m q =
    let it_is : a ≡ account x → ⊥ = λ s. d.0.1 (sym q ∙ ap (λ a. a.account_identifier) s) in
    let further : Mem a (accounts xs) → ⊥ = λ n. others_differ e xs a d.1 n q in
    Or.elim ⊥_prop (mem-cons.0 m) it_is further

-- An account with the identifier of an element that the search finds is that of the element.
pub same_account :
    (es : List PoolElementNode) (e : PoolElementNode) (a : Account)
    → AllPairs Differs es
    → find_element e.identifier es ≡ some e
    → Mem a (accounts es)
    → a.account_identifier ≡ e.identifier
    → a ≡ account e
same_account es e a d h m same =
    let (zs, _, r, _) = find_element-remove e.identifier es e h in
    let symm : (x y : PoolElementNode) → Differs x y → Differs y x =
      λ x y k. ((λ q. k.0 (sym q)), (λ q. k.1 (sym q))) in
    let (apart, _) = Removes-AllPairs Differs symm r d in
    let unique : IsProp (a ≡ account e) = Account-IsSet a (account e) in
    let it_is : a ≡ account e → a ≡ account e = λ q. q in
    let further : Mem a (accounts zs) → a ≡ account e =
      λ n. absurd (others_differ e zs a apart n same) in
    Or.elim unique (mem-cons.0 ((Perm.mem_iff (perm-accounts (Removes-perm r))).0 m)) it_is further

pub find_element-account :
    (es : List PoolElementNode) (e : PoolElementNode)
    → find_element e.identifier es ≡ some e
    → Mem (account e) (accounts es)
find_element-account es e h =
    let (rest, π, _) = replace-accounts es e h in (Perm.mem_iff π).1 (mem-cons.1 (Or.inl refl))

pub ids-accounts :
    (es : List PoolElementNode) → map (λ (a : Account). a.account_identifier) (accounts es) ≡ ids es
ids-accounts [] = refl
ids-accounts (e ∷ es) = ap (λ is. e.identifier ∷ is) (ids-accounts es)

-- Where no account is changed, the search still finds an element with the same account.
pub found_again :
    (es es' : List PoolElementNode) (e : PoolElementNode)
    → AllPairs Differs es
    → find_element e.identifier es ≡ some e
    → Perm (accounts es') (accounts es)
    → (e' : PoolElementNode) × (find_element e.identifier es' ≡ some e') × (account e' ≡ account e)
found_again es es' e d h π =
    let f : Account → ℕ = λ a. a.account_identifier in
    let m : Mem e.identifier (map f (accounts es')) =
      (Perm.mem_iff (Perm.map f π)).1 (mem-map_of_mem f (find_element-account es e h)) in
    let m' : Mem e.identifier (ids es') = subst (Mem e.identifier) (ids-accounts es') m in
    let (e', q, same) = find_element-Mem e.identifier es' m' in
    let q' : find_element e'.identifier es' ≡ some e' =
      subst (λ i. find_element i es' ≡ some e') (sym same) q in
    (
      e',
      q,
      same_account es e (account e') d h ((Perm.mem_iff π).0 (find_element-account es' e' q')) same,
    )
