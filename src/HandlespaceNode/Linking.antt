-- ===== src/HandlespaceNode/Linking.antt =====
-- A storage of links into the handlespace: linking and unlinking an element.
use mathlib.Core.List.{Mem, Perm, mem-cons}
use mathlib.Core.List.Perm
use mathlib.Core.Logic.Or
use rsplib.Base.{
  ℕ, List, [], ◌∷◌, ◌≡◌, ◌≢◌, refl, sym, ap, subst, inl, inr, arith, true, false, All, All-imp, map,
  Ordering, eq, IsLawful, Bool-cases, Bool,
}
use rsplib.PoolElement.{Account}
use rsplib.PoolHandle.{comparison}
use rsplib.PoolHandle.Order.{comparison-IsLawful}
use rsplib.Storage.{linked}
use rsplib.Storage.Order.{
  IsSorted, AllPairs, Inserts-perm, insert_links, Inserts-IsSorted, Inserts-AllPairs, Inserts-All,
}
use rsplib.HandlespaceNode.Links.{Link, link_comparison, links_to, link_node}
use rsplib.HandlespaceNode.Books.{Booked}

-- The account is not that of the element.
abbrev pub Fresh : List ℕ → ℕ → Booked → Type 0
Fresh handle id b = b.pool_handle ≡ handle → b.entry.account_identifier ≢ id

module _ {K : Type 0} where
  -- The link is not that of the element.
  abbrev pub Misses : List ℕ → ℕ → Link K → Type 0
  Misses handle id l = links_to handle id l ≡ false

  -- The links are those of different elements.
  abbrev pub Apart : Link K → Link K → Type 0
  Apart a b = Misses a.handle a.identifier b

  pub links_to-true :
      (handle : List ℕ) (id : ℕ) (l : Link K)
      → links_to handle id l ≡ true
      → (handle ≡ l.handle) × (l.identifier ≡ id)
  unfolding links_to
  links_to-true handle id l h =
      let r = comparison-IsLawful.1 handle l.handle in (r (ground arith), ground arith)

  links_to_self :
      (handle : List ℕ) (id : ℕ) (l : Link K)
      → handle ≡ l.handle
      → l.identifier ≡ id
      → links_to handle id l ≡ true
  unfolding links_to
  links_to_self handle id l h i =
      let r : comparison handle handle ≡ eq = comparison-IsLawful.0.same_key handle in
      let r' : comparison handle l.handle ≡ eq = subst (λ k. comparison handle k ≡ eq) h r in
      ground arith

  pub Apart-symm : (a b : Link K) → Apart a b → Apart b a
  Apart-symm a b h = elim (Bool-cases (links_to b.handle b.identifier a)) [
    | inr f ↦ f
    | inl t ↦
        let (p, q) = links_to-true b.handle b.identifier a t in
        let t' = links_to_self a.handle a.identifier b (sym p) (sym q) in absurd cc
  ]

-- How a storage links elements: the comparison of its keys, the key of an element, which keys must
-- be linked, and which keys may be.
pub record Linkage (K : Type 0) : Type 0 where
  pub cmp : K → K → Ordering
  pub key : Account → K
  pub needs : K → Bool
  pub allows : K → Bool

module _ {K : Type 0} (g : Linkage K) where
  -- The link that an element has in the storage.
  abbrev pub link_of : Booked → Link K
  link_of b = record {
    key = g.key b.entry;
    identifier = b.entry.account_identifier;
    handle = b.pool_handle;
  }

  -- The element is linked, if its key must be.
  abbrev pub Stored : List (Link K) → Booked → Type 0
  Stored ls b = g.needs (g.key b.entry) ≡ true → Mem (link_of b) ls

  Stored-prop : (ls : List (Link K)) (b : Booked) → IsProp (Stored ls b)
  Stored-prop ls b = hlevel

  -- The storage is sorted, and has at most one link for each element. It has only links of the given
  -- elements, with the keys that these have and that may be linked, and it has the links of all of
  -- these elements whose keys must be linked.
  pub record Holds (ls : List (Link K)) (bs : List Booked) : Type 0 where
    pub sorted : IsSorted (link_comparison g.cmp) ls
    pub apart : AllPairs Apart ls
    pub known : All (λ l. Mem l (map link_of bs)) ls
    pub allowed : All (λ l. g.allows l.key ≡ true) ls
    pub complete : (b : Booked) → Mem b bs → Stored ls b

  Stored-cons :
      (ls : List (Link K)) (x : Booked) (rest : List Booked)
      → Stored ls x
      → ((b : Booked) → Mem b rest → Stored ls b)
      → (b : Booked) → Mem b (x ∷ rest)
      → Stored ls b
  Stored-cons ls x rest s h b m =
      let it_is : b ≡ x → Stored ls b = λ q. subst (Stored ls) (sym q) s in
      Or.elim (Stored-prop ls b) (mem-cons.0 m) it_is (h b)

  pub Holds-Perm :
      {ls : List (Link K)} {bs bs' : List Booked} → Perm bs bs' → Holds ls bs → Holds ls bs'
  Holds-Perm {ls} p h = record {
    sorted = h.sorted;
    apart = h.apart;
    known = All-imp (λ l m. (Perm.mem_iff (Perm.map link_of p)).0 m) ls h.known;
    allowed = h.allowed;
    complete = λ b m. h.complete b ((Perm.mem_iff p).1 m);
  }

  -- A change of the element that leaves its key leaves its link.
  pub Holds-same :
      {ls : List (Link K)} {b b' : Booked} {rest : List Booked}
      → link_of b ≡ link_of b'
      → Holds ls (b ∷ rest)
      → Holds ls (b' ∷ rest)
  Holds-same {ls} {b} {b'} {rest} q h = record {
    sorted = h.sorted;
    apart = h.apart;
    known = subst (λ l. All (λ k. Mem k (l ∷ map link_of rest)) ls) q h.known;
    allowed = h.allowed;
    complete =
        Stored-cons ls b' rest
          (subst (λ l. g.needs l.key ≡ true → Mem l ls) q (h.complete b (mem-cons.1 (Or.inl refl))))
          (λ x m. h.complete x (mem-cons.1 (Or.inr m)));
  }

  -- An element need not be linked.
  pub Holds-more :
      {ls : List (Link K)} (b : Booked) {rest : List Booked}
      → g.needs (g.key b.entry) ≡ false
      → Holds ls rest
      → Holds ls (b ∷ rest)
  Holds-more {ls} b {rest} n h = record {
    sorted = h.sorted;
    apart = h.apart;
    known = All-imp (λ l m. mem-cons.1 (Or.inr m)) ls h.known;
    allowed = h.allowed;
    complete = Stored-cons ls b rest (λ t. absurd cc) h.complete;
  }

  drop_link :
      (b : Booked) (rest : List Booked) (l : Link K)
      → Misses b.pool_handle b.entry.account_identifier l
      → Mem l (link_of b ∷ map link_of rest)
      → Mem l (map link_of rest)
  drop_link b rest l miss m =
      let unique : IsProp (Mem l (map link_of rest)) = hlevel in
      let there : Mem l (map link_of rest) → Mem l (map link_of rest) = λ r. r in
      let it_is : l ≡ link_of b → Mem l (map link_of rest) = λ q.
        let t =
          links_to_self b.pool_handle b.entry.account_identifier l (sym (ap (λ l. l.handle) q))
            (ap (λ l. l.identifier) q) in
        absurd cc in
      Or.elim unique (mem-cons.0 m) it_is there

  pub drop_links :
      (b : Booked) (rest : List Booked) (ls : List (Link K))
      → All (Misses b.pool_handle b.entry.account_identifier) ls
      → All (λ l. Mem l (link_of b ∷ map link_of rest)) ls
      → All (λ l. Mem l (map link_of rest)) ls
  drop_links b rest [] m k = tt
  drop_links b rest (l ∷ ls) m k = (drop_link b rest l m.0 k.0, drop_links b rest ls m.1 k.1)

  -- A storage without a link of the element needs none but the others.
  pub Holds-others :
      {ls : List (Link K)} (b : Booked) {rest : List Booked}
      → All (Misses b.pool_handle b.entry.account_identifier) ls
      → Holds ls (b ∷ rest)
      → Holds ls rest
  Holds-others {ls} b {rest} miss h = record {
    sorted = h.sorted;
    apart = h.apart;
    known = drop_links b rest ls miss h.known;
    allowed = h.allowed;
    complete = λ x m. h.complete x (mem-cons.1 (Or.inr m));
  }

  missed_ne :
      (b : Booked) (l : Link K)
      → Misses b.pool_handle b.entry.account_identifier l
      → link_comparison g.cmp (link_of b) l ≢ eq
  unfolding link_comparison
  missed_ne b l miss q =
      let r = comparison-IsLawful.1 b.pool_handle l.handle in
      let t =
        links_to_self b.pool_handle b.entry.account_identifier l (r (ground arith))
          (ground arith) in
      absurd cc

  -- An element without a link can be linked.
  pub link_node-Holds :
      (b : Booked) {ls : List (Link K)} {rest : List Booked}
      → IsLawful (link_comparison g.cmp)
      → g.allows (g.key b.entry) ≡ true
      → All (Misses b.pool_handle b.entry.account_identifier) ls
      → Holds ls rest
      → (ls' : List (Link K)) × (link_node g.cmp
            (g.key b.entry)
            b.pool_handle
            b.entry.account_identifier
            ls
          ≡ linked ls')
        × Holds ls' (b ∷ rest)
  unfolding link_node
  link_node-Holds b {ls} {rest} lawful may miss h =
      let (ls', q, i) =
        insert_links (link_comparison g.cmp) (link_of b) ls (All-imp (missed_ne b) ls miss) in
      (
        ls',
        q,
        record {
          sorted = Inserts-IsSorted (link_comparison g.cmp) (link_of b) lawful i h.sorted;
          apart = Inserts-AllPairs Apart Apart-symm i miss h.apart;
          known =
              Inserts-All (link_comparison g.cmp) (link_of b)
                (λ l. Mem l (link_of b ∷ map link_of rest)) i (mem-cons.1 (Or.inl refl))
                (All-imp (λ l m. mem-cons.1 (Or.inr m)) ls h.known);
          allowed =
              Inserts-All (link_comparison g.cmp) (link_of b) (λ l. g.allows l.key ≡ true) i may
                h.allowed;
          complete =
              Stored-cons ls' b rest
                (λ t.
                  (Perm.mem_iff (Inserts-perm (link_comparison g.cmp) (link_of b) i)).1
                    (mem-cons.1 (Or.inl refl)))
                (λ x m t.
                  (Perm.mem_iff (Inserts-perm (link_comparison g.cmp) (link_of b) i)).1
                    (mem-cons.1 (Or.inr (h.complete x m t))));
        },
      )
