-- ===== src/HandlespaceNode/Unlinking.antt =====
-- A storage of links into the handlespace: unlinking an element leaves the links of the others.
use mathlib.Core.List.{Mem, mem-cons}
use mathlib.Core.List.Perm
use mathlib.Core.Logic.Or
use rsplib.Base.{ℕ, List, ◌∷◌, ◌≡◌, sym, subst, inl, inr, true, false, All, map}
use rsplib.Storage.Order.{
  IsSorted, AllPairs, Removes, Removes-perm, Removes-hit, Removes-All, Removes-IsSorted,
  Removes-AllPairs, remove-Removed,
}
use rsplib.HandlespaceNode.Links.{Link, link_comparison, links_to, unlink_node}
use rsplib.HandlespaceNode.Books.{Booked}
use rsplib.HandlespaceNode.Linking.{
  Fresh, Misses, Apart, Apart-symm, links_to-true, Linkage, link_of, Holds, drop_links,
}

module _ {K : Type 0} (g : Linkage K) where
  -- A link of another element is left.
  Removes-left :
      (handle : List ℕ) (id : ℕ) (b : Booked) {l : Link K} {ls rest : List (Link K)}
      → Removes (links_to handle id) l ls rest
      → Fresh handle id b
      → Mem (link_of g b) ls
      → Mem (link_of g b) rest
  Removes-left handle id b {l} {ls} {rest} r f m =
      let unique : IsProp (Mem (link_of g b) rest) = hlevel in
      let it_is : link_of g b ≡ l → Mem (link_of g b) rest = λ q.
        let hit : links_to handle id (link_of g b) ≡ true =
          subst (λ k. links_to handle id k ≡ true) (sym q) (Removes-hit r) in
        let (h, i) = links_to-true handle id (link_of g b) hit in absurd (f (sym h) i) in
      let there : Mem (link_of g b) rest → Mem (link_of g b) rest = λ k. k in
      Or.elim unique (mem-cons.0 ((Perm.mem_iff (Removes-perm r)).0 m)) it_is there

  -- What unlinking an element leaves: no link of it, and the links of the others.
  record Unlinked (handle : List ℕ) (id : ℕ) (bs : List Booked) (ls ls' : List (Link K))
      : Type 0 where
    left_sorted : IsSorted (link_comparison g.cmp) ls'
    left_apart : AllPairs Apart ls'
    left_known : All (λ l. Mem l (map (link_of g) bs)) ls'
    left_allowed : All (λ l. g.allows l.key ≡ true) ls'
    left : (b : Booked) → Fresh handle id b → Mem (link_of g b) ls → Mem (link_of g b) ls'
    gone : All (Misses handle id) ls'

  unlink_node-Unlinked :
      (handle : List ℕ) (id : ℕ) (ls : List (Link K)) (bs : List Booked)
      → Holds g ls bs
      → Unlinked handle id bs ls (unlink_node handle id ls)
  unfolding unlink_node
  unlink_node-Unlinked handle id ls bs h = elim (remove-Removed (links_to handle id) ls) [
    | inl (l, rest, q, r) ↦
        let (d, ds) = Removes-AllPairs Apart Apart-symm r h.apart in
        let (hit, same) = links_to-true handle id l (Removes-hit r) in
        rw (q, unlink_node)
          (record {
            left_sorted = Removes-IsSorted (link_comparison g.cmp) r h.sorted;
            left_apart = ds;
            left_known = (Removes-All (λ l. Mem l (map (link_of g) bs)) r h.known).1;
            left_allowed = (Removes-All (λ l. g.allows l.key ≡ true) r h.allowed).1;
            left = λ b f m. Removes-left handle id b r f m;
            gone = rw (hit, sym same) d;
          })
    | inr (q, absent) ↦
        rw (q, unlink_node)
          (record {
            left_sorted = h.sorted;
            left_apart = h.apart;
            left_known = h.known;
            left_allowed = h.allowed;
            left = λ b f m. m;
            gone = absent;
          })
  ]

  -- An element that need not be linked, linked or not, is unlinked.
  pub unlink_node-Misses :
      (handle : List ℕ) (id : ℕ) (ls : List (Link K)) (bs : List Booked)
      → ((k : K) → g.needs k ≡ false)
      → Holds g ls bs
      → Holds g (unlink_node handle id ls) bs × All (Misses handle id) (unlink_node handle id ls)
  unlink_node-Misses handle id ls bs n h =
      let u = unlink_node-Unlinked handle id ls bs h in
      (
        record {
          sorted = u.left_sorted;
          apart = u.left_apart;
          known = u.left_known;
          allowed = u.left_allowed;
          complete = λ b m t. absurd (let f = n (g.key b.entry) in cc);
        },
        u.gone,
      )

  -- An element is unlinked, and the others are left.
  pub unlink_node-Holds :
      (b : Booked) {ls : List (Link K)} {rest : List Booked}
      → ((x : Booked) → Mem x rest → Fresh b.pool_handle b.entry.account_identifier x)
      → Holds g ls (b ∷ rest)
      → Holds g (unlink_node b.pool_handle b.entry.account_identifier ls) rest
        × All
            (Misses b.pool_handle b.entry.account_identifier)
            (unlink_node b.pool_handle b.entry.account_identifier ls)
  unlink_node-Holds b {ls} {rest} f h =
      let handle = b.pool_handle in
      let id = b.entry.account_identifier in
      let u = unlink_node-Unlinked handle id ls (b ∷ rest) h in
      (
        record {
          sorted = u.left_sorted;
          apart = u.left_apart;
          known = drop_links g b rest (unlink_node handle id ls) u.gone u.left_known;
          allowed = u.left_allowed;
          complete = λ x m t. u.left x (f x m) (h.complete x (mem-cons.1 (Or.inr m)) t);
        },
        u.gone,
      )
