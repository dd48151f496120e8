-- ===== src/HandlespaceNode/Invariant.antt =====
-- The invariant of the handlespace: its pools are valid, and its books are right.
use mathlib.Core.List.{Mem, Perm, mem-cons, not-mem-nil}
use mathlib.Core.List.Perm
use mathlib.Core.Logic.Or
use rsplib.Base.{
  arith, ℕ, ◌%◌, ◌^◌, List, [], ◌∷◌, ◌≡◌, refl, Bool, sym, ap, subst, ◌∙◌, All, compare, length,
  true, false, not, ◌==◌, is_positive,
}
use rsplib.PoolElement.{Account}
use rsplib.PoolHandle.{comparison}
use rsplib.PoolNode.{PoolNode}
use rsplib.PoolNode
use rsplib.PoolNode.Invariant
use rsplib.Storage.Order.{IsSorted}
use rsplib.HandlespaceNode
use rsplib.HandlespaceNode.{PoolHandlespaceNode, put_pool}
use rsplib.HandlespaceNode.Books.{
  Booked, entries, total, total-Perm, checksum_of, owned_checksum_of, owned_one, due_checksum,
}
use rsplib.HandlespaceNode.Focus.{handles, handles-put_pool, put_pool-All}
use rsplib.HandlespaceNode.Linking.{Linkage, Holds, Holds-Perm}
use rsplib.HandlespaceNode.Links.{Link, Connection, compare_connections}

abbrev pub connection_of : Account → Connection
connection_of a = record { socket_descriptor = a.account_socket; assoc_id = a.account_assoc }

-- The Checksum of the element is the one that poolElementNodeComputeChecksum computes.
abbrev pub IsSound : Booked → Type 0
IsSound b = b.entry.account_checksum ≡ due_checksum b.pool_handle b.entry.account_identifier

-- A timer may be running or not.
abbrev pub timer_linkage : Linkage ℕ
timer_linkage = record {
  cmp = compare;
  key = λ a. a.account_timer;
  needs = λ _. false;
  allows = λ _. true;
}

-- An element with a home registrar is linked.
abbrev pub ownership_linkage : Linkage ℕ
ownership_linkage = record {
  cmp = compare;
  key = λ a. a.account_home;
  needs = λ home. not (home == 0);
  allows = λ _. true;
}

-- The elements with a connection, and no others, are linked.
abbrev pub connection_linkage : Linkage Connection
connection_linkage = record {
  cmp = compare_connections;
  key = connection_of;
  needs = λ k. is_positive k.socket_descriptor;
  allows = λ k. is_positive k.socket_descriptor;
}

abbrev pub HoldsTimers : List (Link ℕ) → List Booked → Type 0
HoldsTimers = Holds timer_linkage

abbrev pub HoldsOwnerships : List (Link ℕ) → List Booked → Type 0
HoldsOwnerships = Holds ownership_linkage

abbrev pub HoldsConnections : List (Link Connection) → List Booked → Type 0
HoldsConnections = Holds connection_linkage

-- The checksums, and the number of owned elements, are those of the given elements, whose own
-- checksums are right.
pub record Summed (home handlespace_checksum ownership_checksum owned_pool_elements : ℕ)
    (bs : List Booked) : Type 0 where
  pub checksum : handlespace_checksum ≡ total checksum_of bs % 2 ^ 32
  pub owned_checksum : ownership_checksum ≡ total (owned_checksum_of home) bs % 2 ^ 32
  pub owned : owned_pool_elements ≡ total (owned_one home) bs
  pub sound : (b : Booked) → Mem b bs → IsSound b

abbrev pub Sums : PoolHandlespaceNode → List Booked → Type 0
Sums ns bs =
    Summed ns.home_registrar_identifier ns.handlespace_checksum ns.ownership_checksum
      ns.owned_pool_elements bs

-- The number of elements is right. The storages hold links of the given elements only: the ownership
-- storage of all that have a home registrar other than 0, and the connection storage of just those
-- that have a connection, that is a positive socket descriptor.
pub record LinkedAs (pool_elements : ℕ) (timer_links ownership_links : List (Link ℕ))
    (connection_links : List (Link Connection)) (bs : List Booked) : Type 0 where
  pub counted : pool_elements ≡ length bs
  pub timers : HoldsTimers timer_links bs
  pub ownerships : HoldsOwnerships ownership_links bs
  pub connections : HoldsConnections connection_links bs

abbrev pub Linked : PoolHandlespaceNode → List Booked → Type 0
Linked ns bs = LinkedAs ns.pool_elements ns.timers ns.ownerships ns.connections bs

pub record IsValid (ns : PoolHandlespaceNode) : Type 0 where
  pub sorted : IsSorted comparison (handles ns.pools)
  pub pools_valid : All PoolNode.Invariant.IsValid ns.pools
  pub sums : Sums ns (entries ns.pools)
  pub links : Linked ns (entries ns.pools)

length-total {ℓ} : {A : Type ℓ} (xs : List A) → length xs ≡ total (λ _. 1) xs
length-total [] = refl
length-total (x ∷ xs) = omega (arith, length-total xs)

length-Perm {ℓ} : {A : Type ℓ} {xs ys : List A} → Perm xs ys → length xs ≡ length ys
length-Perm {xs = xs} {ys = ys} p = length-total xs ∙ total-Perm (λ _. 1) p ∙ sym (length-total ys)

pub Sums-Perm :
    (ns : PoolHandlespaceNode) {bs bs' : List Booked} → Perm bs bs' → Sums ns bs → Sums ns bs'
Sums-Perm ns p h =
    let home = ns.home_registrar_identifier in
    record {
      checksum = h.checksum ∙ ap (λ n. n % 2 ^ 32) (total-Perm checksum_of p);
      owned_checksum =
          h.owned_checksum ∙ ap (λ n. n % 2 ^ 32) (total-Perm (owned_checksum_of home) p);
      owned = h.owned ∙ total-Perm (owned_one home) p;
      sound = λ b m. h.sound b ((Perm.mem_iff p).1 m);
    }

pub Linked-Perm :
    (ns : PoolHandlespaceNode) {bs bs' : List Booked} → Perm bs bs' → Linked ns bs → Linked ns bs'
Linked-Perm ns p h = record {
  counted = h.counted ∙ length-Perm p;
  timers = Holds-Perm timer_linkage p h.timers;
  ownerships = Holds-Perm ownership_linkage p h.ownerships;
  connections = Holds-Perm connection_linkage p h.connections;
}

IsSound-prop : (b : Booked) → IsProp (IsSound b)
IsSound-prop b = hlevel

-- Soundness of one element and of the others.
pub IsSound-cons :
    (x : Booked) (rest : List Booked)
    → IsSound x
    → ((b : Booked) → Mem b rest → IsSound b)
    → (b : Booked) → Mem b (x ∷ rest)
    → IsSound b
IsSound-cons x rest s h b m =
    let it_is : b ≡ x → IsSound b = λ q. subst IsSound (sym q) s in
    Or.elim (IsSound-prop b) (mem-cons.0 m) it_is (h b)

-- The invariant holds after a pool was changed, if the books are right over its elements and the
-- others.
pub rebuilt-IsValid :
    (ns ns' : PoolHandlespaceNode) (p' : PoolNode) (bs : List Booked)
    → IsSorted comparison (handles ns.pools)
    → All PoolNode.Invariant.IsValid ns.pools
    → PoolNode.Invariant.IsValid p'
    → ns'.pools ≡ put_pool p' ns.pools
    → Perm (entries (put_pool p' ns.pools)) bs
    → Sums ns' bs
    → Linked ns' bs
    → IsValid ns'
rebuilt-IsValid ns ns' p' bs sorted vs vp same π s l =
    let ρ : Perm bs (entries ns'.pools) =
      subst (λ ps. Perm bs (entries ps)) (sym same) (Perm.symm π) in
    record {
      sorted =
          subst (IsSorted comparison) (sym (ap handles same ∙ handles-put_pool p' ns.pools)) sorted;
      pools_valid =
          subst (All PoolNode.Invariant.IsValid) (sym same)
            (put_pool-All PoolNode.Invariant.IsValid p' ns.pools vp vs);
      sums = Sums-Perm ns' ρ s;
      links = Linked-Perm ns' ρ l;
    }

pub rebuild-IsValid :
    (ns ns' : PoolHandlespaceNode) (p' : PoolNode) (bs : List Booked)
    → IsValid ns
    → PoolNode.Invariant.IsValid p'
    → ns'.pools ≡ put_pool p' ns.pools
    → Perm (entries (put_pool p' ns.pools)) bs
    → Sums ns' bs
    → Linked ns' bs
    → IsValid ns'
rebuild-IsValid ns ns' p' bs v = rebuilt-IsValid ns ns' p' bs v.sorted v.pools_valid

-- An empty storage holds the links of no elements.
none_held : {K : Type 0} {g : Linkage K} → Holds g [] []
none_held = record {
  sorted = tt;
  apart = tt;
  known = tt;
  allowed = tt;
  complete = λ b m. absurd (not-mem-nil m);
}

-- A new handlespace is valid.
pub new-IsValid : (home : ℕ) (notifies : Bool) → IsValid (HandlespaceNode.new home notifies)
unfolding HandlespaceNode.new entries
new-IsValid home notifies = record {
  sorted = tt;
  pools_valid = tt;
  sums = record {
    checksum = refl;
    owned_checksum = refl;
    owned = refl;
    sound = λ b m. absurd (not-mem-nil m);
  };
  links = record {
    counted = refl;
    timers = none_held;
    ownerships = none_held;
    connections = none_held;
  };
}
