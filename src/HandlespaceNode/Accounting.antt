-- ===== src/HandlespaceNode/Accounting.antt =====
-- An element leaves the checksums of the handlespace and enters them.
use mathlib.Core.List.{Mem, mem-cons}
use mathlib.Core.Logic.Or
use rsplib.Base.{
  ℕ, ◌+◌, ◌-◌, ◌*◌, ◌%◌, ◌^◌, ◌<◌, List, [], ◌∷◌, ◌≡◌, refl, arith, some, inl, inr, Bool-cases, ltb,
  ◌==◌, true,
}
use rsplib.Checksum.{compute}
use rsplib.Checksum
use rsplib.PoolElement.Storages.{network_bytes}
use rsplib.HandlespaceNode.{PoolHandlespaceNode, discount, credit}
use rsplib.HandlespaceNode.Books.{Booked, due_checksum}
use rsplib.HandlespaceNode.Invariant.{Sums, IsSound, IsSound-cons}

compute-lt : (s : ℕ) (bytes : List ℕ) → s < 2 ^ 32 → compute s bytes < 2 ^ 32
unfolding compute
compute-lt s [] h = h
compute-lt s (b ∷ []) h = omega arith
compute-lt s (low ∷ high ∷ bytes) h =
    compute-lt ((s + (low + 256 * high)) % 2 ^ 32) bytes (omega arith)

due_checksum-lt : (handle : List ℕ) (id : ℕ) → due_checksum handle id < 2 ^ 32
unfolding due_checksum
due_checksum-lt handle id =
    compute-lt (compute 0 handle) (network_bytes id) (compute-lt 0 handle (omega arith))

-- The handlespace with other checksums and another number of owned elements.
abbrev pub with_sums :
    PoolHandlespaceNode → (checksum owned_checksum owned : ℕ) → PoolHandlespaceNode
with_sums ns c o n = record ns {
  handlespace_checksum = c;
  ownership_checksum = o;
  owned_pool_elements = n;
}

-- An element that is in the books can be taken out of them.
pub discount-Sums :
    (ns : PoolHandlespaceNode) (x : Booked) (rest : List Booked)
    → Sums ns (x ∷ rest)
    → (c o n : ℕ) × (discount x.entry.account_home x.entry.account_checksum ns
        ≡ some (with_sums ns c o n))
      × Sums (with_sums ns c o n) rest
unfolding discount Checksum.sub
discount-Sums ns x rest h =
    let k = x.entry.account_checksum in
    let small : k < 2 ^ 32 =
      rw (h.sound x (mem-cons.1 (Or.inl refl)))
        (due_checksum-lt x.pool_handle x.entry.account_identifier) in
    let others : (b : Booked) → Mem b rest → IsSound b = λ b m. h.sound b (mem-cons.1 (Or.inr m)) in
    let c = Checksum.sub ns.handlespace_checksum k in
    let home = ns.home_registrar_identifier in
    let cs = h.checksum in
    let os = h.owned_checksum in
    let no = h.owned in
    elim (Bool-cases (x.entry.account_home == home)) [
      | inl t ↦
          let some_owned : ltb 0 ns.owned_pool_elements ≡ true = ground (arith, t, no) in
          (
            c,
            Checksum.sub ns.ownership_checksum k,
            ns.owned_pool_elements - 1,
            rw (t, some_owned) refl,
            record {
              checksum = omega (arith, cs, small);
              owned_checksum = ground (arith, os, t, small);
              owned = ground (arith, no, t);
              sound = others;
            },
          )
      | inr f ↦ (
        c,
        ns.ownership_checksum,
        ns.owned_pool_elements,
        rw f refl,
        record {
          checksum = omega (arith, cs, small);
          owned_checksum = ground (arith, os, f);
          owned = ground (arith, no, f);
          sound = others;
        },
      )
    ]

-- A sound element is entered in the books.
pub credit-Sums :
    (ns : PoolHandlespaceNode) (x : Booked) (rest : List Booked)
    → IsSound x
    → Sums ns rest
    → (c o n : ℕ) × (credit x.entry.account_home x.entry.account_checksum ns ≡ with_sums ns c o n)
      × Sums (with_sums ns c o n) (x ∷ rest)
unfolding credit Checksum.add
credit-Sums ns x rest s h =
    let k = x.entry.account_checksum in
    let all_sound = IsSound-cons x rest s h.sound in
    let c = Checksum.add ns.handlespace_checksum k in
    let home = ns.home_registrar_identifier in
    let cs = h.checksum in
    let os = h.owned_checksum in
    let no = h.owned in
    elim (Bool-cases (x.entry.account_home == home)) [
      | inl t ↦ (
        c,
        Checksum.add ns.ownership_checksum k,
        ns.owned_pool_elements + 1,
        rw t refl,
        record {
          checksum = omega (arith, cs);
          owned_checksum = ground (arith, os, t);
          owned = ground (arith, no, t);
          sound = all_sound;
        },
      )
      | inr f ↦ (
        c,
        ns.ownership_checksum,
        ns.owned_pool_elements,
        rw f refl,
        record {
          checksum = omega (arith, cs);
          owned_checksum = ground (arith, os, f);
          owned = ground (arith, no, f);
          sound = all_sound;
        },
      )
    ]
