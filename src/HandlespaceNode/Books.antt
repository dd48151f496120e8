-- ===== src/HandlespaceNode/Books.antt =====
-- The accounts of all elements of the handlespace, as a list, and sums over it.
use mathlib.Core.List.{Perm, Permᴰ}
use mathlib.Core.Logic.{∥∥₁_elim}
use rsplib.Base.{ℕ, ◌+◌, ◌==◌, List, [], ◌∷◌, ◌++◌, ◌≡◌, refl, ap, ◌∙◌, arith, map, if◌then◌else◌}
use rsplib.PoolElement.{Account}
use rsplib.PoolElement.Storages.{network_bytes}
use rsplib.PoolNode.{PoolNode}
use rsplib.PoolNode.Accounts.{accounts}
use rsplib.Checksum.{compute}

-- The account of an element, with the handle of the pool that owns it.
pub record Booked : Type 0 where
  pub pool_handle : List ℕ
  pub entry : Account

abbrev pub booked : List ℕ → Account → Booked
booked handle a = record { pool_handle = handle; entry = a }

abbrev pub entries_of : PoolNode → List Booked
entries_of p = map (booked p.handle) (accounts p.selection)

unfoldable pub entries : List PoolNode → List Booked
entries [] = []
entries (p ∷ ps) = entries_of p ++ entries ps

abbrev pub total {ℓ} : {A : Type ℓ} → (A → ℕ) → List A → ℕ
total f [] = 0
total f (x ∷ xs) = f x + total f xs

-- What an element contributes to the sums of the handlespace.
abbrev pub checksum_of : Booked → ℕ
checksum_of b = b.entry.account_checksum

abbrev pub owned_checksum_of : ℕ → Booked → ℕ
owned_checksum_of home b = if b.entry.account_home == home then b.entry.account_checksum else 0

abbrev pub owned_one : ℕ → Booked → ℕ
owned_one home b = if b.entry.account_home == home then 1 else 0

-- The checksum that an element ought to have.
unfoldable pub due_checksum : List ℕ → ℕ → ℕ
unfolding compute
due_checksum handle id = compute (compute 0 handle) (network_bytes id)

total-Permᴰ {ℓ} : {A : Type ℓ} (f : A → ℕ) {xs ys : List A} → Permᴰ xs ys → total f xs ≡ total f ys
total-Permᴰ f Permᴰ.nil = refl
total-Permᴰ f (Permᴰ.cons e p) = omega (arith, total-Permᴰ f p, ap f e)
total-Permᴰ f (Permᴰ.swap e₁ e₂) = omega (arith, ap f e₁, ap f e₂)
total-Permᴰ f (Permᴰ.trans p q) = total-Permᴰ f p ∙ total-Permᴰ f q

-- A sum does not depend on the order.
pub total-Perm {ℓ} :
    {A : Type ℓ} (f : A → ℕ) {xs ys : List A} → Perm xs ys → total f xs ≡ total f ys
total-Perm f {xs} {ys} p =
    let same : Permᴰ xs ys → total f xs ≡ total f ys = total-Permᴰ f in
    let unique : IsProp (total f xs ≡ total f ys) = hlevel in ∥∥₁_elim p unique same
