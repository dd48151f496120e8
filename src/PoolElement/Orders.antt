-- ===== src/PoolElement/Orders.antt =====
-- The timer and the ownership storage can hold every element of the handlespace.
use rsplib.Base.{ℕ, ◌≡◌, arith, Ordering, eq, IsLawful, ascending}
use rsplib.PoolElement.Storages.{Owned, timer_comparison, ownership_comparison}
use rsplib.PoolHandle.{comparison}
use rsplib.PoolHandle.Order.{comparison-IsLawful}

-- The order by a key, the identifier and the handle sorts strictly.
module _ (key : Owned → ℕ) where
  abbrev by_handle : Owned → Owned → Ordering
  by_handle a b =
      ascending (key a) (key b)
        (ascending a.element.identifier b.element.identifier (comparison a.handle b.handle))

  by_handle-IsLawful : IsLawful by_handle
  by_handle-IsLawful =
      let laws = comparison-IsLawful.0 in
      record {
        chains = λ a b c p q. let r = laws.chains a.handle b.handle c.handle in ground arith;
        flips_up = λ a b p. let r = laws.flips_up a.handle b.handle in ground arith;
        flips_down = λ a b p. let r = laws.flips_down a.handle b.handle in ground arith;
        same_place =
            λ a b c p q. let r = laws.same_place a.handle b.handle c.handle in ground arith;
        same_key = λ a. let r = laws.same_key a.handle in ground arith;
      }

  by_handle-eq :
      (a b : Owned)
      → by_handle a b ≡ eq
      → (a.element.identifier ≡ b.element.identifier) × (a.handle ≡ b.handle)
  by_handle-eq a b h =
      let r = comparison-IsLawful.1 a.handle b.handle in (ground arith, r (ground arith))

-- The comparison functions of the timer and the ownership storage are strict total orders that
-- find two elements equal only if both the identifier and the pool handle are the same.
pub timer_comparison-IsLawful :
    IsLawful timer_comparison
    × IsLawful ownership_comparison
    × ((a b : Owned)
        → timer_comparison a b ≡ eq
        → (a.element.identifier ≡ b.element.identifier) × (a.handle ≡ b.handle))
    × ((a b : Owned)
        → ownership_comparison a b ≡ eq
        → (a.element.identifier ≡ b.element.identifier) × (a.handle ≡ b.handle))
unfolding timer_comparison ownership_comparison
timer_comparison-IsLawful = (
  by_handle-IsLawful (λ e. e.element.timer_time_stamp),
  by_handle-IsLawful (λ e. e.element.home_registrar_identifier),
  by_handle-eq (λ e. e.element.timer_time_stamp),
  by_handle-eq (λ e. e.element.home_registrar_identifier),
)
