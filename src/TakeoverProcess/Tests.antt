-- ===== src/TakeoverProcess/Tests.antt =====
-- A takeover at concrete inputs.
use mathlib.Core.List.Perm
use rsplib.Base.{ℕ, List, [], ◌∷◌, ◌≡◌, ◌≢◌, refl, some, arith, All}
use rsplib.TakeoverProcess.{new, acknowledge, acknowledge_all, get_outstanding_acks}
use rsplib.TakeoverProcess.Acknowledging.{acknowledge_all_perm, new_lem}

new_filters : new 5 3 (0 ∷ 3 ∷ 4 ∷ 5 ∷ 6 ∷ []) ≡ some (4 ∷ 6 ∷ [])
unfolding new
new_filters = refl

acknowledge_all_perm_example : get_outstanding_acks (acknowledge_all (4 ∷ 6 ∷ []) (6 ∷ 4 ∷ [])) ≡ 0
acknowledge_all_perm_example = acknowledge_all_perm (6 ∷ 4 ∷ []) (4 ∷ 6 ∷ []) (Perm.swap _ _ _)

new_lem_example :
    (process : List ℕ) × (new 5 3 (0 ∷ 3 ∷ 4 ∷ 5 ∷ 6 ∷ []) ≡ some process)
    × All (λ p. (p ≢ 5) × (p ≢ 3) × (p ≢ 0)) process
    × (acknowledge process 5 ≡ process)
    × (acknowledge process 3 ≡ process)
new_lem_example = new_lem 5 3 (0 ∷ 3 ∷ 4 ∷ 5 ∷ 6 ∷ []) (λ q. omega arith) (λ q. omega arith)
