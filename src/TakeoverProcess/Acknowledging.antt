-- ===== src/TakeoverProcess/Acknowledging.antt =====
-- Which acknowledgements end a takeover.
use mathlib.Core.List.{Mem, Mem-prop, Perm, mem-cons, not-mem-nil}
use mathlib.Core.List.Perm
use mathlib.Core.Logic.Or
use mathlib.Core.Logic.{◌∨₁◌}
use rsplib.Base.{
  ℕ, List, [], ◌∷◌, ◌≡◌, ◌≢◌, refl, ap, arith, some, All, All-imp, inl, inr, length, false, ◌==◌,
  Bool-cases,
}
use rsplib.TakeoverProcess.{outstanding, new, acknowledge, acknowledge_all, get_outstanding_acks}

-- The target of the takeover, the registrar itself and peers without an identifier are not waited
-- for.
outstanding-All :
    (target own : ℕ) (peers : List ℕ)
    → All (λ p. (p ≢ target) × (p ≢ own) × (p ≢ 0)) (outstanding target own peers)
unfolding outstanding
outstanding-All target own [] = tt
outstanding-All target own (p ∷ ps) = elim (Bool-cases (p == target)) [
  | inl t ↦ rw t (outstanding-All target own ps)
  | inr f ↦ elim (Bool-cases (p == own)) [
    | inl t ↦ rw (f, t) (outstanding-All target own ps)
    | inr g ↦ elim (Bool-cases (p == 0)) [
      | inl t ↦ rw (f, g, t) (outstanding-All target own ps)
      | inr h ↦
          rw (f, g, h)
            ((
              ((λ q. ground arith), (λ q. ground arith), (λ q. ground arith)),
              outstanding-All target own ps,
            ))
    ]
  ]
]

member_later : {a p : ℕ} {ps : List ℕ} → (a ≡ p) ∨₁ Mem a ps → (p == a) ≡ false → Mem a ps
member_later m f = Or.elim Mem-prop m (λ q. absurd (ground arith)) (λ k. k)

-- An acknowledgement takes one entry off.
acknowledge-perm :
    (process : List ℕ) (a : ℕ) → Mem a process → Perm process (a ∷ acknowledge process a)
unfolding acknowledge
acknowledge-perm [] a m = absurd (not-mem-nil m)
acknowledge-perm (p ∷ ps) a m = elim (Bool-cases (p == a)) [
  | inl t ↦ let same : p ≡ a = ground arith in rw (t, same) (Perm.refl _)
  | inr f ↦
      let later : Mem a ps = member_later (mem-cons.0 m) f in
      rw f (Perm.trans (Perm.cons p (acknowledge-perm ps a later)) (Perm.swap _ _ _))
]

-- A registrar that is not waited for changes nothing.
acknowledge_unknown :
    (process : List ℕ) (a : ℕ) → All (λ p. p ≢ a) process → acknowledge process a ≡ process
unfolding acknowledge
acknowledge_unknown [] a h = refl
acknowledge_unknown (p ∷ ps) a h =
    let f : (p == a) ≡ false = ground arith in
    rw f (ap (λ qs. p ∷ qs) (acknowledge_unknown ps a h.1))

-- Once every registrar that is waited for has acknowledged, in any order, none is outstanding.
pub acknowledge_all_perm :
    (acks process : List ℕ)
    → Perm process acks
    → get_outstanding_acks (acknowledge_all process acks) ≡ 0
acknowledge_all_perm [] process π = ap length (Perm.eq-nil π)
acknowledge_all_perm (a ∷ acks) process π =
    let m : Mem a process = (Perm.mem_iff π).1 (mem-cons.1 (Or.inl refl)) in
    acknowledge_all_perm acks (acknowledge process a)
      (Perm.cons_inv (Perm.trans (Perm.symm (acknowledge-perm process a m)) π))

-- A takeover of another registrar begins, waits for neither that one nor the registrar itself, and
-- is not moved by the acknowledgement of either.
pub new_lem :
    (target own : ℕ) (peers : List ℕ)
    → target ≢ 0
    → target ≢ own
    → (process : List ℕ) × (new target own peers ≡ some process)
      × All (λ p. (p ≢ target) × (p ≢ own) × (p ≢ 0)) process
      × (acknowledge process target ≡ process)
      × (acknowledge process own ≡ process)
unfolding new
new_lem target own peers nonzero other =
    let process = outstanding target own peers in
    let h = outstanding-All target own peers in
    (
      process,
      ground arith,
      h,
      acknowledge_unknown process target (All-imp (λ p k. k.0) process h),
      acknowledge_unknown process own (All-imp (λ p k. k.1) process h),
    )
