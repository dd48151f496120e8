-- ===== src/Checksum/Tests.antt =====
-- The checksum at concrete inputs.
use rsplib.Base.{ℕ, ◌+◌, ◌*◌, ◌%◌, ◌^◌, ◌<◌, [], ◌∷◌, ◌≡◌, refl, some, arith}
use rsplib.Checksum.{compute, finish}
use rsplib.Checksum.Laws.{compute-sum_alternate, finish-sum}

finish_twice : finish 0x1ffff ≡ some 0xfffe
unfolding finish
finish_twice = refl

compute_odd : compute 0 (1 ∷ 2 ∷ 3 ∷ []) ≡ 0x204
unfolding compute
compute_odd = refl

compute-sum_alternate_example :
    compute 0xfffffff0 (1 ∷ 2 ∷ 3 ∷ []) ≡ (0xfffffff0 + 4 + 256 * 2) % 2 ^ 32
compute-sum_alternate_example = compute-sum_alternate 0xfffffff0 (1 ∷ 2 ∷ 3 ∷ []) (omega arith)

finish-sum_example :
    (c : ℕ) × (finish 0x1ffff ≡ some c) × (c < 2 ^ 16) × ((0x1ffff + c) % 65535 ≡ 0)
finish-sum_example = finish-sum 0x1ffff (omega arith)
