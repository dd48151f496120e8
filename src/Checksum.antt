-- ===== src/Checksum.antt =====
-- src/poolhandlespacechecksum.c and .h: the 16-bit Internet-style checksum of the handlespace. An
-- accumulator is a `uint32_t`, so sums wrap at 2 ^ 32; a buffer is a list of bytes, and 16-bit
-- words are read in the little-endian byte order of the host.
pub mod Laws
mod Tests
use rsplib.Base.{
  ℕ, zero, suc, ◌+◌, ◌-◌, ◌*◌, ◌/◌, ◌%◌, ◌^◌, List, [], ◌∷◌, ltb, if◌then◌else◌, Option, none, some,
}

-- handlespaceChecksumAdd and handlespaceChecksumSub
unfoldable pub add : ℕ → ℕ → ℕ
add a b = (a + b) % 2 ^ 32

unfoldable pub sub : ℕ → ℕ → ℕ
sub a b = (a + 2 ^ 32 - b) % 2 ^ 32

-- handlespaceChecksumCompute: a last odd byte counts as a word with a zero byte behind it.
unfoldable pub compute : ℕ → List ℕ → ℕ
compute sum [] = sum
compute sum (b ∷ []) = (sum + b) % 2 ^ 32
compute sum (low ∷ high ∷ bytes) = compute ((sum + (low + 256 * high)) % 2 ^ 32) bytes

-- handlespaceChecksumFinish: the loop, on fuel, and the complement in 16 bits.
unfoldable pub strip_carry : ℕ → ℕ → Option ℕ
strip_carry zero sum = none
strip_carry (suc fuel) sum =
    let rest = strip_carry fuel (sum % 2 ^ 16 + sum / 2 ^ 16) in
    if ltb sum (2 ^ 16) then some sum else rest

-- The fuel is for two rounds and the last test.
unfoldable pub finish : ℕ → Option ℕ
unfolding strip_carry
finish sum = elim (strip_carry 3 sum) [ none ↦ none | some s ↦ some (2 ^ 16 - 1 - s) ]
