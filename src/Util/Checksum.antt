-- ===== src/Util/Checksum.antt =====
-- calc_checksum of util.c, on the bytes from `buffer` on. Words are read little-endian, as on every
-- Android ABI.
pub mod Laws
use violet.Base.{ℕ, zero, suc, ◌+◌, ◌*◌, ◌/◌, ◌%◌, List, [], ◌∷◌, u32, ◌==◌, if◌then◌else◌}

-- The first loop, and the odd byte behind it.
pub sum_words : ℕ → List ℕ → ℕ
sum_words sum [] = sum
sum_words sum (a ∷ []) = u32 (sum + a)
sum_words sum (a ∷ b ∷ rest) = sum_words (u32 (sum + (a + 256 * b))) rest

-- `while (sum >> 16) sum = (sum & 0xFFFF) + (sum >> 16)`, with a bound on the rounds.
pub fold_carry : ℕ → ℕ → ℕ
fold_carry zero sum = sum
fold_carry (suc rounds) sum =
    let rest = fold_carry rounds (sum % 65536 + sum / 65536) in
    if sum / 65536 == 0 then sum else rest

-- Two rounds are enough for 32 bits: `fold_carry-enough`.
unfoldable pub calc_checksum : ℕ → List ℕ → ℕ
unfolding sum_words fold_carry
calc_checksum start buffer = fold_carry 2 (sum_words start buffer)
