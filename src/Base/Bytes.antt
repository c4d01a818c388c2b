-- ===== src/Base/Bytes.antt =====
-- Fixed-width unsigned arithmetic, and numbers as bytes. Memory behind a pointer is a function from
-- the offset to the byte that stands there, also past the end of the buffer.
use Prim.Native.Nat.{ℕ, zero, suc, ◌+◌, ◌-◌, ◌*◌, ◌/◌, ◌%◌, ◌<◌}
use mathlib.Core.Path.{◌≡◌, refl}
use mathlib.Core.List.{List, [], ◌∷◌}
use native.Mathlib.Omega.{arith}
use violet.Base.Lists.{length, All}
use Prim.Native.Char.{code}
use Prim.Native.String.{String}

abbrev pub u8 : ℕ → ℕ
u8 n = n % 256

abbrev pub u16 : ℕ → ℕ
u16 n = n % 65536

abbrev pub u32 : ℕ → ℕ
u32 n = n % 4294967296

abbrev pub u64 : ℕ → ℕ
u64 n = n % 18446744073709551616

-- a - b at 32 bits, for a and b below 2 ^ 32.
abbrev pub sub32 : ℕ → ℕ → ℕ
sub32 a b = (a + 4294967296 - b) % 4294967296

-- a - b as a size_t of 64 bits.
abbrev pub sub64 : ℕ → ℕ → ℕ
sub64 a b = (a + 18446744073709551616 - b) % 18446744073709551616

abbrev pub Memory : Type 0
Memory = ℕ → ℕ

-- The memory that `p + n` points at.
abbrev pub offset : Memory → ℕ → Memory
offset p n i = p (n + i)

-- A 16-bit and a 32-bit field in network order, as the number that ntohs and ntohl give.
abbrev pub read_be16 : Memory → ℕ → ℕ
read_be16 p n = p n * 256 + p (n + 1)

abbrev pub be16 : ℕ → List ℕ
be16 n = (n / 256 % 256) ∷ (n % 256) ∷ []

abbrev pub be32 : ℕ → List ℕ
be32 n = (n / 16777216 % 256) ∷ (n / 65536 % 256) ∷ (n / 256 % 256) ∷ (n % 256) ∷ []

-- A 16-bit number as the little-endian machine stores it.
abbrev pub le16 : ℕ → List ℕ
le16 n = (n % 256) ∷ (n / 256 % 256) ∷ []

abbrev pub IsByte : ℕ → Type 0
IsByte b = b < 256

-- The bytes of a text literal.
abbrev pub codes : String → List ℕ
codes String.[] = []
codes (String.◌∷◌ c s) = code c ∷ codes s

-- A 32-bit number as the little-endian machine stores it.
abbrev pub le32 : ℕ → List ℕ
le32 n = (n % 256) ∷ (n / 256 % 256) ∷ (n / 65536 % 256) ∷ (n / 16777216 % 256) ∷ []

-- Stores `bytes` at an offset of a buffer. What falls behind the buffer's end is not kept.
unfoldable pub set_bytes : ℕ → List ℕ → List ℕ → List ℕ
set_bytes zero [] xs = xs
set_bytes zero (b ∷ bytes) [] = []
set_bytes zero (b ∷ bytes) (x ∷ xs) = b ∷ set_bytes zero bytes xs
set_bytes (suc i) bytes [] = []
set_bytes (suc i) bytes (x ∷ xs) = x ∷ set_bytes i bytes xs

-- `n` bytes from offset `i` on, as memcpy takes them.
unfoldable pub bytes_at : ℕ → Memory → ℕ → List ℕ
bytes_at zero p i = []
bytes_at (suc n) p i = p i ∷ bytes_at n p (i + 1)

abbrev pub read_be32 : Memory → ℕ → ℕ
read_be32 p n = p n * 16777216 + p (n + 1) * 65536 + p (n + 2) * 256 + p (n + 3)

pub length-bytes_at : (n : ℕ) (p : Memory) (i : ℕ) → length (bytes_at n p i) ≡ n
unfolding bytes_at
length-bytes_at zero p i = refl
length-bytes_at (suc n) p i = omega (arith, length-bytes_at n p (i + 1))

pub bytes_at-IsByte :
    (n : ℕ) (p : Memory) (i : ℕ) → ((j : ℕ) → IsByte (p j)) → All IsByte (bytes_at n p i)
unfolding bytes_at
bytes_at-IsByte zero p i b = tt
bytes_at-IsByte (suc n) p i b = (b i, bytes_at-IsByte n p (i + 1) b)
