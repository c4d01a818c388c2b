-- ===== src/Util/Serial/Laws.antt =====
-- The order that compare_u32 gives, against the signed order and the serial order of RFC 1982.
use violet.Base.{ℕ, ◌+◌, ◌-◌, ◌%◌, ◌<◌, ◌≡◌, arith, sub32, if◌then◌else◌, ltb, ◌==◌, ◌&&◌, not}
use violet.Util.Serial.{Cmp, less, same, greater, compare_u32}

-- The signed order by bit patterns: the sign bit is turned over.
abbrev pub flip : ℕ → ℕ
flip w = (w + 2147483648) % 4294967296

-- compare_u32, described without signed numbers.
abbrev pub signed_order : ℕ → ℕ → Cmp
signed_order a b =
    if a == b
    then same
    else if ltb (flip a) (flip b) && not (flip b - flip a == 2147483647)
    then less
    else greater

pub compare_u32-signed :
    (a b : ℕ) → a < 4294967296 → b < 4294967296 → compare_u32 a b ≡ signed_order a b
unfolding compare_u32
compare_u32-signed a b ha hb = ground arith

-- For two sequence numbers where the second is less than 2 ^ 31 - 1 steps ahead of the first,
-- compare_u32 says so, in both directions, exactly when no step passes from 0x7FFFFFFF to
-- 0x80000000; when one does, both answers are the other way round.
pub compare_u32-ahead :
    (a b : ℕ)
    → a < 4294967296
    → b < 4294967296
    → 0 < sub32 b a
    → sub32 b a < 2147483647
    → (compare_u32 a b ≡ (if ltb (flip a) (flip b) then less else greater))
      × (compare_u32 b a ≡ (if ltb (flip a) (flip b) then greater else less))
compare_u32-ahead a b ha hb lo hi =
    ground (arith, compare_u32-signed a b ha hb, compare_u32-signed b a hb ha)

pub compare_u32-same : (a b : ℕ) → compare_u32 a b ≡ same → a ≡ b
unfolding compare_u32
compare_u32-same a b h = ground arith

pub compare_u32-less :
    (a b : ℕ) → a < 4294967296 → b < 4294967296 → compare_u32 a b ≡ less → compare_u32 b a ≡ greater
compare_u32-less a b ha hb h =
    ground (arith, compare_u32-signed a b ha hb, compare_u32-signed b a hb ha)
