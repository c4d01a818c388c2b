-- ===== src/Util/Serial.antt =====
-- compare_u32 of util.c: the order of TCP sequence numbers. The two numbers are read as int32_t; a
-- difference that leaves the range of int wraps, as the target's subtraction does.
pub mod Laws
use violet.Base.{ℕ, ◌+◌, ◌-◌, ◌<◌, ◌==◌, Bool, ◌&&◌, ◌||◌, ltb, leb, if◌then◌else◌}
use violet.Base.Int.{ℤ, pos, negsuc, ltb_ℤ, ◌-ℤ◌}

-- A bit pattern below 2 ^ 32 as an int, and an integer's low 32 bits as an int.
unfoldable pub to_int : ℕ → ℤ
to_int w = if ltb w 2147483648 then pos w else negsuc (4294967295 - w)

pub wrap_int : ℤ → ℤ
wrap_int (pos n) = if ltb n 2147483648 then pos n else negsuc (4294967295 - n)
wrap_int (negsuc n) = if ltb n 2147483648 then negsuc n else pos (4294967295 - n)

pub data Cmp : Type 0 where
  less same greater : Cmp

-- -1, 0 and 1 are `less`, `same` and `greater`.
unfoldable pub compare_u32 : ℕ → ℕ → Cmp
unfolding to_int wrap_int ◌-ℤ◌
compare_u32 s1 s2 =
    if s1 == s2
    then same
    else let i1 = to_int s1 in
      let i2 = to_int s2 in
      if (ltb_ℤ i1 i2 && ltb_ℤ (wrap_int (i2 -ℤ i1)) (pos 2147483647))
        || (ltb_ℤ i2 i1 && ltb_ℤ (pos 2147483647) (wrap_int (i1 -ℤ i2)))
      then less
      else greater
