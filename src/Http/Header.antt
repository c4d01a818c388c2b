-- ===== src/Http/Header.antt =====
-- get_header and next_header of http.c: the value of a header. A position is an offset from `p`, and
-- what is left of the data a size_t of 64 bits.
pub mod Reads
use violet.Base.{
  ℕ, zero, suc, ◌+◌, ◌-◌, Bool, true, false, ◌&&◌, ◌||◌, not, Option, none, some, List, [], ◌∷◌,
  Memory, ltb, leb, ◌==◌, if◌then◌else◌, length, sub64,
}
use violet.Http.{starts_with}

-- A header starts behind its line's end; `header_len` is its length.
pub record Line : Type 0 where
  pub pos : ℕ
  pub len : ℕ
  pub header_len : ℕ

abbrev pub ends_at : Memory → ℕ → Bool
ends_at p pos = p pos == 13 || p (pos + 1) == 10

-- The first loop, by what is left: how far it walks.
unfoldable pub walk : Memory → ℕ → ℕ → ℕ
walk p zero pos = 0
walk p (suc len) pos =
    let rest = suc (walk p len (pos + 1)) in
    if leb 2 len then (if ends_at p pos then 0 else rest) else 0

-- The second loop, by what is left: the length of the line.
unfoldable pub line_length : Memory → ℕ → ℕ → ℕ
line_length p zero pos = 0
line_length p (suc len) pos =
    let rest = suc (line_length p len (pos + 1)) in
    if leb 1 len then (if ends_at p pos then 0 else rest) else 0

unfoldable pub next_header : Memory → ℕ → ℕ → Line
unfolding walk line_length
next_header p pos len =
    let walked = walk p len pos in
    let left = sub64 (len - walked) 2 in
    record {
      pos = pos + walked + 2;
      len = left;
      header_len = line_length p left (pos + walked + 2);
    }

-- What get_header answers: -1, -2 and -4, or the length with what strncpy stores before the last NUL.
pub data Answer : Type 0 where
  incomplete missing no_room : Answer
  value : ℕ → List ℕ → Answer

abbrev pub is_blank : ℕ → Bool
is_blank c = c == 32 || c == 9

-- `while (header_len < len && isblank(…))`: how many blanks, of `n` characters at most.
unfoldable pub blanks : ℕ → Memory → ℕ → ℕ
blanks zero p i = 0
blanks (suc n) p i = let rest = suc (blanks n p (i + 1)) in if is_blank (p i) then rest else 0

abbrev pub zeros : ℕ → List ℕ
zeros zero = []
zeros (suc n) = 0 ∷ zeros n

-- strncpy, which stores NULs behind the first one.
unfoldable pub strncpy : ℕ → Memory → ℕ → List ℕ
strncpy zero p i = []
strncpy (suc n) p i =
    let rest = strncpy n p (i + 1) in if p i == 0 then zeros (suc n) else p i ∷ rest

abbrev pub take_value : (has_room : Bool) → List ℕ → Memory → Line → Answer
take_value has_room header p l =
    let name = length header in
    let start = name + blanks (l.header_len - name) p (l.pos + name) in
    if has_room
    then value (l.header_len - start) (strncpy (l.header_len - start) p (l.pos + start))
    else no_room

abbrev pub matches : List ℕ → Memory → Line → Bool
matches header p l = ltb (length header) l.header_len && starts_with header p l.pos

-- The loop over the headers, by rounds; `none` when these run out. `has_room` is `value != NULL`.
unfoldable pub header_loop : ℕ → (has_room : Bool) → List ℕ → Memory → ℕ → ℕ → Option Answer
header_loop zero has_room header p pos len = none
header_loop (suc rounds) has_room header p pos len =
    let l = next_header p pos len in
    let rest = header_loop rounds has_room header p l.pos l.len in
    if l.header_len == 0
    then some (if l.len == 0 then incomplete else missing)
    else if matches header p l
    then some (take_value has_room header p l)
    else rest

unfoldable pub get_header : ℕ → (has_room : Bool) → List ℕ → Memory → ℕ → Option Answer
unfolding header_loop
get_header rounds has_room header p data_len = header_loop rounds has_room header p 0 data_len
