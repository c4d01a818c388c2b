-- ===== src/Http/Header/Reads.antt =====
-- get_header ends, and reads only the data.
use violet.Base.{
  ℕ, zero, suc, ◌+◌, ◌-◌, ◌≤◌, ◌<◌, ◌≡◌, refl, inl, inr, Bool, true, false, ◌&&◌, some, List, [],
  ◌∷◌, arith, Memory, Bool-cases, leb, leb→le, ltb, ltb→lt, ◌==◌, ==→ne, if◌then◌else◌, length,
  sub64,
}
use violet.Http.{starts_with}
use violet.Http.Header.{
  Line, ends_at, walk, line_length, next_header, Answer, blanks, strncpy, take_value, matches,
  header_loop, get_header, incomplete, missing,
}

-- Memories that are the same below `n`.
abbrev pub Agree : Memory → Memory → ℕ → Type 0
Agree p q n = (i : ℕ) → i < n → p i ≡ q i

module _ (p q : Memory) (n : ℕ) (agree : Agree p q n) where
  ends_at-Agree : (pos : ℕ) → pos + 1 < n → ends_at p pos ≡ ends_at q pos
  ends_at-Agree pos h = rw (agree pos (omega arith), agree (pos + 1) h) refl

  walk-Agree : (len pos : ℕ) → pos + len ≤ n → walk p len pos ≡ walk q len pos
  unfolding walk
  walk-Agree zero pos h = refl
  walk-Agree (suc len) pos h = elim (Bool-cases (leb 2 len)) [
    | inr e ↦ rw e refl
    | inl e ↦
        let big = leb→le 2 len e in
        rw (e, ends_at-Agree pos (omega (arith, big)), walk-Agree len (pos + 1) (omega arith)) refl
  ]

  line_length-Agree : (len pos : ℕ) → pos + len ≤ n → line_length p len pos ≡ line_length q len pos
  unfolding line_length
  line_length-Agree zero pos h = refl
  line_length-Agree (suc len) pos h = elim (Bool-cases (leb 1 len)) [
    | inr e ↦ rw e refl
    | inl e ↦
        let big = leb→le 1 len e in
        rw
          (e, ends_at-Agree pos (omega (arith, big)), line_length-Agree len (pos + 1) (omega arith))
          refl
  ]

  starts_with-Agree :
      (header : List ℕ) (pos : ℕ)
      → pos + length header ≤ n
      → starts_with header p pos ≡ starts_with header q pos
  unfolding starts_with
  starts_with-Agree [] pos h = refl
  starts_with-Agree (c ∷ header) pos h =
      rw (agree pos (omega arith), starts_with-Agree header (pos + 1) (omega arith)) refl

  blanks-Agree : (k i : ℕ) → i + k ≤ n → blanks k p i ≡ blanks k q i
  unfolding blanks
  blanks-Agree zero i h = refl
  blanks-Agree (suc k) i h = rw (agree i (omega arith), blanks-Agree k (i + 1) (omega arith)) refl

  strncpy-Agree : (k i : ℕ) → i + k ≤ n → strncpy k p i ≡ strncpy k q i
  unfolding strncpy
  strncpy-Agree zero i h = refl
  strncpy-Agree (suc k) i h = rw (agree i (omega arith), strncpy-Agree k (i + 1) (omega arith)) refl

walk_bound : (p : Memory) (len pos : ℕ) → 2 ≤ len → walk p len pos + 2 ≤ len
unfolding walk
walk_bound p zero pos h = absurd (omega arith)
walk_bound p (suc len) pos h = ground (arith, walk_bound p len (pos + 1))

line_length_bound :
    (p : Memory) (len pos : ℕ) → 0 < line_length p len pos → line_length p len pos + 1 ≤ len
unfolding line_length
line_length_bound p zero pos h = absurd (omega arith)
line_length_bound p (suc len) pos h = ground (arith, line_length_bound p len (pos + 1))

blanks_bound : (k : ℕ) (p : Memory) (i : ℕ) → blanks k p i ≤ k
unfolding blanks
blanks_bound zero p i = omega arith
blanks_bound (suc k) p i = ground (arith, blanks_bound k p (i + 1))

-- A header that next_header finds in data of two bytes or more.
record Found (n len : ℕ) (l : Line) : Type 0 where
  within : l.pos + l.len ≤ n
  shorter : l.len + 2 ≤ len
  inside : 0 < l.header_len → l.header_len + 1 ≤ l.len

left_behind :
    (len walked : ℕ)
    → walked + 2 ≤ len
    → len < 18446744073709551616
    → sub64 (len - walked) 2 ≡ len - walked - 2
left_behind len walked h small = omega arith

next_header-Found :
    (p : Memory) (n pos len : ℕ)
    → 2 ≤ len
    → pos + len ≤ n
    → n < 18446744073709551616
    → Found n len (next_header p pos len)
unfolding next_header
next_header-Found p n pos len two h small =
    let walked = walk_bound p len pos two in
    let left = left_behind len (walk p len pos) walked (omega arith) in
    let long = line_length_bound p (sub64 (len - walk p len pos) 2) (pos + walk p len pos + 2) in
    record {
      within = omega (arith, walked, left);
      shorter = omega (arith, walked, left);
      inside = long;
    }

next_header-Agree :
    (p q : Memory) (n pos len : ℕ)
    → Agree p q n
    → 2 ≤ len
    → pos + len ≤ n
    → n < 18446744073709551616
    → next_header p pos len ≡ next_header q pos len
unfolding next_header
next_header-Agree p q n pos len agree two h small =
    let walked = walk_bound p len pos two in
    let left = left_behind len (walk p len pos) walked (omega arith) in
    let same = walk-Agree p q n agree len pos h in
    let line =
      line_length-Agree p q n agree (sub64 (len - walk p len pos) 2) (pos + walk p len pos + 2)
        (omega (arith, walked, left)) in
    rw (← same, line) refl

take_value-Agree :
    (has_room : Bool) (header : List ℕ) (p q : Memory) (n len : ℕ) (l : Line)
    → Agree p q n
    → Found n len l
    → length header < l.header_len
    → take_value has_room header p l ≡ take_value has_room header q l
take_value-Agree has_room header p q n len l agree f long =
    let inside = f.inside (omega arith) in
    let name = length header in
    let size = l.header_len - name in
    let skipped = blanks-Agree p q n agree size (l.pos + name) (omega (arith, inside, f.within)) in
    let bound = blanks_bound size p (l.pos + name) in
    let start = name + blanks size p (l.pos + name) in
    let copied =
      strncpy-Agree p q n agree (l.header_len - start) (l.pos + start)
        (omega (arith, inside, f.within, bound)) in
    rw (← skipped, copied) refl

matches-Agree :
    (header : List ℕ) (p q : Memory) (n len : ℕ) (l : Line)
    → Agree p q n
    → Found n len l
    → matches header p l ≡ matches header q l
matches-Agree header p q n len l agree f = elim (Bool-cases (ltb (length header) l.header_len)) [
  | inr e ↦ rw e refl
  | inl e ↦
      let long = ltb→lt (length header) l.header_len e in
      rw
        (
          e,
          starts_with-Agree p q n agree header l.pos
              (omega (arith, long, f.inside (omega (arith, long)), f.within)),
        )
        refl
]

both : (a b : Bool) → (a && b) ≡ true → a ≡ true
both true b h = refl
both false b h = cc

header_loop-Agree :
    (rounds : ℕ) (has_room : Bool) (header : List ℕ) (p q : Memory) (n pos len : ℕ)
    → Agree p q n
    → 2 ≤ len
    → len < rounds
    → pos + len ≤ n
    → n < 18446744073709551616
    → (answer : Answer) × (header_loop rounds has_room header p pos len ≡ some answer)
      × (header_loop rounds has_room header q pos len ≡ some answer)
unfolding header_loop
header_loop-Agree zero has_room header p q n pos len agree two fuel h small = absurd (omega arith)
header_loop-Agree (suc rounds) has_room header p q n pos len agree two fuel h small =
    let l = next_header p pos len in
    let f = next_header-Found p n pos len two h small in
    let same = next_header-Agree p q n pos len agree two h small in
    let end = if l.len == 0 then incomplete else missing in
    elim (Bool-cases (l.header_len == 0)) [
      | inl e ↦ (end, rw e refl, rw (← same, e) refl)
      | inr e ↦
          let some_ : 0 < l.header_len = omega (arith, ==→ne l.header_len 0 e) in
          let matched = matches-Agree header p q n len l agree f in
          elim (Bool-cases (matches header p l)) [
            | inl m ↦
                let long = ltb→lt (length header) l.header_len (both _ _ m) in
                (
                  take_value has_room header p l,
                  rw (e, m) refl,
                  rw
                      (
                        ← same,
                        e,
                        ← matched,
                        m,
                        take_value-Agree has_room header p q n len l agree f long,
                      )
                      refl,
                )
            | inr m ↦
                let (answer, at_p, at_q) =
                  header_loop-Agree rounds has_room header p q n l.pos l.len agree
                    (omega (arith, f.inside some_, some_)) (omega (arith, f.shorter)) f.within
                    small in
                (answer, rw (e, m) at_p, rw (← same, e, ← matched, m) at_q)
          ]
    ]

-- On two bytes of data or more, with a round more than there are bytes, get_header ends with an
-- answer, and the answer depends on the data alone: memory that is the same up to its end gives the
-- same answer, whatever stands behind.
pub get_header-Agree :
    (has_room : Bool) (header : List ℕ) (p q : Memory) (data_len : ℕ)
    → 2 ≤ data_len
    → data_len < 18446744073709551616
    → Agree p q data_len
    → (answer : Answer) × (get_header (data_len + 1) has_room header p data_len ≡ some answer)
      × (get_header (data_len + 1) has_room header q data_len ≡ some answer)
unfolding get_header
get_header-Agree has_room header p q data_len two small agree =
    header_loop-Agree (data_len + 1) has_room header p q data_len 0 data_len agree two (omega arith)
      (omega arith) small
