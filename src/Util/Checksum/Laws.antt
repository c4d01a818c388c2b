-- ===== src/Util/Checksum/Laws.antt =====
-- What the loops of calc_checksum compute: a sum of words modulo 65535, with 65535 for 0.
use violet.Base.{
  ℕ, zero, suc, ◌+◌, ◌-◌, ◌*◌, ◌/◌, ◌%◌, ◌≤◌, ◌<◌, ◌≡◌, ap, ◌∙◌, List, [], ◌∷◌, ◌++◌, arith, u32,
  ◌==◌, if◌then◌else◌, length, All, IsByte, le16,
}
use violet.Util.Checksum.{sum_words, fold_carry, calc_checksum}

-- The plain sum of the 16-bit words of a buffer, without a width.
abbrev pub words : List ℕ → ℕ
words [] = 0
words (a ∷ []) = a
words (a ∷ b ∷ rest) = a + 256 * b + words rest

-- The one's complement value of a sum.
abbrev pub ones : ℕ → ℕ
ones n = if n == 0 then 0 else (n - 1) % 65535 + 1

pub ones-le : (n : ℕ) → ones n ≤ 65535
ones-le n = ground arith

ones-le_self : (n : ℕ) → ones n ≤ n
ones-le_self n = ground arith

ones-add : (a b : ℕ) → ones (ones a + b) ≡ ones (a + b)
ones-add a b = ground arith

ones-complement : (n : ℕ) → ones (n + (65535 - ones n)) ≡ 65535
ones-complement n = ground arith

-- A 16-bit number and the two bytes that the machine stores.
le16-words : (n : ℕ) (ys : List ℕ) → n < 65536 → words (le16 n ++ ys) ≡ n + words ys
le16-words n ys h = omega arith

fold_carry-ones : (sum : ℕ) → sum < 4294967296 → fold_carry 2 sum ≡ ones sum
unfolding fold_carry
fold_carry-ones sum h = ground arith

sum_words-words :
    (sum : ℕ) (buffer : List ℕ)
    → sum + words buffer < 4294967296
    → sum_words sum buffer ≡ sum + words buffer
unfolding sum_words
sum_words-words sum [] h = omega arith
sum_words-words sum (a ∷ []) h = omega arith
sum_words-words sum (a ∷ b ∷ rest) h =
    omega (arith, sum_words-words (u32 (sum + (a + 256 * b))) rest (omega arith))

pub words-append : (xs ys : List ℕ) → length xs % 2 ≡ 0 → words (xs ++ ys) ≡ words xs + words ys
words-append [] ys h = omega arith
words-append (a ∷ []) ys h = absurd (omega arith)
words-append (a ∷ b ∷ xs) ys h = omega (arith, words-append xs ys (omega arith))

-- A buffer that fits a packet cannot overflow the 32-bit sum.
pub words_bound : (xs : List ℕ) → All IsByte xs → words xs ≤ 65535 * length xs
words_bound [] h = omega arith
words_bound (a ∷ []) h = omega arith
words_bound (a ∷ b ∷ xs) h = omega (arith, words_bound xs h.1.1)

pub calc_checksum-ones :
    (start : ℕ) (buffer : List ℕ)
    → start + words buffer < 4294967296
    → calc_checksum start buffer ≡ ones (start + words buffer)
unfolding calc_checksum
calc_checksum-ones start buffer h =
    rw (sum_words-words start buffer h) (fold_carry-ones (start + words buffer) h)

-- The loop that folds the carries has ended by its own test after two rounds, and more rounds
-- change nothing.
pub fold_carry-enough :
    (rounds sum : ℕ)
    → sum < 4294967296
    → (fold_carry 2 sum / 65536 ≡ 0) × (fold_carry (suc (suc rounds)) sum ≡ fold_carry 2 sum)
unfolding fold_carry
fold_carry-enough zero sum h = ground arith
fold_carry-enough (suc rounds) sum h = ground arith

-- For a buffer of bytes no longer than an IP packet, and a 16-bit start, calc_checksum is the
-- start plus the plain sum of the words, reduced modulo 65535 with 65535 for a multiple above 0.
pub calc_checksum_lem :
    (start : ℕ) (buffer : List ℕ)
    → start < 65536
    → All IsByte buffer
    → length buffer ≤ 65535
    → calc_checksum start buffer ≡ ones (start + words buffer)
calc_checksum_lem start buffer hs hb hl =
    calc_checksum-ones start buffer (omega (arith, words_bound buffer hb))

-- The checksum of a packet may be taken piece by piece: feeding the sum of an even-sized piece
-- into the next call gives the checksum of the pieces joined, for pieces that fit an IP packet.
pub calc_checksum-append :
    (start : ℕ) (xs ys : List ℕ)
    → start < 65536
    → All IsByte xs
    → All IsByte ys
    → length xs + length ys ≤ 65535
    → length xs % 2 ≡ 0
    → calc_checksum (calc_checksum start xs) ys ≡ calc_checksum start (xs ++ ys)
calc_checksum-append start xs ys hs hx hy hl even =
    let bx = words_bound xs hx in
    let by = words_bound ys hy in
    let e = words-append xs ys even in
    rw (calc_checksum-ones start xs (omega arith)) (
      rw
        (calc_checksum-ones (ones (start + words xs)) ys
          (omega (arith, ones-le_self (start + words xs))))
        (rw (calc_checksum-ones start (xs ++ ys) (omega arith))
          (rw e (ones-add (start + words xs) (words ys) ∙ ap ones (omega arith)))))

-- A checksum field at an even offset that holds the complement of the checksum taken while the field
-- was 0 makes the whole sum come out as 0xFFFF, for a buffer whose plain sum leaves room for the field
-- in 32 bits.
pub checksum_field :
    (start : ℕ) (xs ys : List ℕ)
    → start + words xs + words ys < 4294901760
    → length xs % 2 ≡ 0
    → let check = 65535 - calc_checksum start (xs ++ (0 ∷ 0 ∷ ys)) in
      calc_checksum start (xs ++ (le16 check ++ ys)) ≡ 65535
checksum_field start xs ys h even =
    let n = start + words xs + words ys in
    let zeros = words-append xs (0 ∷ 0 ∷ ys) even in
    let filled = words-append xs (le16 (65535 - ones n) ++ ys) even in
    let field = le16-words (65535 - ones n) ys (omega arith) in
    let total : start + words (xs ++ (0 ∷ 0 ∷ ys)) ≡ n = omega arith in
    rw (calc_checksum-ones start (xs ++ (0 ∷ 0 ∷ ys)) (omega arith), total)
      (rw (calc_checksum-ones start (xs ++ (le16 (65535 - ones n) ++ ys)) (omega arith)) (
        let total' : start + words (xs ++ (le16 (65535 - ones n) ++ ys)) ≡ n + (65535 - ones n) =
          omega arith in
        ap ones total' ∙ ones-complement n))
