-- ===== src/Ip/Uid/Rows.antt =====
-- What get_uid_sub finds in a table of /proc/net.
use violet.Base.{
  ℕ, ◌+◌, ◌/◌, ◌%◌, ◌<◌, ◌≡◌, refl, inl, inr, Bool, true, ◌&&◌, Option, none, some, List, [], ◌∷◌,
  ◌++◌, if◌then◌else◌, arith, ltb, length, All, IsByte, Bool-cases, ==-refl,
}
use violet.Base.Int.{pos, pos_part}
use violet.Session.Search.{same_bytes_refl}
use violet.Ip.Uid.{
  char2nible, join_nibles, hex2bytes, swap_words, Row, row_address, is_valid, same_ℤ, is_peer,
  scan_rows, or_else,
}

-- The first and the last row that pass a test, for their uid.
abbrev pub first_uid : (Row → Bool) → List Row → Option ℕ
first_uid test [] = none
first_uid test (r ∷ rows) = if test r then some (pos_part r.uid) else first_uid test rows

abbrev pub last_uid : (Row → Bool) → List Row → Option ℕ
last_uid test [] = none
last_uid test (r ∷ rows) =
    or_else (last_uid test rows) (if test r then some (pos_part r.uid) else none)

abbrev pub has_port : ℕ → ℕ → Row → Bool
has_port version sport r = is_valid version r && same_ℤ r.sport sport

abbrev pub has_flow : ℕ → ℕ → List ℕ → ℕ → Row → Bool
has_flow version sport daddr dport r = has_port version sport r && is_peer daddr dport r

or_else_assoc : (a b c : Option ℕ) → or_else (or_else a b) c ≡ or_else a (or_else b c)
or_else_assoc none b c = refl
or_else_assoc (some a) b c = refl

-- The search of a table gives the uid of the first row with the flow's port and peer, or else that of
-- the last row with its port, or else what it started with.
pub scan_rows_lem :
    (version sport : ℕ) (daddr : List ℕ) (dport : ℕ) (rows : List Row) (uid : Option ℕ)
    → scan_rows version sport daddr dport rows uid
      ≡ or_else
          (first_uid (has_flow version sport daddr dport) rows)
          (or_else (last_uid (has_port version sport) rows) uid)
unfolding scan_rows
scan_rows_lem version sport daddr dport [] uid = refl
scan_rows_lem version sport daddr dport (r ∷ rows) uid =
    elim (Bool-cases (has_port version sport r)) [
      | inl h ↦ (elim (Bool-cases (is_peer daddr dport r)) [
        | inl q ↦ rw (h, q) refl
        | inr q ↦
            rw
              (
                h,
                q,
                or_else_assoc (last_uid (has_port version sport) rows) (some (pos_part r.uid)) uid,
              )
              (scan_rows_lem version sport daddr dport rows (some (pos_part r.uid)))
      ])
      | inr h ↦
          rw (h, or_else_assoc (last_uid (has_port version sport) rows) none uid)
            (scan_rows_lem version sport daddr dport rows uid)
    ]

-- How the kernel prints an address: each 32-bit word, as the little-endian machine loads it, with
-- eight hexadecimal digits in upper case.
abbrev pub hex_digit : ℕ → ℕ
hex_digit n = if ltb n 10 then 48 + n else 55 + n

abbrev pub hex_byte : ℕ → List ℕ
hex_byte b = hex_digit (b / 16) ∷ hex_digit (b % 16) ∷ []

abbrev pub hex_words : List ℕ → List ℕ
hex_words (a ∷ b ∷ c ∷ d ∷ rest) =
    hex_byte d ++ (hex_byte c ++ (hex_byte b ++ (hex_byte a ++ hex_words rest)))
hex_words rest = []

char2nible-hex_digit : (n : ℕ) → n < 16 → char2nible (hex_digit n) ≡ n
unfolding char2nible
char2nible-hex_digit n h = ground arith

join-hex_byte :
    (b : ℕ)
    → IsByte b
    → join_nibles (char2nible (hex_digit (b / 16))) (char2nible (hex_digit (b % 16))) ≡ b
join-hex_byte b h =
    rw (char2nible-hex_digit (b / 16) (omega arith), char2nible-hex_digit (b % 16) (omega arith))
      (ground arith)

swap_words-hex2bytes :
    (daddr : List ℕ)
    → length daddr % 4 ≡ 0
    → All IsByte daddr
    → swap_words (hex2bytes (hex_words daddr)) ≡ daddr
unfolding hex2bytes swap_words
swap_words-hex2bytes [] l h = refl
swap_words-hex2bytes (a ∷ []) l h = absurd (omega arith)
swap_words-hex2bytes (a ∷ b ∷ []) l h = absurd (omega arith)
swap_words-hex2bytes (a ∷ b ∷ c ∷ []) l h = absurd (omega arith)
swap_words-hex2bytes (a ∷ b ∷ c ∷ d ∷ rest) l h =
    rw
      (
        join-hex_byte a h.0,
        join-hex_byte b h.1.0,
        join-hex_byte c h.1.1.0,
        join-hex_byte d h.1.1.1.0,
        swap_words-hex2bytes rest (omega arith) h.1.1.1.1,
      )
      refl

-- A row whose address is what the kernel prints for the packet's destination, of whole words, is read
-- back as the destination's bytes in network order; so the row of the flow passes the test for its
-- peer.
pub row_address-hex_words :
    (r : Row) (daddr : List ℕ) (dport : ℕ)
    → r.hex ≡ hex_words daddr
    → r.dport ≡ pos dport
    → length daddr % 4 ≡ 0
    → All IsByte daddr
    → (row_address r ≡ daddr) × (is_peer daddr dport r ≡ true)
unfolding row_address
row_address-hex_words r daddr dport e ed l h =
    let back = swap_words-hex2bytes daddr l h in
    rw (e, ed, back) (refl, rw (==-refl dport, same_bytes_refl daddr) refl)
