-- ===== src/Util/Text/Hex.antt =====
-- hex2bytes reads back what hex prints.
use violet.Base.{
  ℕ, zero, suc, ◌/◌, ◌+◌, ◌∙◌, length, ◌%◌, ◌<◌, ◌≡◌, ◌≢◌, refl, false, List, [], ◌∷◌, arith, ◌==◌,
  if◌then◌else◌, get_or, All, IsByte, ne→==,
}
use violet.Util.Text.{hex_str, hex}
use violet.Ip.Uid.{char2nible, join_nibles, hex2bytes}

-- A text without its spaces.
abbrev pub joined : List ℕ → List ℕ
joined [] = []
joined (c ∷ text) = if c == 32 then joined text else c ∷ joined text

-- Characters that char2nible reads as the numbers from `n` on, and none of them a space.
abbrev Counts : ℕ → List ℕ → Type 0
Counts n [] = Unit {0}
Counts n (c ∷ characters) = (char2nible c ≡ n) × (c ≢ 32) × Counts (n + 1) characters

hex_str-Counts : Counts 0 hex_str
unfolding char2nible
hex_str-Counts = omega arith

Counts-get_or :
    (n i : ℕ) (characters : List ℕ)
    → Counts n characters
    → i < length characters
    → (char2nible (get_or characters i 0) ≡ n + i) × (get_or characters i 0 ≢ 32)
Counts-get_or n i [] h l = absurd (omega arith)
Counts-get_or n zero (c ∷ characters) h l = (h.0 ∙ omega arith, h.1)
Counts-get_or n (suc i) (c ∷ characters) h l =
    let (reads, solid) = Counts-get_or (n + 1) i characters h.2 (omega arith) in
    (reads ∙ omega arith, solid)

digit :
    (n : ℕ) → n < 16 → (char2nible (get_or hex_str n 0) ≡ n) × ((get_or hex_str n 0 == 32) ≡ false)
digit n h =
    let (reads, solid) = Counts-get_or 0 n hex_str hex_str-Counts h in
    (reads ∙ omega arith, ne→== (get_or hex_str n 0) 32 solid)

join_digits : (b : ℕ) → IsByte b → join_nibles (b / 16 % 16) (b % 16) ≡ b
join_digits b h = ground arith

-- For bytes, hex2bytes reads the text that hex prints, without its spaces, back as the bytes.
pub hex2bytes-hex : (bytes : List ℕ) → All IsByte bytes → hex2bytes (joined (hex bytes)) ≡ bytes
unfolding hex2bytes hex
hex2bytes-hex [] h = refl
hex2bytes-hex (b ∷ bytes) h =
    let (high, high_solid) = digit (b / 16 % 16) (omega arith) in
    let (low, low_solid) = digit (b % 16) (omega arith) in
    rw (high_solid, low_solid, high, low, join_digits b h.0, hex2bytes-hex bytes h.1) refl
