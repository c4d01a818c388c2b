-- ===== src/Tls/Safe.antt =====
-- The parser's reads stay inside the data, its loops end, and what it writes fits.
use violet.Base.{
  ℕ, zero, suc, ◌+◌, ◌*◌, ◌≤◌, ◌<◌, ◌≡◌, refl, arith, Memory, offset, read_be16, length, min, All,
}
use violet.Tls.{
  Hostname, untouched, named, running, copy_string, server_name_loop, parse_server_name_extension,
  extensions_loop, parse_extensions, hello_extensions, hello_compression, hello_ciphers,
  hello_session, parse_tls_header,
}

-- Two memories with the same bytes below `n`.
abbrev pub SameBelow : ℕ → Memory → Memory → Type 0
SameBelow n p q = (i : ℕ) → i < n → p i ≡ q i

copy_string-same :
    (p q : Memory) (n k i : ℕ) → SameBelow n p q → i + k ≤ n → copy_string k p i ≡ copy_string k q i
unfolding copy_string
copy_string-same p q n zero i e h = refl
copy_string-same p q n (suc k) i e h = ground (arith, e i, copy_string-same p q n k (i + 1) e)

server_name-same :
    (p q : Memory) (n rounds pos : ℕ)
    → SameBelow n p q
    → server_name_loop rounds p n pos ≡ server_name_loop rounds q n pos
unfolding server_name_loop
server_name-same p q n zero pos e = refl
server_name-same p q n (suc rounds) pos e = ground (
  arith,
  e pos,
  e (pos + 1),
  e (pos + 1 + 1),
  server_name-same p q n rounds (pos + (3 + read_be16 p (pos + 1))) e,
  copy_string-same p q n (min (read_be16 p (pos + 1)) 255) (pos + 3) e,
)

server_name_extension-same :
    (p q : Memory) (n : ℕ)
    → SameBelow n p q
    → parse_server_name_extension p n ≡ parse_server_name_extension q n
unfolding parse_server_name_extension
server_name_extension-same p q n e = server_name-same p q n (suc n) 2 e

SameBelow-offset :
    (p q : Memory) (n k m : ℕ) → SameBelow n p q → k + m ≤ n → SameBelow m (offset p k) (offset q k)
SameBelow-offset p q n k m e h i l = e (k + i) (omega arith)

extensions-same :
    (p q : Memory) (n rounds pos : ℕ)
    → SameBelow n p q
    → extensions_loop rounds p n pos ≡ extensions_loop rounds q n pos
unfolding extensions_loop
extensions-same p q n zero pos e = refl
extensions-same p q n (suc rounds) pos e =
    let len = read_be16 p (pos + 2) in
    ground (
      arith,
      e pos,
      e (pos + 1),
      e (pos + 2),
      e (pos + 2 + 1),
      extensions-same p q n rounds (pos + (4 + len)) e,
      λ (h : pos + 4 + len ≤ n).
          server_name_extension-same (offset p (pos + 4)) (offset q (pos + 4)) len
            (SameBelow-offset p q n (pos + 4) len e h),
    )

hello_extensions-same :
    (p q : Memory) (n pos : ℕ)
    → SameBelow n p q
    → hello_extensions p n pos ≡ hello_extensions q n pos
unfolding hello_extensions parse_extensions
hello_extensions-same p q n pos e =
    let len = read_be16 p pos in
    ground (
      arith,
      e pos,
      e (pos + 1),
      λ (h : pos + 2 + len ≤ n).
          extensions-same (offset p (pos + 2)) (offset q (pos + 2)) len (suc len) 0
            (SameBelow-offset p q n (pos + 2) len e h),
    )

hello_session-same :
    (p q : Memory) (n : ℕ) → SameBelow n p q → hello_session p n ≡ hello_session q n
unfolding hello_session hello_ciphers hello_compression
hello_session-same p q n e =
    let pos1 = 43 + (1 + p 43) in
    let pos2 = pos1 + (2 + read_be16 p pos1) in
    ground (
      arith,
      e 1,
      e 2,
      e 5,
      e 43,
      e pos1,
      e (pos1 + 1),
      e pos2,
      hello_extensions-same p q n (pos2 + (1 + p pos2)) e,
    )

-- parse_tls_header never looks at a byte at or past `data_len`: two memories that agree below it
-- give the same result, whatever lies behind.
pub parse_tls_header-reads :
    (p q : Memory) (data_len : ℕ)
    → SameBelow data_len p q
    → parse_tls_header p data_len ≡ parse_tls_header q data_len
unfolding parse_tls_header
parse_tls_header-reads p q data_len e =
    let len = p 3 * 256 + p 4 + 5 in
    ground (
      arith,
      e 0,
      e 1,
      e 2,
      e 3,
      e 4,
      hello_session-same p q (min data_len len) (λ i h. e i (omega arith)),
    )

-- A result is sound when the loops have ended and a name fits the 255 bytes that are kept for it,
-- without a NUL inside.
abbrev pub IsSound : Hostname → Type 0
IsSound untouched = Unit
IsSound (named name) = (length name ≤ 255) × All (λ b. 0 < b) name
IsSound running = ⊥

copy_string_sound :
    (n : ℕ) (p : Memory) (i : ℕ)
    → (length (copy_string n p i) ≤ n) × All (λ b. 0 < b) (copy_string n p i)
unfolding copy_string
copy_string_sound zero p i = (omega arith, tt)
copy_string_sound (suc n) p i = ground (arith, copy_string_sound n p (i + 1))

server_name-IsSound :
    (rounds : ℕ) (p : Memory) (n pos : ℕ)
    → n ≤ rounds + pos
    → IsSound (server_name_loop (suc rounds) p n pos)
unfolding server_name_loop
server_name-IsSound zero p n pos h = ground arith
server_name-IsSound (suc rounds) p n pos h =
    let len = read_be16 p (pos + 1) in
    ground (
      arith,
      server_name-IsSound rounds p n (pos + (3 + len)),
      copy_string_sound (min len 255) p (pos + 3),
    )

extensions-IsSound :
    (rounds : ℕ) (p : Memory) (n pos : ℕ)
    → n ≤ rounds + pos
    → IsSound (extensions_loop (suc rounds) p n pos)
unfolding extensions_loop parse_server_name_extension
extensions-IsSound zero p n pos h = ground (arith)
extensions-IsSound (suc rounds) p n pos h =
    let len = read_be16 p (pos + 2) in
    ground (
      arith,
      extensions-IsSound rounds p n (pos + (4 + len)),
      server_name-IsSound len (offset p (pos + 4)) len 2 (omega arith),
    )

hello_extensions-IsSound : (p : Memory) (n pos : ℕ) → IsSound (hello_extensions p n pos)
unfolding hello_extensions parse_extensions
hello_extensions-IsSound p n pos =
    let len = read_be16 p pos in
    ground (arith, extensions-IsSound len (offset p (pos + 2)) len 0 (omega arith))

hello_session-IsSound : (p : Memory) (n : ℕ) → IsSound (hello_session p n)
unfolding hello_session hello_ciphers hello_compression
hello_session-IsSound p n =
    let pos1 = 43 + (1 + p 43) in
    let pos2 = pos1 + (2 + read_be16 p pos1) in
    ground (arith, hello_extensions-IsSound p n (pos2 + (1 + p pos2)))

-- On any bytes at all parse_tls_header returns, and what it puts into the hostname buffer, if
-- anything, is a string of at most 255 bytes with no NUL inside.
pub parse_tls_header-IsSound : (p : Memory) (data_len : ℕ) → IsSound (parse_tls_header p data_len)
unfolding parse_tls_header
parse_tls_header-IsSound p n = ground (arith, hello_session-IsSound p (min n (p 3 * 256 + p 4 + 5)))
