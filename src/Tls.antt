-- ===== src/Tls.antt =====
-- tls.c: the server name in a TLS client hello. `p` is the memory that `data` points at, and char is
-- unsigned, as on the ARM ABIs.
pub mod Safe
pub mod Encode
pub mod Extensions
pub mod Hello
use violet.Base.{
  ℕ, zero, suc, ◌+◌, ◌*◌, ◌/◌, ◌%◌, Bool, ◌&&◌, ◌||◌, not, Option, none, some, List, [], ◌∷◌,
  Memory, offset, read_be16, ltb, leb, ◌==◌, if◌then◌else◌, min,
}

-- What a function does to the buffer `hostname`: nothing, or it writes a C string. `running` means
-- that the rounds given to a loop ran out.
pub data Hostname : Type 0 where
  untouched : Hostname
  named : List ℕ → Hostname
  running : Hostname

-- The C string behind strncpy(hostname, p + i, n) and hostname[n] = 0.
unfoldable pub copy_string : ℕ → Memory → ℕ → List ℕ
copy_string zero p i = []
copy_string (suc n) p i = let rest = copy_string n p (i + 1) in if p i == 0 then [] else p i ∷ rest

unfoldable pub server_name_loop : ℕ → Memory → ℕ → ℕ → Hostname
server_name_loop zero p data_len pos = running
server_name_loop (suc rounds) p data_len pos =
    let len = read_be16 p (pos + 1) in
    let rest = server_name_loop rounds p data_len (pos + (3 + len)) in
    if ltb (pos + 3) data_len
    then (if ltb data_len (pos + 3 + len)
        then untouched
        else (if p pos == 0 then named (copy_string (min len 255) p (pos + 3)) else rest))
    else untouched

-- Each round advances by 3 at least: `data_len` rounds are enough.
unfoldable pub parse_server_name_extension : Memory → ℕ → Hostname
unfolding server_name_loop copy_string
parse_server_name_extension p data_len = server_name_loop (suc data_len) p data_len 2

unfoldable pub extensions_loop : ℕ → Memory → ℕ → ℕ → Hostname
extensions_loop zero p data_len pos = running
extensions_loop (suc rounds) p data_len pos =
    let len = read_be16 p (pos + 2) in
    let rest = extensions_loop rounds p data_len (pos + (4 + len)) in
    if leb (pos + 4) data_len
    then (if p pos == 0 && p (pos + 1) == 0
        then (if ltb data_len (pos + 4 + len)
            then untouched
            else parse_server_name_extension (offset p (pos + 4)) len)
        else rest)
    else untouched

unfoldable pub parse_extensions : Memory → ℕ → Hostname
unfolding extensions_loop
parse_extensions p data_len = extensions_loop (suc data_len) p data_len 0

-- `Extensions`, from `pos` on.
unfoldable pub hello_extensions : Memory → ℕ → ℕ → Hostname
hello_extensions p data_len pos =
    if ltb data_len (pos + 2)
    then untouched
    else (if ltb data_len (pos + 2 + read_be16 p pos)
        then untouched
        else parse_extensions (offset p (pos + 2)) (read_be16 p pos))

-- `Compression Methods`, and the end of an SSL 3.0 hello.
unfoldable pub hello_compression : Memory → ℕ → ℕ → Hostname
hello_compression p data_len pos =
    if ltb data_len (pos + 1)
    then untouched
    else (let next = pos + (1 + p pos) in
        if next == data_len && p 1 == 3 && p 2 == 0
        then untouched
        else hello_extensions p data_len next)

-- `Cipher Suites`.
unfoldable pub hello_ciphers : Memory → ℕ → ℕ → Hostname
hello_ciphers p data_len pos =
    if ltb data_len (pos + 2)
    then untouched
    else hello_compression p data_len (pos + (2 + read_be16 p pos))

-- `Handshake` and `Session ID`: 5 bytes of the record's header, 38 of the hello.
unfoldable pub hello_session : Memory → ℕ → Hostname
hello_session p data_len =
    if ltb data_len 6 || not (p 5 == 1)
    then untouched
    else (if ltb data_len 44 then untouched else hello_ciphers p data_len (43 + (1 + p 43)))

unfoldable pub parse_tls_header : Memory → ℕ → Hostname
parse_tls_header p data_len =
    if ltb data_len 5
    then untouched
    else (if p 0 / 128 % 2 == 1 && p 2 == 1
        then untouched
        else (if not (p 0 == 0x16)
            then untouched
            else (if ltb (p 1) 3
                then untouched
                else (let len = p 3 * 256 + p 4 + 5 in
                    if ltb (min data_len len) len
                    then untouched
                    else hello_session p (min data_len len)))))

-- The buffer of the caller, which held the empty string; `none` when parse_tls_header does not return.
abbrev pub name_of : Hostname → Option (List ℕ)
name_of untouched = some []
name_of (named name) = some name
name_of running = none
