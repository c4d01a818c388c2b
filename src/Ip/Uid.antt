-- ===== src/Ip/Uid.antt =====
-- get_uid and get_uid_sub of ip.c, with char2nible and hex2bytes of util.c. A jint is held as 32 bits,
-- so that -1 is 2 ^ 32 - 1; here `none` stands for it until the end.
pub mod Rows
use violet.Base.{
  ℕ, ◌+◌, ◌-◌, ◌*◌, Bool, false, ◌&&◌, Option, none, some, List, [], ◌∷◌, leb, ◌==◌, if◌then◌else◌,
  length, u8, not, map, drop,
}
use violet.Base.Int.{ℤ, pos, pos_part, ltb_ℤ}
use violet.Session.Types.{same_bytes}

unfoldable pub char2nible : ℕ → ℕ
char2nible c =
    if leb 48 c && leb c 57
    then c - 48
    else (if leb 97 c && leb c 102
        then c - 97 + 10
        else (if leb 65 c && leb c 70 then c - 65 + 10 else 255))

-- `(a << 4) | b`, cut to a byte; the two do not overlap for a nibble `b`, and 255 sets all low bits.
abbrev pub join_nibles : ℕ → ℕ → ℕ
join_nibles a b = if b == 255 then 255 else u8 (a * 16 + b)

-- The last digit of an odd text is joined with the NUL behind it.
unfoldable pub hex2bytes : List ℕ → List ℕ
hex2bytes [] = []
hex2bytes (a ∷ []) = join_nibles (char2nible a) (char2nible 0) ∷ []
hex2bytes (a ∷ b ∷ rest) = join_nibles (char2nible a) (char2nible b) ∷ hex2bytes rest

-- htonl of each 32-bit word.
unfoldable pub swap_words : List ℕ → List ℕ
swap_words (a ∷ b ∷ c ∷ d ∷ rest) = d ∷ c ∷ b ∷ a ∷ swap_words rest
swap_words rest = rest

-- What sscanf reads from a line of /proc/net; a number that it does not reach is -1.
pub record Row : Type 0 where
  pub fields : ℕ
  pub sport : ℤ
  pub hex : List ℕ
  pub dport : ℤ
  pub uid : ℤ

-- The characters of an address: 8 for IPv4, and 32 for IPv6.
abbrev pub hex_size : ℕ → ℕ
hex_size version = if version == 4 then 8 else 32

abbrev pub same_ℤ : ℤ → ℕ → Bool
same_ℤ (pos a) b = a == b
same_ℤ a b = false

abbrev pub is_valid : ℕ → Row → Bool
is_valid version r =
    r.fields == 4
    && (length r.hex == hex_size version && (ltb_ℤ (pos 0) r.sport && not (ltb_ℤ r.uid (pos 0))))

-- The peer's address in the row, in network order.
unfoldable pub row_address : Row → List ℕ
row_address r = swap_words (hex2bytes r.hex)

abbrev pub is_peer : List ℕ → ℕ → Row → Bool
is_peer daddr dport r = same_ℤ r.dport dport && same_bytes (row_address r) daddr

-- Every row of the port sets the uid; the one with the peer ends the search.
unfoldable pub scan_rows : ℕ → ℕ → List ℕ → ℕ → List Row → Option ℕ → Option ℕ
scan_rows version sport daddr dport [] uid = uid
scan_rows version sport daddr dport (r ∷ rows) uid =
    let found = scan_rows version sport daddr dport rows (some (pos_part r.uid)) in
    let other = scan_rows version sport daddr dport rows uid in
    if is_valid version r && same_ℤ r.sport sport
    then (if is_peer daddr dport r then some (pos_part r.uid) else found)
    else other

-- The files of /proc/net.
pub data Table : Type 0 where
  icmp_table icmp6_table tcp_table tcp6_table udp_table udp6_table : Table

abbrev pub table_of : (version protocol : ℕ) → Option Table
table_of version protocol =
    if protocol == 1 && version == 4
    then some icmp_table
    else (if protocol == 58 && version == 6
        then some icmp6_table
        else (if protocol == 6
            then some (if version == 4 then tcp_table else tcp6_table)
            else (if protocol == 17
                then some (if version == 4 then udp_table else udp6_table)
                else none)))

-- fopen with fgets for the lines of a file, and sscanf with the format for a version.
pub record Proc : Type 0 where
  pub lines : Table → Option (List (List ℕ))
  pub sscanf : (version : ℕ) → List ℕ → Row

abbrev pub scan_lines : Proc → ℕ → ℕ → List ℕ → ℕ → Option (List (List ℕ)) → Option ℕ
scan_lines proc version sport daddr dport none = none
scan_lines proc version sport daddr dport (some lines) =
    scan_rows version sport daddr dport (map (proc.sscanf version) (drop 1 lines)) none

abbrev pub scan_table : Proc → ℕ → ℕ → List ℕ → ℕ → Option Table → Option ℕ
scan_table proc version sport daddr dport none = none
scan_table proc version sport daddr dport (some table) =
    scan_lines proc version sport daddr dport (proc.lines table)

unfoldable pub get_uid_sub : Proc → ℕ → ℕ → ℕ → List ℕ → ℕ → Option ℕ
get_uid_sub proc version protocol sport daddr dport =
    scan_table proc version sport daddr dport (table_of version protocol)

-- The IPv4 address as the tables for IPv6 have it.
abbrev pub mapped : List ℕ → List ℕ
mapped daddr = 0 ∷ 0 ∷ 0 ∷ 0 ∷ 0 ∷ 0 ∷ 0 ∷ 0 ∷ 0 ∷ 0 ∷ 255 ∷ 255 ∷ daddr

abbrev pub or_else : Option ℕ → Option ℕ → Option ℕ
or_else none b = b
or_else (some a) b = some a

abbrev pub as_jint : Option ℕ → ℕ
as_jint none = 4294967295
as_jint (some uid) = uid

-- The tables for IPv6 are asked first.
unfoldable pub get_uid : Proc → ℕ → ℕ → ℕ → List ℕ → ℕ → ℕ
get_uid proc version protocol sport daddr dport = as_jint (
    or_else (if version == 4 then get_uid_sub proc 6 protocol sport (mapped daddr) dport else none)
      (get_uid_sub proc version protocol sport daddr dport))
