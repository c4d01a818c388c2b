-- ===== src/Dns.antt =====
-- dns.c: the name in a DNS question, and the check of a query. `p` is the memory that `data` points
-- at.
pub mod Name
pub mod Response
use violet.Base.{
  ℕ, zero, suc, ◌+◌, ◌-◌, ◌*◌, ◌/◌, ◌%◌, Bool, true, false, ◌&&◌, ◌||◌, Option, none, some, List,
  [], ◌∷◌, ◌++◌, Memory, bytes_at, read_be16, take, u8, u16, ltb, leb, ◌==◌, if◌then◌else◌,
}

-- The local variables of get_qname. `name` is the part of the buffer `qname` below `noff`.
pub record Cursor : Type 0 where
  pub c : Bool
  pub off : ℕ
  pub ptr : ℕ
  pub len : ℕ
  pub noff : ℕ
  pub name : List ℕ

-- `len & 0xC0`, for a byte: a compression pointer is followed.
unfoldable pub jump : Memory → Cursor → Cursor
jump p s =
    let target = s.len % 64 * 256 + p (s.ptr + 1) in
    record s {
      ptr = target;
      len = p target;
      c = true;
      off = if s.c then s.off else u16 (s.off + 2);
    }

-- A label is copied with a dot behind it. `noff` is a uint8_t.
unfoldable pub copy_label : Memory → Cursor → Cursor
copy_label p s =
    let noff = u8 (s.noff + (s.len + 1)) in
    let ptr = u16 (s.ptr + (s.len + 1)) in
    record s {
      name = take noff (s.name ++ (bytes_at s.len p (s.ptr + 1) ++ 46 ∷ []));
      noff = noff;
      ptr = ptr;
      len = p ptr;
    }

-- The condition of the second branch.
abbrev pub fits : ℕ → Cursor → Bool
fits datalen s = leb (s.ptr + 1 + s.len) datalen && leb (s.noff + s.len) 255

-- `none` means that the rounds ran out.
unfoldable pub qname_loop : ℕ → Memory → ℕ → Cursor → Option Cursor
qname_loop zero p datalen s = none
qname_loop (suc rounds) p datalen s =
    let jumped = qname_loop rounds p datalen (jump p s) in
    let copied = qname_loop rounds p datalen (copy_label p s) in
    if s.len == 0
    then some s
    else (if leb 64 s.len then jumped else (if fits datalen s then copied else some s))

-- -1, or the offset behind the name and the C string in `qname`.
pub data Qname : Type 0 where
  invalid : Qname
  qname : ℕ → List ℕ → Qname

abbrev pub finish : Cursor → Qname
finish s =
    if ltb 0 s.len || s.noff == 0
    then invalid
    else qname (if s.c then s.off else u16 (s.ptr + 1)) (take (s.noff - 1) s.name)

abbrev pub finish_loop : Option Cursor → Option Qname
finish_loop none = none
finish_loop (some s) = some (finish s)

abbrev pub start : Memory → ℕ → Cursor
start p off = record { c = false; off = off; ptr = off; len = p off; noff = 0; name = [] }

unfoldable pub get_qname : ℕ → Memory → ℕ → ℕ → Option Qname
unfolding qname_loop
get_qname rounds p datalen off = finish_loop (qname_loop rounds p datalen (start p off))

-- A query that is accepted: the name, its type and its class.
pub record Query : Type 0 where
  pub name : List ℕ
  pub qtype : ℕ
  pub qclass : ℕ

abbrev pub accept : Memory → ℕ → Qname → Option Query
accept p datalen invalid = none
accept p datalen (qname off name) =
    if ltb 0 off && off + 4 == datalen
    then some (record { name = name; qtype = read_be16 p off; qclass = read_be16 p (off + 2) })
    else none

-- struct dns_header has 12 bytes; `qr` and `opcode` are bits of the third.
abbrev pub is_query : Memory → ℕ → Bool
is_query p datalen =
    leb 13 datalen && (p 2 / 128 == 0 && (p 2 / 8 % 16 == 0 && ltb 0 (read_be16 p 4)))

abbrev pub accept_option : Memory → ℕ → Option Qname → Option (Option Query)
accept_option p datalen none = none
accept_option p datalen (some q) = some (accept p datalen q)

-- The inner `none` is -1; the outer one, that the rounds ran out.
unfoldable pub get_dns_query : ℕ → Memory → ℕ → Option (Option Query)
unfolding get_qname
get_dns_query rounds p datalen =
    if is_query p datalen
    then accept_option p datalen (get_qname rounds p datalen 12)
    else some none
