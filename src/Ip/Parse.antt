-- ===== src/Ip/Parse.antt =====
-- handle_ip of ip.c up to the limit of the sessions: what it reads from a packet.
pub mod Bounds
use violet.Base.{
  ℕ, zero, suc, ◌+◌, ◌*◌, ◌/◌, ◌%◌, Bool, false, ◌&&◌, ◌||◌, not, Option, none, some, Memory,
  bytes_at, read_be16, sub64, u8, u16, ltb, ◌==◌, if◌then◌else◌,
}
use violet.Util.Checksum.{calc_checksum}

-- Hop-by-hop, destination, routing, fragment, authentication, encapsulation and mobility headers.
unfoldable pub is_lower_layer : ℕ → Bool
is_lower_layer protocol =
    protocol == 0
    || (protocol == 60
        || (protocol == 43
            || (protocol == 44 || (protocol == 51 || (protocol == 50 || protocol == 135)))))

abbrev pub is_icmp : ℕ → Bool
is_icmp protocol = protocol == 1 || protocol == 58

unfoldable pub is_upper_layer : ℕ → Bool
is_upper_layer protocol = protocol == 6 || (protocol == 17 || is_icmp protocol)

-- What the packet's first header gives: no packet, a loop without an end, or the protocol with the
-- offset of the payload.
pub data Located : Type 0 where
  no_packet endless : Located
  located : (protocol payload : ℕ) → Located

-- `frag_off & IP_MF` tests bit 13 of the field as the little-endian machine loads it, which is bit 5
-- of the byte at offset 7. `verbose` is loglevel < ANDROID_LOG_WARN.
unfoldable pub locate4 : (verbose : Bool) → Memory → ℕ → Located
locate4 verbose p length_ =
    if ltb length_ 20 || p 7 / 32 % 2 == 1
    then no_packet
    else (if not (read_be16 p 2 == length_) || (verbose && calc_checksum 0 (bytes_at 20 p 0) == 0)
        then no_packet
        else located (p 9) (20 + u8 (p 0 % 16 * 4 + 236)))

-- The loop over extension headers: the protocol and `off`, a uint16_t. `none`: the rounds ran out.
unfoldable pub skip_extensions : ℕ → Memory → (protocol off : ℕ) → Option (ℕ × ℕ)
skip_extensions zero p protocol off = none
skip_extensions (suc rounds) p protocol off =
    let rest = skip_extensions rounds p (p off) (u16 (off + (8 + p (off + 1)))) in
    if is_lower_layer (p off) && not (is_upper_layer protocol) then rest else some (protocol, off)

abbrev pub after_extensions : Memory → Option (ℕ × ℕ) → Located
after_extensions p none = endless
after_extensions p (some (protocol, off)) =
    if is_upper_layer protocol then located protocol (40 + off) else located (p 6) 40

unfoldable pub locate6 : ℕ → Memory → ℕ → Located
locate6 rounds p length_ =
    if ltb length_ 40
    then no_packet
    else (if is_upper_layer (p 6)
        then located (p 6) 40
        else after_extensions p (skip_extensions rounds p (p 6) 40))

unfoldable pub locate : (verbose : Bool) → ℕ → Memory → ℕ → Located
locate verbose rounds p length_ =
    if p 0 / 16 == 4
    then locate4 verbose p length_
    else (if p 0 / 16 == 6 then locate6 rounds p length_ else no_packet)

-- The ports, or for ICMP the id, and the SYN flag.
pub record Ports : Type 0 where
  pub sport : ℕ
  pub dport : ℕ
  pub syn : Bool

abbrev pub sized : ℕ → ℕ → Ports → Option Ports
sized len least ports = if ltb len least then none else some ports

-- `Get ports & flags`. The room is a size_t. `none`: the packet is too short for its protocol.
unfoldable pub read_ports : Memory → ℕ → (protocol payload : ℕ) → Option Ports
read_ports p length_ protocol payload =
    let room = sub64 length_ payload in
    let pair : Bool → Ports =
      λ syn. record { sport = read_be16 p payload; dport = read_be16 p (payload + 2); syn = syn } in
    if is_icmp protocol
    then (let id = read_be16 p (payload + 4) in
        sized room 28 (record { sport = id; dport = id; syn = false }))
    else (if protocol == 17
        then sized room 8 (pair false)
        else (if protocol == 6
            then sized room 20 (pair (p (payload + 13) / 2 % 2 == 1))
            else some (record { sport = 0; dport = 0; syn = false })))
