-- ===== src/Packet.antt =====
-- The IP headers that write_tcp, write_udp and write_icmp put in front of what they send to the tun
-- device, and the device. The three functions build the header by the same statements.
pub mod Checks
use violet.Base.{
  ℕ, ◌+◌, ◌-◌, ◌*◌, ◌/◌, ◌%◌, Bool, true, false, Option, none, some, List, [], ◌∷◌, ◌++◌, ◌==◌,
  if◌then◌else◌, length, u16, be16, le16,
}
use violet.Util.Checksum.{calc_checksum}

-- The packets given to write(args->tun, …), the last one first.
abbrev pub Tun : Type 0
Tun = List (List ℕ)

-- What write answers for a packet, after the packets of a log: `none` is -1.
abbrev pub TunWrite : Type 0
TunWrite = Tun → List ℕ → Option ℕ

-- The result of a whole write, and -1 for anything else.
pub checked : Option ℕ → ℕ → Option ℕ
checked none len = none
checked (some res) len = if res == len then some res else none

unfoldable pub write_tun : TunWrite → List ℕ → Tun → Option ℕ × Tun
unfolding checked
write_tun dev packet log = (checked (dev log packet) (length packet), packet ∷ log)

-- `~` on a uint16_t.
abbrev pub not16 : ℕ → ℕ
not16 n = 65535 - n

unfoldable pub get_mtu : ℕ
get_mtu = 10000

unfoldable pub get_default_mss : ℕ → ℕ
unfolding get_mtu
get_default_mss version = if version == 4 then u16 (get_mtu - 20 - 20) else u16 (get_mtu - 40 - 20)

-- struct iphdr with the given check field, which the machine stores little-endian.
abbrev pub ip4_fields : ℕ → ℕ → List ℕ → List ℕ → ℕ → List ℕ
ip4_fields len protocol saddr daddr check =
    0x45 ∷ 0 ∷ be16 len ++ (0 ∷ 0 ∷ 0 ∷ 0 ∷ 64 ∷ protocol ∷ le16 check ++ (saddr ++ daddr))

unfoldable pub ip4_header : ℕ → ℕ → List ℕ → List ℕ → List ℕ
ip4_header len protocol saddr daddr =
    ip4_fields len protocol saddr daddr
      (not16 (calc_checksum 0 (ip4_fields len protocol saddr daddr 0)))

unfoldable pub ip6_header : ℕ → ℕ → List ℕ → List ℕ → List ℕ
ip6_header plen protocol saddr daddr =
    0x60 ∷ 0 ∷ 0 ∷ 0 ∷ be16 plen ++ (protocol ∷ 64 ∷ saddr ++ daddr)

-- struct ippseudo.
unfoldable pub pseudo4 : List ℕ → List ℕ → ℕ → ℕ → List ℕ
pseudo4 src dst protocol len = src ++ (dst ++ (0 ∷ protocol ∷ be16 len))

-- struct ip6_hdr_pseudo: the 16-bit length, in network order, is stored in a 32-bit field of the
-- little-endian machine.
unfoldable pub pseudo6 : List ℕ → List ℕ → ℕ → ℕ → List ℕ
pseudo6 src dst protocol len = src ++ (dst ++ (be16 len ++ (0 ∷ 0 ∷ 0 ∷ 0 ∷ 0 ∷ protocol ∷ [])))
