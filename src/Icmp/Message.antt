-- ===== src/Icmp/Message.antt =====
-- icmp.c: the message with an id and a checksum of the program's own, and write_icmp.
pub mod Verify
use violet.Base.{
  ℕ, ◌+◌, Option, List, [], ◌∷◌, ◌++◌, ◌==◌, if◌then◌else◌, length, be16, le16, set_bytes,
}
use violet.Util.Checksum.{calc_checksum}
use violet.Packet.{Tun, TunWrite, write_tun, not16, ip4_header, ip6_header}
use violet.Session.Types.{IcmpSession}

-- struct icmp: `icmp_id` stands at offset 4 and `icmp_cksum` at offset 2. `csum` is the sum of the
-- pseudo header.
unfoldable pub fill_icmp : ℕ → ℕ → List ℕ → List ℕ
fill_icmp csum id msg =
    let zeroed = set_bytes 2 (0 ∷ 0 ∷ []) (set_bytes 4 (be16 id) msg) in
    set_bytes 2 (le16 (not16 (calc_checksum csum zeroed))) zeroed

unfoldable pub icmp_packet : IcmpSession → List ℕ → List ℕ
icmp_packet cur bytes =
    if cur.version == 4
    then ip4_header (20 + length bytes) 1 cur.daddr cur.saddr ++ bytes
    else ip6_header (length bytes) 58 cur.daddr cur.saddr ++ bytes

unfoldable pub write_icmp : TunWrite → IcmpSession → List ℕ → Tun → Option ℕ × Tun
write_icmp dev cur bytes log = write_tun dev (icmp_packet cur bytes) log
