-- ===== src/Tcp/Packet.antt =====
-- write_tcp of tcp.c: one TCP segment from the session's remote end to the tun device.
pub mod Verify
use violet.Base.{
  ℕ, ◌+◌, ◌-◌, ◌*◌, ◌/◌, ◌%◌, ◌^◌, Bool, true, false, Option, none, some, List, [], ◌∷◌, ◌++◌, ◌==◌,
  if◌then◌else◌, length, u16, be16, be32, le16,
}
use violet.Util.Checksum.{calc_checksum}
use violet.Packet.{
  Tun, TunWrite, write_tun, not16, get_default_mss, ip4_header, ip6_header, pseudo4, pseudo6,
}
use violet.Tcp.Types.{TcpSession}

-- The four int arguments `syn`, `ack`, `fin` and `rst`.
pub record Flags : Type 0 where
  pub syn : Bool
  pub ack : Bool
  pub fin : Bool
  pub rst : Bool

abbrev bit : Bool → ℕ → ℕ
bit b n = if b then n else 0

-- The options of a SYN. The MSS is stored by a uint16_t assignment, with no htons.
unfoldable pub tcp_options : TcpSession → Flags → List ℕ
tcp_options cur f =
    if f.syn
    then 2 ∷ 4 ∷ le16 (get_default_mss cur.version) ++ (3 ∷ 3 ∷ cur.recv_scale ∷ 0 ∷ [])
    else []

abbrev pub optlen : Flags → ℕ
optlen f = if f.syn then 8 else 0

-- struct tcphdr in front of the check field, and with it.
abbrev pub tcp_front : TcpSession → Flags → List ℕ
tcp_front cur f =
    be16 cur.dest
    ++ (be16 cur.source
        ++ (be32 cur.local_seq
            ++ (be32 (if f.ack then cur.remote_seq else 0)
                ++ ((20 + optlen f) / 4 * 16
                    ∷ (bit f.fin 1 + bit f.syn 2 + bit f.rst 4 + bit f.ack 16)
                    ∷ be16 (u16 (cur.recv_window / 2 ^ cur.recv_scale))))))

abbrev pub tcp_fields : TcpSession → Flags → ℕ → List ℕ
tcp_fields cur f check = tcp_front cur f ++ (le16 check ++ (0 ∷ 0 ∷ []))

unfoldable pub tcp_pseudo : TcpSession → ℕ → List ℕ
tcp_pseudo cur size =
    if cur.version == 4
    then pseudo4 cur.daddr cur.saddr 6 size
    else pseudo6 cur.saddr cur.daddr 6 size

-- The sum over the pseudo header, the TCP header with a check field of 0, the options and the data.
unfoldable pub tcp_checksum : TcpSession → List ℕ → Flags → ℕ
unfolding tcp_options
tcp_checksum cur bytes f =
    calc_checksum
      (calc_checksum
        (calc_checksum (calc_checksum 0 (tcp_pseudo cur (20 + optlen f + length bytes)))
          (tcp_fields cur f 0))
        (tcp_options cur f))
      bytes

unfoldable pub tcp_packet : TcpSession → List ℕ → Flags → List ℕ
unfolding tcp_options tcp_checksum
tcp_packet cur bytes f =
    let size = 20 + optlen f + length bytes in
    let segment =
      tcp_fields cur f (not16 (tcp_checksum cur bytes f)) ++ (tcp_options cur f ++ bytes) in
    if cur.version == 4
    then ip4_header (20 + size) 6 cur.daddr cur.saddr ++ segment
    else ip6_header size 6 cur.daddr cur.saddr ++ segment

unfoldable pub write_tcp : TunWrite → TcpSession → List ℕ → Flags → Tun → Option ℕ × Tun
write_tcp dev cur bytes f log = write_tun dev (tcp_packet cur bytes f) log
