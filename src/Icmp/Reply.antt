-- ===== src/Icmp/Reply.antt =====
-- An echo reply from the session's socket, and a whole round trip.
use violet.Base.{
  ℕ, ◌+◌, ◌≤◌, ◌<◌, ◌≡◌, refl, true, false, Option, none, some, List, [], ◌∷◌, ◌++◌, arith, length,
  drop, take, All, IsByte,
}
use violet.Packet.{Tun, TunWrite, ip4_header, write_tun}
use violet.Packet.Checks.{HeaderVerifies, IsAddress4, ip4_header-verifies, header_parts}
use violet.Tcp.Socket.{RecvResult, received_bytes}
use violet.Session.Types.{IcmpSession}
use violet.Icmp.Message.{fill_icmp, icmp_packet, write_icmp}
use violet.Icmp.Message.Verify.{MessageVerifies, id_of, SameEcho, Filled, fill_icmp-Filled}
use violet.Icmp.Socket.{reply_sum, echo_reply, icmp_maxmsg, stop_unless_written, check_icmp_socket}

-- The packet that a client at `client` gets for a reply `bytes` of `host`, with its own id.
pub record Replied (client host : List ℕ) (id : ℕ) (bytes packet : List ℕ) : Type 0 where
  pub header : HeaderVerifies packet
  pub source : take 4 (drop 12 packet) ≡ host
  pub dest : take 4 (drop 16 packet) ≡ client
  pub sum : MessageVerifies (drop 20 packet)
  pub id_ : id_of (drop 20 packet) ≡ id
  pub same : SameEcho bytes (drop 20 packet)

Filled-Replied :
    (i : IcmpSession) (bytes : List ℕ)
    → IsAddress4 i.saddr
    → IsAddress4 i.daddr
    → Filled 0 i.id bytes
    → Replied i.saddr i.daddr i.id bytes (
        ip4_header (20 + length (fill_icmp 0 i.id bytes)) 1 i.daddr i.saddr
        ++ fill_icmp 0 i.id bytes)
Filled-Replied i bytes hs hd fill =
    let msg = fill_icmp 0 i.id bytes in
    let (s, d, m) = header_parts (20 + length msg) 1 i.daddr i.saddr msg hd.size hs.size in
    record {
      header = ip4_header-verifies (20 + length msg) 1 i.daddr i.saddr msg (omega arith) hd hs;
      source = s;
      dest = d;
      sum = rw m fill.sum;
      id_ = rw m fill.id_;
      same = rw m fill.same;
    }

echo_packet :
    (i : IcmpSession) (bytes : List ℕ)
    → i.version ≡ 4
    → icmp_packet i (echo_reply i bytes)
      ≡ ip4_header (20 + length (fill_icmp 0 i.id bytes)) 1 i.daddr i.saddr
        ++ fill_icmp 0 i.id bytes
unfolding icmp_packet echo_reply reply_sum
echo_packet i bytes v = simp v

-- A session for IPv4 whose fields are those of its packets.
pub record IsEchoSession (i : IcmpSession) : Type 0 where
  pub version : i.version ≡ 4
  pub saddr : IsAddress4 i.saddr
  pub daddr : IsAddress4 i.daddr
  pub id_ : i.id < 65536

-- What recv gave: a message with a header, that fits a packet.
pub record IsReply (bytes : List ℕ) : Type 0 where
  pub bytes_ : All IsByte bytes
  pub header : 8 ≤ length bytes
  pub small : length bytes ≤ 65000

stop_unless-log : (i : IcmpSession) (r : Option ℕ × Tun) → (stop_unless_written i r).1 ≡ r.1
stop_unless-log i (none, log) = refl
stop_unless-log i (some n, log) = refl

pub check_icmp_socket-packet :
    (dev : TunWrite) (now : ℕ) (recv : ℕ → RecvResult) (i : IcmpSession) (log : Tun)
    (bytes : List ℕ)
    → 8 ≤ length bytes
    → recv (icmp_maxmsg i.version) ≡ received_bytes bytes
    → (check_icmp_socket dev now false true recv i log).1 ≡ icmp_packet i (echo_reply i bytes) ∷ log
unfolding check_icmp_socket write_icmp write_tun icmp_packet echo_reply reply_sum
check_icmp_socket-packet dev now recv i log [] l e = absurd (omega arith)
check_icmp_socket-packet dev now recv i log (b ∷ bytes) l e = rw e (
    stop_unless-log (record i { time = now })
      (write_icmp dev (record i { time = now }) (echo_reply (record i { time = now }) (b ∷ bytes))
        log))

-- A reply on the socket of an IPv4 session reaches the client, whether or not the device takes it:
-- from the host, with the client's id, and with checksums that verify.
pub check_icmp_socket-Replied :
    (dev : TunWrite) (now : ℕ) (recv : ℕ → RecvResult) (i : IcmpSession) (log : Tun)
    (bytes : List ℕ)
    → IsEchoSession i
    → IsReply bytes
    → recv (icmp_maxmsg i.version) ≡ received_bytes bytes
    → (packet : List ℕ) × ((check_icmp_socket dev now false true recv i log).1 ≡ packet ∷ log)
      × Replied i.saddr i.daddr i.id bytes packet
check_icmp_socket-Replied dev now recv i log bytes hi hr e = (
  icmp_packet i (echo_reply i bytes),
  check_icmp_socket-packet dev now recv i log bytes hr.header e,
  rw (echo_packet i bytes hi.version) (
      Filled-Replied i bytes hi.saddr hi.daddr
        (fill_icmp-Filled 0 i.id bytes (omega arith) hi.id_ hr.bytes_ hr.header hr.small)),
)
