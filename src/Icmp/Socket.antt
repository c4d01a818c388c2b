-- ===== src/Icmp/Socket.antt =====
-- check_icmp_socket of icmp.c: a reply on the session's socket goes back to the tun device.
use violet.Base.{
  ℕ, ◌-◌, Bool, true, Option, none, some, List, [], ◌∷◌, ◌++◌, ◌==◌, if◌then◌else◌, length, sub32,
  le32,
}
use violet.Util.Checksum.{calc_checksum}
use violet.Packet.{Tun, TunWrite}
use violet.Tcp.Socket.{RecvResult, received_bytes, recv_failed}
use violet.Session.Types.{IcmpSession}
use violet.Icmp.Message.{fill_icmp, write_icmp}

-- `csum`: for IPv6 the sum of the pseudo header. Its length, which is stored as the machine has it,
-- is that of the message less the 40 bytes of an IPv6 header.
unfoldable pub reply_sum : IcmpSession → ℕ → ℕ
reply_sum i bytes =
    if i.version == 6
    then calc_checksum 0 (i.daddr ++ (i.saddr ++ (le32 (sub32 bytes 40) ++ (0 ∷ 0 ∷ 0 ∷ 58 ∷ []))))
    else 0

-- The reply as it goes to the client: with the session's id, and a new checksum.
unfoldable pub echo_reply : IcmpSession → List ℕ → List ℕ
echo_reply i bytes = fill_icmp (reply_sum i (length bytes)) i.id bytes

abbrev pub stop_unless_written : IcmpSession → Option ℕ × Tun → IcmpSession × Tun
stop_unless_written i (none, log) = (record i { stop = true }, log)
stop_unless_written i (some n, log) = (i, log)

abbrev pub read_icmp : TunWrite → IcmpSession → Tun → RecvResult → IcmpSession × Tun
read_icmp dev i log (recv_failed retry) = (if retry then i else record i { stop = true }, log)
read_icmp dev i log (received_bytes []) = (record i { stop = true }, log)
read_icmp dev i log (received_bytes (b ∷ bytes)) =
    stop_unless_written i (write_icmp dev i (echo_reply i (b ∷ bytes)) log)

-- The size of the buffer that recv fills.
abbrev pub icmp_maxmsg : ℕ → ℕ
icmp_maxmsg version = if version == 4 then 65535 - 20 - 8 else 65535 - 40 - 8

-- `error` and `input` are EPOLLERR and EPOLLIN of the event. getsockopt is called for the log only.
unfoldable pub check_icmp_socket :
    TunWrite → ℕ → (error input : Bool) → (ℕ → RecvResult) → IcmpSession → Tun → IcmpSession × Tun
check_icmp_socket dev now error input recv i log =
    if error
    then (record i { time = now; stop = true }, log)
    else (if input
        then read_icmp dev (record i { time = now }) log (recv (icmp_maxmsg i.version))
        else (i, log))
