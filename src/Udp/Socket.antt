-- ===== src/Udp/Socket.antt =====
-- check_udp_socket of udp.c: a datagram on the session's socket goes back to the tun device.
use violet.Base.{
  ℕ, ◌+◌, Bool, Option, none, some, List, [], ◌∷◌, ◌==◌, if◌then◌else◌, length, Memory, get_or, u64,
}
use violet.Packet.{Tun, TunWrite}
use violet.Tcp.Socket.{RecvResult, received_bytes, recv_failed}
use violet.Session.Types.{UdpSession, finishing}
use violet.Dns.Response.{Answers, parse_dns_response}
use violet.Udp.{write_udp}
use violet.Udp.Resolve.{finish_dns}

-- The buffer that recv filled: its bytes, and what malloc left behind them.
abbrev pub received_into : Memory → List ℕ → Memory
received_into junk bytes i = get_or bytes i (junk i)

abbrev pub forward_reply :
    TunWrite → UdpSession → List ℕ → Tun → Option Answers → Option (UdpSession × Tun)
forward_reply dev u bytes log none = none
forward_reply dev u bytes log (some answers) = some (finish_dns u (write_udp dev u bytes log))

abbrev pub read_udp :
    TunWrite → ℕ → Memory → UdpSession → Tun → RecvResult → Option (UdpSession × Tun)
read_udp dev rounds junk u log (recv_failed retry) =
    some (if retry then u else record u { state = finishing }, log)
read_udp dev rounds junk u log (received_bytes []) = some (record u { state = finishing }, log)
read_udp dev rounds junk u log (received_bytes (b ∷ bytes)) =
    let u' = record u { received = u64 (u.received + length (b ∷ bytes)) } in
    if u.dest == 53
    then forward_reply dev u' (b ∷ bytes) log
        (parse_dns_response rounds (received_into junk (b ∷ bytes)) (length (b ∷ bytes)))
    else some (finish_dns u' (write_udp dev u' (b ∷ bytes) log))

-- `error` and `input` are EPOLLERR and EPOLLIN of the event. `none`: parse_dns_response does not
-- return.
unfoldable pub check_udp_socket :
    TunWrite
    → ℕ
    → (rounds : ℕ) → (junk : Memory) → (error input : Bool) → (ℕ → RecvResult)
    → UdpSession
    → Tun
    → Option (UdpSession × Tun)
check_udp_socket dev now rounds junk error input recv u log =
    if error
    then some (record u { time = now; state = finishing }, log)
    else (if input
        then read_udp dev rounds junk (record u { time = now }) log (recv u.mss)
        else some (u, log))
