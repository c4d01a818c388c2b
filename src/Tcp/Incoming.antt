-- ===== src/Tcp/Incoming.antt =====
-- handle_tcp of tcp.c as a whole: the headers, the search for the session, a new session on a SYN, a
-- reset for an unknown one, and the CONNECT to the proxy in front of a TLS session.
pub mod Answers
pub mod States
use violet.Base.{
  ℕ, ◌+◌, ◌-◌, ◌*◌, ◌/◌, ◌%◌, ◌^◌, Bool, true, false, ◌&&◌, ◌||◌, not, Option, none, some, List, [],
  ◌∷◌, ◌++◌, take, u8, u16, u32, ltb, ◌==◌, if◌then◌else◌, length, Memory, read_be16, read_be32,
  bytes_at, offset, codes,
}
use violet.Packet.{Tun, TunWrite, get_default_mss}
use violet.Session.Types.{NgSession, Proto, tcp, Found, put_back, search_session, same_bytes}
use violet.Tls.{parse_tls_header, Hostname, name_of}
use violet.Tcp.Types.{
  syn_sent, listen, TcpSession, Segment, ConnectSent, not_sent, connect_sent, connect_established,
  is_not_sent, is_connect_established,
}
use violet.Tcp.Windows.{Buffers, get_receive_window}
use violet.Tcp.Write.{write_rst}
use violet.Tcp.Queue.{queue_tcp, segment}
use violet.Tcp.Options.{Decoded, decode_options}
use violet.Tcp.Handle.{TcpHeader, handle_session}
use violet.Tcp.Open.{Allowed, SocketCalls, open_tcp_socket}
use violet.Tcp.Register.{
  source_address, dest_address, read_tcphdr, tcpoptlen, Kernel, is_session_of, new_session,
  add_session, rst_session,
}

-- `if (rport == 443)`: the name for the proxy, from the hello or else the peer's IPv4 address.
abbrev pub set_hostname : Kernel → List ℕ → TcpSession → TcpSession
set_hostname k (c ∷ name) cur = record cur { hostname = c ∷ name }
set_hostname k [] cur = elim (k.inet_ntoa (take 4 cur.daddr)) [
  | [] ↦ cur
  | c ∷ name ↦ record cur { hostname = c ∷ name }
]

abbrev pub has_name : Kernel → List ℕ → TcpSession → Bool
has_name k (c ∷ name) cur = true
has_name k [] cur = elim (k.inet_ntoa (take 4 cur.daddr)) [ [] ↦ false | _ ∷ _ ↦ true ]

abbrev pub connect_request : List ℕ → List ℕ
connect_request name =
    codes "CONNECT " ++ (name ++ (codes ":443 HTTP/1.0" ++ (13 ∷ 10 ∷ 13 ∷ 10 ∷ [])))

unfoldable pub send_connect : Kernel → List ℕ → Option ℕ → TcpSession → Tun → TcpSession × Tun
send_connect k name socket cur log =
    let cur' = set_hostname k name cur in
    if is_not_sent cur.connect && has_name k name cur
    then (if k.can_send socket (connect_request cur'.hostname)
        then (record cur' { connect = connect_sent; state = listen }, log)
        else write_rst k.dev cur' log)
    else (cur', log)

-- A session that is known. To the port 443 everything is queued until the proxy has answered.
unfoldable pub handle_known :
    Kernel → TcpHeader → List ℕ → List ℕ → Option ℕ → TcpSession → Tun → TcpSession × Tun
handle_known k h name bytes socket cur log =
    if h.dest == 443
    then (let (cur', log') = send_connect k name socket cur log in
        if is_connect_established cur'.connect
        then handle_session k.dev k.now h bytes socket cur' log'
        else (queue_tcp h.seq (length bytes) h.psh bytes cur', log'))
    else handle_session k.dev k.now h bytes socket cur log

abbrev pub update_session :
    Found → Kernel → TcpHeader → List ℕ → List ℕ → Tun → Proto → List NgSession × Tun
update_session f k h name bytes log (tcp cur) =
    let (cur', log') = handle_known k h name bytes f.session.socket cur log in
    (put_back f (record f.session { proto = tcp cur' }), log')
update_session f k h name bytes log other = (put_back f f.session, log)

-- A SYN for no session. `none`: the loop over the options does not end.
unfoldable pub handle_syn :
    Kernel
    → ℕ
    → ℕ
    → TcpHeader
    → Memory
    → ℕ
    → List ℕ
    → List ℕ
    → List ℕ
    → List NgSession
    → Option (List NgSession)
handle_syn k uid version h p payload saddr daddr bytes sessions =
    elim (decode_options (tcpoptlen h) p (payload + 20) (tcpoptlen h)
      (record { mss = get_default_mss version; ws = 0 })) [
        | none ↦ none
        | some d ↦
            let cur = new_session k uid version h d saddr daddr bytes in
            some (add_session k cur (open_tcp_socket k.calls cur k.redirect) sessions)
      ]

abbrev pub with_log : Tun → Option (List NgSession) → Option (List NgSession × Tun)
with_log log none = none
with_log log (some sessions) = some (sessions, log)

unfoldable pub handle_segment :
    Kernel
    → ℕ
    → ℕ
    → TcpHeader
    → Memory
    → ℕ
    → List ℕ
    → List ℕ
    → List ℕ
    → List ℕ
    → List NgSession
    → Tun
    → Option (List NgSession × Tun)
handle_segment k uid version h p payload saddr daddr name bytes sessions log =
    if h.urg
    then some (sessions, log)
    else (elim (search_session (is_session_of version h saddr daddr) sessions) [
      | some f ↦ some (update_session f k h name bytes log f.session.proto)
      | none ↦
          if h.syn
          then with_log log (handle_syn k uid version h p payload saddr daddr bytes sessions)
          else some (sessions, (write_rst k.dev (rst_session h saddr daddr (length bytes)) log).1)
    ])

-- `datalen`, as a uint16_t: `length` less the offset of the data.
abbrev pub datalen_of : ℕ → ℕ → ℕ
datalen_of length_ offset_ = u16 (length_ + 65536 * offset_ - offset_)

-- What follows parse_tls_header, with the name in the buffer, if it returns.
abbrev pub after_hello :
    Option (List ℕ) → (List ℕ → Option (List NgSession × Tun)) → Option (List NgSession × Tun)
after_hello none next = none
after_hello (some name) next = next name

-- `none`: the loop over the options or one of parse_tls_header does not end.
unfoldable pub handle_tcp :
    Kernel → Memory → ℕ → ℕ → ℕ → List NgSession → Tun → Option (List NgSession × Tun)
unfolding read_tcphdr
handle_tcp k p length_ payload uid sessions log =
    let version = p 0 / 16 in
    let h = read_tcphdr p payload in
    let at_data = payload + 20 + tcpoptlen h in
    let datalen = datalen_of length_ at_data in
    after_hello (name_of (parse_tls_header (offset p at_data) datalen)) (λ name.
      handle_segment k uid version h p payload (source_address p version) (dest_address p version)
        name (bytes_at datalen p at_data) sessions log)
