-- ===== src/Tcp/Incoming/Answers.antt =====
-- What handle_tcp does to the session list.
use violet.Base.{
  ℕ, ◌+◌, ◌≤◌, ◌≡◌, refl, sym, true, false, none, some, List, [], ◌∷◌, ◌++◌, arith, take, drop,
  length, length-take, be16, be32, ==-refl, Memory,
}
use violet.Packet.{Tun, ip4_header, get_default_mss, write_tun}
use violet.Packet.Checks.{four}
use violet.Session.Types.{NgSession, tcp, search_session}
use violet.Session.Search.{same_bytes_refl}
use violet.Tcp.Types.{TcpSession, listen}
use violet.Tcp.Windows.{get_receive_window}
use violet.Tcp.Write.{flags, write_rst}
use violet.Tcp.Packet.{tcp_packet, write_tcp}
use violet.Tcp.Handle.{TcpHeader}
use violet.Tcp.Options.{Decoded, decode_options}
use violet.Tcp.Open.{open_tcp_socket}
use violet.Tcp.Register.{Kernel, is_session_of, new_session, rst_session, tcpoptlen}
use violet.Tcp.Incoming.{handle_syn, handle_segment}

-- The session's own segments pass its test.
new-is_session_of :
    (version : ℕ) (h : TcpHeader) (saddr daddr : List ℕ) (cur : TcpSession) (s : NgSession)
    → s.proto ≡ tcp cur
    → cur.version ≡ version
    → cur.source ≡ h.source
    → cur.dest ≡ h.dest
    → cur.saddr ≡ saddr
    → cur.daddr ≡ daddr
    → is_session_of version h saddr daddr s ≡ true
new-is_session_of version h saddr daddr cur s e v sp dp sa da =
    rw (e, v, sp, dp, sa, da)
      (rw
        (
          ==-refl version,
          ==-refl h.source,
          ==-refl h.dest,
          same_bytes_refl saddr,
          same_bytes_refl daddr,
        )
        refl)

-- What a SYN for no session leaves: one new session in front, in LISTEN, with the SYN's number as
-- the next to forward, and such that a later segment `h'` of the same connection finds it.
abbrev pub Registered :
    ℕ → TcpHeader → TcpHeader → List ℕ → List ℕ → List NgSession → ℕ → List NgSession → Type 0
Registered version h h' saddr daddr sessions sock result =
    (s : NgSession) × (cur : TcpSession) × (result ≡ s ∷ sessions)
    × (s.proto ≡ tcp cur)
    × (s.socket ≡ some sock)
    × (cur.state ≡ listen)
    × (cur.remote_seq ≡ h.seq)
    × (search_session (is_session_of version h' saddr daddr) result
        ≡ some (record { before = []; session = s; behind = sessions }))

-- A SYN without URG for no session, whose options can be decoded and for which a socket is opened,
-- sends nothing and registers one session.
pub handle_segment-syn :
    (k : Kernel) (uid version : ℕ) (h h' : TcpHeader) (p : Memory) (payload : ℕ)
    (saddr daddr name bytes : List ℕ) (sessions : List NgSession) (log : Tun) (d : Decoded)
    (sock : ℕ)
    → h.urg ≡ false
    → h.syn ≡ true
    → h'.source ≡ h.source
    → h'.dest ≡ h.dest
    → search_session (is_session_of version h saddr daddr) sessions ≡ none
    → decode_options
        (tcpoptlen h)
        p
        (payload + 20)
        (tcpoptlen h)
        (record { mss = get_default_mss version; ws = 0 })
      ≡ some d
    → open_tcp_socket k.calls (new_session k uid version h d saddr daddr bytes) k.redirect
      ≡ some sock
    → (result : List NgSession) × (handle_segment k uid version h p payload saddr daddr name bytes
          sessions log
        ≡ some (result, log))
      × Registered version h h' saddr daddr sessions sock result
unfolding handle_segment handle_syn search_session
handle_segment-syn k uid version h h' p payload saddr daddr name bytes sessions log d sock u s sp dp
      new dec open_ =
    let cur = new_session k uid version h d saddr daddr bytes in
    let cur' = record cur { recv_window = get_receive_window cur (some sock) k.buffers } in
    let fresh : NgSession = record {
      proto = tcp cur';
      socket = some sock;
      events = record { input = false; output = true };
    } in
    (
      fresh ∷ sessions,
      ground arith,
      (
        fresh,
        cur',
        refl,
        refl,
        refl,
        refl,
        refl,
        rw
            (new-is_session_of version h' saddr daddr cur' fresh refl refl (sym sp) (sym dp) refl
              refl)
            refl,
      ),
    )

-- A reset from the peer's port to the sender's, as an IPv4 packet: the number that the sender
-- acknowledges, and only the RST flag.
abbrev pub IsReset : TcpHeader → List ℕ → Type 0
IsReset h packet =
    (take 1 packet ≡ 0x45 ∷ [])
    × (take 4 (drop 20 packet) ≡ be16 h.dest ++ be16 h.source)
    × (take 4 (drop 24 packet) ≡ be32 h.ack_seq)
    × (take 1 (drop 33 packet) ≡ 4 ∷ [])

abbrev reset_packet : TcpHeader → List ℕ → List ℕ → ℕ → List ℕ
reset_packet h saddr daddr datalen =
    tcp_packet (rst_session h saddr daddr datalen) [] (flags false false false true)

reset_packet-IsReset :
    (h : TcpHeader) (saddr daddr : List ℕ) (datalen : ℕ)
    → 4 ≤ length saddr
    → 4 ≤ length daddr
    → IsReset h (reset_packet h saddr daddr datalen)
unfolding tcp_packet ip4_header
reset_packet-IsReset h saddr daddr datalen hs hd =
    let (a, b, c, d, es) = four (take 4 saddr) (omega (arith, length-take 4 saddr)) in
    let (e, f, g, i, ed) = four (take 4 daddr) (omega (arith, length-take 4 daddr)) in
    rw (es, ed) (refl, refl, refl, refl)

-- A segment with neither URG nor SYN for no session changes no session, and is answered by one
-- packet, a reset. The reset is an IPv4 packet whatever the version of the segment.
pub handle_segment-unknown :
    (k : Kernel) (uid version : ℕ) (h : TcpHeader) (p : Memory) (payload : ℕ)
    (saddr daddr name bytes : List ℕ) (sessions : List NgSession) (log : Tun)
    → h.urg ≡ false
    → h.syn ≡ false
    → 4 ≤ length saddr
    → 4 ≤ length daddr
    → search_session (is_session_of version h saddr daddr) sessions ≡ none
    → (packet : List ℕ) × (handle_segment k uid version h p payload saddr daddr name bytes sessions
          log
        ≡ some (sessions, packet ∷ log))
      × IsReset h packet
unfolding handle_segment write_rst write_tcp write_tun
handle_segment-unknown k uid version h p payload saddr daddr name bytes sessions log u s hs hd new =
    (
      reset_packet h saddr daddr (length bytes),
      ground arith,
      reset_packet-IsReset h saddr daddr (length bytes) hs hd,
    )
