-- ===== src/Tcp/Register.antt =====
-- handle_tcp of tcp.c: the headers of a segment, the session that a SYN registers, and the one that the
-- reset for an unknown session is written from.
use violet.Base.{
  ℕ, ◌+◌, ◌*◌, ◌/◌, ◌%◌, ◌^◌, Bool, true, false, ◌&&◌, ◌||◌, Option, none, some, List, [], ◌∷◌,
  take, u8, u32, ◌==◌, if◌then◌else◌, length, Memory, read_be16, read_be32, bytes_at,
}
use violet.Packet.{TunWrite}
use violet.Session.Types.{NgSession, tcp, same_bytes}
use violet.Tcp.Types.{
  syn_sent, listen, TcpSession, Segment, not_sent, connect_sent, connect_established,
}
use violet.Tcp.Windows.{Buffers, get_receive_window}
use violet.Tcp.Queue.{segment}
use violet.Tcp.Options.{Decoded}
use violet.Tcp.Handle.{TcpHeader}
use violet.Tcp.Open.{Allowed, SocketCalls}

-- The IP addresses of a packet at `p`, by its version.
abbrev pub source_address : Memory → ℕ → List ℕ
source_address p version = if version == 4 then bytes_at 4 p 12 else bytes_at 16 p 8

abbrev pub dest_address : Memory → ℕ → List ℕ
dest_address p version = if version == 4 then bytes_at 4 p 16 else bytes_at 16 p 24

-- struct tcphdr at `payload`, which is an offset from the packet's start.
unfoldable pub read_tcphdr : Memory → ℕ → TcpHeader
read_tcphdr p payload =
    let flag = λ (bit : ℕ). p (payload + 13) / bit % 2 == 1 in
    record {
      source = read_be16 p payload;
      dest = read_be16 p (payload + 2);
      seq = read_be32 p (payload + 4);
      ack_seq = read_be32 p (payload + 8);
      doff = p (payload + 12) / 16;
      fin = flag 1;
      syn = flag 2;
      rst = flag 4;
      psh = flag 8;
      ack = flag 16;
      urg = flag 32;
      window = read_be16 p (payload + 14);
    }

-- `(uint8_t) ((tcphdr->doff - 5) * 4)`, for a `doff` below 16.
abbrev pub tcpoptlen : TcpHeader → ℕ
tcpoptlen h = u8 (h.doff * 4 + 236)

-- What the handler is given beside the packet: the device, the clock, rand(), the system calls for a
-- new socket, the socket's buffers, inet_ntoa, whether a send goes out, and the proxy.
pub record Kernel : Type 0 where
  pub dev : TunWrite
  pub now : ℕ
  pub isn : ℕ
  pub calls : SocketCalls
  pub buffers : Buffers
  pub inet_ntoa : List ℕ → List ℕ
  pub can_send : Option ℕ → List ℕ → Bool
  pub redirect : Allowed

-- The session's test in `Search session`.
abbrev pub is_session_of : ℕ → TcpHeader → List ℕ → List ℕ → NgSession → Bool
is_session_of version h saddr daddr s = elim s.proto [
  | tcp t ↦
      t.version == version
      && (t.source == h.source
          && (t.dest == h.dest && (same_bytes t.saddr saddr && same_bytes t.daddr daddr)))
  | _ ↦ false
]

abbrev pub first_segment : TcpHeader → List ℕ → List Segment
first_segment h [] = []
first_segment h (b ∷ bytes) = segment h.seq (length (b ∷ bytes)) h.psh (b ∷ bytes) ∷ []

-- `Register session`. The hostname is not set yet; it is read only after it has been.
abbrev pub new_session :
    Kernel → ℕ → ℕ → TcpHeader → Decoded → List ℕ → List ℕ → List ℕ → TcpSession
new_session k uid version h d saddr daddr bytes = record {
  uid = uid;
  time = k.now;
  version = version;
  mss = d.mss;
  recv_scale = d.ws;
  send_scale = d.ws;
  recv_window = 0;
  send_window = u32 (h.window * 2 ^ d.ws);
  remote_seq = h.seq;
  local_seq = u32 k.isn;
  remote_start = h.seq;
  local_start = u32 k.isn;
  acked = 0;
  last_keep_alive = 0;
  sent = 0;
  received = 0;
  saddr = saddr;
  source = h.source;
  daddr = daddr;
  dest = h.dest;
  state = listen;
  forward = first_segment h bytes;
  hostname = [];
  connect = if h.dest == 80 then connect_established else not_sent;
}

-- With no socket the session is dropped: the remote end may try again.
abbrev pub add_session : Kernel → TcpSession → Option ℕ → List NgSession → List NgSession
add_session k cur none sessions = sessions
add_session k cur (some sock) sessions =
    record {
      proto = tcp (record cur { recv_window = get_receive_window cur (some sock) k.buffers });
      socket = some sock;
      events = record { input = false; output = true };
    }
    ∷ sessions

-- `unknown session`. The state is the 0 of memset, which is none of LISTEN and CLOSE. The packet is
-- always built for version 4, so that an address is read as its first four bytes.
abbrev pub rst_session : TcpHeader → List ℕ → List ℕ → ℕ → TcpSession
rst_session h saddr daddr datalen = record {
  uid = 0;
  time = 0;
  version = 4;
  mss = 0;
  recv_scale = 0;
  send_scale = 0;
  recv_window = 0;
  send_window = 0;
  remote_seq = u32 (h.seq + datalen + (if h.syn || h.fin then 1 else 0));
  local_seq = h.ack_seq;
  remote_start = 0;
  local_start = 0;
  acked = 0;
  last_keep_alive = 0;
  sent = 0;
  received = 0;
  saddr = take 4 saddr;
  source = h.source;
  daddr = take 4 daddr;
  dest = h.dest;
  state = syn_sent;
  forward = [];
  hostname = [];
  connect = connect_sent;
}
