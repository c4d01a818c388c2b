-- ===== src/Scenarios.antt =====
-- Concrete data for the runs of the child modules: a client at 10.0.0.2, a server at 93.184.216.34,
-- a device that takes every packet, and a kernel that grants every call.
mod Packets
mod Sessions
mod Rounds
mod Parsers
mod Datagrams
mod Engine
mod Bypass
mod Native
mod Remote
mod Threads
mod Names
use violet.Base.{ℕ, true, false, Option, none, some, List, [], ◌∷◌, length}
use violet.Packet.{Tun, TunWrite}
use violet.Session.Types.{NgSession, tcp}
use violet.Tcp.Types.{TcpState, TcpSession, Segment, established, syn_recv, connect_established}
use violet.Tcp.Windows.{Buffers}
use violet.Tcp.Handle.{TcpHeader}
use violet.Tcp.Open.{SocketCalls}
use violet.Tcp.Register.{Kernel}

abbrev pub client_address : List ℕ
client_address = 10 ∷ 0 ∷ 0 ∷ 2 ∷ []

abbrev pub server_address : List ℕ
server_address = 93 ∷ 184 ∷ 216 ∷ 34 ∷ []

abbrev pub take_all : TunWrite
take_all log packet = some (length packet)

abbrev pub queued : Segment
queued = record { seq = 2001; len = 3; sent = 0; psh = true; bytes = 1 ∷ 2 ∷ 3 ∷ [] }

abbrev pub later_queued : Segment
later_queued = record { seq = 2010; len = 2; sent = 0; psh = false; bytes = 7 ∷ 8 ∷ [] }

abbrev pub session : TcpState → TcpSession
session state = record {
  uid = 10001;
  time = 1000;
  version = 4;
  mss = 1460;
  recv_scale = 7;
  send_scale = 7;
  recv_window = 131072;
  send_window = 65536;
  remote_seq = 2001;
  local_seq = 5001;
  remote_start = 2000;
  local_start = 5000;
  acked = 5000;
  last_keep_alive = 0;
  sent = 0;
  received = 0;
  saddr = client_address;
  source = 40000;
  daddr = server_address;
  dest = 22;
  state = state;
  forward = queued ∷ later_queued ∷ [];
  hostname = [];
  connect = connect_established;
}

-- A segment with ACK of the client, which acknowledges what was sent last.
abbrev pub ack_header : TcpHeader
ack_header = record {
  source = 40000;
  dest = 22;
  seq = 2001;
  ack_seq = 5001;
  doff = 5;
  fin = false;
  syn = false;
  rst = false;
  psh = false;
  ack = true;
  urg = false;
  window = 512;
}

abbrev pub syn_header : TcpHeader
syn_header = record ack_header { seq = 2000; ack_seq = 0; syn = true; ack = false }

abbrev pub known : NgSession
known = record {
  proto = tcp (session syn_recv);
  socket = some 50;
  events = record { input = false; output = true };
}
