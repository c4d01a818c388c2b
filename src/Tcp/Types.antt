-- ===== src/Tcp/Types.antt =====
-- struct segment and struct tcp_session of tun2http.h. A field in network notation is held as the
-- number that it denotes; an address is its bytes, 4 or 16 of them. The forward queue is owned by
-- one session and has no other pointers into it, so it is a list.
use violet.Base.{ℕ, Bool, true, false, List}

-- The TCP_… constants of <netinet/tcp.h>.
pub data TcpState : Type 0 where
  established syn_sent syn_recv fin_wait1 fin_wait2 time_wait : TcpState
  close close_wait last_ack listen closing : TcpState

abbrev pub is_listen : TcpState → Bool
is_listen listen = true
is_listen _ = false

abbrev pub is_syn_recv : TcpState → Bool
is_syn_recv syn_recv = true
is_syn_recv _ = false

abbrev pub is_established : TcpState → Bool
is_established established = true
is_established _ = false

abbrev pub is_close_wait : TcpState → Bool
is_close_wait close_wait = true
is_close_wait _ = false

abbrev pub is_closing : TcpState → Bool
is_closing closing = true
is_closing _ = false

abbrev pub is_close : TcpState → Bool
is_close close = true
is_close _ = false

-- TCP_CONNECT_NOT_SENT, TCP_CONNECT_SENT and TCP_CONNECT_ESTABLISHED.
pub data ConnectSent : Type 0 where
  not_sent connect_sent connect_established : ConnectSent

abbrev pub is_not_sent : ConnectSent → Bool
is_not_sent not_sent = true
is_not_sent _ = false

abbrev pub is_connect_sent : ConnectSent → Bool
is_connect_sent connect_sent = true
is_connect_sent _ = false

abbrev pub is_connect_established : ConnectSent → Bool
is_connect_established connect_established = true
is_connect_established _ = false

pub record Segment : Type 0 where
  pub seq : ℕ  -- uint32_t
  pub len : ℕ  -- uint16_t
  pub sent : ℕ  -- uint16_t
  pub psh : Bool
  pub bytes : List ℕ

pub record TcpSession : Type 0 where
  pub uid : ℕ
  pub time : ℕ
  pub version : ℕ
  pub mss : ℕ
  pub recv_scale : ℕ
  pub send_scale : ℕ
  pub recv_window : ℕ
  pub send_window : ℕ
  pub remote_seq : ℕ
  pub local_seq : ℕ
  pub remote_start : ℕ
  pub local_start : ℕ
  pub acked : ℕ
  pub last_keep_alive : ℕ
  pub sent : ℕ
  pub received : ℕ
  pub saddr : List ℕ
  pub source : ℕ
  pub daddr : List ℕ
  pub dest : ℕ
  pub state : TcpState
  pub forward : List Segment
  pub hostname : List ℕ
  pub connect : ConnectSent
