-- ===== src/Tcp/Handle.antt =====
-- handle_tcp of tcp.c for a session that is known: what a segment from the tun device does to it.
-- Each function stands for a block of the handler and returns the session and the device's log. The
-- int flag that is passed on says whether the handler goes on behind the block (`goto free` if not).
pub mod Acks
pub mod States
use violet.Base.{
  ℕ, ◌+◌, ◌-◌, ◌*◌, ◌/◌, ◌%◌, ◌^◌, Bool, true, false, ◌&&◌, ◌||◌, not, Option, none, some, List, [],
  ◌∷◌, ◌++◌, take, u16, u32, ltb, ◌==◌, if◌then◌else◌, length,
}
use violet.Util.Serial.{Cmp, less, same, greater, compare_u32}
use violet.Packet.{Tun, TunWrite}
use violet.Tcp.Types.{
  TcpState, established, syn_recv, fin_wait1, close, close_wait, last_ack, listen, closing,
  TcpSession, Segment, is_established, is_close_wait, is_closing, is_close, ConnectSent,
  connect_sent, is_not_sent, is_connect_established,
}
use violet.Tcp.Write.{write_ack, write_rst}
use violet.Tcp.Queue.{queue_tcp, is_less}

-- struct tcphdr, with its fields in network order as the numbers that they denote.
pub record TcpHeader : Type 0 where
  pub source : ℕ
  pub dest : ℕ
  pub seq : ℕ
  pub ack_seq : ℕ
  pub doff : ℕ
  pub fin : Bool
  pub syn : Bool
  pub rst : Bool
  pub psh : Bool
  pub ack : Bool
  pub urg : Bool
  pub window : ℕ

abbrev pub is_nil : List Segment → Bool
is_nil [] = true
is_nil (_ ∷ _) = false

-- What becomes of a write_ack: the state is set only if it went out.
abbrev pub then_state : TcpState → Bool × TcpSession × Tun → TcpSession × Tun
then_state state (true, cur, log) = (record cur { state = state }, log)
then_state state (false, cur, log) = (cur, log)

-- `else if (tcphdr->fin)`.
unfoldable pub handle_fin : TunWrite → TcpSession → Tun → TcpSession × Tun
handle_fin dev cur log = elim cur.state [
  | established ↦
      if is_nil cur.forward
      then then_state close_wait
          (write_ack dev (record cur { remote_seq = u32 (cur.remote_seq + 1) }) log)
      else (record cur { state = close_wait }, log)
  | fin_wait1 ↦
      then_state close (write_ack dev (record cur { remote_seq = u32 (cur.remote_seq + 1) }) log)
  | _ ↦ (cur, log)
]

abbrev pub acked_state : TcpState → TcpState
acked_state syn_recv = established
acked_state last_ack = closing
acked_state state = state

-- `else if (tcphdr->ack)`.
unfoldable pub handle_ack : ℕ → TcpSession → TcpSession
handle_ack ack_seq cur = record cur { acked = ack_seq; state = acked_state cur.state }

-- An acknowledgement other than of what was sent last: keep alive, old or in the future.
unfoldable pub handle_other_ack : TunWrite → ℕ → TcpSession → Tun → TcpSession × Tun
handle_other_ack dev ack cur log =
    if u32 (ack + 1) == cur.local_seq
    then (cur, log)
    else (if is_less (compare_u32 ack cur.local_seq)
        then (elim (compare_u32 ack cur.acked) [
          | greater ↦ (record cur { acked = ack }, log)
          | _ ↦ (cur, log)
        ])
        else write_rst dev cur log)

-- From `if (tcphdr->rst)` on.
unfoldable pub handle_flags : TunWrite → TcpHeader → TcpSession → Tun → TcpSession × Tun
handle_flags dev h cur log =
    if h.rst
    then (record cur { state = closing }, log)
    else (if not h.ack || h.ack_seq == cur.local_seq
        then (if h.syn
            then (cur, log)
            else (if h.fin
                then handle_fin dev cur log
                else (if h.ack then (handle_ack h.ack_seq cur, log) else (cur, log))))
        else handle_other_ack dev h.ack_seq cur log)

-- `if (datalen)`: the segment's data goes into the queue. `datalen` is the length of `bytes`.
unfoldable pub handle_data :
    TunWrite → TcpHeader → List ℕ → Option ℕ → TcpSession → Tun → Bool × TcpSession × Tun
handle_data dev h [] socket cur log = (true, cur, log)
handle_data dev h (b ∷ bytes) none cur log =
    let (cur', log') = write_rst dev cur log in (false, cur', log')
handle_data dev h (b ∷ bytes) (some fd) cur log =
    if is_close_wait cur.state
    then (let (cur', log') = write_rst dev cur log in (false, cur', log'))
    else (true, queue_tcp h.seq (length (b ∷ bytes)) h.psh (b ∷ bytes) cur, log)

-- `cur->tcp.time = time(NULL)` and the window, shifted as an int.
abbrev pub touch : ℕ → TcpHeader → TcpSession → TcpSession
touch now h cur = record cur { time = now; send_window = u32 (h.window * 2 ^ cur.send_scale) }

-- `Session found`, behind the CONNECT to the proxy.
unfoldable pub handle_session :
    TunWrite → ℕ → TcpHeader → List ℕ → Option ℕ → TcpSession → Tun → TcpSession × Tun
handle_session dev now h bytes socket cur log =
    if is_closing cur.state || is_close cur.state
    then write_rst dev cur log
    else let (go_on, cur', log') = handle_data dev h bytes socket (touch now h cur) log in
      if go_on then handle_flags dev h cur' log' else (cur', log')
