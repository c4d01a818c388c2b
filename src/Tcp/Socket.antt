-- ===== src/Tcp/Socket.antt =====
-- check_tcp_socket of tcp.c: what the events on a session's socket do.
pub mod Edges
pub mod Forward
use violet.Base.{
  ℕ, zero, suc, ◌+◌, ◌-◌, ◌*◌, ◌/◌, ◌%◌, Bool, true, false, ◌&&◌, ◌||◌, not, Option, none, some,
  List, [], ◌∷◌, ◌++◌, Memory, u16, u32, u64, sub32, sub64, ltb, leb, ◌==◌, if◌then◌else◌, length,
  drop, get_or,
}
use violet.Packet.{Tun, TunWrite}
use violet.Http.{patch_http_url}
use violet.Tcp.Types.{
  TcpState, established, syn_recv, fin_wait1, close_wait, last_ack, TcpSession, Segment,
  ConnectSent, connect_established, is_listen, is_established, is_close_wait, is_connect_sent,
}
use violet.Tcp.Windows.{Buffers, get_send_window, get_receive_buffer, get_receive_window}
use violet.Tcp.Write.{Wrote, write_syn_ack, write_ack, write_data, write_fin_ack, write_rst}
use violet.Tcp.Handle.{is_nil}
use violet.Tcp.Check.{can_forward}

-- What send answers: a count, or -1, with whether errno is EINTR or EAGAIN.
pub data SendResult : Type 0 where
  accepted : ℕ → SendResult
  send_failed : (retry : Bool) → SendResult

-- What recv answers; no bytes are the end of the stream.
pub data RecvResult : Type 0 where
  received_bytes : List ℕ → RecvResult
  recv_failed : (retry : Bool) → RecvResult

-- The chunks given to send, with MSG_MORE, the last one first.
abbrev pub Wire : Type 0
Wire = List (List ℕ × Bool)

-- What check_tcp_socket asks the system: send after what was sent before, the two recv calls, the
-- clock, the socket's buffers before and after the forwarding, and the bytes behind a segment's data.
pub record SocketIo : Type 0 where
  pub dev : TunWrite
  pub now : ℕ
  pub send : Wire → List ℕ → Bool → SendResult
  pub recv : ℕ → RecvResult
  pub before : Buffers
  pub after : Buffers
  pub behind : Memory

pub record SocketEvents : Type 0 where
  pub error : Bool
  pub input : Bool
  pub output : Bool

-- A ssize_t that is compared with a size_t becomes one.
abbrev pub as_size_t : SendResult → ℕ
as_size_t (accepted n) = n
as_size_t (send_failed retry) = 18446744073709551615

-- `if (sent > len) sent = len`.
unfoldable pub clip : ℕ → SendResult → SendResult
clip len r = if ltb len (as_size_t r) then accepted len else r

-- The state of the forwarding loop.
pub record Forwarding : Type 0 where
  pub cur : TcpSession
  pub room : ℕ
  pub fwd : Bool
  pub wire : Wire
  pub log : Tun

abbrev patched : List ℕ → Option (List ℕ) → List ℕ
patched bytes none = bytes
patched bytes (some new) = new

-- The bytes given to send.
unfoldable pub outgoing : Memory → ℕ → Segment → List ℕ
outgoing behind dest s =
    let bytes = drop s.sent s.bytes in
    if dest == 80
    then patched bytes (patch_http_url (λ i. get_or bytes i (behind i)) (sub64 s.len s.sent))
    else bytes

-- The segment after a send, and the session with the rest of the queue.
abbrev pub advance : Segment → ℕ → Segment
advance s n = record s { sent = u16 (s.sent + n) }

abbrev pub is_done : Segment → Bool
is_done s = s.len == s.sent

abbrev pub take_off : Segment → List Segment → List Segment
take_off s rest = if is_done s then rest else s ∷ rest

abbrev pub after_send :
    SocketIo → Segment → List Segment → Forwarding → Wire → SendResult → Forwarding
after_send io s rest f wire (accepted n) =
    let s' = advance s n in
    record f {
      cur = record f.cur {
        sent = u64 (f.cur.sent + n);
        remote_seq = u32 (s'.seq + s'.sent);
        forward = take_off s' rest;
      };
      room = sub32 f.room n;
      fwd = true;
      wire = wire;
    }
after_send io s rest f wire (send_failed true) = record f { wire = wire }
after_send io s rest f wire (send_failed false) =
    let (cur', log') = write_rst io.dev f.cur f.log in
    record f { cur = cur'; wire = wire; log = log' }

-- Whether the loop goes on to the next segment.
abbrev pub goes_on : Segment → SendResult → Bool
goes_on s (accepted n) = is_done (advance s n)
goes_on s (send_failed retry) = false

-- `Forward data`, by the segments of the queue: a round takes one off, or is the last.
unfoldable pub forward_loop : SocketIo → List Segment → Forwarding → Forwarding
forward_loop io [] f = f
forward_loop io (s ∷ rest) f =
    let data_ = outgoing io.behind f.cur.dest s in
    let more = not s.psh in
    let r = clip (sub64 s.len s.sent) (io.send f.wire data_ more) in
    let f' = after_send io s rest f ((data_, more) ∷ f.wire) r in
    let next = forward_loop io rest f' in
    if can_forward f.cur.remote_seq f.room (s ∷ rest) then (if goes_on s r then next else f') else f

-- `Check socket connect`. What the proxy answered is not looked at; the rest of it is read and
-- dropped.
unfoldable pub check_connect : SocketIo → SocketEvents → TcpSession → Tun → TcpSession × Tun
check_connect io ev cur log =
    if ev.input
    then (elim (io.recv 12) [
      | recv_failed retry ↦ write_rst io.dev cur log
      | received_bytes bytes ↦
          if is_connect_sent cur.connect
          then (record cur { connect = connect_established; state = syn_recv }, log)
          else write_rst io.dev cur log
    ])
    else (let (ok, cur', log') =
          write_syn_ack io.dev (record cur { remote_seq = u32 (cur.remote_seq + 1) }) log in
        if ok
        then (
          record cur' { time = io.now; local_seq = u32 (cur'.local_seq + 1); state = syn_recv },
          log',
        )
        else (cur', log'))

unfoldable pub forward_data : SocketIo → SocketEvents → Option ℕ → TcpSession → Tun → Forwarding
unfolding forward_loop
forward_data io ev socket cur log =
    let start : Forwarding = record {
      cur = cur;
      room = get_receive_buffer socket io.before;
      fwd = false;
      wire = [];
      log = log;
    } in
    if ev.output then forward_loop io cur.forward start else start

-- `Get receive window` and `Acknowledge forwarded data`.
unfoldable pub acknowledge : SocketIo → Option ℕ → Bool → TcpSession → Tun → TcpSession × Tun
acknowledge io socket fwd cur log =
    let window = get_receive_window cur socket io.after in
    let opened = cur.recv_window == 0 && ltb 0 window in
    let cur1 = record cur { recv_window = window } in
    let confirmed =
      if fwd && (is_nil cur.forward && is_close_wait cur.state)
      then record cur1 { remote_seq = u32 (cur.remote_seq + 1) }
      else cur1 in
    if fwd || opened
    then (let (ok, cur2, log') = write_ack io.dev confirmed log in
        (if ok then record cur2 { time = io.now } else cur2, log'))
    else (cur1, log)

abbrev pub half_closed : TcpState → TcpState
half_closed established = fin_wait1
half_closed close_wait = last_ack
half_closed state = state

-- `recv eof`.
unfoldable pub end_of_stream : TunWrite → TcpSession → Tun → TcpSession × Tun
end_of_stream dev cur log =
    if is_nil cur.forward
    then (let (ok, cur', log') = write_fin_ack dev cur log in
        let cur2 = if ok then record cur' { local_seq = u32 (cur'.local_seq + 1) } else cur' in
        (record cur2 { state = half_closed cur2.state }, log'))
    else write_rst dev cur log

-- What recv brought, and the socket, which is closed at the end of the stream.
unfoldable pub take_data :
    SocketIo → RecvResult → Option ℕ → TcpSession → Tun → TcpSession × Option ℕ × Tun
take_data io (recv_failed true) socket cur log = (cur, socket, log)
take_data io (recv_failed false) socket cur log =
    let (cur', log') = write_rst io.dev cur log in (cur', socket, log')
take_data io (received_bytes []) socket cur log =
    let (cur', log') = end_of_stream io.dev cur log in (cur', none, log')
take_data io (received_bytes (b ∷ bytes)) socket cur log =
    let (ok, cur', log') =
      write_data io.dev (record cur { received = u64 (cur.received + length (b ∷ bytes)) })
        (b ∷ bytes) log in
    (
      if ok then record cur' { local_seq = u32 (cur'.local_seq + length (b ∷ bytes)) } else cur',
      socket,
      log',
    )

-- `Check socket read`.
unfoldable pub read_socket :
    SocketIo → SocketEvents → Option ℕ → TcpSession → Tun → TcpSession × Option ℕ × Tun
read_socket io ev socket cur log =
    let window = get_send_window cur in
    if (is_established cur.state || is_close_wait cur.state) && (ev.input && ltb 0 window)
    then take_data io (io.recv (if ltb cur.mss window then cur.mss else window)) socket
        (record cur { time = io.now }) log
    else (cur, socket, log)

-- The result: the session, its socket, and the device's log.
unfoldable pub check_tcp_socket :
    SocketIo → SocketEvents → Option ℕ → TcpSession → Tun → TcpSession × Option ℕ × Tun
check_tcp_socket io ev socket cur log =
    if ev.error
    then (let (cur', log') = write_rst io.dev (record cur { time = io.now }) log in
        (cur', socket, log'))
    else (if is_listen cur.state
        then (let (cur', log') = check_connect io ev cur log in (cur', socket, log'))
        else (let f = forward_data io ev socket cur log in
            let (cur', log') = acknowledge io socket f.fwd f.cur f.log in
            read_socket io ev socket cur' log'))
