-- ===== src/Tcp/Socket/Edges.antt =====
-- The states that a session passes through when its socket has events.
use violet.Base.{
  ℕ, ◌≡◌, refl, ◌⊎◌, inl, inr, Bool, true, false, ◌&&◌, ◌||◌, not, Option, none, List, [], ◌∷◌,
  arith, Bool-cases, sub64, ltb,
}
use violet.Packet.{Tun, TunWrite}
use violet.Tcp.Types.{
  TcpState, established, syn_recv, fin_wait1, close_wait, last_ack, listen, closing, TcpSession,
  Segment, is_close, is_listen, is_established, is_close_wait,
}
use violet.Tcp.Windows.{get_send_window}
use violet.Tcp.Write.{write_syn_ack, write_ack, write_data, write_fin_ack, write_rst}
use violet.Tcp.Check.Expire.{SocketClosed, is_ended}
use violet.Tcp.Socket.{
  SocketIo, SocketEvents, RecvResult, recv_failed, received_bytes, SendResult, accepted,
  send_failed, Forwarding, Wire, clip, after_send, forward_loop, forward_data, check_connect,
  acknowledge, end_of_stream, take_data, read_socket, check_tcp_socket, outgoing,
}

-- The transitions that the events on a socket may cause.
infix 40 ◌⟹◌
pub data ◌⟹◌ : TcpState → TcpState → Type 0 where
  same_state : {s : TcpState} → s ⟹ s
  connected : listen ⟹ syn_recv
  close_sent : established ⟹ fin_wait1
  close_confirmed : close_wait ⟹ last_ack
  aborted : {s : TcpState} → is_close s ≡ false → s ⟹ closing

ruleset socket_edges = (same_state, connected, close_sent, close_confirmed, aborted)

-- Nothing but an abort.
abbrev Stays : TcpState → TcpState → Type 0
Stays s s' = (s' ≡ s) ⊎ (s' ≡ closing)

rst-Stays :
    (dev : TunWrite) (cur : TcpSession) (log : Tun)
    → is_close cur.state ≡ false
    → (write_rst dev cur log).0.state ≡ closing
unfolding write_rst
rst-Stays dev cur log h = ground arith

connect-⟹ :
    (io : SocketIo) (ev : SocketEvents) (cur : TcpSession) (log : Tun)
    → cur.state ≡ listen
    → ((check_connect io ev cur log).0.state ≡ listen)
      ⊎ (((check_connect io ev cur log).0.state ≡ syn_recv)
          ⊎ ((check_connect io ev cur log).0.state ≡ closing))
unfolding check_connect write_syn_ack
connect-⟹ io ev cur log h = ground (arith, rst-Stays io.dev cur log)

send-Stays :
    (io : SocketIo) (s : Segment) (rest : List Segment) (f : Forwarding) (wire : Wire)
    (r : SendResult)
    → is_close f.cur.state ≡ false
    → Stays f.cur.state (after_send io s rest f wire r).cur.state
send-Stays io s rest f wire (accepted n) h = inl refl
send-Stays io s rest f wire (send_failed true) h = inl refl
send-Stays io s rest f wire (send_failed false) h = inr (rst-Stays io.dev f.cur f.log h)

loop-Stays :
    (io : SocketIo) (queue : List Segment) (f : Forwarding)
    → is_close f.cur.state ≡ false
    → Stays f.cur.state (forward_loop io queue f).cur.state
unfolding forward_loop
loop-Stays io [] f h = inl refl
loop-Stays io (s ∷ rest) f h =
    let data_ = outgoing io.behind f.cur.dest s in
    let more = not s.psh in
    let r = clip (sub64 s.len s.sent) (io.send f.wire data_ more) in
    let f' = after_send io s rest f ((data_, more) ∷ f.wire) r in
    ground (
      arith,
      send-Stays io s rest f ((data_, more) ∷ f.wire) r h,
      λ (h' : is_close f'.cur.state ≡ false). loop-Stays io rest f' h',
    )

acknowledge-Stays :
    (io : SocketIo) (socket : Option ℕ) (fwd : Bool) (cur : TcpSession) (log : Tun)
    → Stays cur.state (acknowledge io socket fwd cur log).0.state
unfolding acknowledge write_ack
acknowledge-Stays io socket fwd cur log = ground arith

-- What a read may do, and the socket behind it.
abbrev ReadEdge : TcpState → TcpState → Option ℕ → Option ℕ → Type 0
ReadEdge s s' socket socket' = (Stays s s' × (socket' ≡ socket)) ⊎ ((socket' ≡ none) × (s ⟹ s'))

end_of_stream-⟹ :
    (dev : TunWrite) (cur : TcpSession) (log : Tun)
    → (is_established cur.state || is_close_wait cur.state) ≡ true
    → cur.state ⟹ (end_of_stream dev cur log).0.state
unfolding end_of_stream write_fin_ack write_rst
end_of_stream-⟹ dev cur log h = grind (arith, socket_edges)

take-ReadEdge :
    (io : SocketIo) (r : RecvResult) (socket : Option ℕ) (cur : TcpSession) (log : Tun)
    → (is_established cur.state || is_close_wait cur.state) ≡ true
    → let (cur', socket', log') = take_data io r socket cur log in
      ReadEdge cur.state cur'.state socket socket'
unfolding take_data write_data
take-ReadEdge io (recv_failed true) socket cur log h = inl (inl refl, refl)
take-ReadEdge io (recv_failed false) socket cur log h =
    inl (inr (rst-Stays io.dev cur log (ground arith)), refl)
take-ReadEdge io (received_bytes []) socket cur log h = inr (refl, end_of_stream-⟹ io.dev cur log h)
take-ReadEdge io (received_bytes (b ∷ bytes)) socket cur log h = ground arith

read-ReadEdge :
    (io : SocketIo) (ev : SocketEvents) (socket : Option ℕ) (cur : TcpSession) (log : Tun)
    → let (cur', socket', log') = read_socket io ev socket cur log in
      ReadEdge cur.state cur'.state socket socket'
unfolding read_socket
read-ReadEdge io ev socket cur log =
    elim (Bool-cases (is_established cur.state || is_close_wait cur.state)) [
      | inr e ↦ rw e (inl (inl refl, refl))
      | inl e ↦ rw e (elim (Bool-cases (ev.input && ltb 0 (get_send_window cur))) [
        | inr idle ↦ rw idle (inl (inl refl, refl))
        | inl reads ↦ rw reads (take-ReadEdge io _ socket (record cur { time = io.now }) log e)
      ])
    ]

stays-⟹ : (s s' : TcpState) → is_close s ≡ false → Stays s s' → s ⟹ s'
stays-⟹ s s' h (inl e) = rw e same_state
stays-⟹ s s' h (inr e) = rw e (aborted h)

Stays-trans : (a b c : TcpState) → Stays a b → Stays b c → Stays a c
Stays-trans a b c h (inl e) = rw e h
Stays-trans a b c h (inr e) = inr e

-- No edge from a state that has not ended its side, but those at the end of the stream, leads to
-- one that has.
end-SocketClosed :
    (a : TcpState) (cur' : TcpSession) (socket' : Option ℕ)
    → is_ended a ≡ false
    → Stays a cur'.state
    → SocketClosed cur' socket'
end-SocketClosed a cur' socket' h (inl e) = rw (e, h) refl
end-SocketClosed a cur' socket' h (inr e) = rw e refl

-- A socket that is gone is closed for any state.
none-SocketClosed : (cur : TcpSession) → SocketClosed cur none
none-SocketClosed cur = ground arith

forward-Stays :
    (io : SocketIo) (ev : SocketEvents) (socket : Option ℕ) (cur : TcpSession) (log : Tun)
    → is_close cur.state ≡ false
    → Stays cur.state (forward_data io ev socket cur log).cur.state
unfolding forward_data
forward-Stays io ev socket cur log h = elim (Bool-cases ev.output) [
  | inl e ↦ rw e (loop-Stays io cur.forward _ h)
  | inr e ↦ rw e (inl refl)
]

closing-stays : (b s : TcpState) → b ≡ closing → b ⟹ s → s ≡ closing
closing-stays b s e same_state = e
closing-stays b s e connected = cc
closing-stays b s e close_sent = cc
closing-stays b s e close_confirmed = cc
closing-stays b s e (aborted h) = refl

-- From a state to the one behind the forwarding and the acknowledgement, and on by a read.
read_after :
    (a b : TcpState) (cur' : TcpSession) (socket socket' : Option ℕ)
    → is_ended a ≡ false
    → Stays a b
    → ReadEdge b cur'.state socket socket'
    → (a ⟹ cur'.state) × SocketClosed cur' socket'
read_after a b cur' socket socket' h st (inl (e, s)) =
    let st' = Stays-trans a b cur'.state st e in
    (stays-⟹ a cur'.state (ground arith) st', end-SocketClosed a cur' socket' h st')
read_after a b cur' socket socket' h (inl e) (inr (s, edge)) =
    (rw e at edge, rw s (none-SocketClosed cur'))
read_after a b cur' socket socket' h (inr e) (inr (s, edge)) =
    let last = closing-stays b cur'.state e edge in
    (rw last (aborted (ground arith)), rw s (none-SocketClosed cur'))

connect_edge :
    (io : SocketIo) (ev : SocketEvents) (socket : Option ℕ) (cur : TcpSession) (log : Tun)
    → is_listen cur.state ≡ true
    → let (cur', log') = check_connect io ev cur log in
      (cur.state ⟹ cur'.state) × SocketClosed cur' socket
connect_edge io ev socket cur log l =
    let at_listen : cur.state ≡ listen = ground arith in
    elim (connect-⟹ io ev cur log at_listen) [
      | inl e ↦ rw (e, at_listen) (same_state, refl)
      | inr (inl e) ↦ rw (e, at_listen) (connected, refl)
      | inr (inr e) ↦ rw (e, at_listen) (aborted refl, refl)
    ]

-- Whatever the device and the socket answer, the events on the socket of a session that is neither
-- in CLOSE nor one that has ended its side take it along an edge of the diagram, and if it has then
-- ended its side its socket is closed.
pub check_tcp_socket-⟹ :
    (io : SocketIo) (ev : SocketEvents) (socket : Option ℕ) (cur : TcpSession) (log : Tun)
    → is_ended cur.state ≡ false
    → let (cur', socket', log') = check_tcp_socket io ev socket cur log in
      (cur.state ⟹ cur'.state) × SocketClosed cur' socket'
unfolding check_tcp_socket
check_tcp_socket-⟹ io ev socket cur log h =
    let open_ : is_close cur.state ≡ false = ground arith in
    elim (Bool-cases ev.error) [
      | inl e ↦
          let reset = write_rst io.dev (record cur { time = io.now }) log in
          let abort = rst-Stays io.dev (record cur { time = io.now }) log open_ in
          rw e (rw abort (aborted open_), end-SocketClosed cur.state reset.0 socket h (inr abort))
      | inr e ↦ simp e (elim (Bool-cases (is_listen cur.state)) [
        | inl l ↦ rw l (connect_edge io ev socket cur log l)
        | inr l ↦
            let f = forward_data io ev socket cur log in
            let a = acknowledge io socket f.fwd f.cur f.log in
            let r = read_socket io ev socket a.0 a.1 in
            rw l (
              read_after cur.state a.0.state r.0 socket r.1 h
                (Stays-trans cur.state f.cur.state a.0.state
                  (forward-Stays io ev socket cur log open_)
                  (acknowledge-Stays io socket f.fwd f.cur f.log))
                (read-ReadEdge io ev socket a.0 a.1))
      ])
    ]
