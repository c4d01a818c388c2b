-- ===== src/Tcp/Check/Monitor.antt =====
-- monitor_tcp_session.
use violet.Base.{ℕ, ◌<◌, ◌≡◌, ◌⊎◌, Bool, true, ◌||◌, Option, arith, ltb}
use violet.Packet.{Tun, TunWrite}
use violet.Tcp.Types.{closing, TcpSession, is_established, is_close_wait}
use violet.Tcp.Windows.{Buffers, get_send_window, get_receive_buffer}
use violet.Tcp.Write.{write_ack}
use violet.Tcp.Check.{Events, monitor_tcp_session, can_forward}

-- For a session in ESTABLISHED or CLOSE_WAIT with a 32-bit remote_seq, whatever the device and epoll answer,
-- monitor_tcp_session leaves the sequence numbers and the queue as they are, and the state too unless
-- it moves to CLOSING. The socket is then read exactly if the send window is above 0, and written
-- exactly if the head of the queue is the next byte to forward and fits the buffer; and the loop looks
-- again soon when the send window is 0.
pub monitor_tcp_session_lem :
    (dev : TunWrite) (ms : ℕ) (k : Buffers) (ctl : Bool) (cur : TcpSession) (socket : Option ℕ)
    (events : Events) (log : Tun)
    → cur.remote_seq < 4294967296
    → (is_established cur.state || is_close_wait cur.state) ≡ true
    → let (recheck, cur', events', log') = monitor_tcp_session dev ms k ctl cur socket events log in
      (cur'.remote_seq ≡ cur.remote_seq)
      × (cur'.local_seq ≡ cur.local_seq)
      × (cur'.forward ≡ cur.forward)
      × ((cur'.state ≡ cur.state) ⊎ (cur'.state ≡ closing))
      × (events'.input ≡ ltb 0 (get_send_window cur))
      × (events'.output ≡ can_forward cur.remote_seq (get_receive_buffer socket k) cur.forward)
      × ((recheck ≡ true) ⊎ (events'.input ≡ true))
unfolding monitor_tcp_session write_ack
monitor_tcp_session_lem dev ms k ctl cur socket events log h a = ground arith
