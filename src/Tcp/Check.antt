-- ===== src/Tcp/Check.antt =====
-- check_tcp_session and monitor_tcp_session of tcp.c: the rounds over the sessions that the event
-- loop makes.
pub mod Expire
pub mod Monitor
use mathlib.Core.Bool.{xor}
use violet.Base.{
  ℕ, ◌+◌, ◌-◌, ◌*◌, ◌/◌, ◌%◌, Bool, true, false, ◌&&◌, ◌||◌, not, Option, none, some, List, [], ◌∷◌,
  u16, u32, ltb, ◌==◌, if◌then◌else◌, sub32,
}
use violet.Base.Int.{ℤ, pos, ltb_ℤ, ◌+ℤ◌}
use violet.Packet.{Tun, TunWrite}
use violet.Tcp.Types.{
  TcpState, close, closing, TcpSession, Segment, is_listen, is_established, is_close_wait,
  is_closing, is_close, is_connect_sent,
}
use violet.Tcp.Windows.{Buffers, get_send_window, get_receive_buffer, get_tcp_timeout}
use violet.Tcp.Write.{write_ack, write_rst}

-- `s->tcp.time + timeout < now`.
abbrev pub expired : ℕ → ℕ → ℕ → TcpSession → Bool
expired now sessions maxsessions cur =
    ltb_ℤ (pos cur.time +ℤ get_tcp_timeout cur.state sessions maxsessions) (pos now)

-- `Check session timeout`.
unfoldable pub check_timeout : TunWrite → ℕ → ℕ → ℕ → TcpSession → Tun → TcpSession × Tun
check_timeout dev now sessions maxsessions cur log =
    if not (is_closing cur.state)
      && not (is_close cur.state)
      && expired now sessions maxsessions cur
    then (if is_listen cur.state
        then (record cur { state = closing }, log)
        else write_rst dev cur log)
    else (cur, log)

-- `Check closing sessions`; `later` is the second time(NULL). An error of close is only logged.
unfoldable pub check_closing : ℕ → TcpSession → Option ℕ → TcpSession × Option ℕ
check_closing later cur socket =
    if is_closing cur.state
    then (record cur { time = later; state = close }, none)
    else (cur, socket)

abbrev pub reset_counters : TcpSession → TcpSession
reset_counters cur =
    if is_closing cur.state || is_close cur.state
    then record cur { sent = 0; received = 0 }
    else cur

-- The result: whether the session is to be removed, the session, its socket and the device's log.
unfoldable pub check_tcp_session :
    TunWrite → ℕ → ℕ → ℕ → ℕ → TcpSession → Option ℕ → Tun → Bool × TcpSession × Option ℕ × Tun
unfolding check_timeout check_closing
check_tcp_session dev now later sessions maxsessions cur socket log =
    let (timed, log') = check_timeout dev now sessions maxsessions cur log in
    let (closed, socket') = check_closing later timed socket in
    (is_close closed.state && ltb (closed.time + 300) now, reset_counters closed, socket', log')

-- The epoll events asked for; EPOLLERR always is.
pub record Events : Type 0 where
  pub input : Bool
  pub output : Bool

abbrev pub same_events : Events → Events → Bool
same_events a b = not (xor a.input b.input) && not (xor a.output b.output)

-- `Check for connected = writable`.
abbrev pub listen_events : TcpSession → Events
listen_events cur =
    let waiting = is_connect_sent cur.connect && cur.dest == 443 in
    record { input = waiting; output = not waiting }

-- The keep alive that is sent while the send window is 0. `ms` is get_ms().
unfoldable pub keep_alive : TunWrite → ℕ → TcpSession → Tun → TcpSession × Tun
keep_alive dev ms cur log =
    if ltb 100 (ms - cur.last_keep_alive)
    then (let (ok, cur', log') =
          write_ack dev (record cur { last_keep_alive = ms; remote_seq = sub32 cur.remote_seq 1 })
            log in
        (record cur' { remote_seq = u32 (cur'.remote_seq + 1) }, log'))
    else (cur, log)

-- The condition on the head of the queue that monitor_tcp_session and check_tcp_socket share.
abbrev pub can_forward : ℕ → ℕ → List Segment → Bool
can_forward remote_seq buffer_size [] = false
can_forward remote_seq buffer_size (s ∷ rest) =
    u32 (s.seq + s.sent) == remote_seq && ltb (sub32 s.len s.sent) buffer_size

abbrev pub has_segment : List Segment → Bool
has_segment [] = false
has_segment (_ ∷ _) = true

abbrev pub may_keep_alive : TunWrite → ℕ → TcpSession → Tun → TcpSession × Tun
may_keep_alive dev ms cur log =
    if (is_established cur.state || is_close_wait cur.state) && not (ltb 0 (get_send_window cur))
    then keep_alive dev ms cur log
    else (cur, log)

-- What is asked for, and whether to look again soon, by the session before the keep alive and after.
abbrev pub wanted : TcpSession → TcpSession → Option ℕ → Buffers → Events × Bool
wanted cur after socket k =
    if is_listen cur.state
    then (listen_events cur, false)
    else (if is_established cur.state || is_close_wait cur.state
        then (let room = ltb 0 (get_send_window cur) in
            let out = can_forward after.remote_seq (get_receive_buffer socket k) after.forward in
            (
              record { input = room; output = out },
              not room || (has_segment after.forward && not out),
            ))
        else (record { input = false; output = false }, false))

-- `ctl` is whether epoll_ctl succeeds. The result: recheck, the session, the events that are set and
-- the device's log.
unfoldable pub monitor_tcp_session :
    TunWrite
    → ℕ
    → Buffers
    → Bool
    → TcpSession
    → Option ℕ
    → Events
    → Tun
    → Bool × TcpSession × Events × Tun
unfolding keep_alive
monitor_tcp_session dev ms k ctl cur socket events log =
    let (after, log') = may_keep_alive dev ms cur log in
    let (new, recheck) = wanted cur after socket k in
    (
      recheck,
      (if same_events new events || ctl then after else record after { state = closing }),
      new,
      log',
    )
