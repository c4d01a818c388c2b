-- ===== src/Tcp/Check/Expire.antt =====
-- How a session comes to its end.
use violet.Base.{ℕ, ◌+◌, ◌<◌, ◌≡◌, ◌⊎◌, Bool, true, false, ◌||◌, not, Option, none, some, arith}
use violet.Packet.{Tun, TunWrite}
use violet.Tcp.Types.{TcpState, close, fin_wait1, last_ack, TcpSession, is_close, is_closing}
use violet.Tcp.Write.{write_rst}
use violet.Tcp.Check.{expired, check_tcp_session}

abbrev pub is_ended : TcpState → Bool
is_ended close = true
is_ended fin_wait1 = true
is_ended last_ack = true
is_ended _ = false

-- A session that has ended its side has no socket any more.
abbrev pub is_none : Option ℕ → Bool
is_none none = true
is_none (some _) = false

-- A session that has ended its side has no socket any more.
abbrev pub SocketClosed : TcpSession → Option ℕ → Type 0
SocketClosed cur socket = (not (is_ended cur.state) || is_none socket) ≡ true

-- One round of check_tcp_session on a session whose socket is gone when it should be: that stays
-- so; the session is kept, or it is in CLOSE for more than 300 seconds and has no socket; and no
-- session is left in CLOSING.
pub check_tcp_session-safe :
    (dev : TunWrite) (now later sessions maxsessions : ℕ) (cur : TcpSession) (socket : Option ℕ)
    (log : Tun)
    → SocketClosed cur socket
    → let (del, cur', socket', log') =
        check_tcp_session dev now later sessions maxsessions cur socket log in
      SocketClosed cur' socket'
      × ((del ≡ false) ⊎ ((cur'.state ≡ close) × (socket' ≡ none) × (cur'.time + 300 < now)))
      × (is_closing cur'.state ≡ false)
unfolding check_tcp_session write_rst
check_tcp_session-safe dev now later sessions maxsessions cur socket log ok = ground arith

-- A session that has been idle for longer than its timeout is closed by the next round: its socket
-- is closed and its counters are 0. A round more than 300 seconds later removes it.
pub expired_removed :
    (dev : TunWrite) (now later sessions maxsessions : ℕ) (cur : TcpSession) (socket : Option ℕ)
    (log : Tun) (now' later' sessions' maxsessions' : ℕ)
    → expired now sessions maxsessions cur ≡ true
    → is_close cur.state ≡ false
    → later + 300 < now'
    → let (del, cur', socket', log') =
        check_tcp_session dev now later sessions maxsessions cur socket log in
      (cur'.state ≡ close)
      × (socket' ≡ none)
      × (cur'.sent ≡ 0)
      × (cur'.received ≡ 0)
      × ((check_tcp_session dev now' later' sessions' maxsessions' cur' socket' log').0 ≡ true)
unfolding check_tcp_session write_rst
expired_removed dev now later sessions maxsessions cur socket log now' later' sessions' maxsessions'
      e c h =
    ground arith
