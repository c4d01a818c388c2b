-- ===== src/Udp/States.antt =====
-- The life of a UDP session: its state only moves forward, in each of the functions that change it.
use violet.Base.{
  ℕ, ◌+◌, ◌≡◌, inl, inr, Bool, true, false, Option, none, some, List, [], ◌∷◌, arith, Memory,
  length, ◌==◌, u64, Bool-cases,
}
use violet.Packet.{Tun, TunWrite}
use violet.Tcp.Socket.{SendResult, RecvResult, received_bytes, recv_failed}
use violet.Session.Types.{UdpSession, UdpState, active, finishing, closed, blocked}
use violet.Session.World.{Calls, took_all, may_retry}
use violet.Dns.Response.{Answers}
use violet.Dhcp.{check_dhcp}
use violet.Base.Int.{pos, ltb_ℤ, ◌+ℤ◌}
use violet.Udp.{
  is_active, is_finishing, check_udp_session, write_udp, udp_timeout, udp_finish, udp_reset,
  get_udp_timeout,
}
use violet.Udp.Resolve.{finish_dns}
use violet.Udp.Socket.{forward_reply, read_udp, check_udp_socket}
use violet.Udp.Handle.{after_send}

-- active, then finishing, then closed; blocked stays.
pub data Later : UdpState → UdpState → Type 0 where
  same : {s : UdpState} → Later s s
  finishes : Later active finishing
  closes : Later finishing closed
  ends : Later active closed

-- A session that has a socket.
pub data IsOpen : UdpState → Type 0 where
  is_active_ : IsOpen active
  is_finishing_ : IsOpen finishing

to_finishing : {s : UdpState} → IsOpen s → Later s finishing
to_finishing is_active_ = finishes
to_finishing is_finishing_ = same

finish_dns-Later :
    (u : UdpSession) (r : Option ℕ × Tun) → IsOpen u.state → Later u.state (finish_dns u r).0.state
finish_dns-Later u (none, log) h = to_finishing h
finish_dns-Later u (some n, log) h = elim (Bool-cases (u.dest == 53)) [
  | inl e ↦ rw e (to_finishing h)
  | inr e ↦ rw e same
]

-- What a function that may not return leaves of the session's state.
abbrev pub Moves : UdpState → Option (UdpSession × Tun) → Type 0
Moves state none = Unit
Moves state (some r) = Later state r.0.state

forward_reply-Moves :
    (dev : TunWrite) (u : UdpSession) (bytes : List ℕ) (log : Tun) (r : Option Answers)
    → IsOpen u.state
    → Moves u.state (forward_reply dev u bytes log r)
forward_reply-Moves dev u bytes log none h = tt
forward_reply-Moves dev u bytes log (some a) h = finish_dns-Later u (write_udp dev u bytes log) h

read_udp-Moves :
    (dev : TunWrite) (rounds : ℕ) (junk : Memory) (u : UdpSession) (log : Tun) (r : RecvResult)
    → IsOpen u.state
    → Moves u.state (read_udp dev rounds junk u log r)
read_udp-Moves dev rounds junk u log (recv_failed true) h = same
read_udp-Moves dev rounds junk u log (recv_failed false) h = to_finishing h
read_udp-Moves dev rounds junk u log (received_bytes []) h = to_finishing h
read_udp-Moves dev rounds junk u log (received_bytes (b ∷ bytes)) h =
    let u' = record u { received = u64 (u.received + length (b ∷ bytes)) } in
    elim (Bool-cases (u.dest == 53)) [
      | inl e ↦ rw e (forward_reply-Moves dev u' (b ∷ bytes) log _ h)
      | inr e ↦ rw e (finish_dns-Later u' (write_udp dev u' (b ∷ bytes) log) h)
    ]

-- On the socket of a session that is active or finishing check_udp_socket moves the state forward or
-- leaves it, whatever the events are, what recv gives and what the device answers, unless
-- parse_dns_response does not return.
pub check_udp_socket-Moves :
    (dev : TunWrite) (now rounds : ℕ) (junk : Memory) (error input : Bool) (recv : ℕ → RecvResult)
    (u : UdpSession) (log : Tun)
    → IsOpen u.state
    → Moves u.state (check_udp_socket dev now rounds junk error input recv u log)
unfolding check_udp_socket
check_udp_socket-Moves dev now rounds junk true input recv u log h = to_finishing h
check_udp_socket-Moves dev now rounds junk false false recv u log h = same
check_udp_socket-Moves dev now rounds junk false true recv u log h =
    read_udp-Moves dev rounds junk (record u { time = now }) log (recv u.mss) h

pub Later-trans : {a b c : UdpState} → Later a b → Later b c → Later a c
Later-trans same k = k
Later-trans finishes same = finishes
Later-trans finishes closes = ends
Later-trans closes same = closes
Later-trans ends same = ends

from_active : (s : UdpState) → is_active s ≡ true → Later s finishing
from_active active e = finishes
from_active finishing e = cc
from_active closed e = cc
from_active blocked e = cc

from_finishing : (s : UdpState) → is_finishing s ≡ true → Later s closed
from_finishing active e = cc
from_finishing finishing e = closes
from_finishing closed e = cc
from_finishing blocked e = cc

udp_timeout-Later :
    (now sessions maxsessions : ℕ) (u : UdpSession)
    → Later u.state (udp_timeout now sessions maxsessions u).state
udp_timeout-Later now sessions maxsessions u = elim (Bool-cases (is_active u.state)) [
  | inl e ↦
      (elim (Bool-cases (ltb_ℤ (pos u.time +ℤ get_udp_timeout u sessions maxsessions) (pos now))) [
        | inl l ↦ rw (e, l) (from_active u.state e)
        | inr l ↦ rw (e, l) same
      ])
  | inr e ↦ rw e same
]

udp_finish-Later :
    (later : ℕ) (u : UdpSession) (socket : Option ℕ)
    → Later u.state (udp_finish later u socket).0.state
udp_finish-Later later u socket = elim (Bool-cases (is_finishing u.state)) [
  | inl e ↦ rw e (from_finishing u.state e)
  | inr e ↦ rw e same
]

udp_reset-state : (u : UdpSession) → (udp_reset u).state ≡ u.state
udp_reset-state u = ground arith

-- The round of check_udp_session too moves the state forward or leaves it, whatever the clock says.
pub check_udp_session-Later :
    (now later sessions maxsessions : ℕ) (u : UdpSession) (socket : Option ℕ)
    → Later u.state (check_udp_session now later sessions maxsessions u socket).1.state
unfolding check_udp_session
check_udp_session-Later now later sessions maxsessions u socket =
    let timed = udp_timeout now sessions maxsessions u in
    rw (udp_reset-state (udp_finish later timed socket).0) (
      Later-trans (udp_timeout-Later now sessions maxsessions u)
        (udp_finish-Later later timed socket))

pub after_send-Later :
    (k : Calls) (len : ℕ) (r : SendResult) (u : UdpSession)
    → u.state ≡ active
    → Later u.state (after_send k len r u).1.state
after_send-Later k len r u e = elim (Bool-cases (took_all len r)) [
  | inl t ↦ rw t same
  | inr t ↦ (elim (Bool-cases (may_retry k.stale r)) [
    | inl m ↦ rw (t, m) same
    | inr m ↦ rw (t, m) (rw e finishes)
  ])
]

pub check_dhcp-state :
    (dev : TunWrite) (u : UdpSession) (p : Memory) (n : ℕ) (log : Tun)
    → (check_dhcp dev u p n log).1.state ≡ u.state
unfolding check_dhcp
check_dhcp-state dev u p n log = ground arith
