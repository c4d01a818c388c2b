-- ===== src/Session/Rounds/Laws.antt =====
-- What the rounds over the sessions keep, and what they leave.
use violet.Base.{
  ℕ, ◌≡◌, refl, ◌∙◌, ◌⊎◌, inl, inr, Bool, true, false, ◌||◌, not, Option, none, List, [], ◌∷◌,
  arith, All,
}
use violet.Packet.{Tun, TunWrite}
use violet.Session.Types.{NgSession, Proto, icmp, udp, tcp, UdpSession}
use violet.Icmp.{check_icmp_session}
use violet.Udp.{is_blocked, is_closed, is_finishing, check_udp_session}
use violet.Tcp.Types.{is_closing}
use violet.Tcp.Write.{write_rst}
use violet.Tcp.Check.{check_tcp_session}
use violet.Tcp.Check.Expire.{SocketClosed, is_none, check_tcp_session-safe}
use violet.Session.Rounds.{
  count_sessions, check_proto, check_sessions, stop_proto, keep, check_allowed,
}

-- A session that has ended has no socket any more: a TCP session that has ended its side, a UDP
-- session that is closed or blocked.
abbrev pub SafeProto : Proto → Option ℕ → Type 0
SafeProto (icmp i) socket = Unit
SafeProto (udp u) socket = (not (is_closed u.state || is_blocked u.state) || is_none socket) ≡ true
SafeProto (tcp t) socket = SocketClosed t socket

abbrev pub IsSafe : NgSession → Type 0
IsSafe s = SafeProto s.proto s.socket

-- No session waits to be closed.
abbrev pub SettledProto : Proto → Type 0
SettledProto (icmp i) = i.stop ≡ false
SettledProto (udp u) = is_finishing u.state ≡ false
SettledProto (tcp t) = is_closing t.state ≡ false

abbrev pub IsSettled : NgSession → Type 0
IsSettled s = SettledProto s.proto

udp-SafeProto :
    (now later sessions maxsessions : ℕ) (u : UdpSession) (socket : Option ℕ)
    → SafeProto (udp u) socket
    → let (del, u', socket') = check_udp_session now later sessions maxsessions u socket in
      SafeProto (udp u') socket'
      × (is_finishing u'.state ≡ false)
      × ((del ≡ false) ⊎ (socket' ≡ none))
unfolding check_udp_session
udp-SafeProto now later sessions maxsessions u socket h = ground arith

kept_or_gone :
    (del : Bool) (A B : Type 0) (socket : Option ℕ)
    → A × B
    → (del ≡ false) ⊎ (socket ≡ none)
    → ((del ≡ false) × A × B) ⊎ ((del ≡ true) × (socket ≡ none))
kept_or_gone false A B socket ab h = inl (refl, ab.0, ab.1)
kept_or_gone true A B socket ab (inl e) = cc
kept_or_gone true A B socket ab (inr e) = inr (refl, e)

proto-IsSafe :
    (dev : TunWrite) (now later sessions maxsessions : ℕ) (s : NgSession) (log : Tun)
    (proto : Proto)
    → s.proto ≡ proto
    → SafeProto proto s.socket
    → let (del, s', log') = check_proto dev now later sessions maxsessions s log proto in
      ((del ≡ false) × IsSafe s' × IsSettled s') ⊎ ((del ≡ true) × (s'.socket ≡ none))
unfolding check_icmp_session
proto-IsSafe dev now later sessions maxsessions s log (icmp i) e h = rw e (ground arith)
proto-IsSafe dev now later sessions maxsessions s log (udp u) e h =
    let r = check_udp_session now later sessions maxsessions u s.socket in
    let (safe, settled, gone) = udp-SafeProto now later sessions maxsessions u s.socket h in
    kept_or_gone r.0 _ _ r.2 (safe, settled) gone
proto-IsSafe dev now later sessions maxsessions s log (tcp t) e h =
    let r = check_tcp_session dev now later sessions maxsessions t s.socket log in
    let (safe, gone, settled) =
      check_tcp_session-safe dev now later sessions maxsessions t s.socket log h in
    kept_or_gone r.0 _ _ r.2 (safe, settled) (ground (arith, gone))

-- After check_allowed.
stop-lem :
    (dev : TunWrite) (s : NgSession) (log : Tun) (rest : List NgSession)
    → count_sessions (keep (stop_proto dev s log s.proto).0 rest) ≡ count_sessions rest
unfolding count_sessions write_rst
stop-lem dev s log rest = ground arith

-- check_allowed leaves no session that counts: each one is stopped, finishing, closing or gone.
pub check_allowed-count_sessions :
    (dev : TunWrite) (sessions : List NgSession) (log : Tun)
    → count_sessions (check_allowed dev sessions log).0 ≡ 0
unfolding check_allowed count_sessions
check_allowed-count_sessions dev [] log = refl
check_allowed-count_sessions dev (s ∷ rest) log =
    let r = stop_proto dev s log s.proto in
    stop-lem dev s log (check_allowed dev rest r.1).0 ∙ check_allowed-count_sessions dev rest r.1

-- A round of check_sessions on sessions that have no socket once they have ended keeps that so, and
-- leaves none that waits to be closed: no stopped ICMP session, no finishing UDP session and no
-- closing TCP session.
pub check_sessions-IsSafe :
    (dev : TunWrite) (now later sessions maxsessions : ℕ) (list : List NgSession) (log : Tun)
    → All IsSafe list
    → All IsSafe (check_sessions dev now later sessions maxsessions list log).0
      × All IsSettled (check_sessions dev now later sessions maxsessions list log).0
unfolding check_sessions
check_sessions-IsSafe dev now later sessions maxsessions [] log h = (tt, tt)
check_sessions-IsSafe dev now later sessions maxsessions (s ∷ rest) log (h, hs) =
    let r = check_proto dev now later sessions maxsessions s log s.proto in
    let tail = check_sessions-IsSafe dev now later sessions maxsessions rest r.2 hs in
    elim (proto-IsSafe dev now later sessions maxsessions s log s.proto refl h) [
      | inl (e, safe, settled) ↦ rw e ((safe, tail.0), (settled, tail.1))
      | inr (e, gone) ↦ rw e tail
    ]
