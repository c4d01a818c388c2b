-- ===== src/Session/Loop/Kept.antt =====
-- When the check of a session leaves it as it is: check_icmp_session, check_udp_session and
-- check_tcp_session for a session that counts.
use violet.Base.{ℕ, ◌≡◌, ap, ◌∙◌, Option, inl, inr, Bool, true, false, arith, Bool-cases}
use violet.Tcp.Types.{TcpSession, is_close}
use violet.Tcp.Write.{write_rst}
use violet.Base.Int.{pos, ltb_ℤ, ◌+ℤ◌}
use violet.Session.Types.{NgSession, Proto, icmp, udp, tcp}
use violet.Session.Rounds.{is_counted, check_proto}
use violet.Packet.{Tun, TunWrite}
use violet.Icmp.{get_icmp_timeout, check_icmp_session}
use violet.Udp.{get_udp_timeout, check_udp_session}
use violet.Tcp.Check.{expired, check_timeout, check_closing, check_tcp_session}

module _ (sessions maxsessions : ℕ) where
  -- The session has gone longer without traffic, at `t`, than its kind may.
  abbrev pub overdue : ℕ → Proto → Bool
  overdue t (icmp i) = ltb_ℤ (pos i.time +ℤ get_icmp_timeout sessions maxsessions) (pos t)
  overdue t (udp u) = ltb_ℤ (pos u.time +ℤ get_udp_timeout u sessions maxsessions) (pos t)
  overdue t (tcp c) = expired t sessions maxsessions c

  -- The check of the session at `t` leaves it as it is, whatever the second clock and the device's log.
  abbrev pub Kept : ℕ → NgSession → Type 0
  Kept t s =
      (dev : TunWrite) (later : ℕ) (log : Tun)
      → check_proto dev t later sessions maxsessions s log s.proto ≡ (false, s, log)

  pub proto-Kept :
      (t : ℕ) (s : NgSession) (proto : Proto) (dev : TunWrite) (later : ℕ) (log : Tun)
      → s.proto ≡ proto
      → is_counted proto ≡ true
      → overdue t proto ≡ false
      → check_proto dev t later sessions maxsessions s log proto ≡ (false, s, log)
  unfolding check_icmp_session check_udp_session check_tcp_session check_timeout check_closing
  proto-Kept t s (icmp i) dev later log e c o = ground (arith)
  proto-Kept t s (udp u) dev later log e c o = ground (arith)
  proto-Kept t s (tcp x) dev later log e c o = ground (arith)

  overdue-closes :
      (dev : TunWrite) (t later : ℕ) (c : TcpSession) (socket : Option ℕ) (log : Tun)
      → is_counted (tcp c) ≡ true
      → expired t sessions maxsessions c ≡ true
      → is_close (check_tcp_session dev t later sessions maxsessions c socket log).1.state ≡ true
  unfolding check_tcp_session check_timeout check_closing write_rst
  overdue-closes dev t later c socket log counted h = ground arith

  tcp-overdue :
      (t : ℕ) (s : NgSession) (c : TcpSession) (dev : TunWrite) (later : ℕ) (log : Tun)
      → s.proto ≡ tcp c
      → is_counted (tcp c) ≡ true
      → check_proto dev t later sessions maxsessions s log (tcp c) ≡ (false, s, log)
      → expired t sessions maxsessions c ≡ false
  tcp-overdue t s c dev later log e counted h =
      elim (Bool-cases (expired t sessions maxsessions c)) [
        | inr o ↦ o
        | inl o ↦
            let r = check_tcp_session dev t later sessions maxsessions c s.socket log in
            let closed : is_close r.1.state ≡ true =
              overdue-closes dev t later c s.socket log counted o in
            let same : is_counted (tcp r.1) ≡ true =
              ap (λ x. is_counted x.1.proto) h ∙ (ap is_counted e ∙ counted) in
            ground (arith, closed, same)
      ]

  pub proto-overdue :
      (t : ℕ) (s : NgSession) (proto : Proto) (dev : TunWrite) (later : ℕ) (log : Tun)
      → s.proto ≡ proto
      → is_counted proto ≡ true
      → check_proto dev t later sessions maxsessions s log proto ≡ (false, s, log)
      → overdue t proto ≡ false
  unfolding check_icmp_session check_udp_session
  proto-overdue t s (icmp i) dev later log e c o = ground (arith)
  proto-overdue t s (udp u) dev later log e c o = ground (arith)
  proto-overdue t s (tcp c) dev later log e n o = tcp-overdue t s c dev later log e n o
