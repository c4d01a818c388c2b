-- ===== src/Udp/Advance.antt =====
-- What handle_udp does to the list of sessions.
use violet.Base.{
  ℕ, ◌+◌, ◌/◌, ◌≡◌, refl, ◌∙◌, ◌⊎◌, inl, inr, Bool, true, false, ◌||◌, Option, none, some, List, [],
  ◌∷◌, ◌++◌, arith, Memory, length, ◌==◌, bytes_at, read_be16, Bool-cases,
}
use violet.Packet.{Tun}
use violet.Tcp.Register.{source_address, dest_address}
use violet.Session.Types.{
  NgSession, Proto, icmp, udp, tcp, UdpSession, UdpState, active, finishing, closed, blocked, Found,
  put_back, search_session,
}
use violet.Session.World.{Calls, World}
use violet.Session.Search.{search_session-IsFirst}
use violet.Dns.{Query, get_dns_query}
use violet.Dhcp.{check_dhcp}
use violet.Udp.{is_active, is_udp_session_of}
use violet.Udp.Handle.{send_udp, fork_dns, or_send, forward_udp, handle_udp}
use violet.Udp.States.{Later, same, Later-trans, after_send-Later, check_dhcp-state}

-- One session before and after: the same, or a UDP session whose state has moved forward.
pub data Moved (s s' : NgSession) : Type 0 where
  kept : s ≡ s' → Moved s s'
  moved :
      (u u' : UdpSession)
      → s.proto ≡ udp u
      → s'.proto ≡ udp u'
      → Later u.state u'.state
      → Moved s s'

pub data Advance : List NgSession → List NgSession → Type 0 where
  done : Advance [] []
  next :
      {s s' : NgSession} {r r' : List NgSession}
      → Moved s s'
      → Advance r r'
      → Advance (s ∷ r) (s' ∷ r')

-- The list moves on in its place, or gets one session more, at its head.
abbrev pub Grown : List NgSession → List NgSession → Type 0
Grown ss ss' = Advance ss ss' ⊎ ((s : NgSession) × (ss' ≡ s ∷ ss))

Advance-refl : (ss : List NgSession) → Advance ss ss
Advance-refl [] = done
Advance-refl (s ∷ ss) = next (kept refl) (Advance-refl ss)

at_place :
    (before behind : List NgSession) (s s' : NgSession)
    → Moved s s'
    → Advance (before ++ s ∷ behind) (before ++ s' ∷ behind)
at_place [] behind s s' m = next m (Advance-refl behind)
at_place (b ∷ before) behind s s' m = next (kept refl) (at_place before behind s s' m)

-- A result that leaves the list, or puts back the session that was found with a later state.
abbrev pub Touches : Found → UdpSession → List NgSession → Option (Bool × World) → Type 0
Touches f u ss none = Unit
Touches f u ss (some r) =
    (r.1.sessions ≡ ss)
    ⊎ ((u' : UdpSession) × (r.1.sessions ≡ put_back f (record f.session { proto = udp u' }))
        × Later u.state u'.state)

active_of : (s : UdpState) → is_active s ≡ true → s ≡ active
active_of active e = refl
active_of finishing e = cc
active_of closed e = cc
active_of blocked e = cc

send_udp-Touches :
    (k : Calls) (bytes : List ℕ) (datalen : ℕ) (f : Found) (u u0 : UdpSession) (w : World)
    → u.state ≡ active
    → Later u0.state u.state
    → Touches f u0 w.sessions (some (send_udp k bytes datalen f u w))
unfolding send_udp
send_udp-Touches k bytes datalen f u u0 w e l =
    let r =
      k.sendto
        (record { socket = f.session.socket; address = u.daddr; port = u.dest; bytes = bytes }) in
    let step = after_send-Later k datalen r (record u { time = k.now }) e in
    inr (_, refl, Later-trans l step)

or_send-Touches :
    (k : Calls) (bytes : List ℕ) (datalen : ℕ) (f : Found) (u : UdpSession) (w : World)
    (r : Bool × UdpSession × Tun)
    → r.1.state ≡ u.state
    → u.state ≡ active
    → Touches f u w.sessions (some (or_send k bytes datalen f w r))
or_send-Touches k bytes datalen f u w (true, u', log) e a = inr (u', refl, rw e same)
or_send-Touches k bytes datalen f u w (false, u', log) e a =
    send_udp-Touches k bytes datalen f u' u w (e ∙ a) (rw e same)

fork_dns-Touches :
    (k : Calls) (bytes : List ℕ) (f : Found) (u : UdpSession) (w : World)
    (r : Option (Option Query))
    → Touches f u w.sessions (fork_dns k bytes f u w r)
fork_dns-Touches k bytes f u w none = tt
fork_dns-Touches k bytes f u w (some q) = inr (u, refl, same)

forward_udp-Touches :
    (k : Calls) (rounds : ℕ) (data_ : Memory) (datalen source dest : ℕ) (f : Found) (u : UdpSession)
    (w : World)
    → Touches f u w.sessions (forward_udp k rounds data_ datalen source dest f w (udp u))
unfolding forward_udp
forward_udp-Touches k rounds data_ datalen source dest f u w =
    let bytes = bytes_at datalen data_ 0 in
    elim (Bool-cases (is_active u.state)) [
      | inr e ↦ rw e (inl refl)
      | inl e ↦ (elim (Bool-cases (dest == 53)) [
        | inl d ↦ rw (e, d) (fork_dns-Touches k bytes f u w (get_dns_query rounds data_ datalen))
        | inr d ↦ (elim (Bool-cases (source == 68 || dest == 67)) [
          | inl t ↦
              rw (e, d, t)
                (or_send-Touches k bytes datalen f u w (check_dhcp k.dev u data_ datalen w.tun)
                  (check_dhcp-state k.dev u data_ datalen w.tun) (active_of u.state e))
          | inr t ↦
              rw (e, d, t) (send_udp-Touches k bytes datalen f u u w (active_of u.state e) same)
        ])
      ])
    ]

-- The list after a function that may not return.
abbrev pub GrownBy : List NgSession → Option (Bool × World) → Type 0
GrownBy ss none = Unit
GrownBy ss (some r) = Grown ss r.1.sessions

abbrev pub AdvancedBy : List NgSession → Option (Bool × World) → Type 0
AdvancedBy ss none = Unit
AdvancedBy ss (some r) = Advance ss r.1.sessions

known-AdvancedBy :
    (f : Found) (u : UdpSession) (ss : List NgSession) (r : Option (Bool × World))
    → ss ≡ put_back f f.session
    → f.session.proto ≡ udp u
    → Touches f u ss r
    → AdvancedBy ss r
known-AdvancedBy f u ss none split e t = tt
known-AdvancedBy f u ss (some r) split e (inl t) = rw t (Advance-refl ss)
known-AdvancedBy f u ss (some r) split e (inr (u', t, l)) =
    rw (t, split)
      (at_place f.before f.behind f.session (record f.session { proto = udp u' })
        (moved u u' e refl l))

found-AdvancedBy :
    (k : Calls) (rounds : ℕ) (data_ : Memory) (datalen source dest : ℕ) (f : Found) (w : World)
    (proto : Proto)
    → f.session.proto ≡ proto
    → w.sessions ≡ put_back f f.session
    → AdvancedBy w.sessions (forward_udp k rounds data_ datalen source dest f w proto)
unfolding forward_udp
found-AdvancedBy k rounds data_ datalen source dest f w (udp u) e split =
    known-AdvancedBy f u w.sessions (forward_udp k rounds data_ datalen source dest f w (udp u))
      split e (forward_udp-Touches k rounds data_ datalen source dest f u w)
found-AdvancedBy k rounds data_ datalen source dest f w (icmp i) e split = Advance-refl w.sessions
found-AdvancedBy k rounds data_ datalen source dest f w (tcp t) e split = Advance-refl w.sessions

abbrev added : UdpSession → ℕ → NgSession
added u sock = record {
  proto = udp u;
  socket = some sock;
  events = record { input = true; output = false };
}

-- The test of the session that a packet belongs to.
abbrev pub packet_test : Memory → ℕ → NgSession → Bool
packet_test p payload =
    let version = p 0 / 16 in
    is_udp_session_of version (read_be16 p payload) (read_be16 p (payload + 2))
      (source_address p version) (dest_address p version)

pub handle_udp-AdvancedBy :
    (k : Calls) (rounds : ℕ) (p : Memory) (length_ payload uid : ℕ) (w : World) (f : Found)
    → search_session (packet_test p payload) w.sessions ≡ some f
    → AdvancedBy w.sessions (handle_udp k rounds p length_ payload uid w)
unfolding handle_udp
handle_udp-AdvancedBy k rounds p length_ payload uid w f e = rw e (
    let (split, hit, miss) = search_session-IsFirst (packet_test p payload) w.sessions f e in
    found-AdvancedBy k rounds _ _ _ _ f w f.session.proto refl split)

pub length-Advance : (ss ss' : List NgSession) → Advance ss ss' → length ss' ≡ length ss
length-Advance [] [] done = refl
length-Advance [] (s' ∷ r') a = elim a [ ]
length-Advance (s ∷ r) [] a = elim a [ ]
length-Advance (s ∷ r) (s' ∷ r') (next m a) = omega (arith, length-Advance r r' a)
