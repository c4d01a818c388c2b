-- ===== src/Ip/Limit.antt =====
-- The limit of the sessions in handle_ip.
use violet.Base.{
  ℕ, ◌+◌, ◌/◌, ◌%◌, ◌≡◌, refl, sym, ◌∙◌, ap, inl, inr, Bool, true, false, Option, none, some, List,
  eq_of_some, or_false, not-false, ltb, sub64, ◌==◌, length, leb, le→leb, ◌≤◌, Memory, Option-cases,
  Bool-cases, read_be16, bytes_at, offset,
}
use violet.Packet.{Tun}
use violet.Session.Types.{NgSession, Proto, icmp, udp, tcp, Found, search_session}
use violet.Session.World.{World}
use violet.Session.Search.{length-put_back}
use violet.Tcp.Handle.{TcpHeader}
use violet.Tcp.Register.{
  Kernel, read_tcphdr, is_session_of, source_address, dest_address, tcpoptlen,
}
use violet.Tcp.Incoming.{after_hello, datalen_of, handle_segment, handle_tcp, update_session}
use violet.Tls.{name_of, parse_tls_header}
use violet.Udp.{has_udp_session, is_udp_session_of, is_found}
use violet.Udp.Handle.{handle_udp}
use violet.Udp.Advance.{AdvancedBy, packet_test, handle_udp-AdvancedBy, length-Advance}
use violet.Ip.Parse.{
  Ports, sized, read_ports, is_icmp, locate, Located, no_packet, endless, located,
}
use violet.Ip.{
  Engine, starts_session, dispatch, admit, handle_located, handle_ip, put_tcp, dropped_flag,
}

-- The number of sessions after a function that may not return.
abbrev pub SameCount : ℕ → Option World → Type 0
SameCount n none = Unit
SameCount n (some w) = length w.sessions ≡ n

update_session-length :
    (f : Found) (k : Kernel) (h : TcpHeader) (name bytes : List ℕ) (log : Tun) (proto : Proto)
    (test : NgSession → Bool) (sessions : List NgSession)
    → search_session test sessions ≡ some f
    → length (update_session f k h name bytes log proto).0 ≡ length sessions
update_session-length f k h name bytes log (tcp t) test sessions e =
    length-put_back test sessions f _ e
update_session-length f k h name bytes log (icmp i) test sessions e =
    length-put_back test sessions f _ e
update_session-length f k h name bytes log (udp u) test sessions e =
    length-put_back test sessions f _ e

handle_segment-SameCount :
    (k : Kernel) (uid version : ℕ) (h : TcpHeader) (p : Memory) (payload : ℕ)
    (saddr daddr name bytes : List ℕ) (w : World)
    → h.syn ≡ false
    → SameCount (length w.sessions) (
        put_tcp w
          (handle_segment k uid version h p payload saddr daddr name bytes w.sessions w.tun))
unfolding handle_segment
handle_segment-SameCount k uid version h p payload saddr daddr name bytes w e =
    elim (Bool-cases h.urg) [
      | inl u ↦ rw u refl
      | inr u ↦
          (elim (Option-cases (search_session (is_session_of version h saddr daddr) w.sessions)) [
            | inl miss ↦ rw (u, miss, e) refl
            | inr (f, hit) ↦
                rw (u, hit)
                  (update_session-length f k h name bytes w.tun f.session.proto
                    (is_session_of version h saddr daddr) w.sessions hit)
          ])
    ]

handle_udp-SameCount :
    (ss : List NgSession) (r : Option (Bool × World))
    → AdvancedBy ss r
    → SameCount (length ss) (dropped_flag r)
handle_udp-SameCount ss none a = tt
handle_udp-SameCount ss (some r) a = length-Advance ss r.1.sessions a

sized-some :
    (len least : ℕ) (ports ports' : Ports) → sized len least ports ≡ some ports' → ports ≡ ports'
sized-some len least ports ports' e = elim (Bool-cases (ltb len least)) [
  | inl l ↦ absurd (let e' = rw l at e in cc)
  | inr l ↦ eq_of_some (rw l at e)
]

-- What the ports of UDP are, and the flag of TCP.
udp_ports :
    (p : Memory) (length_ protocol payload : ℕ) (ports : Ports)
    → is_icmp protocol ≡ false
    → (protocol == 17) ≡ true
    → read_ports p length_ protocol payload ≡ some ports
    → (ports.sport ≡ read_be16 p payload) × (ports.dport ≡ read_be16 p (payload + 2))
unfolding read_ports
udp_ports p length_ protocol payload ports i u e =
    let q = sized-some (sub64 length_ payload) 8 _ ports (rw (i, u) at e) in
    (ap (λ x. x.sport) (sym q), ap (λ x. x.dport) (sym q))

tcp_flag :
    (p : Memory) (length_ protocol payload : ℕ) (ports : Ports)
    → is_icmp protocol ≡ false
    → (protocol == 17) ≡ false
    → (protocol == 6) ≡ true
    → read_ports p length_ protocol payload ≡ some ports
    → ports.syn ≡ (p (payload + 13) / 2 % 2 == 1)
unfolding read_ports
tcp_flag p length_ protocol payload ports i u t e =
    ap (λ x. x.syn) (sym (sized-some (sub64 length_ payload) 20 _ ports (rw (i, u, t) at e)))

after_hello-SameCount :
    (w : World) (next : List ℕ → Option (List NgSession × Tun)) (name : Option (List ℕ))
    → ((name : List ℕ) → SameCount (length w.sessions) (put_tcp w (next name)))
    → SameCount (length w.sessions) (put_tcp w (after_hello name next))
after_hello-SameCount w next none h = tt
after_hello-SameCount w next (some name) h = h name

handle_tcp-SameCount :
    (k : Kernel) (p : Memory) (length_ payload uid : ℕ) (w : World)
    → (p (payload + 13) / 2 % 2 == 1) ≡ false
    → SameCount
        (length w.sessions)
        (put_tcp w (handle_tcp k p length_ payload uid w.sessions w.tun))
unfolding handle_tcp read_tcphdr
handle_tcp-SameCount k p length_ payload uid w e =
    let h = read_tcphdr p payload in
    let at_data = payload + 20 + tcpoptlen h in
    let version = p 0 / 16 in
    let bytes = bytes_at (datalen_of length_ at_data) p at_data in
    let saddr = source_address p version in
    let daddr = dest_address p version in
    after_hello-SameCount w
      (λ name. handle_segment k uid version h p payload saddr daddr name bytes w.sessions w.tun)
      (name_of (parse_tls_header (offset p at_data) (datalen_of length_ at_data)))
      (λ name. handle_segment-SameCount k uid version h p payload saddr daddr name bytes w e)

is_found-some : (r : Option Found) → is_found r ≡ true → (f : Found) × (r ≡ some f)
is_found-some none e = cc
is_found-some (some f) e = (f, refl)

has_udp-found :
    (version source dest : ℕ) (saddr daddr : List ℕ) (ss : List NgSession)
    → has_udp_session true version source dest saddr daddr ss ≡ true
    → is_found (search_session (is_udp_session_of version source dest saddr daddr) ss) ≡ true
unfolding has_udp_session
has_udp-found version source dest saddr daddr ss h = elim (Bool-cases (dest == 53)) [
  | inl e ↦ rw e at h
  | inr e ↦ rw e at h
]

known_udp :
    (p : Memory) (payload : ℕ) (ports : Ports) (ss : List NgSession)
    → (ports.sport ≡ read_be16 p payload) × (ports.dport ≡ read_be16 p (payload + 2))
    → has_udp_session true
        (p 0 / 16)
        ports.sport
        ports.dport
        (source_address p (p 0 / 16))
        (dest_address p (p 0 / 16))
        ss
      ≡ true
    → (f : Found) × (search_session (packet_test p payload) ss ≡ some f)
known_udp p payload ports ss (s, d) h = is_found-some (search_session (packet_test p payload) ss) (
    has_udp-found (p 0 / 16) (read_be16 p payload) (read_be16 p (payload + 2)) _ _ ss
      (rw (s, d) at h))

-- What a protocol that does not start a session is, by the tests.
dispatch-SameCount :
    (e : Engine) (p : Memory) (length_ protocol payload uid : ℕ) (ports : Ports) (w : World)
    → e.fwd53 ≡ true
    → read_ports p length_ protocol payload ≡ some ports
    → starts_session e p protocol ports w.sessions ≡ false
    → SameCount (length w.sessions) (dispatch e p length_ protocol payload uid w)
unfolding dispatch starts_session
dispatch-SameCount e p length_ protocol payload uid ports w fwd r h =
    elim (Bool-cases (is_icmp protocol)) [
      | inl i ↦ absurd (let h' = rw i at h in cc)
      | inr i ↦ (elim (Bool-cases (protocol == 17)) [
        | inl u ↦
            rw (i, u)
              (let ports_ = udp_ports p length_ protocol payload ports i u r in
                let known = not-false _ (or_false _ _ (rw (i, u, fwd) at h)).0 in
                let (f, hit) = known_udp p payload ports w.sessions ports_ known in
                handle_udp-SameCount w.sessions
                  (handle_udp e.calls e.rounds p length_ payload uid w)
                  (handle_udp-AdvancedBy e.calls e.rounds p length_ payload uid w f hit))
        | inr u ↦ (elim (Bool-cases (protocol == 6)) [
          | inl t ↦
              rw (i, u, t)
                (handle_tcp-SameCount e.tcp p length_ payload uid w
                  (sym (tcp_flag p length_ protocol payload ports i u t r) ∙ (rw (i, u, t) at h)))
          | inr t ↦ rw (i, u, t) refl
        ])
      ])
    ]

admit-SameCount :
    (e : Engine) (p : Memory) (length_ sessions maxsessions protocol payload : ℕ) (w : World)
    (r : Option Ports)
    → e.fwd53 ≡ true
    → leb maxsessions sessions ≡ true
    → read_ports p length_ protocol payload ≡ r
    → SameCount (length w.sessions) (admit e p length_ sessions maxsessions protocol payload w r)
unfolding admit
admit-SameCount e p length_ sessions maxsessions protocol payload w none fwd full eq = refl
admit-SameCount e p length_ sessions maxsessions protocol payload w (some ports) fwd full eq =
    elim (Bool-cases (starts_session e p protocol ports w.sessions)) [
      | inl s ↦ rw (full, s) refl
      | inr s ↦ rw (full, s) (dispatch-SameCount e p length_ protocol payload _ ports w fwd eq s)
    ]

located-SameCount :
    (e : Engine) (p : Memory) (length_ sessions maxsessions : ℕ) (w : World) (l : Located)
    → e.fwd53 ≡ true
    → leb maxsessions sessions ≡ true
    → SameCount (length w.sessions) (handle_located e p length_ sessions maxsessions w l)
located-SameCount e p length_ sessions maxsessions w no_packet fwd full = refl
located-SameCount e p length_ sessions maxsessions w endless fwd full = tt
located-SameCount e p length_ sessions maxsessions w (located protocol payload) fwd full =
    admit-SameCount e p length_ sessions maxsessions protocol payload w _ fwd full refl

-- When the sessions have reached the limit, no packet of any protocol makes one more: handle_ip, if
-- its loops return, leaves as many in the list as there were. Queries to port 53 are forwarded
-- (fwd53); without that a packet to port 53 counts as one of a known session.
pub handle_ip-SameCount :
    (e : Engine) (p : Memory) (length_ sessions maxsessions : ℕ) (w : World)
    → e.fwd53 ≡ true
    → maxsessions ≤ sessions
    → SameCount (length w.sessions) (handle_ip e p length_ sessions maxsessions w)
unfolding handle_ip
handle_ip-SameCount e p length_ sessions maxsessions w fwd full =
    located-SameCount e p length_ sessions maxsessions w (locate e.verbose e.rounds p length_) fwd
      (le→leb maxsessions sessions full)
