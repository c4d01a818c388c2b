-- ===== src/Ip/Returns.antt =====
-- When handle_ip returns.
use violet.Base.{
  ℕ, ◌+◌, ◌*◌, ◌/◌, ◌%◌, ◌≡◌, ◌≢◌, refl, inl, inr, Bool, false, ◌&&◌, ◌||◌, not, Option, none, some,
  List, [], or_false, ltb, leb, u8, ◌==◌, Memory, Option-cases, Bool-cases, read_be16, bytes_at,
  offset, sub64,
}
use violet.Util.Checksum.{calc_checksum}
use violet.Session.Types.{NgSession, Proto, icmp, udp, tcp, Found, search_session}
use violet.Session.World.{Calls, World}
use violet.Tcp.Handle.{TcpHeader}
use violet.Tcp.Register.{
  Kernel, read_tcphdr, is_session_of, tcpoptlen, source_address, dest_address,
}
use violet.Tls.{Hostname, untouched, named, running, name_of, parse_tls_header}
use violet.Tls.Safe.{IsSound, parse_tls_header-IsSound}
use violet.Packet.{Tun}
use violet.Tcp.Incoming.{after_hello, datalen_of, handle_segment, handle_tcp}
use violet.Udp.{is_active}
use violet.Udp.Handle.{forward_udp, forward_udp_to, handle_udp}
use violet.Ip.Parse.{Ports, read_ports, is_icmp, locate, locate4}
use violet.Ip.{
  Engine, starts_session, dispatch, admit, handle_located, handle_ip, put_tcp, dropped_flag,
}

some≢none {ℓ} : {A : Type ℓ} (a : A) → some a ≢ none
some≢none a e = cc

forward_udp-returns :
    (k : Calls) (rounds : ℕ) (data_ : Memory) (datalen source dest : ℕ) (f : Found) (w : World)
    (proto : Proto)
    → (dest == 53) ≡ false
    → forward_udp k rounds data_ datalen source dest f w proto ≢ none
unfolding forward_udp
forward_udp-returns k rounds data_ datalen source dest f w (udp u) e =
    elim (Bool-cases (is_active u.state)) [
      | inl a ↦ rw (a, e) (some≢none _)
      | inr a ↦ rw a (some≢none _)
    ]
forward_udp-returns k rounds data_ datalen source dest f w (icmp i) e = some≢none _
forward_udp-returns k rounds data_ datalen source dest f w (tcp t) e = some≢none _

forward_udp_to-returns :
    (k : Calls) (rounds : ℕ) (data_ : Memory) (datalen source dest : ℕ) (w : World)
    (r : Option Found)
    → (dest == 53) ≡ false
    → forward_udp_to k rounds data_ datalen source dest w r ≢ none
forward_udp_to-returns k rounds data_ datalen source dest w none e = some≢none _
forward_udp_to-returns k rounds data_ datalen source dest w (some f) e =
    forward_udp-returns k rounds data_ datalen source dest f w f.session.proto e

dropped-returns : (r : Option (Bool × World)) → r ≢ none → dropped_flag r ≢ none
dropped-returns none h = absurd (h refl)
dropped-returns (some r) h = some≢none r.1

handle_udp-returns :
    (k : Calls) (rounds : ℕ) (p : Memory) (length_ payload uid : ℕ) (w : World)
    → (read_be16 p (payload + 2) == 53) ≡ false
    → handle_udp k rounds p length_ payload uid w ≢ none
unfolding handle_udp
handle_udp-returns k rounds p length_ payload uid w e =
    forward_udp_to-returns k rounds (offset p (payload + 8)) (sub64 length_ (payload + 8))
      (read_be16 p payload) (read_be16 p (payload + 2)) w _ e

handle_segment-returns :
    (k : Kernel) (uid version : ℕ) (h : TcpHeader) (p : Memory) (payload : ℕ)
    (saddr daddr name bytes : List ℕ) (w : World)
    → h.syn ≡ false
    → put_tcp w (handle_segment k uid version h p payload saddr daddr name bytes w.sessions w.tun)
      ≢ none
unfolding handle_segment
handle_segment-returns k uid version h p payload saddr daddr name bytes w e =
    elim (Bool-cases h.urg) [
      | inl u ↦ rw u (some≢none _)
      | inr u ↦
          (elim (Option-cases (search_session (is_session_of version h saddr daddr) w.sessions)) [
            | inl miss ↦ rw (u, miss, e) (some≢none _)
            | inr (f, hit) ↦ rw (u, hit) (some≢none _)
          ])
    ]

after_hello-returns :
    (w : World) (next : List ℕ → Option (List NgSession × Tun)) (r : Hostname)
    → IsSound r
    → ((name : List ℕ) → put_tcp w (next name) ≢ none)
    → put_tcp w (after_hello (name_of r) next) ≢ none
after_hello-returns w next untouched s h = h []
after_hello-returns w next (named name) s h = h name
after_hello-returns w next running s h = absurd s

handle_tcp-returns :
    (k : Kernel) (p : Memory) (length_ payload uid : ℕ) (w : World)
    → (p (payload + 13) / 2 % 2 == 1) ≡ false
    → put_tcp w (handle_tcp k p length_ payload uid w.sessions w.tun) ≢ none
unfolding handle_tcp read_tcphdr
handle_tcp-returns k p length_ payload uid w e =
    let h = read_tcphdr p payload in
    let at_data = payload + 20 + tcpoptlen h in
    let version = p 0 / 16 in
    let datalen = datalen_of length_ at_data in
    let saddr = source_address p version in
    let daddr = dest_address p version in
    let bytes = bytes_at datalen p at_data in
    let r = parse_tls_header (offset p at_data) datalen in
    after_hello-returns w
      (λ name. handle_segment k uid version h p payload saddr daddr name bytes w.sessions w.tun) r
      (parse_tls_header-IsSound (offset p at_data) datalen)
      (λ name. handle_segment-returns k uid version h p payload saddr daddr name bytes w e)

-- The protocols whose handlers have a loop that need not end: a SYN has options, and a datagram to
-- port 53 a name.
abbrev pub is_looping : Memory → (protocol payload : ℕ) → Bool
is_looping p protocol payload =
    (protocol == 17 && read_be16 p (payload + 2) == 53)
    || (protocol == 6 && p (payload + 13) / 2 % 2 == 1)

dispatch-returns :
    (e : Engine) (p : Memory) (length_ protocol payload uid : ℕ) (w : World)
    → is_looping p protocol payload ≡ false
    → dispatch e p length_ protocol payload uid w ≢ none
unfolding dispatch
dispatch-returns e p length_ protocol payload uid w h =
    let (u, t) =
      or_false (protocol == 17 && read_be16 p (payload + 2) == 53)
        (protocol == 6 && p (payload + 13) / 2 % 2 == 1) h in
    elim (Bool-cases (is_icmp protocol)) [
      | inl i ↦ rw i (some≢none _)
      | inr i ↦ (elim (Bool-cases (protocol == 17)) [
        | inl q ↦
            rw (i, q)
              (dropped-returns (handle_udp e.calls e.rounds p length_ payload uid w)
                (handle_udp-returns e.calls e.rounds p length_ payload uid w (rw q at u)))
        | inr q ↦ (elim (Bool-cases (protocol == 6)) [
          | inl c ↦ rw (i, q, c) (handle_tcp-returns e.tcp p length_ payload uid w (rw c at t))
          | inr c ↦ rw (i, q, c) (some≢none _)
        ])
      ])
    ]

admit-returns :
    (e : Engine) (p : Memory) (length_ sessions maxsessions protocol payload : ℕ) (w : World)
    (r : Option Ports)
    → is_looping p protocol payload ≡ false
    → admit e p length_ sessions maxsessions protocol payload w r ≢ none
unfolding admit
admit-returns e p length_ sessions maxsessions protocol payload w none h = some≢none w
admit-returns e p length_ sessions maxsessions protocol payload w (some ports) h =
    elim (Bool-cases (leb maxsessions sessions && starts_session e p protocol ports w.sessions)) [
      | inl s ↦ rw s (some≢none w)
      | inr s ↦ rw s (dispatch-returns e p length_ protocol payload _ w h)
    ]

-- The payload of an IPv4 packet, behind its options.
abbrev pub payload4 : Memory → ℕ
payload4 p = 20 + u8 (p 0 % 16 * 4 + 236)

located4-returns :
    (e : Engine) (p : Memory) (length_ sessions maxsessions : ℕ) (w : World)
    → is_looping p (p 9) (payload4 p) ≡ false
    → handle_located e p length_ sessions maxsessions w (locate4 e.verbose p length_) ≢ none
unfolding locate4
located4-returns e p length_ sessions maxsessions w h =
    elim (Bool-cases (ltb length_ 20 || p 7 / 32 % 2 == 1)) [
      | inl s ↦ rw s (some≢none w)
      | inr s ↦
          (elim (Bool-cases (
            not (read_be16 p 2 == length_)
            || (e.verbose && calc_checksum 0 (bytes_at 20 p 0) == 0))) [
              | inl c ↦ rw (s, c) (some≢none w)
              | inr c ↦
                  rw (s, c)
                    (admit-returns e p length_ sessions maxsessions (p 9) (payload4 p) w
                      (read_ports p length_ (p 9) (payload4 p)) h)
            ])
    ]

-- For every IPv4 packet that is neither a SYN of TCP nor a UDP datagram to port 53, whatever else its
-- bytes, the sessions and the system are, handle_ip returns, the loops of parse_tls_header over the data of
-- a segment included; no number of rounds is needed for it.
pub handle_ip-returns :
    (e : Engine) (p : Memory) (length_ sessions maxsessions : ℕ) (w : World)
    → p 0 / 16 ≡ 4
    → is_looping p (p 9) (payload4 p) ≡ false
    → handle_ip e p length_ sessions maxsessions w ≢ none
unfolding handle_ip locate
handle_ip-returns e p length_ sessions maxsessions w v h =
    rw v (located4-returns e p length_ sessions maxsessions w h)
