-- ===== src/Udp/Forward.antt =====
-- Where handle_udp sends the datagrams of a session that is known.
use violet.Base.{
  ℕ, ◌+◌, ◌≡◌, ◌≢◌, refl, sym, ◌∙◌, ap, inl, inr, Bool, true, false, ◌||◌, Option, none, some, List,
  ◌∷◌, Memory, ◌==◌, if◌then◌else◌, arith, bytes_at, read_be16, sub64, u64, offset, Bool-cases,
}
use violet.Packet.{Tun, TunWrite}
use violet.Tcp.Socket.{SendResult, accepted, send_failed, received_bytes}
use violet.Session.Types.{udp, UdpSession, active, finishing, Found, put_back, search_session}
use violet.Session.World.{Calls, World, Datagram, Job}
use violet.Dns.{Query, get_dns_query}
use violet.Udp.Resolve.{LocalDns, finish_dns, resolve_host_with_local_dns_server}
use violet.Udp.Handle.{after_send, send_udp, forward_udp, handle_udp}
use violet.Udp.Advance.{packet_test}
use violet.Session.Search.{search_session-IsFirst}

-- The packet belongs to an active session of the list.
pub record IsKnown (p : Memory) (payload : ℕ) (w : World) (f : Found) (u : UdpSession)
    : Type 0 where
  pub found : search_session (packet_test p payload) w.sessions ≡ some f
  pub proto : f.session.proto ≡ udp u
  pub state : u.state ≡ active

abbrev pub packet_data : Memory → ℕ → ℕ → List ℕ
packet_data p length_ payload = bytes_at (sub64 length_ (payload + 8)) (offset p (payload + 8)) 0

-- What becomes of the session when sendto takes the whole message, when it takes a part of it or
-- nothing and errno is EINTR or EAGAIN, and when errno is another error. After a part, errno is the
-- one that an earlier call left.
pub data Outcome (now len : ℕ) (stale : Bool) (u u' : UdpSession) : SendResult → Bool → Type 0 where
  whole :
      (n : ℕ)
      → n ≡ len
      → u' ≡ record u { time = now; sent = u64 (u.sent + len) }
      → Outcome now len stale u u' (accepted n) true
  again : u' ≡ record u { time = now } → Outcome now len stale u u' (send_failed true) true
  failed :
      u' ≡ record u { time = now; state = finishing }
      → Outcome now len stale u u' (send_failed false) false
  again_in_part :
      (n : ℕ)
      → n ≢ len
      → stale ≡ true
      → u' ≡ record u { time = now }
      → Outcome now len stale u u' (accepted n) true
  failed_in_part :
      (n : ℕ)
      → n ≢ len
      → stale ≡ false
      → u' ≡ record u { time = now; state = finishing }
      → Outcome now len stale u u' (accepted n) false

after_send-Outcome :
    (k : Calls) (len : ℕ) (r : SendResult) (u : UdpSession)
    → let s = after_send k len r (record u { time = k.now }) in
      Outcome k.now len k.stale u s.1 r s.0
after_send-Outcome k len (send_failed true) u = again refl
after_send-Outcome k len (send_failed false) u = failed refl
after_send-Outcome k len (accepted n) u = elim (Bool-cases (n == len)) [
  | inl t ↦ rw t (whole n (ground arith) refl)
  | inr t ↦ (elim (Bool-cases k.stale) [
    | inl m ↦ rw (t, m) (again_in_part n (ground arith) refl refl)
    | inr m ↦ rw (t, m) (failed_in_part n (ground arith) refl refl)
  ])
]

handle_udp-known :
    (k : Calls) (rounds : ℕ) (p : Memory) (length_ payload uid : ℕ) (w : World) (f : Found)
    (u : UdpSession)
    → IsKnown p payload w f u
    → handle_udp k rounds p length_ payload uid w
      ≡ forward_udp k rounds
          (offset p (payload + 8))
          (sub64 length_ (payload + 8))
          (read_be16 p payload)
          (read_be16 p (payload + 2))
          f
          w
          (udp u)
unfolding handle_udp
handle_udp-known k rounds p length_ payload uid w f u h = rw (h.found, h.proto) refl

-- The datagram of an active session that is neither for DNS nor for DHCP goes out on the session's
-- socket to its peer, byte for byte, and only that session changes. Its clock is set. When sendto takes
-- the whole message, the count of what was sent grows by its length; when it fails with EINTR or EAGAIN,
-- or takes only a part while errno holds one of these, nothing else changes, and the packet counts as
-- handled; otherwise the session is finishing, and the packet does not count as handled.
pub handle_udp-Outcome :
    (k : Calls) (rounds : ℕ) (p : Memory) (length_ payload uid : ℕ) (w : World) (f : Found)
    (u : UdpSession)
    → IsKnown p payload w f u
    → (read_be16 p (payload + 2) == 53) ≡ false
    → (read_be16 p payload == 68 || read_be16 p (payload + 2) == 67) ≡ false
    → (ok : Bool) × (u' : UdpSession) × (handle_udp k rounds p length_ payload uid w
        ≡ some (
          ok,
          record w {
            sessions = put_back f (record f.session { proto = udp u' });
            sent =
                record {
                  socket = f.session.socket;
                  address = u.daddr;
                  port = u.dest;
                  bytes = packet_data p length_ payload;
                }
                ∷ w.sent;
          },
        ))
      × Outcome k.now
          (sub64 length_ (payload + 8))
          k.stale
          u
          u'
          (k.sendto (record {
            socket = f.session.socket;
            address = u.daddr;
            port = u.dest;
            bytes = packet_data p length_ payload;
          }))
          ok
unfolding forward_udp send_udp
handle_udp-Outcome k rounds p length_ payload uid w f u h dns dhcp =
    let d : Datagram = record {
      socket = f.session.socket;
      address = u.daddr;
      port = u.dest;
      bytes = packet_data p length_ payload;
    } in
    let s = after_send k (sub64 length_ (payload + 8)) (k.sendto d) (record u { time = k.now }) in
    (
      s.0,
      s.1,
      handle_udp-known k rounds p length_ payload uid w f u h ∙ simp (h.state, dns, dhcp),
      after_send-Outcome k (sub64 length_ (payload + 8)) (k.sendto d) u,
    )

finish_dns-finishing :
    (u : UdpSession) (r : Option ℕ × Tun) → u.dest ≡ 53 → (finish_dns u r).0.state ≡ finishing
finish_dns-finishing u (none, log) e = refl
finish_dns-finishing u (some n, log) e = simp e

-- The local DNS server is there and answers.
pub record Answers (dns : LocalDns) (query : List ℕ) : Type 0 where
  pub socket : dns.socket ≡ true
  pub connect : dns.connect ≡ true
  pub set_timeout : dns.set_timeout ≡ true
  pub byte : ℕ
  pub bytes : List ℕ
  pub answer : dns.answer query 1024 ≡ received_bytes (byte ∷ bytes)

resolve-finishing :
    (dev : TunWrite) (dns : LocalDns) (job : Job) (log : Tun)
    → job.session.dest ≡ 53
    → Answers dns job.query
    → (resolve_host_with_local_dns_server dev dns job log).1.state ≡ finishing
unfolding resolve_host_with_local_dns_server
resolve-finishing dev dns job log d a =
    rw (a.socket, a.connect, a.set_timeout, a.answer) (finish_dns-finishing job.session _ d)

put_same :
    (w : World) (f : Found) (u : UdpSession)
    → w.sessions ≡ put_back f f.session
    → f.session.proto ≡ udp u
    → put_back f (record f.session { proto = udp u }) ≡ w.sessions
put_same w f u split e = ap (λ q. put_back f (record f.session { proto = q })) (sym e) ∙ sym split

-- A query to port 53 of an active session, which get_dns_query reads to its end, is handed to a child
-- if fork makes one, and to nobody if it does not. The packet counts as handled either way, and the
-- list of the parent stays as it was, with the session active and its clock not set. The child's copy
-- of the session is finishing once the local server has answered.
pub handle_udp-forked :
    (k : Calls) (rounds : ℕ) (p : Memory) (length_ payload uid : ℕ) (w : World) (f : Found)
    (u : UdpSession) (q : Option Query) (dev : TunWrite) (dns : LocalDns) (log : Tun)
    → IsKnown p payload w f u
    → u.dest ≡ 53
    → read_be16 p (payload + 2) ≡ 53
    → get_dns_query rounds (offset p (payload + 8)) (sub64 length_ (payload + 8)) ≡ some q
    → Answers dns (packet_data p length_ payload)
    → (w' : World) × (job : Job) × (handle_udp k rounds p length_ payload uid w ≡ some (true, w'))
      × (w'.sessions ≡ w.sessions)
      × (k.forks job ≡ true → w'.forked ≡ job ∷ w.forked)
      × (k.forks job ≡ false → w'.forked ≡ w.forked)
      × (job.session ≡ u)
      × (job.query ≡ packet_data p length_ payload)
      × ((resolve_host_with_local_dns_server dev dns job log).1.state ≡ finishing)
unfolding forward_udp
handle_udp-forked k rounds p length_ payload uid w f u q dev dns log h d port query a =
    let job : Job = record { session = u; query = packet_data p length_ payload } in
    let (split, hit, miss) = search_session-IsFirst (packet_test p payload) w.sessions f h.found in
    (
      record w {
        sessions = put_back f (record f.session { proto = udp u });
        forked = if k.forks job then job ∷ w.forked else w.forked;
      },
      job,
      handle_udp-known k rounds p length_ payload uid w f u h ∙ simp (h.state, port, query),
      put_same w f u split h.proto,
      (λ e. rw e refl),
      (λ e. rw e refl),
      refl,
      refl,
      resolve-finishing dev dns job log d a,
    )
