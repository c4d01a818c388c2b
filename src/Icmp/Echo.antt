-- ===== src/Icmp/Echo.antt =====
-- An echo request and its reply through the program.
use violet.Base.{
  ℕ, ◌+◌, ◌-◌, ◌/◌, ◌≤◌, ◌≡◌, refl, ap, sym, ◌∙◌, inl, inr, true, false, Option, none, some, List,
  [], ◌∷◌, arith, IsByte, Memory, bytes_at, length-bytes_at, bytes_at-IsByte, read_be16, sub64,
  Option-cases,
}
use violet.Packet.{not16}
use violet.Tcp.Register.{dest_address}
use violet.Session.Types.{NgSession, Proto, icmp, udp, tcp, IcmpSession, Found, search_session}
use violet.Session.World.{Calls, World, Datagram}
use violet.Session.Search.{search_session-IsFirst}
use violet.Icmp.Message.{fill_icmp}
use violet.Icmp.Message.Verify.{MessageVerifies, id_of, SameEcho, Filled, fill_icmp-Filled}
use violet.Icmp.Handle.{
  open_icmp_socket, is_icmp_proto, is_icmp_session_of, new_icmp, or_new_icmp, request_sum,
  echo_request, forward_to, handle_icmp,
}

-- An echo request over IPv4 with room for its header.
pub record IsEcho (p : Memory) (length_ payload : ℕ) : Type 0 where
  pub bytes : (j : ℕ) → IsByte (p j)
  pub version : p 0 / 16 ≡ 4
  pub type : p payload ≡ 8
  pub room : payload + 8 ≤ length_
  pub small : length_ ≤ 65000

-- The system grants a socket for IPv4.
pub record Grants (k : Calls) (sock : ℕ) : Type 0 where
  pub socket : k.socket 4 ≡ some sock
  pub protect : k.protect sock ≡ true

echo_request-Filled :
    (p : Memory) (length_ payload : ℕ)
    → IsEcho p length_ payload
    → Filled 0 (not16 (read_be16 p (payload + 4))) (bytes_at (length_ - payload) p payload)
echo_request-Filled p length_ payload h =
    let size = length-bytes_at (length_ - payload) p payload in
    fill_icmp-Filled 0 (not16 (read_be16 p (payload + 4))) (bytes_at (length_ - payload) p payload)
      (omega arith) (omega arith) (bytes_at-IsByte (length_ - payload) p payload h.bytes)
      (omega (arith, h.room)) (omega (arith, h.small))

sub64-le : (a b : ℕ) → b ≤ a → a ≤ 65000 → sub64 a b ≡ a - b
sub64-le a b h s = omega arith

abbrev pub message : Memory → ℕ → ℕ → List ℕ
message p length_ payload =
    fill_icmp 0 (not16 (read_be16 p (payload + 4))) (bytes_at (length_ - payload) p payload)

abbrev session_for : Calls → Memory → ℕ → ℕ → World → Option Found
session_for k p payload uid w =
    let saddr = bytes_at 4 p 12 in
    let daddr = bytes_at 4 p 16 in
    or_new_icmp k (new_icmp k.now uid 4 saddr daddr (read_be16 p (payload + 4))) w.sessions
      (search_session (is_icmp_session_of 4 saddr daddr) w.sessions)

pub handle_icmp-message :
    (k : Calls) (p : Memory) (length_ payload uid : ℕ) (w : World)
    → IsEcho p length_ payload
    → handle_icmp k p length_ payload uid w
      ≡ forward_to k
          (bytes_at 4 p 16)
          (message p length_ payload)
          (length_ - payload)
          w
          (session_for k p payload uid w)
unfolding handle_icmp echo_request request_sum
handle_icmp-message k p length_ payload uid w h =
    rw (h.version, h.type, sub64-le length_ payload (omega (arith, h.room)) h.small) refl

tested-icmp :
    (version : ℕ) (saddr daddr : List ℕ) (s : NgSession) (proto : Proto)
    → s.proto ≡ proto
    → is_icmp_session_of version saddr daddr s ≡ true
    → (i : IcmpSession) × (s.proto ≡ icmp i)
tested-icmp version saddr daddr s (icmp i) e h = (i, e)
tested-icmp version saddr daddr s (udp u) e h =
    absurd (let e' = sym (ap (is_icmp_proto version saddr daddr) e) ∙ h in cc)
tested-icmp version saddr daddr s (tcp t) e h =
    absurd (let e' = sym (ap (is_icmp_proto version saddr daddr) e) ∙ h in cc)

abbrev Served : Option Found → Type 0
Served r = (f : Found) × (i : IcmpSession) × (r ≡ some f) × (f.session.proto ≡ icmp i)

-- The session that a system with a socket registers, at the head of the list.
abbrev pub registered : IcmpSession → ℕ → NgSession
registered i sock = record {
  proto = icmp i;
  socket = some sock;
  events = record { input = true; output = false };
}

pub or_new_icmp-none :
    (k : Calls) (i : IcmpSession) (sock : ℕ) (sessions : List NgSession)
    → Grants k sock
    → i.version ≡ 4
    → or_new_icmp k i sessions none
      ≡ some (record { before = []; session = registered i sock; behind = sessions })
unfolding open_icmp_socket
or_new_icmp-none k i sock sessions g v = simp (v, g.socket, g.protect)

or_new-Served :
    (k : Calls) (i : IcmpSession) (sock : ℕ) (saddr daddr : List ℕ) (sessions : List NgSession)
    → Grants k sock
    → i.version ≡ 4
    → Served (or_new_icmp k i sessions (search_session (is_icmp_session_of 4 saddr daddr) sessions))
or_new-Served k i sock saddr daddr sessions g v =
    elim (Option-cases (search_session (is_icmp_session_of 4 saddr daddr) sessions)) [
      | inl e ↦ rw e (
          let r = or_new_icmp-none k i sock sessions g v in
          (record { before = []; session = registered i sock; behind = sessions }, i, r, refl))
      | inr (f, e) ↦ rw e (
          let (split, hit, miss) =
            search_session-IsFirst (is_icmp_session_of 4 saddr daddr) sessions f e in
          let (i', e') = tested-icmp 4 saddr daddr f.session f.session.proto refl hit in
          (f, i', refl, e'))
    ]

-- What goes out for an echo request.
pub record Forwarded (p : Memory) (length_ payload : ℕ) (d : Datagram) : Type 0 where
  pub address : d.address ≡ dest_address p 4
  pub sum : MessageVerifies d.bytes
  pub id_ : id_of d.bytes ≡ not16 (read_be16 p (payload + 4))
  pub same : SameEcho (bytes_at (length_ - payload) p payload) d.bytes

abbrev pub datagram : Memory → ℕ → ℕ → Found → Datagram
datagram p length_ payload f = record {
  socket = f.session.socket;
  address = bytes_at 4 p 16;
  port = 0;
  bytes = message p length_ payload;
}

-- An IPv4 echo request with room for its header, for which the system grants a socket, is sent to the
-- packet's destination whatever sessions there are: its checksum verifies, its id is the complement of
-- the client's, and the rest of the message is as it came.
pub handle_icmp-Forwarded :
    (k : Calls) (p : Memory) (length_ payload uid sock : ℕ) (w : World)
    → IsEcho p length_ payload
    → Grants k sock
    → (d : Datagram) × ((handle_icmp k p length_ payload uid w).1.sent ≡ d ∷ w.sent)
      × Forwarded p length_ payload d
handle_icmp-Forwarded k p length_ payload uid sock w h g =
    let fresh =
      new_icmp k.now uid 4 (bytes_at 4 p 12) (bytes_at 4 p 16) (read_be16 p (payload + 4)) in
    let (f, i, es, ei) =
      or_new-Served k fresh sock (bytes_at 4 p 12) (bytes_at 4 p 16) w.sessions g refl in
    let fill = echo_request-Filled p length_ payload h in
    (
      datagram p length_ payload f,
      rw (handle_icmp-message k p length_ payload uid w h, es) (simp ei),
      record { address = refl; sum = fill.sum; id_ = fill.id_; same = fill.same },
    )
