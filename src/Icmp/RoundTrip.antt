-- ===== src/Icmp/RoundTrip.antt =====
-- An echo request of a new flow, and its reply: the id that the client chose comes back.
use violet.Base.{
  ℕ, ◌+◌, ◌-◌, ◌≡◌, refl, true, false, none, List, [], ◌∷◌, arith, IsByte, Memory, bytes_at,
  length-bytes_at, bytes_at-IsByte, read_be16,
}
use violet.Packet.Checks.{IsAddress4}
use violet.Tcp.Socket.{SendResult, RecvResult, received_bytes}
use violet.Tcp.Register.{source_address, dest_address}
use violet.Session.Types.{IcmpSession, Found, search_session}
use violet.Session.World.{Calls, World}
use violet.Icmp.Handle.{is_icmp_session_of, new_icmp, after_sendto, handle_icmp}
use violet.Icmp.Socket.{icmp_maxmsg, check_icmp_socket}
use violet.Icmp.Echo.{IsEcho, Grants, registered, handle_icmp-message, or_new_icmp-none, datagram}
use violet.Icmp.Reply.{Replied, IsEchoSession, IsReply, check_icmp_socket-Replied}

abbrev pub first_session : Calls → Memory → ℕ → ℕ → IcmpSession
first_session k p payload uid =
    new_icmp k.now uid 4 (bytes_at 4 p 12) (bytes_at 4 p 16) (read_be16 p (payload + 4))

address-IsAddress4 : (p : Memory) (i : ℕ) → ((j : ℕ) → IsByte (p j)) → IsAddress4 (bytes_at 4 p i)
address-IsAddress4 p i b = record { size = length-bytes_at 4 p i; bytes = bytes_at-IsByte 4 p i b }

abbrev first_found : Calls → Memory → ℕ → ℕ → ℕ → Found
first_found k p payload uid sock = record {
  before = [];
  session = registered (first_session k p payload uid) sock;
  behind = [];
}

-- The session that the request leaves at the head of the list.
abbrev pub sent_session : Calls → Memory → ℕ → ℕ → ℕ → ℕ → IcmpSession
sent_session k p length_ payload uid sock =
    after_sendto k (length_ - payload)
      (k.sendto (datagram p length_ payload (first_found k p payload uid sock)))
      (first_session k p payload uid)

-- Only `stop` and the clock depend on what sendto answers.
kept :
    (k : Calls) (len : ℕ) (r : SendResult) (i : IcmpSession)
    → let i' = after_sendto k len r i in
      (i'.version ≡ i.version) × (i'.saddr ≡ i.saddr) × (i'.daddr ≡ i.daddr) × (i'.id ≡ i.id)
kept k len r i = ground arith

sent-sessions :
    (k : Calls) (p : Memory) (length_ payload uid sock : ℕ) (w : World)
    → IsEcho p length_ payload
    → Grants k sock
    → search_session (is_icmp_session_of 4 (bytes_at 4 p 12) (bytes_at 4 p 16)) w.sessions ≡ none
    → (handle_icmp k p length_ payload uid w).1.sessions
      ≡ registered (sent_session k p length_ payload uid sock) sock ∷ w.sessions
sent-sessions k p length_ payload uid sock w h g miss =
    rw
      (
        handle_icmp-message k p length_ payload uid w h,
        miss,
        or_new_icmp-none k (first_session k p payload uid) sock w.sessions g refl,
      )
      refl

-- An IPv4 echo request of a client that has no session to the host is registered at the head of the
-- list, and a reply that comes in on that session's socket then reaches the client, whatever the
-- answer of sendto: from the host that was asked, under the id that the client chose, and with
-- checksums that verify. The system grants a socket, and the reply has a header and fits a packet.
pub echo_round_trip :
    (k : Calls) (p : Memory) (length_ payload uid sock : ℕ) (w : World) (later : ℕ)
    (recv : ℕ → RecvResult) (bytes : List ℕ)
    → IsEcho p length_ payload
    → Grants k sock
    → search_session (is_icmp_session_of 4 (source_address p 4) (dest_address p 4)) w.sessions
      ≡ none
    → IsReply bytes
    → recv (icmp_maxmsg 4) ≡ received_bytes bytes
    → (i : IcmpSession) × (packet : List ℕ) × ((handle_icmp k p length_ payload uid w).1.sessions
        ≡ registered i sock ∷ w.sessions)
      × ((check_icmp_socket k.dev later false true recv i w.tun).1 ≡ packet ∷ w.tun)
      × Replied (source_address p 4) (dest_address p 4) (read_be16 p (payload + 4)) bytes packet
echo_round_trip k p length_ payload uid sock w later recv bytes h g miss hr e =
    let i = sent_session k p length_ payload uid sock in
    let (v, s, d, n) =
      kept k (length_ - payload)
        (k.sendto (datagram p length_ payload (first_found k p payload uid sock)))
        (first_session k p payload uid) in
    let session : IsEchoSession i = record {
      version = v;
      saddr = rw s (address-IsAddress4 p 12 h.bytes);
      daddr = rw d (address-IsAddress4 p 16 h.bytes);
      id_ = omega (arith, n, h.bytes (payload + 4), h.bytes (payload + 5));
    } in
    let (packet, ep, replied) =
      check_icmp_socket-Replied k.dev later recv i w.tun bytes session hr (rw v e) in
    (i, packet, sent-sessions k p length_ payload uid sock w h g miss, ep, rw (s, d, n) at replied)
