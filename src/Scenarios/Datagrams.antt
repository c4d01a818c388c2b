-- ===== src/Scenarios/Datagrams.antt =====
-- Runs of the handlers of ICMP, UDP, DNS and DHCP.
use violet.Base.{
  ℕ, zero, suc, ◌≡◌, refl, true, false, Bool, some, List, [], ◌∷◌, ◌++◌, arith, Memory, get_or,
  length, All, IsByte, bytes_at,
}
use violet.Tcp.Socket.{accepted, received_bytes}
use violet.Session.Types.{
  NgSession, UdpSession, active, udp, IcmpSession, Found, search_session, same_bytes,
}
use violet.Session.World.{Calls, World}
use violet.Icmp.Handle.{handle_icmp}
use violet.Icmp.Socket.{check_icmp_socket}
use violet.Icmp.Echo.{IsEcho, registered}
use violet.Icmp.Reply.{Replied}
use violet.Icmp.RoundTrip.{echo_round_trip}
use violet.Udp.Handle.{handle_udp}
use violet.Udp.Forward.{IsKnown, Outcome, packet_data, handle_udp-Outcome}
use violet.Scenarios.{client_address, server_address, take_all}

pub get_or-IsByte : (xs : List ℕ) (i : ℕ) → All IsByte xs → IsByte (get_or xs i 0)
get_or-IsByte [] i h = omega arith
get_or-IsByte (x ∷ xs) zero h = h.0
get_or-IsByte (x ∷ xs) (suc i) h = get_or-IsByte xs i h.1

-- A packet from the client to the server, with zeros behind it.
abbrev pub ip_packet : (len protocol : ℕ) → List ℕ → List ℕ
ip_packet len protocol payload =
    0x45 ∷ 0 ∷ 0 ∷ len ∷ 0 ∷ 0 ∷ 0 ∷ 0 ∷ 64 ∷ protocol ∷ 0 ∷ 0 ∷ client_address
    ++ (server_address ++ payload)

abbrev pub in_memory : List ℕ → Memory
in_memory bytes i = get_or bytes i 0

abbrev pub granting : Calls
granting = record {
  dev = take_all;
  now = 1000;
  socket = λ version. some 7;
  protect = λ sock. true;
  sendto = λ d. accepted (length d.bytes);
  stale = false;
  forks = λ job. true;
}

-- An echo request with the id 0x1234.
abbrev echo : List ℕ
echo = ip_packet 30 1 (8 ∷ 0 ∷ 0 ∷ 0 ∷ 0x12 ∷ 0x34 ∷ 0 ∷ 1 ∷ 104 ∷ 105 ∷ [])

abbrev pub idle : World
idle = record { sessions = []; tun = []; sent = []; forked = [] }

echo-IsEcho : IsEcho (in_memory echo) 30 20
echo-IsEcho = record {
  bytes = λ j. get_or-IsByte echo j (omega arith);
  version = refl;
  type = refl;
  room = omega arith;
  small = omega arith;
}

abbrev echo_answer : List ℕ
echo_answer = 0 ∷ 0 ∷ 0 ∷ 0 ∷ 9 ∷ 9 ∷ 0 ∷ 1 ∷ 104 ∷ 105 ∷ []

echo_round_trip_example :
    (i : IcmpSession) × (packet : List ℕ) × ((handle_icmp granting
        (in_memory echo)
        30
        20
        10001
        idle).1.sessions
      ≡ registered i 7 ∷ [])
    × ((check_icmp_socket take_all 1001 false true (λ n. received_bytes echo_answer) i []).1
        ≡ packet ∷ [])
    × Replied client_address server_address 0x1234 echo_answer packet
unfolding bytes_at
echo_round_trip_example =
    echo_round_trip granting (in_memory echo) 30 20 10001 7 idle 1001
      (λ n. received_bytes echo_answer) echo_answer echo-IsEcho
      (record { socket = refl; protect = refl }) (unfold search_session in refl)
      (record { bytes_ = omega arith; header = omega arith; small = omega arith }) refl

abbrev pub flow : ℕ → UdpSession
flow dest = record {
  time = 990;
  uid = 10001;
  version = 4;
  mss = 65507;
  sent = 40;
  received = 0;
  saddr = client_address;
  source = 5000;
  daddr = server_address;
  dest = dest;
  state = active;
}

abbrev pub of_flow : ℕ → NgSession
of_flow dest = record {
  proto = udp (flow dest);
  socket = some 8;
  events = record { input = true; output = false };
}

abbrev pub one_flow : ℕ → World
one_flow dest = record { sessions = of_flow dest ∷ []; tun = []; sent = []; forked = [] }

abbrev pub place_of : ℕ → Found
place_of dest = record { before = []; session = of_flow dest; behind = [] }

-- Three bytes of data from the port 5000 to 9000.
abbrev datagram : List ℕ
datagram = ip_packet 31 17 (0x13 ∷ 0x88 ∷ 0x23 ∷ 0x28 ∷ 0 ∷ 11 ∷ 0 ∷ 0 ∷ 1 ∷ 2 ∷ 3 ∷ [])

datagram-IsKnown : IsKnown (in_memory datagram) 20 (one_flow 9000) (place_of 9000) (flow 9000)
unfolding bytes_at
datagram-IsKnown = record {
  found = unfold search_session same_bytes in refl;
  proto = refl;
  state = refl;
}

handle_udp-Outcome_example :
    (ok : Bool) × (u' : UdpSession) × (handle_udp granting 10
        (in_memory datagram)
        31
        20
        10001
        (one_flow 9000)
      ≡ some (
        ok,
        record (one_flow 9000) {
          sessions = record (of_flow 9000) { proto = udp u' } ∷ [];
          sent =
              record {
                socket = some 8;
                address = server_address;
                port = 9000;
                bytes = packet_data (in_memory datagram) 31 20;
              }
              ∷ [];
        },
      ))
    × Outcome 1000 3 false
        (flow 9000)
        u'
        (granting.sendto (record {
          socket = some 8;
          address = server_address;
          port = 9000;
          bytes = packet_data (in_memory datagram) 31 20;
        }))
        ok
handle_udp-Outcome_example =
    handle_udp-Outcome granting 10 (in_memory datagram) 31 20 10001 (one_flow 9000) (place_of 9000)
      (flow 9000) datagram-IsKnown refl refl
