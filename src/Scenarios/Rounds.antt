-- ===== src/Scenarios/Rounds.antt =====
-- Runs of the rounds over all sessions, and of UDP.
use violet.Packet.Checks.{HeaderVerifies, PayloadVerifies4}
use violet.Udp.{udp_packet}
use violet.Udp.Verify.{udp_packet-verifies}
use violet.Base.{refl, arith, false, none, List, [], ◌∷◌, All}
use violet.Session.Types.{NgSession, UdpSession, UdpState, active, closed, icmp, udp, tcp}
use violet.Session.Rounds.{check_sessions}
use violet.Session.Rounds.Laws.{IsSafe, IsSettled, check_sessions-IsSafe}
use violet.Tcp.Types.{closing}
use violet.Scenarios.{client_address, server_address, take_all, session, known}

abbrev datagrams : UdpState → UdpSession
datagrams state = record {
  time = 1000;
  uid = 10001;
  version = 4;
  mss = 1472;
  sent = 0;
  received = 0;
  saddr = client_address;
  source = 5000;
  daddr = server_address;
  dest = 53;
  state = state;
}

abbrev ping : NgSession
ping = record known {
  proto = icmp (record {
    time = 1000;
    uid = 1;
    version = 4;
    saddr = client_address;
    daddr = server_address;
    id = 7;
    stop = false;
  });
}

-- A session of each kind: one to ping, one idle, one whose socket is closed, one that is closing.
abbrev all_kinds : List NgSession
all_kinds =
    ping
    ∷ record known { proto = udp (datagrams active) }
    ∷ record known { proto = udp (datagrams closed); socket = none }
    ∷ record known { proto = tcp (session closing) }
    ∷ []

udp_packet-verifies_example :
    HeaderVerifies (udp_packet (datagrams active) (1 ∷ 2 ∷ 3 ∷ []))
    × PayloadVerifies4 (udp_packet (datagrams active) (1 ∷ 2 ∷ 3 ∷ []))
udp_packet-verifies_example =
    udp_packet-verifies (datagrams active) (1 ∷ 2 ∷ 3 ∷ []) refl
      (record { size = refl; bytes = omega arith }) (record { size = refl; bytes = omega arith })
      (omega arith) (omega arith)

check_sessions-IsSafe_example :
    All IsSafe (check_sessions take_all 1100 1101 3 1000 all_kinds []).0
    × All IsSettled (check_sessions take_all 1100 1101 3 1000 all_kinds []).0
check_sessions-IsSafe_example =
    check_sessions-IsSafe take_all 1100 1101 3 1000 all_kinds [] (tt, (refl, (refl, (refl, tt))))
