-- ===== src/Scenarios/Engine.antt =====
-- Runs of the dispatch of packets, of the search for a uid, and of DNS and DHCP.
use violet.Base.{
  length, ℕ, ◌≡◌, ◌≢◌, refl, true, false, Option, none, some, List, [], ◌∷◌, arith, Memory, take,
  drop, bytes_at, ltb, ◌==◌, if◌then◌else◌,
}
use violet.Base.Int.{pos}
use violet.Packet.Checks.{HeaderVerifies, PayloadVerifies4}
use violet.Tcp.Socket.{accepted, received_bytes, SocketIo}
use violet.Session.Types.{finishing, search_session, same_bytes}
use violet.Session.World.{World, Job}
use violet.Udp.Handle.{handle_udp}
use violet.Udp.Resolve.{LocalDns, resolve_host_with_local_dns_server}
use violet.Udp.Forward.{IsKnown, packet_data, handle_udp-forked}
use violet.Dns.{Query, get_dns_query, copy_label, jump, get_qname}
use violet.Dns.Response.{parse_dns_response, answers_loop}
use violet.Dhcp.{check_dhcp, server_ip}
use violet.Dhcp.Reply.{IsOffer, data_of, check_dhcp-IsOffer}
use violet.Ip.Uid.{Row, scan_rows, or_else}
use violet.Ip.Uid.Rows.{hex_words, first_uid, last_uid, has_flow, has_port, scan_rows_lem}
use violet.Ip.{Engine, handle_ip}
use violet.Session.Loop.{Ready, pipe, tun, socket, handle_events}
use violet.Session.Loop.Limit.{CountAfter, handle_events-CountAfter}
use violet.Ip.Returns.{handle_ip-returns}
use violet.Scenarios.{server_address, take_all}
use violet.Scenarios.Sessions.{kernel}
use violet.Scenarios.Datagrams.{ip_packet, in_memory, granting, idle, flow, one_flow, place_of}

abbrev row : ℕ → ℕ → Row
row dport uid = record {
  fields = 4;
  sport = pos 5000;
  hex = hex_words server_address;
  dport = pos dport;
  uid = pos uid;
}

abbrev pub engine : Engine
engine = record {
  calls = granting;
  tcp = kernel;
  proc = record { lines = λ table. none; sscanf = λ version line. row 9000 10001 };
  fwd53 = true;
  verbose = false;
  rounds = 40;
}

abbrev pub no_io : SocketIo
no_io = record {
  dev = take_all;
  now = 1000;
  send = λ wire bytes more. accepted (length bytes);
  recv = λ n. received_bytes [];
  before = kernel.buffers;
  after = kernel.buffers;
  behind = λ i. 0;
}

-- Three bytes of data from the port 5000 to 9000.
abbrev datagram : Memory
datagram = in_memory (ip_packet 31 17 (0x13 ∷ 0x88 ∷ 0x23 ∷ 0x28 ∷ 0 ∷ 11 ∷ 0 ∷ 0 ∷ 1 ∷ 2 ∷ 3 ∷ []))

-- A turn that begins at the limit: a packet of a new flow, the end of a flow's stream, and the pipe.
abbrev turn_events : List Ready
turn_events =
    tun false true (
      (λ n.
        received_bytes
          (ip_packet 31 17 (0x13 ∷ 0x88 ∷ 0x23 ∷ 0x28 ∷ 0 ∷ 11 ∷ 0 ∷ 0 ∷ 1 ∷ 2 ∷ 3 ∷ [])))
      ∷ [])
    ∷ socket 8 (record { error = false; input = true; output = false })
        ((λ n. received_bytes []) ∷ []) no_io
    ∷ pipe
    ∷ []

handle_events-CountAfter_example :
    CountAfter 1 (handle_events engine (λ i. 0) 1000 1000 turn_events (one_flow 9001))
handle_events-CountAfter_example =
    handle_events-CountAfter engine (λ i. 0) 1000 1000 refl (omega arith) turn_events
      (one_flow 9001)

handle_ip-returns_example : handle_ip engine datagram 31 3 1000 idle ≢ none
handle_ip-returns_example = handle_ip-returns engine datagram 31 3 1000 idle refl refl

-- A hop-by-hop header in front of TCP.
scan_rows_lem_example :
    scan_rows 4 5000 server_address 9000 (row 53 1 ∷ row 9000 2 ∷ row 54 3 ∷ []) none
    ≡ or_else
        (first_uid (has_flow 4 5000 server_address 9000) (row 53 1 ∷ row 9000 2 ∷ row 54 3 ∷ []))
        (or_else (last_uid (has_port 4 5000) (row 53 1 ∷ row 9000 2 ∷ row 54 3 ∷ [])) none)
scan_rows_lem_example =
    scan_rows_lem 4 5000 server_address 9000 (row 53 1 ∷ row 9000 2 ∷ row 54 3 ∷ []) none

-- A response for "a" with one address.
abbrev pub dns_bytes : List ℕ
dns_bytes =
    0 ∷ 1 ∷ 128 ∷ 0 ∷ 0 ∷ 1 ∷ 0 ∷ 1 ∷ 0 ∷ 0 ∷ 0 ∷ 0 ∷ 1 ∷ 97 ∷ 0 ∷ 0 ∷ 1 ∷ 0 ∷ 1 ∷ 192 ∷ 12 ∷ 0 ∷ 1
    ∷ 0 ∷ 1 ∷ 0 ∷ 0 ∷ 0 ∷ 60 ∷ 0 ∷ 4 ∷ server_address

abbrev pub dns_answer : Memory
dns_answer = in_memory dns_bytes

decodes_answer :
    parse_dns_response 10 dns_answer 35
    ≡ some (record {
      answers =
          record {
            name = 97 ∷ [];
            qtype = 1;
            qclass = 1;
            ttl = 60;
            rdlength = 4;
            data_ = 31;
            reads = 4;
          }
          ∷ [];
      whole = true;
    })
unfolding copy_label jump bytes_at get_qname
decodes_answer = unfold parse_dns_response answers_loop in refl

-- A query for "a" to port 53.
abbrev dns_query : Memory
dns_query = in_memory (
    ip_packet 47 17 (
      0x13 ∷ 0x88 ∷ 0 ∷ 53 ∷ 0 ∷ 27 ∷ 0 ∷ 0 ∷ 0 ∷ 1 ∷ 1 ∷ 0 ∷ 0 ∷ 1 ∷ 0 ∷ 0 ∷ 0 ∷ 0 ∷ 0 ∷ 0 ∷ 1 ∷ 97
      ∷ 0 ∷ 0 ∷ 1 ∷ 0 ∷ 1 ∷ []))

query-IsKnown : IsKnown dns_query 20 (one_flow 53) (place_of 53) (flow 53)
unfolding bytes_at
query-IsKnown = record {
  found = unfold search_session same_bytes in refl;
  proto = refl;
  state = refl;
}

abbrev local_dns : LocalDns
local_dns = record {
  socket = true;
  connect = true;
  set_timeout = true;
  answer = λ query size. received_bytes (1 ∷ 2 ∷ []);
}

abbrev read_query : Option Query
read_query = some (record { name = 97 ∷ []; qtype = 1; qclass = 1 })

handle_udp-forked_example :
    (w' : World) × (job : Job) × (handle_udp granting 10 dns_query 47 20 10001 (one_flow 53)
      ≡ some (true, w'))
    × (w'.sessions ≡ (one_flow 53).sessions)
    × (granting.forks job ≡ true → w'.forked ≡ job ∷ [])
    × (granting.forks job ≡ false → w'.forked ≡ [])
    × (job.session ≡ flow 53)
    × (job.query ≡ packet_data dns_query 47 20)
    × ((resolve_host_with_local_dns_server take_all local_dns job []).1.state ≡ finishing)
unfolding copy_label bytes_at
handle_udp-forked_example =
    handle_udp-forked granting 10 dns_query 47 20 10001 (one_flow 53) (place_of 53) (flow 53)
      read_query take_all local_dns [] query-IsKnown refl refl (unfold get_dns_query in refl)
      (record {
        socket = refl;
        connect = refl;
        set_timeout = refl;
        byte = 1;
        bytes = 2 ∷ [];
        answer = refl;
      })

-- The fields that are checked, of a discover.
abbrev discover : Memory
discover i =
    if i == 236
    then 0x63
    else (if i == 237
        then 0x82
        else (if i == 238
            then 0x53
            else (if i == 239 then 0x63 else (if i == 2 then 6 else (if ltb i 2 then 1 else 0)))))

check_dhcp-IsOffer_example :
    (packet : List ℕ) × ((check_dhcp take_all (flow 67) discover 300 []).1.saddr ≡ server_ip)
    × ((check_dhcp take_all (flow 67) discover 300 []).2 ≡ packet ∷ [])
    × HeaderVerifies packet
    × PayloadVerifies4 packet
    × (take 4 (drop 12 packet) ≡ server_address)
    × (take 4 (drop 16 packet) ≡ server_ip)
    × IsOffer discover (data_of packet)
check_dhcp-IsOffer_example =
    check_dhcp-IsOffer take_all (flow 67) discover 300 [] refl
      (record { size = refl; bytes = omega arith }) (record { size = refl; bytes = omega arith })
      (λ i. ground arith) refl refl
