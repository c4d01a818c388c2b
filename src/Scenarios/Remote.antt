-- ===== src/Scenarios/Remote.antt =====
-- Runs of the connection to a server, and of the header search.
use violet.Base.{
  ℕ, zero, suc, ◌<◌, ◌≡◌, refl, true, false, some, List, [], ◌∷◌, ◌++◌, map, arith, codes, ◌==◌,
  if◌then◌else◌, Memory, get_or, length, ◌+◌,
}
use violet.Bypass.Packet.{find}
use violet.Bypass.Socket.{finished, takes, gives, would_block, send_string, send_loop, recv_loop}
use violet.Bypass.Resolve.{
  Settings, Resolver, spaces, resolve_host, uses_doh, resolve_host_over_dns, resolve_host_over_doh,
}
use violet.Bypass.Resolve.Servers.{Asked, closed, not_closed, resolve_host-Asked}
use violet.Bypass.Remote.{
  Network, socks, route, receive, send_message, connect_socks, init_remote_server_socket,
}
use violet.Bypass.Remote.Dialogue.{told, dialogue, Agreed, init_remote_server_socket-Dialogue}
use violet.Bypass.Remote.Turns.{Begins, init_remote_server_socket-Begins}
use violet.Bypass.Remote.Socks.{stream, read_socks, init_remote_server_socket-read_socks}
use violet.Http.Header.{Answer, get_header, value, next_header, blanks, strncpy}
use violet.Http.{starts_with}
use violet.Http.Header.Reads.{get_header-Agree}

abbrev settings : Settings
settings = record {
  is_use_hostlist = false;
  is_use_vpn = false;
  is_use_doh = true;
  is_use_doh_only_for_site_in_hostlist = false;
  dns_doh_servers = codes "one" ++ (10 ∷ codes "two");
  https_is_use_socks5 = true;
  http_is_use_socks5 = false;
  https_is_use_http_proxy = false;
  http_is_use_http_proxy = false;
  socks5_server = codes "127.0.0.1:1080";
  http_proxy_server = [];
}

-- Every host is a name; the second server has an address for it, and so has the system.
abbrev resolver : Resolver
resolver = record {
  is_ip = λ host. false;
  hostname_found = false;
  get_hostname = λ host. [];
  doh_found = true;
  make_doh_request = λ n server host. if n == 1 then codes "1.2.3.4" else [];
  getaddrinfo = λ host. some ((true, codes "1.2.3.4") ∷ []);
}

abbrev network : Network
network = record {
  resolver = resolver;
  opens = true;
  valid = λ text. true;
  connects = true;
  atoi = λ text. 1080;
  inet_addr = λ text. 67305985;
  first_send = (true, takes 2 ∷ takes 9 ∷ []);
  first_reply = (true, would_block ∷ []) ∷ (true, gives (5 ∷ 0 ∷ []) ∷ would_block ∷ []) ∷ [];
  second_send = (true, takes 10 ∷ []);
  second_reply = (true, gives (5 ∷ 0 ∷ 0 ∷ []) ∷ would_block ∷ []) ∷ [];
}

resolve_host-Asked_example :
    Asked resolver.make_doh_request
      (codes "a.b")
      0
      (codes "one" ∷ codes "two" ∷ [])
      (resolve_host settings resolver (codes "a.b") [])
resolve_host-Asked_example =
    resolve_host-Asked settings resolver (codes "a.b") [] (codes "one" ∷ codes "two" ∷ []) refl
      (unfold uses_doh in refl) refl (omega arith)
      (closed (codes "one") (not_closed 116 (119 ∷ 111 ∷ [])))

resolves : resolve_host settings resolver (codes "a.b") (spaces 50) ≡ some (codes "1.2.3.4")
unfolding resolve_host uses_doh resolve_host_over_doh
resolves = refl

chooses_socks : route settings resolver (codes "a.b") true ≡ socks
unfolding route
chooses_socks = refl

connects_socks : (init_remote_server_socket settings network (codes "a.b") 443 true).0 ≡ finished
unfolding init_remote_server_socket resolve_host uses_doh resolve_host_over_doh route connect_socks
    send_message send_string send_loop receive recv_loop
connects_socks = refl

init_remote_server_socket-Dialogue_example :
    (ip : List ℕ) × (resolve_host settings resolver (codes "a.b") (spaces 50) ≡ some ip)
    × (map told (init_remote_server_socket settings network (codes "a.b") 443 true).1
        ≡ dialogue settings network true ip 443 (route settings resolver (codes "a.b") true))
    × Agreed network true (route settings resolver (codes "a.b") true)
init_remote_server_socket-Dialogue_example =
    init_remote_server_socket-Dialogue settings network (codes "a.b") 443 true connects_socks

init_remote_server_socket-read_socks_example :
    read_socks
      (stream (map told (init_remote_server_socket settings network (codes "a.b") 443 true).1))
    ≡ some (1, 2, 3, 4, 443)
init_remote_server_socket-read_socks_example =
    init_remote_server_socket-read_socks settings network (codes "a.b") (codes "1.2.3.4") 443 true 1
      2 3 4 connects_socks chooses_socks resolves (omega arith) (omega arith) (omega arith)
      (omega arith) refl

-- The proxy refuses the greeting, and the second message is not sent.
abbrev refusing : Network
refusing = record network { first_reply = (true, gives (5 ∷ 255 ∷ []) ∷ would_block ∷ []) ∷ [] }

init_remote_server_socket-Begins_example :
    Begins (init_remote_server_socket settings refusing (codes "a.b") 443 true).1 (
      dialogue settings refusing true
        (codes "1.2.3.4")
        443
        (route settings resolver (codes "a.b") true))
init_remote_server_socket-Begins_example =
    init_remote_server_socket-Begins settings refusing (codes "a.b") (codes "1.2.3.4") 443 true
      resolves

-- Resolved by the system, the address has the NUL behind it.
plain_text :
    resolve_host (record settings { is_use_doh = false }) resolver (codes "a.b") (spaces 50)
    ≡ some (codes "1.2.3.4" ++ (0 ∷ []))
unfolding resolve_host uses_doh resolve_host_over_dns find
plain_text = refl

abbrev request : List ℕ
request = codes "GET / HTTP/1.1" ++ (13 ∷ 10 ∷ codes "host: a.b" ++ (13 ∷ 10 ∷ 13 ∷ 10 ∷ []))

-- The request, with nothing but zeros behind it, and with nothing but line feeds.
abbrev followed_by : ℕ → Memory
followed_by b i = get_or request i b

finds_header : get_header 32 true (codes "Host:") (followed_by 0) 29 ≡ some (value 3 (codes "a.b"))
unfolding get_header next_header starts_with blanks strncpy
finds_header = refl

get_or_within : (xs : List ℕ) (i a b : ℕ) → i < length xs → get_or xs i a ≡ get_or xs i b
get_or_within [] i a b h = absurd (omega arith)
get_or_within (x ∷ xs) zero a b h = refl
get_or_within (x ∷ xs) (suc i) a b h = get_or_within xs i a b (omega arith)

get_header-Agree_example :
    (answer : Answer) × (get_header (29 + 1) true (codes "Host:") (followed_by 0) 29 ≡ some answer)
    × (get_header (29 + 1) true (codes "Host:") (followed_by 10) 29 ≡ some answer)
get_header-Agree_example =
    get_header-Agree true (codes "Host:") (followed_by 0) (followed_by 10) 29 (omega arith)
      (omega arith) (λ i h. get_or_within request i 0 10 h)
