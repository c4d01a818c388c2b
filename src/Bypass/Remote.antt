-- ===== src/Bypass/Remote.antt =====
-- init_remote_server_socket of socket.cpp: the connection to a server, straight, through a SOCKS5 proxy
-- or through an HTTP proxy. What it does is a list of effects, the first one first.
pub mod Dialogue
pub mod Socks
pub mod Turns
use violet.Base.{
  ℕ, zero, suc, ◌+◌, ◌-◌, ◌/◌, ◌%◌, Bool, true, false, ◌&&◌, ◌||◌, not, Option, none, some, List,
  [], ◌∷◌, ◌++◌, ◌==◌, ltb, if◌then◌else◌, take, drop, get_or, codes, le32, u16,
}
use violet.Bypass.Packet.{find, crlf}
use violet.Bypass.Socket.{
  SendAnswer, RecvAnswer, Status, finished, broken, waiting, whole_rest, send_string, recv_string,
}
use violet.Bypass.Resolve.{Settings, Resolver, spaces, find_in_hostlist, resolve_host}

-- A connection to an address that inet_pton has read from a text, at a port; and the pieces that a
-- call of send_string has sent.
pub data Effect : Type 0 where
  opened : Effect
  connected : (ip : List ℕ) → (port : ℕ) → Effect
  sent : List (List ℕ) → Effect

-- What the system gives. For each string that is sent: whether the timeout is set, and the calls of
-- send; for each that is received the same for as many calls of recv_string as are made. `inet_addr` is
-- the number whose bytes in memory are the address, and `atoi` is taken as an unsigned number.
pub record Network : Type 0 where
  pub resolver : Resolver
  pub opens : Bool
  pub valid : List ℕ → Bool
  pub connects : Bool
  pub atoi : List ℕ → ℕ
  pub inet_addr : List ℕ → ℕ
  pub first_send : Bool × List SendAnswer
  pub first_reply : List (Bool × List RecvAnswer)
  pub second_send : Bool × List SendAnswer
  pub second_reply : List (Bool × List RecvAnswer)

-- A std::string as C takes it.
abbrev pub c_str : List ℕ → List ℕ
c_str [] = []
c_str (c ∷ text) = let rest = c_str text in if c == 0 then [] else c ∷ rest

-- `do { recv_string } while (empty)`: the status and the message.
abbrev pub received : Status × List ℕ → Status × List ℕ → Status × List ℕ
received (finished, []) again = again
received (finished, c ∷ message) again = (finished, c ∷ message)
received (broken, message) again = (broken, message)
received (waiting, message) again = (waiting, message)

unfoldable pub receive : List (Bool × List RecvAnswer) → Status × List ℕ
unfolding recv_string
receive [] = (waiting, [])
receive ((timeout_set, answers) ∷ calls) =
    received (recv_string timeout_set answers []) (receive calls)

abbrev pub Outcome : Type 0
Outcome = Status × List Effect

abbrev pub failure : Outcome
failure = (broken, [])

abbrev pub before : Effect → Outcome → Outcome
before effect (status, effects) = (status, effect ∷ effects)

abbrev pub after_sent : Status × List (List ℕ) → Outcome → Outcome
after_sent (finished, pieces) more = before (sent pieces) more
after_sent (broken, pieces) more = (broken, sent pieces ∷ [])
after_sent (waiting, pieces) more = (waiting, sent pieces ∷ [])

unfoldable pub send_message : Bool × List SendAnswer → List ℕ → Outcome → Outcome
send_message (timeout_set, answers) message more =
    after_sent (send_string timeout_set whole_rest answers message) more

-- A reply is taken if it passes a test.
abbrev pub after_reply : Status × List ℕ → (List ℕ → Bool) → Outcome → Outcome
after_reply (finished, message) test more = if test message then more else failure
after_reply (broken, message) test more = failure
after_reply (waiting, message) test more = (waiting, [])

-- A proxy's setting at its first colon; without one both parts are the whole.
abbrev pub proxy_ip : List ℕ → List ℕ
proxy_ip server = elim (find (58 ∷ []) server) [ none ↦ server | some i ↦ take i server ]

abbrev pub proxy_port : List ℕ → List ℕ
proxy_port server = elim (find (58 ∷ []) server) [ none ↦ server | some i ↦ drop (suc i) server ]

unfoldable pub connect_to : Network → List ℕ → ℕ → Outcome → Outcome
connect_to n ip port more =
    if n.valid (c_str ip)
    then (if n.connects then before (connected (c_str ip) port) more else failure)
    else failure

abbrev pub socks_hello : List ℕ
socks_hello = 5 ∷ 1 ∷ 0 ∷ []

abbrev pub socks_command : ℕ → ℕ → List ℕ
socks_command ip_bits port =
    5 ∷ 1 ∷ 0 ∷ 1 ∷ (le32 ip_bits ++ ((port / 256 % 256) ∷ (port % 256) ∷ []))

-- `proxy_message_buffer[1] == 0x00`, which reads the NUL behind a message of one byte.
abbrev pub accepts : List ℕ → Bool
accepts message = get_or message 1 0 == 0

unfoldable pub connect_socks : Network → List ℕ → ℕ → Outcome
connect_socks n ip port = send_message n.first_send socks_hello (
    after_reply (receive n.first_reply) accepts (
      send_message n.second_send (socks_command (n.inet_addr (c_str ip)) port)
        (after_reply (receive n.second_reply) accepts (finished, []))))

-- std::to_string of an int that is not negative, which has ten digits at most.
unfoldable pub digits : ℕ → ℕ → List ℕ
digits zero n = []
digits (suc places) n =
    let front = digits places (n / 10) in (if ltb n 10 then [] else front) ++ ((48 + n % 10) ∷ [])

abbrev pub connect_request : List ℕ → ℕ → List ℕ
connect_request ip port =
    codes "CONNECT " ++ (ip ++ (58 ∷ (digits 10 port ++ (codes " HTTP/1.1" ++ (crlf ++ crlf)))))

abbrev pub has_200 : List ℕ → Bool
has_200 message = elim (find (codes "200") message) [ none ↦ false | some i ↦ true ]

unfoldable pub connect_http : Network → (is_https : Bool) → List ℕ → ℕ → Outcome
connect_http n is_https ip port =
    if is_https
    then send_message n.first_send (connect_request ip port)
        (after_reply (receive n.first_reply) has_200 (finished, []))
    else (finished, [])

-- Whether the host list and the settings send a connection through a proxy.
abbrev pub listed : Settings → Resolver → List ℕ → Bool
listed s r host = if s.is_use_hostlist then find_in_hostlist s r host else true

pub data Route : Type 0 where
  direct socks http : Route

unfoldable pub route : Settings → Resolver → List ℕ → Bool → Route
route s r host is_https =
    if listed s r host
      && (s.https_is_use_socks5 && is_https || s.http_is_use_socks5 && not is_https)
    then socks
    else if listed s r host
        && (s.https_is_use_http_proxy && is_https || s.http_is_use_http_proxy && not is_https)
    then http
    else direct

abbrev pub proxy_address : Network → List ℕ → Outcome → Outcome
proxy_address n server more = connect_to n (proxy_ip server) (u16 (n.atoi (proxy_port server))) more

abbrev pub connect_by : Settings → Network → Bool → List ℕ → ℕ → Route → Outcome
connect_by s n is_https ip port direct = connect_to n ip (u16 port) (finished, [])
connect_by s n is_https ip port socks = proxy_address n s.socks5_server (connect_socks n ip port)
connect_by s n is_https ip port http =
    proxy_address n s.http_proxy_server (connect_http n is_https ip port)

abbrev pub connect_resolved : Settings → Network → List ℕ → Bool → ℕ → Option (List ℕ) → Outcome
connect_resolved s n host is_https port none = failure
connect_resolved s n host is_https port (some ip) =
    if n.opens
    then before opened (connect_by s n is_https ip port (route s n.resolver host is_https))
    else failure

-- `finished` is 0, and `broken` -1.
unfoldable pub init_remote_server_socket : Settings → Network → List ℕ → ℕ → Bool → Outcome
unfolding connect_to
init_remote_server_socket s n host port is_https =
    connect_resolved s n host is_https port (resolve_host s n.resolver host (spaces 50))
