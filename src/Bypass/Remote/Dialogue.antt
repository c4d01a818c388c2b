-- ===== src/Bypass/Remote/Dialogue.antt =====
-- What init_remote_server_socket has said, and to whom, when it succeeds.
use violet.Base.{
  ℕ, ◌≡◌, refl, ap, ◌∙◌, inl, inr, Bool, true, false, some, List, [], ◌∷◌, map, arith, u16,
  Bool-cases, Option-cases, if◌then◌else◌,
}
use violet.Bypass.Socket.{SendAnswer, Status, finished, broken, waiting, whole_rest, send_string}
use violet.Bypass.Socket.Sent.{joined, send_string-whole}
use violet.Bypass.Resolve.{Settings, spaces, resolve_host}
use violet.Bypass.Remote.{
  Effect, opened, connected, sent, Network, c_str, receive, Outcome, failure, before, after_sent,
  after_reply, send_message, proxy_ip, proxy_port, connect_to, socks_hello, socks_command, accepts,
  connect_socks, connect_request, has_200, connect_http, Route, direct, socks, http, route,
  connect_by, init_remote_server_socket,
}

-- An effect as the other side sees it: a string that was sent in pieces is one message.
pub data Line : Type 0 where
  opens : Line
  connects : List ℕ → ℕ → Line
  says : List ℕ → Line

abbrev pub told : Effect → Line
told opened = opens
told (connected ip port) = connects ip port
told (sent pieces) = says (joined pieces)

-- A connection for an address and a port by a route: all that is said, in order.
abbrev pub to_proxy : Network → List ℕ → Line
to_proxy n server = connects (c_str (proxy_ip server)) (u16 (n.atoi (proxy_port server)))

abbrev pub http_lines : Bool → List ℕ → ℕ → List Line
http_lines is_https ip port = elim is_https [
  | true ↦ says (connect_request ip port) ∷ []
  | false ↦ []
]

abbrev pub dialogue : Settings → Network → Bool → List ℕ → ℕ → Route → List Line
dialogue s n is_https ip port direct = opens ∷ connects (c_str ip) (u16 port) ∷ []
dialogue s n is_https ip port socks =
    opens
    ∷ to_proxy n s.socks5_server
    ∷ says socks_hello
    ∷ says (socks_command (n.inet_addr (c_str ip)) port)
    ∷ []
dialogue s n is_https ip port http =
    opens ∷ to_proxy n s.http_proxy_server ∷ http_lines is_https ip port

-- A reply has come and passes a test.
abbrev pub Passes : Status × List ℕ → (List ℕ → Bool) → Type 0
Passes reply test = (reply.0 ≡ finished) × (test reply.1 ≡ true)

-- What the proxy on a route has replied.
abbrev pub Agreed : Network → Bool → Route → Type 0
Agreed n is_https direct = Unit {0}
Agreed n is_https socks =
    Passes (receive n.first_reply) accepts × Passes (receive n.second_reply) accepts
Agreed n true http = Passes (receive n.first_reply) has_200
Agreed n false http = Unit {0}

abbrev Says : Outcome → List Line → Type 0
Says o lines = map told o.1 ≡ lines

abbrev Done : Outcome → Type 0
Done o = o.0 ≡ finished

connect_to-Done :
    (n : Network) (ip : List ℕ) (port : ℕ) (more : Outcome)
    → Done (connect_to n ip port more)
    → Done more × (connect_to n ip port more ≡ (finished, connected (c_str ip) port ∷ more.1))
unfolding connect_to
connect_to-Done n ip port (finished, effects) h = ground arith
connect_to-Done n ip port (broken, effects) h = absurd (ground arith)
connect_to-Done n ip port (waiting, effects) h = absurd (ground arith)

after_sent-Done :
    (o : Status × List (List ℕ)) (more : Outcome)
    → Done (after_sent o more)
    → (o.0 ≡ finished) × Done more × ((after_sent o more).1 ≡ sent o.1 ∷ more.1)
after_sent-Done (finished, pieces) more h = (refl, h, refl)
after_sent-Done (broken, pieces) more h = cc
after_sent-Done (waiting, pieces) more h = cc

send_message-Done :
    (call : Bool × List SendAnswer) (message : List ℕ) (more : Outcome)
    → Done (send_message call message more)
    → Done more × Says (send_message call message more) (says message ∷ map told more.1)
unfolding send_message
send_message-Done (timeout_set, answers) message more h =
    let (whole, rest, all) =
      after_sent-Done (send_string timeout_set whole_rest answers message) more h in
    (
      rest,
      ap (map told) all
          ∙ ap (λ m. says m ∷ map told more.1)
              (send_string-whole timeout_set whole_rest answers message whole),
    )

after_reply-Done :
    (reply : Status × List ℕ) (test : List ℕ → Bool) (more : Outcome)
    → Done (after_reply reply test more)
    → Passes reply test × Done more × (after_reply reply test more ≡ more)
after_reply-Done (finished, message) test more h = elim (Bool-cases (test message)) [
  | inl e ↦ (let h' : more.0 ≡ finished = rw e at h in rw e ((refl, refl), h', refl))
  | inr e ↦ absurd (let h' = rw e at h in cc)
]
after_reply-Done (broken, message) test more h = cc
after_reply-Done (waiting, message) test more h = cc

connect_socks-Done :
    (n : Network) (is_https : Bool) (ip : List ℕ) (port : ℕ)
    → Done (connect_socks n ip port)
    → Agreed n is_https socks
      × Says
          (connect_socks n ip port)
          (says socks_hello ∷ says (socks_command (n.inet_addr (c_str ip)) port) ∷ [])
unfolding connect_socks
connect_socks-Done n is_https ip port h =
    let command = socks_command (n.inet_addr (c_str ip)) port in
    let last = after_reply (receive n.second_reply) accepts (finished, []) in
    let asked = send_message n.second_send command last in
    let greeted = after_reply (receive n.first_reply) accepts asked in
    let (h1, l1) = send_message-Done n.first_send socks_hello greeted h in
    let (p1, h2, e2) = after_reply-Done (receive n.first_reply) accepts asked h1 in
    let (h3, l3) = send_message-Done n.second_send command last h2 in
    let (p2, h4, e4) = after_reply-Done (receive n.second_reply) accepts (finished, []) h3 in
    (
      (p1, p2),
      l1
          ∙ ap (λ (o : Outcome). says socks_hello ∷ map told o.1) e2
          ∙ ap (λ ls. says socks_hello ∷ ls) l3
          ∙ ap (λ (o : Outcome). says socks_hello ∷ says command ∷ map told o.1) e4,
    )

connect_http-Done :
    (n : Network) (is_https : Bool) (ip : List ℕ) (port : ℕ)
    → Done (connect_http n is_https ip port)
    → Agreed n is_https http × Says (connect_http n is_https ip port) (http_lines is_https ip port)
unfolding connect_http
connect_http-Done n false ip port h = (tt, refl)
connect_http-Done n true ip port h =
    let last = after_reply (receive n.first_reply) has_200 (finished, []) in
    let (h1, l1) = send_message-Done n.first_send (connect_request ip port) last h in
    let (p1, h2, e2) = after_reply-Done (receive n.first_reply) has_200 (finished, []) h1 in
    (p1, l1 ∙ ap (λ (o : Outcome). says (connect_request ip port) ∷ map told o.1) e2)

connect_to-Says :
    (n : Network) (ip : List ℕ) (port : ℕ) (more : Outcome) (lines : List Line)
    → Done (connect_to n ip port more)
    → Says more lines
    → Says (connect_to n ip port more) (connects (c_str ip) port ∷ lines)
connect_to-Says n ip port more lines h says_ =
    let (h1, e1) = connect_to-Done n ip port more h in
    ap (λ (o : Outcome). map told o.1) e1 ∙ ap (λ ls. connects (c_str ip) port ∷ ls) says_

connect_by-Done :
    (s : Settings) (n : Network) (is_https : Bool) (ip : List ℕ) (port : ℕ) (r : Route)
    → Done (connect_by s n is_https ip port r)
    → Agreed n is_https r
      × ((opens ∷ map told (connect_by s n is_https ip port r).1) ≡ dialogue s n is_https ip port r)
connect_by-Done s n is_https ip port direct h =
    (tt, ap (λ ls. opens ∷ ls) (connect_to-Says n ip (u16 port) (finished, []) [] h refl))
connect_by-Done s n is_https ip port socks h =
    let to = proxy_ip s.socks5_server in
    let at = u16 (n.atoi (proxy_port s.socks5_server)) in
    let (h1, e1) = connect_to-Done n to at (connect_socks n ip port) h in
    let (agreed, l1) = connect_socks-Done n is_https ip port h1 in
    (agreed, ap (λ ls. opens ∷ ls) (connect_to-Says n to at (connect_socks n ip port) _ h l1))
connect_by-Done s n is_https ip port http h =
    let to = proxy_ip s.http_proxy_server in
    let at = u16 (n.atoi (proxy_port s.http_proxy_server)) in
    let (h1, e1) = connect_to-Done n to at (connect_http n is_https ip port) h in
    let (agreed, l1) = connect_http-Done n is_https ip port h1 in
    (
      agreed,
      ap (λ ls. opens ∷ ls) (connect_to-Says n to at (connect_http n is_https ip port) _ h l1),
    )

opened-Done :
    (ok : Bool) (o : Outcome)
    → Done (if ok then before opened o else failure)
    → Done o × ((if ok then before opened o else failure).1 ≡ opened ∷ o.1)
opened-Done true o h = (h, refl)
opened-Done false o h = cc

-- When init_remote_server_socket succeeds the host has been resolved, and what the other side has
-- heard is the dialogue of the route that the settings choose: the socket is opened, it is connected
-- to the address or to the proxy, and each message of that route has gone out whole and in order;
-- every reply that the route waits for has come and been accepted.
pub init_remote_server_socket-Dialogue :
    (s : Settings) (n : Network) (host : List ℕ) (port : ℕ) (is_https : Bool)
    → (init_remote_server_socket s n host port is_https).0 ≡ finished
    → (ip : List ℕ) × (resolve_host s n.resolver host (spaces 50) ≡ some ip)
      × (map told (init_remote_server_socket s n host port is_https).1
          ≡ dialogue s n is_https ip port (route s n.resolver host is_https))
      × Agreed n is_https (route s n.resolver host is_https)
unfolding init_remote_server_socket
init_remote_server_socket-Dialogue s n host port is_https h =
    elim (Option-cases (resolve_host s n.resolver host (spaces 50))) [
      | inl e ↦ absurd (let h' = rw e at h in cc)
      | inr (ip, e) ↦
          let r = route s n.resolver host is_https in
          let (h', e') = opened-Done n.opens (connect_by s n is_https ip port r) (rw e at h) in
          let (agreed, lines) = connect_by-Done s n is_https ip port r h' in
          (ip, e, rw e (ap (map told) e' ∙ lines), agreed)
    ]
