-- ===== src/Bypass/Remote/Turns.antt =====
-- What init_remote_server_socket has said when something fails.
use violet.Base.{
  ℕ, ◌≡◌, ◌⊎◌, refl, ap, inl, inr, Bool, true, false, some, List, [], ◌∷◌, ◌++◌, if◌then◌else◌,
  Bool-cases, u16,
}
use violet.Bypass.Socket.{SendAnswer, Status, finished, broken, waiting, whole_rest, send_string}
use violet.Bypass.Socket.Sent.{joined, send_string-whole, send_string_part}
use violet.Bypass.Resolve.{Settings, spaces, resolve_host}
use violet.Bypass.Remote.{
  Effect, opened, connected, sent, Network, c_str, receive, Outcome, failure, before, after_sent,
  after_reply, send_message, proxy_ip, proxy_port, connect_to, socks_hello, socks_command, accepts,
  connect_socks, connect_request, has_200, connect_http, Route, direct, socks, http, route,
  connect_by, init_remote_server_socket,
}
use violet.Bypass.Remote.Dialogue.{Line, connects, says, told, dialogue, http_lines}

-- An effect that is a line or, of a message, a first part.
abbrev pub Part : Effect → Line → Type 0
Part (sent pieces) (says message) = (rest : List ℕ) × (message ≡ joined pieces ++ rest)
Part effect line = told effect ≡ line

-- The effects are the first lines of a dialogue. All but the last of them are whole.
abbrev pub Begins : List Effect → List Line → Type 0
Begins [] lines = Unit {0}
Begins (effect ∷ effects) [] = ⊥
Begins (effect ∷ effects) (line ∷ lines) =
    Part effect line × ((effects ≡ []) ⊎ ((told effect ≡ line) × Begins effects lines))

after_sent-Begins :
    (o : Status × List (List ℕ)) (message : List ℕ) (more : Outcome) (lines : List Line)
    → Part (sent o.1) (says message)
    → (o.0 ≡ finished → joined o.1 ≡ message)
    → Begins more.1 lines
    → Begins (after_sent o more).1 (says message ∷ lines)
after_sent-Begins (finished, pieces) message more lines part whole h =
    (part, inr (ap (λ m. says m) (whole refl), h))
after_sent-Begins (broken, pieces) message more lines part whole h = (part, inl refl)
after_sent-Begins (waiting, pieces) message more lines part whole h = (part, inl refl)

send_message-Begins :
    (call : Bool × List SendAnswer) (message : List ℕ) (more : Outcome) (lines : List Line)
    → Begins more.1 lines
    → Begins (send_message call message more).1 (says message ∷ lines)
unfolding send_message
send_message-Begins (timeout_set, answers) message more lines h =
    after_sent-Begins (send_string timeout_set whole_rest answers message) message more lines
      (send_string_part timeout_set whole_rest answers message)
      (send_string-whole timeout_set whole_rest answers message) h

after_reply-Begins :
    (reply : Status × List ℕ) (test : List ℕ → Bool) (more : Outcome) (lines : List Line)
    → Begins more.1 lines
    → Begins (after_reply reply test more).1 lines
after_reply-Begins (finished, message) test more lines h = elim (Bool-cases (test message)) [
  | inl e ↦ rw e h
  | inr e ↦ rw e tt
]
after_reply-Begins (broken, message) test more lines h = tt
after_reply-Begins (waiting, message) test more lines h = tt

connect_to-Begins :
    (n : Network) (ip : List ℕ) (port : ℕ) (more : Outcome) (lines : List Line)
    → Begins more.1 lines
    → Begins (connect_to n ip port more).1 (connects (c_str ip) port ∷ lines)
unfolding connect_to
connect_to-Begins n ip port more lines h = branches (n.valid (c_str ip)) n.connects
  where
    branches :
        (valid connects_ : Bool)
        → Begins
            (if valid
              then (if connects_ then before (connected (c_str ip) port) more else failure)
              else failure).1
            (connects (c_str ip) port ∷ lines)
    branches true true = (refl, inr (refl, h))
    branches true false = tt
    branches false connects_ = tt

connect_http-Begins :
    (n : Network) (is_https : Bool) (ip : List ℕ) (port : ℕ)
    → Begins (connect_http n is_https ip port).1 (http_lines is_https ip port)
unfolding connect_http
connect_http-Begins n false ip port = tt
connect_http-Begins n true ip port =
    send_message-Begins n.first_send (connect_request ip port)
      (after_reply (receive n.first_reply) has_200 (finished, [])) []
      (after_reply-Begins (receive n.first_reply) has_200 (finished, []) [] tt)

connect_socks-Begins :
    (n : Network) (ip : List ℕ) (port : ℕ)
    → Begins
        (connect_socks n ip port).1
        (says socks_hello ∷ says (socks_command (n.inet_addr (c_str ip)) port) ∷ [])
unfolding connect_socks
connect_socks-Begins n ip port =
    let command = socks_command (n.inet_addr (c_str ip)) port in
    let last = after_reply (receive n.second_reply) accepts (finished, []) in
    let asked = send_message n.second_send command last in
    send_message-Begins n.first_send socks_hello (after_reply (receive n.first_reply) accepts asked)
      (says command ∷ [])
      (after_reply-Begins (receive n.first_reply) accepts asked (says command ∷ []) (
        send_message-Begins n.second_send command last []
          (after_reply-Begins (receive n.second_reply) accepts (finished, []) [] tt)))

-- The lines behind the socket's opening.
abbrev rest_lines : List Line → List Line
rest_lines [] = []
rest_lines (line ∷ lines) = lines

connect_by-Begins :
    (s : Settings) (n : Network) (is_https : Bool) (ip : List ℕ) (port : ℕ) (r : Route)
    → Begins (opened ∷ (connect_by s n is_https ip port r).1) (dialogue s n is_https ip port r)
connect_by-Begins s n is_https ip port direct =
    (refl, inr (refl, connect_to-Begins n ip (u16 port) (finished, []) [] tt))
connect_by-Begins s n is_https ip port socks = (
  refl,
  inr (
    refl,
    connect_to-Begins n (proxy_ip s.socks5_server) (u16 (n.atoi (proxy_port s.socks5_server)))
        (connect_socks n ip port) _ (connect_socks-Begins n ip port),
  ),
)
connect_by-Begins s n is_https ip port http = (
  refl,
  inr (
    refl,
    connect_to-Begins n (proxy_ip s.http_proxy_server)
        (u16 (n.atoi (proxy_port s.http_proxy_server))) (connect_http n is_https ip port) _
        (connect_http-Begins n is_https ip port),
  ),
)

if_opened-Begins :
    (ok : Bool) (o : Outcome) (lines : List Line)
    → Begins (opened ∷ o.1) lines
    → Begins (if ok then before opened o else failure).1 lines
if_opened-Begins true o lines h = h
if_opened-Begins false o lines h = tt

-- Whatever the system and the proxy answer, for a host that is resolved init_remote_server_socket says
-- nothing out of turn: what the other side has heard when it returns, or waits, is a first part of
-- the dialogue of the route, in which a line is only begun when those before it are whole, and the
-- last message may be cut short.
pub init_remote_server_socket-Begins :
    (s : Settings) (n : Network) (host ip : List ℕ) (port : ℕ) (is_https : Bool)
    → resolve_host s n.resolver host (spaces 50) ≡ some ip
    → Begins
        (init_remote_server_socket s n host port is_https).1
        (dialogue s n is_https ip port (route s n.resolver host is_https))
unfolding init_remote_server_socket
init_remote_server_socket-Begins s n host ip port is_https found =
    let r = route s n.resolver host is_https in
    rw found (
      if_opened-Begins n.opens (connect_by s n is_https ip port r) (dialogue s n is_https ip port r)
        (connect_by-Begins s n is_https ip port r))
