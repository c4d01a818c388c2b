-- ===== src/Bypass/Proxy.antt =====
-- dpi-bypass.cpp: process_client, proxy_http and proxy_https; and parse_request of packet.cpp. What the
-- sockets give is a list of exchanges, and what the proxy does a list of actions.
pub mod Splits
use violet.Base.{
  ℕ, suc, ◌+◌, ◌-◌, ◌*◌, Bool, true, false, ◌&&◌, Option, none, some, List, [], ◌∷◌, ◌++◌, ◌==◌,
  if◌then◌else◌, length, take, drop, codes,
}
use violet.Bypass.Packet.{find, has_prefix, replace}

-- One turn of a proxy's loop: what recv_string gives from the client and from the server, and whether
-- send_string succeeds to the server and to the client.
pub record Exchange : Type 0 where
  pub request : Option (List ℕ)
  pub to_server : Bool
  pub response : Option (List ℕ)
  pub to_client : Bool

-- A send to the server, split or not, and one to the client; both sockets closed; an exception, which
-- ends the process; the client's socket closed alone; and a connection to the server that fails.
pub data Action : Type 0 where
  sends : (split : Bool) → List ℕ → Action
  answers : List ℕ → Action
  closes raises closes_client refused : Action

-- From the answer of the server on. `more` is the rest of the loop.
abbrev pub deliver : Bool → Option (List ℕ) → List Action → List Action
deliver ok none more = closes ∷ []
deliver ok (some response) more = answers response ∷ (if ok then more else closes ∷ [])

abbrev pub exchange : Exchange → Bool → List ℕ → List Action → List Action
exchange x split request more =
    sends split request ∷ (if x.to_server then deliver x.to_client x.response more else closes ∷ [])

-- proxy_https, with a socket to the server. `listed` is `hostlist_condition`, and `hello`
-- `is_clienthello_request`. A list that ends is a proxy that still waits.
unfoldable pub https_loop :
    (listed is_use_split is_use_vpn hello : Bool) → List Exchange → List Action
https_loop listed is_use_split is_use_vpn hello [] = []
https_loop listed is_use_split is_use_vpn hello (x ∷ rest) =
    let split = listed && (is_use_split && hello) in
    let more =
      https_loop listed is_use_split is_use_vpn (if split then is_use_vpn else hello) rest in
    elim x.request [ none ↦ closes ∷ [] | some request ↦ exchange x split request more ]

abbrev pub modified : Exchange → Bool → Option (List ℕ) → List Action → List Action
modified x split none more = raises ∷ []
modified x split (some request) more = exchange x split request more

-- proxy_http, with a socket to the server: the first exchange has the request that was parsed, and is
-- handled by the same statements as those of the loop. `modify` is modify_http_request.
unfoldable pub http_loop : (split : Bool) → (List ℕ → Option (List ℕ)) → List Exchange → List Action
http_loop split modify [] = []
http_loop split modify (x ∷ rest) =
    let more = http_loop split modify rest in
    elim x.request [ none ↦ closes ∷ [] | some request ↦ modified x split (modify request) more ]

-- std::stoi of the digits behind the colon, of which there are five at most.
abbrev pub decimal : ℕ → List ℕ → ℕ
decimal n [] = n
decimal n (d ∷ digits) = decimal (n * 10 + (d - 48)) digits

pub record Parsed : Type 0 where
  pub method : List ℕ
  pub host : List ℕ
  pub port : ℕ

abbrev pub without_www : List ℕ → List ℕ
without_www url = elim (find (codes "www.") url) [ none ↦ url | some i ↦ replace url i 4 [] ]

abbrev pub host_and_port : List ℕ → List ℕ → Parsed
host_and_port method url = elim (find (58 ∷ []) url) [
  | none ↦ record {
    method = method;
    host = url;
    port = if has_prefix (codes "CONNECT") method && length method == 7 then 443 else 80;
  }
  | some i ↦ record { method = method; host = take i url; port = decimal 0 (drop (i + 1) url) }
]

abbrev pub parse_found : List ℕ → Option (List ℕ) → Option Parsed
parse_found method none = none
parse_found method (some url) = some (host_and_port method (without_www url))

-- `search` is the regular expression for a host with a port; `none` is -1.
unfoldable pub parse_request : (List ℕ → Option (List ℕ)) → List ℕ → Option Parsed
parse_request search request = elim (find (32 ∷ []) request) [
  | none ↦ none
  | some i ↦ parse_found (take i request) (search request)
]

-- A proxy with no socket to the server returns at once.
abbrev pub if_connected : Bool → List Action → List Action
if_connected connected actions = if connected then actions else refused ∷ []

-- When a proxy has returned, process_client closes the client's socket, also where the proxy has.
abbrev pub then_close : List Action → List Action
then_close [] = []
then_close (closes ∷ rest) = closes ∷ closes_client ∷ []
then_close (refused ∷ rest) = refused ∷ closes_client ∷ []
then_close (raises ∷ rest) = raises ∷ []
then_close (action ∷ rest) = action ∷ then_close rest

-- process_client behind the parsing; `established` is whether the response to CONNECT is sent. `https`
-- and `http` are what the two proxies do for a host and a port.
abbrev pub serve :
    (established : Bool)
    → (List ℕ → ℕ → List Action)
    → (List ℕ → ℕ → List Action)
    → Option Parsed
    → List Action
serve established https http none = closes_client ∷ []
serve established https http (some r) =
    if has_prefix (codes "CONNECT") r.method && length r.method == 7
    then (if established
        then answers (codes "HTTP/1.1 200 Connection established" ++ (13 ∷ 10 ∷ 13 ∷ 10 ∷ []))
          ∷ then_close (https r.host r.port)
        else closes_client ∷ [])
    else then_close (http r.host r.port)
