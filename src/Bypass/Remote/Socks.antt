-- ===== src/Bypass/Remote/Socks.antt =====
-- The SOCKS5 messages of init_remote_server_socket as a proxy reads them, by RFC 1928.
use violet.Base.{
  ℕ, zero, suc, ◌+◌, ◌*◌, ◌/◌, ◌%◌, ◌≡◌, refl, Bool, true, false, ◌&&◌, Option, none, some, List,
  [], ◌∷◌, ◌++◌, map, arith, ◌==◌, if◌then◌else◌, drop, IsByte,
}
use violet.Bypass.Socket.{finished}
use violet.Bypass.Resolve.{Settings, spaces, resolve_host}
use violet.Bypass.Remote.{
  Network, c_str, socks_hello, socks_command, socks, route, init_remote_server_socket,
}
use violet.Bypass.Remote.Dialogue.{
  Line, opens, connects, says, told, init_remote_server_socket-Dialogue,
}

-- All that is said, as one stream.
abbrev pub stream : List Line → List ℕ
stream [] = []
stream (opens ∷ lines) = stream lines
stream (connects ip port ∷ lines) = stream lines
stream (says bytes ∷ lines) = bytes ++ stream lines

abbrev pub Target : Type 0
Target = ℕ × ℕ × ℕ × ℕ × ℕ

-- The request: version 5, CONNECT, a reserved byte, and an address of version 4 with a port.
unfoldable pub read_request : List ℕ → Option Target
read_request (v ∷ command ∷ reserved ∷ kind ∷ a ∷ b ∷ c ∷ d ∷ hi ∷ lo ∷ []) =
    if v == 5 && (command == 1 && (reserved == 0 && kind == 1))
    then some (a, b, c, d, hi * 256 + lo)
    else none
read_request _ = none

abbrev pub offers_none : ℕ → List ℕ → Bool
offers_none zero bytes = false
offers_none (suc n) [] = false
offers_none (suc n) (method ∷ bytes) =
    let rest = offers_none n bytes in if method == 0 then true else rest

-- The greeting, version 5 and a counted list of methods in which there is the one without a password,
-- and then the request.
unfoldable pub read_socks : List ℕ → Option Target
unfolding read_request
read_socks (v ∷ count ∷ bytes) =
    if v == 5 && offers_none count bytes then read_request (drop count bytes) else none
read_socks _ = none

socks_command-read_socks :
    (a b c d port n : ℕ)
    → IsByte a
    → IsByte b
    → IsByte c
    → IsByte d
    → n ≡ a + b * 256 + c * 65536 + d * 16777216
    → read_socks (socks_hello ++ (socks_command n port ++ [])) ≡ some (a, b, c, d, port % 65536)
unfolding read_socks
socks_command-read_socks a b c d port n ha hb hc hd bits =
    let e0 : n % 256 ≡ a = omega arith in
    let e1 : n / 256 % 256 ≡ b = omega arith in
    let e2 : n / 65536 % 256 ≡ c = omega arith in
    let e3 : n / 16777216 % 256 ≡ d = omega arith in
    let port_ : port / 256 % 256 * 256 + port % 256 ≡ port % 65536 = omega arith in
    rw (e0, e1, e2, e3, port_) refl

-- On the route through a SOCKS5 proxy, when init_remote_server_socket succeeds, a proxy that reads by
-- RFC 1928 what has been sent to it finds a greeting that it can accept and a request for the four
-- bytes of the address that the host was resolved to and for the port, modulo 2 ^ 16. The hypothesis on
-- inet_addr is that it gives the address as it stands in the memory of a little-endian machine.
pub init_remote_server_socket-read_socks :
    (s : Settings) (n : Network) (host ip : List ℕ) (port : ℕ) (is_https : Bool) (a b c d : ℕ)
    → (init_remote_server_socket s n host port is_https).0 ≡ finished
    → route s n.resolver host is_https ≡ socks
    → resolve_host s n.resolver host (spaces 50) ≡ some ip
    → IsByte a
    → IsByte b
    → IsByte c
    → IsByte d
    → n.inet_addr (c_str ip) ≡ a + b * 256 + c * 65536 + d * 16777216
    → read_socks (stream (map told (init_remote_server_socket s n host port is_https).1))
      ≡ some (a, b, c, d, port % 65536)
init_remote_server_socket-read_socks s n host ip port is_https a b c d h by found ha hb hc hd bits =
    let (ip', e, lines, _) = init_remote_server_socket-Dialogue s n host port is_https h in
    let same : ip' ≡ ip = cc in
    rw (lines, by, same)
      (socks_command-read_socks a b c d port (n.inet_addr (c_str ip)) ha hb hc hd bits)
