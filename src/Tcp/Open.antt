-- ===== src/Tcp/Open.antt =====
-- open_tcp_socket of tcp.c. The system calls are arguments: what they answer decides the result.
use violet.Base.{ℕ, Bool, false, ◌&&◌, ◌||◌, Option, none, some, List, [], ◌∷◌, ◌==◌, if◌then◌else◌}
use violet.Tcp.Types.{TcpSession}

-- struct allowed: the proxy's address as text, and its port.
pub record Allowed : Type 0 where
  pub raddr : List ℕ
  pub rport : ℕ

-- Where connect goes: the session's own peer, or the proxy, whose address is read by inet_pton.
pub data Target : Type 0 where
  peer : (version : ℕ) → (addr : List ℕ) → (port : ℕ) → Target
  proxy : (version : ℕ) → (raddr : List ℕ) → (port : ℕ) → Target

-- What socket, protect_socket, the two fcntl calls and connect answer. A connect that is in
-- progress counts as a success.
pub record SocketCalls : Type 0 where
  pub socket : (version : ℕ) → Option ℕ
  pub protect : ℕ → Bool
  pub non_blocking : ℕ → Bool
  pub connect : ℕ → Target → Bool

-- strstr(raddr, ":") == NULL ? 4 : 6.
pub has_colon : List ℕ → Bool
has_colon [] = false
has_colon (c ∷ cs) = c == 58 || has_colon cs

-- Only the ports 80 and 443 go through the proxy.
unfoldable pub target_of : TcpSession → Allowed → Target
unfolding has_colon
target_of cur redirect =
    if cur.dest == 80 || cur.dest == 443
    then proxy (if has_colon redirect.raddr then 6 else 4) redirect.raddr redirect.rport
    else peer cur.version cur.daddr cur.dest

abbrev pub version_of : Target → ℕ
version_of (peer version addr port) = version
version_of (proxy version raddr port) = version

abbrev pub set_up : SocketCalls → Target → Option ℕ → Option ℕ
set_up os target none = none
set_up os target (some sock) =
    if os.protect sock && (os.non_blocking sock && os.connect sock target) then some sock else none

-- The socket is made for IPv4 when the version is 4, and else for IPv6.
unfoldable pub open_tcp_socket : SocketCalls → TcpSession → Allowed → Option ℕ
unfolding target_of
open_tcp_socket os cur redirect =
    let target = target_of cur redirect in
    set_up os target (os.socket (if version_of target == 4 then 4 else 6))
