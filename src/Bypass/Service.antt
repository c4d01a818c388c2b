-- ===== src/Bypass/Service.antt =====
-- The calls from Java in dpi-bypass.cpp, init, acceptClient and deInit; and parse_hostlist of
-- hostlist.cpp.
pub mod Children
use violet.Base.{
  ℕ, Bool, true, false, Option, none, some, List, [], ◌∷◌, ◌++◌, map, codes, if◌then◌else◌,
}
use violet.Bypass.Packet.{HttpSettings}
use violet.Bypass.Resolve.{Settings}

-- getBoolean and getString of SharedPreferences, and atoi of such a text.
pub record Preferences : Type 0 where
  pub get_boolean : List ℕ → Bool
  pub get_string : List ℕ → List ℕ
  pub atoi : List ℕ → ℕ

pub record AllSettings : Type 0 where
  pub shared : Settings
  pub http : HttpSettings
  pub https_is_use_split : Bool
  pub https_split_position : ℕ
  pub http_is_use_split : Bool
  pub http_split_position : ℕ
  pub bind_port : ℕ

abbrev pub shared_settings : Preferences → Settings
shared_settings p = record {
  is_use_hostlist = p.get_boolean (codes "other_hostlist");
  is_use_vpn = p.get_boolean (codes "other_vpn_setting");
  is_use_doh = p.get_boolean (codes "dns_doh");
  is_use_doh_only_for_site_in_hostlist = p.get_boolean (codes "dns_doh_hostlist");
  dns_doh_servers = p.get_string (codes "dns_doh_server");
  https_is_use_socks5 = p.get_boolean (codes "https_socks5");
  http_is_use_socks5 = p.get_boolean (codes "http_socks5");
  https_is_use_http_proxy = p.get_boolean (codes "https_http_proxy");
  http_is_use_http_proxy = p.get_boolean (codes "http_http_proxy");
  socks5_server = p.get_string (codes "other_socks5");
  http_proxy_server = p.get_string (codes "other_http_proxy");
}

abbrev pub http_settings : Preferences → HttpSettings
http_settings p = record {
  is_use_http_proxy = p.get_boolean (codes "http_http_proxy");
  is_change_host_header = p.get_boolean (codes "http_header_switch");
  host_header = p.get_string (codes "http_header_spell");
  is_add_dot_after_host = p.get_boolean (codes "http_dot");
  is_add_tab_after_host = p.get_boolean (codes "http_tab");
  is_remove_space_after_host = p.get_boolean (codes "http_space_host");
  is_add_space_after_method = p.get_boolean (codes "http_space_method");
  is_add_newline_before_method = p.get_boolean (codes "http_newline_method");
  is_use_unix_newline = p.get_boolean (codes "http_unix_newline");
}

unfoldable pub read_settings : Preferences → AllSettings
read_settings p = record {
  shared = shared_settings p;
  http = http_settings p;
  https_is_use_split = p.get_boolean (codes "https_split");
  https_split_position = p.atoi (p.get_string (codes "https_split_position"));
  http_is_use_split = p.get_boolean (codes "http_split");
  http_split_position = p.atoi (p.get_string (codes "http_split_position"));
  bind_port = p.atoi (p.get_string (codes "other_bind_port"));
}

-- What fork returns to the parent: -1, or the number of the child.
pub data Fork : Type 0 where
  fork_failed : Fork
  child : ℕ → Fork

-- The globals, with what the process holds: the sockets of clients that it has accepted and not
-- closed, and the children with the socket that each serves. Lists go from the first to the last.
pub record Service : Type 0 where
  pub settings : Option AllSettings
  pub server_socket : Option ℕ
  pub server_open : Bool
  pub child_processes : List Fork
  pub client_sockets : List ℕ
  pub serving : List (ℕ × ℕ)

-- Whether the file opens; its text is read and dropped.
unfoldable pub parse_hostlist : (opens : Bool) → Bool
parse_hostlist opens = opens

-- What init meets: whether the class and its methods are found, the preferences, whether the host list
-- opens, the socket, and whether setsockopt, bind and listen succeed.
pub record Start : Type 0 where
  pub found : Bool
  pub preferences : Preferences
  pub hostlist_opens : Bool
  pub socket : Option ℕ
  pub option_set : Bool
  pub bound : Bool
  pub listens : Bool

abbrev pub open_server : Start → Service → Option ℕ → Bool × Service
open_server x s none = (false, s)
open_server x s (some socket) =
    let opened = record s { server_socket = some socket; server_open = true } in
    (if x.option_set then (if x.bound then x.listens else false) else false, opened)

-- Whether it answers 0. A socket that is opened stays open also where a later call fails.
unfoldable pub init : Start → Service → Bool × Service
init x s =
    let cleared = record s { child_processes = [] } in
    if x.found
    then (let a = read_settings x.preferences in
        let set = record cleared { settings = some a } in
        if a.shared.is_use_hostlist
        then (if parse_hostlist x.hostlist_opens then open_server x set x.socket else (false, set))
        else open_server x set x.socket)
    else (false, cleared)

abbrev pub serve_client : ℕ → Fork → Service → Service
serve_client socket fork_failed s = record s {
  child_processes = s.child_processes ++ (fork_failed ∷ []);
  client_sockets = s.client_sockets ++ (socket ∷ []);
}
serve_client socket (child pid) s = record s {
  child_processes = s.child_processes ++ (child pid ∷ []);
  client_sockets = s.client_sockets ++ (socket ∷ []);
  serving = s.serving ++ ((pid, socket) ∷ []);
}

-- `accepted` is what accept gives. The child runs process_client; the parent keeps the socket.
unfoldable pub accept_client : (accepted : Option ℕ) → Fork → Service → Service
accept_client none forked s = s
accept_client (some socket) forked s = serve_client socket forked s

-- Whom kill signals: one process, or for the number -1 every one that it may.
pub data Signalled : Type 0 where
  process : ℕ → Signalled
  every_process : Signalled

abbrev pub kill : Fork → Signalled
kill fork_failed = every_process
kill (child pid) = process pid

-- The processes that are killed, and the service, whose socket is closed if close succeeds.
unfoldable pub de_init : (closed : Bool) → Service → List Signalled × Service
de_init closed s =
    (map kill s.child_processes, record s { server_open = if closed then false else s.server_open })
