-- ===== src/Bypass/Resolve.antt =====
-- dns.cpp: resolve_host over DNS and over DNS over HTTPS; and find_in_hostlist of hostlist.cpp. What
-- Java and the system answer is a parameter; a std::string is the list of its bytes.
pub mod Servers
pub mod Texts
use violet.Base.{
  ℕ, zero, suc, ◌+◌, Bool, true, false, ◌&&◌, Option, none, some, List, [], ◌∷◌, ◌++◌, ◌==◌,
  if◌then◌else◌, length, take, drop,
}
use violet.Bypass.Packet.{find}

-- The settings that decide how a host is resolved and how it is reached.
pub record Settings : Type 0 where
  pub is_use_hostlist : Bool
  pub is_use_vpn : Bool
  pub is_use_doh : Bool
  pub is_use_doh_only_for_site_in_hostlist : Bool
  pub dns_doh_servers : List ℕ
  pub https_is_use_socks5 : Bool
  pub http_is_use_socks5 : Bool
  pub https_is_use_http_proxy : Bool
  pub http_is_use_http_proxy : Bool
  pub socks5_server : List ℕ
  pub http_proxy_server : List ℕ

-- What is asked of the system and of Java: whether inet_pton takes a text for an address; whether
-- the class and the method are found, and the text that the method gives, for makeDOHRequest by the
-- number of the call; and the list that getaddrinfo gives, each address with whether it is of version
-- 4 and with the text that inet_ntop writes for it.
pub record Resolver : Type 0 where
  pub is_ip : List ℕ → Bool
  pub hostname_found : Bool
  pub get_hostname : List ℕ → List ℕ
  pub doh_found : Bool
  pub make_doh_request : ℕ → List ℕ → List ℕ → List ℕ
  pub getaddrinfo : List ℕ → Option (List (Bool × List ℕ))

-- The search in the list is commented out, so that each way ends in the answer 0.
abbrev search_hostlist : List ℕ → Bool
search_hostlist [] = false
search_hostlist (c ∷ host) = false

unfoldable pub find_in_hostlist : Settings → Resolver → List ℕ → Bool
find_in_hostlist s r host =
    if s.is_use_vpn && r.is_ip host
    then (if r.hostname_found then search_hostlist (r.get_hostname host) else false)
    else search_hostlist host

-- The lines that std::getline takes off a stream.
abbrev first_line : ℕ → List (List ℕ) → List (List ℕ)
first_line c [] = (c ∷ []) ∷ []
first_line c (line ∷ rest) = (c ∷ line) ∷ rest

unfoldable pub lines : List ℕ → List (List ℕ)
lines [] = []
lines (c ∷ text) = if c == 10 then [] ∷ lines text else first_line c (lines text)

-- An empty response is a failure, and the next server is asked.
abbrev pub or_next : List ℕ → Option (List ℕ) → Option (List ℕ)
or_next [] next = next
or_next (c ∷ response) next = some (c ∷ response)

unfoldable pub ask_servers :
    (ℕ → List ℕ → List ℕ → List ℕ) → List ℕ → ℕ → List (List ℕ) → Option (List ℕ)
ask_servers ask host n [] = none
ask_servers ask host n (server ∷ servers) =
    or_next (ask n server host) (ask_servers ask host (n + 1) servers)

unfoldable pub resolve_host_over_doh : Settings → Resolver → List ℕ → Option (List ℕ)
unfolding ask_servers lines
resolve_host_over_doh s r host =
    if r.doh_found then ask_servers r.make_doh_request host 0 (lines s.dns_doh_servers) else none

-- std::string(50, ' '), which the caller gives for `ip`.
abbrev pub spaces : ℕ → List ℕ
spaces zero = []
spaces (suc n) = 32 ∷ spaces n

-- inet_ntop writes the text with its NUL over the string, which is then cut at the first space.
abbrev pub cut_at_space : List ℕ → List ℕ
cut_at_space ip = elim (find (32 ∷ []) ip) [ none ↦ ip | some i ↦ take i ip ]

abbrev pub write_text : List ℕ → List ℕ → List ℕ
write_text text ip = cut_at_space (text ++ (0 ∷ drop (suc (length text)) ip))

abbrev first_address : List (Bool × List ℕ) → List ℕ → Option (List ℕ)
first_address [] ip = none
first_address ((is_inet, text) ∷ rest) ip =
    if is_inet then some (write_text text ip) else first_address rest ip

unfoldable pub resolve_host_over_dns : Resolver → List ℕ → List ℕ → Option (List ℕ)
resolve_host_over_dns r host ip = elim (r.getaddrinfo host) [
  | none ↦ none
  | some addresses ↦ first_address addresses ip
]

-- Whether DNS over HTTPS is chosen for a host.
unfoldable pub uses_doh : Settings → Resolver → List ℕ → Bool
unfolding find_in_hostlist
uses_doh s r host =
    s.is_use_doh
    && (if s.is_use_hostlist
        then (if s.is_use_doh_only_for_site_in_hostlist then find_in_hostlist s r host else true)
        else true)

-- `none` is -1. `ip` is what the caller's string holds before.
unfoldable pub resolve_host : Settings → Resolver → List ℕ → List ℕ → Option (List ℕ)
resolve_host s r host ip =
    if r.is_ip host
    then some host
    else if uses_doh s r host
    then resolve_host_over_doh s r host
    else resolve_host_over_dns r host ip
