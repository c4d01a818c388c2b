-- ===== src/Dhcp.antt =====
-- dhcp.c: the answer to a DHCP request of a tethered host. `data_` is the memory behind `data`.
pub mod Reply
use violet.Base.{
  ℕ, ◌*◌, Bool, true, false, ◌&&◌, not, List, [], ◌∷◌, ◌++◌, Memory, bytes_at, read_be32, set_bytes,
  ltb, ◌==◌, if◌then◌else◌, le32,
}
use violet.Packet.{Tun, TunWrite}
use violet.Session.Types.{UdpSession}
use violet.Udp.{write_udp}

-- sizeof(struct dhcp_packet).
abbrev pub dhcp_size : ℕ
dhcp_size = 240

-- DHCP_OPTION_MAGIC_NUMBER, the hardware type and the length of its address.
abbrev pub is_dhcp : Memory → ℕ → Bool
is_dhcp data_ datalen =
    not (ltb datalen dhcp_size)
    && (read_be32 data_ 236 == 0x63825363 && (data_ 1 == 1 && data_ 2 == 6))

-- `request->siaddr == 0`.
abbrev pub is_discover : Memory → Bool
is_discover data_ = read_be32 data_ 20 == 0

abbrev pub server_ip : List ℕ
server_ip = 10 ∷ 1 ∷ 10 ∷ 1 ∷ []

abbrev pub offered_ip : List ℕ
offered_ip = 10 ∷ 1 ∷ 10 ∷ 2 ∷ []

abbrev pub zero_bytes : ℕ → List ℕ
zero_bytes n = bytes_at n (λ i. 0) 0

-- The message type, the subnet mask, the gateway, the lease time, the server and its DNS server.
unfoldable pub dhcp_options : Bool → List ℕ
dhcp_options discover =
    53 ∷ 1 ∷ (if discover then 2 else 5) ∷ 1 ∷ 4 ∷ 255 ∷ 255 ∷ 255 ∷ 0 ∷ 3 ∷ 4 ∷ server_ip
    ++ (51 ∷ 4 ∷ le32 3600 ++ (54 ∷ 4 ∷ server_ip ++ (6 ∷ 4 ∷ 8 ∷ 8 ∷ 8 ∷ 8 ∷ 255 ∷ [])))

-- The struct at the start of the response. The fields from `secs` to `giaddr` are the bytes 8 to 27.
unfoldable pub dhcp_header : Memory → List ℕ
dhcp_header data_ =
    (if is_discover data_ then 2 else 4) ∷ bytes_at 7 data_ 1
    ++ (zero_bytes 8 ++ (offered_ip ++ (server_ip ++ (zero_bytes 4 ++ bytes_at 212 data_ 28))))

-- Where the options are written: `response + sizeof(struct dhcp_packet)` counts in structs.
abbrev pub options_at : ℕ
options_at = dhcp_size * dhcp_size

-- The 500 bytes of calloc that are sent. Bytes stored behind them are not part of the response.
unfoldable pub dhcp_response : Memory → List ℕ
dhcp_response data_ =
    set_bytes options_at (dhcp_options (is_discover data_)) (dhcp_header data_ ++ zero_bytes 260)

-- The result: whether the answer is not -1, the session, whose own address inet_pton overwrites, and
-- the device's log.
unfoldable pub check_dhcp : TunWrite → UdpSession → Memory → ℕ → Tun → Bool × UdpSession × Tun
check_dhcp dev u data_ datalen log =
    let u' = record u { saddr = set_bytes 0 server_ip u.saddr } in
    if is_dhcp data_ datalen
    then (if data_ 0 == 1
        then (true, u', (write_udp dev u' (dhcp_response data_) log).1)
        else (true, u, log))
    else (false, u, log)
