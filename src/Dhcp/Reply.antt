-- ===== src/Dhcp/Reply.antt =====
-- What a DHCP client gets for a request.
use violet.Base.{
  ℕ, suc, zero, ◌≤◌, ◌≡◌, ◌≢◌, refl, ap, true, List, [], ◌∷◌, ◌++◌, arith, length, length-append,
  take, drop, All, All-append, IsByte, Memory, read_be32, bytes_at, length-bytes_at,
  bytes_at-IsByte, set_bytes,
}
use violet.Packet.{Tun, TunWrite, write_tun, ip4_header}
use violet.Packet.Checks.{HeaderVerifies, PayloadVerifies4, IsAddress4, four, header_parts}
use violet.Session.Types.{UdpSession}
use violet.Udp.{udp_packet, write_udp}
use violet.Udp.Verify.{datagram, udp_packet4, udp_packet-verifies}
use violet.Dhcp.{
  is_dhcp, is_discover, server_ip, offered_ip, zero_bytes, dhcp_options, dhcp_header, options_at,
  dhcp_response, check_dhcp,
}

-- Bytes stored behind a buffer's end are lost.
set_bytes-behind : (i : ℕ) (bytes xs : List ℕ) → length xs ≤ i → set_bytes i bytes xs ≡ xs
unfolding set_bytes
set_bytes-behind zero [] [] h = refl
set_bytes-behind zero (b ∷ bytes) [] h = refl
set_bytes-behind zero bytes (x ∷ xs) h = absurd (omega arith)
set_bytes-behind (suc i) bytes [] h = refl
set_bytes-behind (suc i) bytes (x ∷ xs) h =
    ap (λ r. x ∷ r) (set_bytes-behind i bytes xs (omega arith))

dhcp_header-size : (p : Memory) → length (dhcp_header p) ≡ 240
unfolding dhcp_header
dhcp_header-size p = simp (length-append, length-bytes_at)

response-size : (p : Memory) → length (dhcp_header p ++ zero_bytes 260) ≡ 500
response-size p = simp (length-append, length-bytes_at, dhcp_header-size)

-- The response is its header and zeros: no option is in it.
dhcp_response_plain : (p : Memory) → dhcp_response p ≡ dhcp_header p ++ zero_bytes 260
unfolding dhcp_response
dhcp_response_plain p =
    set_bytes-behind options_at (dhcp_options (is_discover p)) (dhcp_header p ++ zero_bytes 260)
      (omega (arith, response-size p))

-- The data of a UDP packet over IPv4.
abbrev pub data_of : List ℕ → List ℕ
data_of packet = drop 28 packet

data_of-udp_packet :
    (u : UdpSession) (bytes : List ℕ)
    → u.version ≡ 4
    → IsAddress4 u.saddr
    → IsAddress4 u.daddr
    → data_of (udp_packet u bytes) ≡ bytes
unfolding udp_packet ip4_header
data_of-udp_packet u bytes v hs hd =
    let (a, b, c, d, es) = four u.saddr hs.size in
    let (e, f, g, h, ed) = four u.daddr hd.size in simp (v, es, ed)

overwritten : (xs : List ℕ) → length xs ≡ 4 → set_bytes 0 server_ip xs ≡ server_ip
unfolding set_bytes
overwritten xs h = let (a, b, c, d, e) = four xs h in rw e refl

-- The fields of a response: the opcode is 2 for a request with no server address, and 4 for one with a
-- server address; the transaction and the hardware address are the request's, and 10.1.10.2 is offered.
-- Behind them there is no option, not even the message type.
pub record IsOffer (p : Memory) (body : List ℕ) : Type 0 where
  pub opcode_first : read_be32 p 20 ≡ 0 → take 1 body ≡ 2 ∷ []
  pub opcode_later : read_be32 p 20 ≢ 0 → take 1 body ≡ 4 ∷ []
  pub transaction : take 4 (drop 4 body) ≡ bytes_at 4 p 4
  pub offered : take 4 (drop 16 body) ≡ 10 ∷ 1 ∷ 10 ∷ 2 ∷ []
  pub hardware : take 16 (drop 28 body) ≡ bytes_at 16 p 28
  pub magic : take 4 (drop 236 body) ≡ bytes_at 4 p 236
  pub no_options : drop 240 body ≡ zero_bytes 260

response-IsOffer : (p : Memory) → IsOffer p (dhcp_header p ++ zero_bytes 260)
unfolding dhcp_header bytes_at
response-IsOffer p = record {
  opcode_first = λ e. rw e refl;
  opcode_later = λ ne. ground arith;
  transaction = refl;
  offered = refl;
  hardware = refl;
  magic = refl;
  no_options = refl;
}

response-IsByte :
    (p : Memory) → ((i : ℕ) → IsByte (p i)) → All IsByte (dhcp_header p ++ zero_bytes 260)
unfolding dhcp_header
response-IsByte p b =
    let zeros : (n : ℕ) → All IsByte (zero_bytes n) =
      λ n. bytes_at-IsByte n (λ i. 0) 0 (λ i. omega arith) in
    let bytes : (n i : ℕ) → All IsByte (bytes_at n p i) = λ n i. bytes_at-IsByte n p i b in
    let addresses =
      All-append IsByte offered_ip (server_ip ++ (zero_bytes 4 ++ bytes_at 212 p 28)) (omega arith)
        (All-append IsByte server_ip (zero_bytes 4 ++ bytes_at 212 p 28) (omega arith)
          (All-append IsByte (zero_bytes 4) (bytes_at 212 p 28) (zeros 4) (bytes 212 28))) in
    All-append IsByte (dhcp_header p) (zero_bytes 260)
      (
        ground arith,
        All-append IsByte (bytes_at 7 p 1) _ (bytes 7 1)
            (All-append IsByte (zero_bytes 8) _ (zeros 8) addresses),
      )
      (zeros 260)

-- A request that passes the checks, on an IPv4 session, is answered by one packet whose checksums
-- verify. It goes from the address that the client asked to 10.1.10.1, which the session has as its
-- own address from then on. It offers 10.1.10.2, with the opcode 2, or 4 when the request names a
-- server, and has no options.
pub check_dhcp-IsOffer :
    (dev : TunWrite) (u : UdpSession) (p : Memory) (datalen : ℕ) (log : Tun)
    → u.version ≡ 4
    → IsAddress4 u.saddr
    → IsAddress4 u.daddr
    → ((i : ℕ) → IsByte (p i))
    → is_dhcp p datalen ≡ true
    → p 0 ≡ 1
    → (packet : List ℕ) × ((check_dhcp dev u p datalen log).1.saddr ≡ server_ip)
      × ((check_dhcp dev u p datalen log).2 ≡ packet ∷ log)
      × HeaderVerifies packet
      × PayloadVerifies4 packet
      × (take 4 (drop 12 packet) ≡ u.daddr)
      × (take 4 (drop 16 packet) ≡ server_ip)
      × IsOffer p (data_of packet)
unfolding check_dhcp write_udp write_tun
check_dhcp-IsOffer dev u p datalen log v hs hd b ok op =
    let u' = record u { saddr = server_ip } in
    let body = dhcp_header p ++ zero_bytes 260 in
    let ip : IsAddress4 server_ip = record { size = refl; bytes = omega arith } in
    let (head, payload) =
      udp_packet-verifies u' body v ip hd (response-IsByte p b) (omega (arith, response-size p)) in
    let (from, to, rest) = header_parts _ 17 u.daddr server_ip (datagram u' body) hd.size refl in
    (
      udp_packet u' body,
      rw (ok, op) (overwritten u.saddr hs.size),
      rw (ok, op, overwritten u.saddr hs.size, dhcp_response_plain p) refl,
      head,
      payload,
      rw (udp_packet4 u' body v) from,
      rw (udp_packet4 u' body v) to,
      rw (data_of-udp_packet u' body v ip hd) (response-IsOffer p),
    )
