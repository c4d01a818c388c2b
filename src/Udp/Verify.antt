-- ===== src/Udp/Verify.antt =====
-- A datagram written to the tun device passes the checks of its receiver.
use mathlib.Core.List.{append_assoc}
use violet.Base.{
  ℕ, ◌+◌, ◌%◌, ◌≤◌, ◌<◌, ◌≡◌, ap, ◌∙◌, List, [], ◌∷◌, ◌++◌, arith, length, length-append, All,
  All-append, IsByte, le16,
}
use violet.Util.Checksum.{calc_checksum}
use violet.Util.Checksum.Laws.{words, checksum_field, words_bound, calc_checksum-append}
use violet.Packet.{pseudo4, ip4_header, not16}
use violet.Packet.Checks.{
  HeaderVerifies, PayloadVerifies4, IsAddress4, ip4_header-verifies, payload_verifies,
  pseudo4-IsByte,
}
use violet.Session.Types.{UdpSession}
use violet.Udp.{udp_front, udp_checksum, udp_packet}

front_bytes : (u : UdpSession) (size : ℕ) → All IsByte (udp_front u size)
front_bytes u size = ground arith

regroup :
    (ps front bytes : List ℕ)
    → (ps ++ (front ++ (0 ∷ 0 ∷ []))) ++ bytes ≡ (ps ++ front) ++ (0 ∷ 0 ∷ bytes)
regroup ps front bytes = simp append_assoc

regroup_filled :
    (ps front check bytes : List ℕ)
    → ps ++ (front ++ (check ++ bytes)) ≡ (ps ++ front) ++ (check ++ bytes)
regroup_filled ps front check bytes = simp append_assoc

module _ (u : UdpSession) (size : ℕ) (bytes ps : List ℕ) (hb : All IsByte bytes)
    (hp : All IsByte ps) (ep : length ps % 2 ≡ 0) (fit : length ps + length bytes ≤ 65500) where
  abbrev front : List ℕ
  front = udp_front u size

  -- Three calls in a chain are one call on the pieces joined.
  chain-joined :
      calc_checksum (calc_checksum (calc_checksum 0 ps) (front ++ (0 ∷ 0 ∷ []))) bytes
      ≡ calc_checksum 0 ((ps ++ front) ++ (0 ∷ 0 ∷ bytes))
  chain-joined =
      let l = length-append ps (front ++ (0 ∷ 0 ∷ [])) in
      let hf : All IsByte (front ++ (0 ∷ 0 ∷ [])) = omega (arith, front_bytes u size) in
      let b = All-append IsByte ps (front ++ (0 ∷ 0 ∷ [])) hp hf in
      rw
        (
          calc_checksum-append 0 ps (front ++ (0 ∷ 0 ∷ [])) (omega arith) hp hf (omega arith) ep,
          calc_checksum-append 0 (ps ++ (front ++ (0 ∷ 0 ∷ []))) bytes (omega arith) b hb
              (omega arith) (omega arith),
        )
        (ap (calc_checksum 0) (regroup ps front bytes))

  fits : 0 + words (ps ++ front) + words bytes < 4294901760
  fits =
      let wf = words_bound (ps ++ front) (All-append IsByte ps front hp (front_bytes u size)) in
      omega (arith, words_bound bytes hb, length-append ps front)

  abbrev chain : ℕ
  chain = calc_checksum (calc_checksum (calc_checksum 0 ps) (front ++ (0 ∷ 0 ∷ []))) bytes

  pub datagram_verifies : calc_checksum 0 (ps ++ (front ++ (le16 (not16 chain) ++ bytes))) ≡ 65535
  datagram_verifies =
      ap (calc_checksum 0) (regroup_filled ps front (le16 (not16 chain)) bytes)
      ∙ rw chain-joined
          (checksum_field 0 (ps ++ front) bytes fits (omega (arith, length-append ps front)))

abbrev pub datagram : UdpSession → List ℕ → List ℕ
datagram u bytes = udp_front u (8 + length bytes) ++ (le16 (not16 (udp_checksum u bytes)) ++ bytes)

udp_checksum4 :
    (u : UdpSession) (bytes : List ℕ)
    → All IsByte bytes
    → u.version ≡ 4
    → IsAddress4 u.saddr
    → IsAddress4 u.daddr
    → length bytes ≤ 65400
    → calc_checksum 0 (pseudo4 u.daddr u.saddr 17 (8 + length bytes) ++ datagram u bytes) ≡ 65535
unfolding udp_checksum
udp_checksum4 u bytes hb v hs hd fit =
    let size = 8 + length bytes in
    let (by, l) = pseudo4-IsByte u.daddr u.saddr 17 size hd hs (omega arith) in
    simp v (
      datagram_verifies u size bytes (pseudo4 u.daddr u.saddr 17 size) hb by (omega arith)
        (omega arith))

pub udp_packet4 :
    (u : UdpSession) (bytes : List ℕ)
    → u.version ≡ 4
    → udp_packet u bytes
      ≡ ip4_header (20 + (8 + length bytes)) 17 u.daddr u.saddr ++ datagram u bytes
unfolding udp_packet
udp_packet4 u bytes v = simp v

-- Every datagram that write_udp builds for an IPv4 session passes its receiver's checks: the IP
-- header's checksum comes out as 0xFFFF, and so does that of the datagram with the pseudo header that
-- the packet's own fields give. The addresses have 4 bytes, and the data fits the packet.
pub udp_packet-verifies :
    (u : UdpSession) (bytes : List ℕ)
    → u.version ≡ 4
    → IsAddress4 u.saddr
    → IsAddress4 u.daddr
    → All IsByte bytes
    → length bytes ≤ 65400
    → HeaderVerifies (udp_packet u bytes) × PayloadVerifies4 (udp_packet u bytes)
udp_packet-verifies u bytes v hs hd hb fit = rw (udp_packet4 u bytes v) (
  ip4_header-verifies _ 17 u.daddr u.saddr (datagram u bytes) (omega arith) hd hs,
  payload_verifies (20 + (8 + length bytes)) 17 (8 + length bytes) u.daddr u.saddr
      (datagram u bytes) hd hs (omega arith) (udp_checksum4 u bytes hb v hs hd fit),
)
