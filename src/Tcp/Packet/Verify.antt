-- ===== src/Tcp/Packet/Verify.antt =====
-- A segment written to the tun device passes the checks of its receiver.
use mathlib.Core.List.{append_assoc}
use violet.Base.{
  ℕ, ◌+◌, ◌%◌, ◌≤◌, ◌<◌, ◌≡◌, ◌⊎◌, refl, ap, ◌∙◌, List, [], ◌∷◌, ◌++◌, arith, length, length-append,
  All, All-append, IsByte, le16,
}
use violet.Util.Checksum.{calc_checksum}
use violet.Util.Checksum.Laws.{words, checksum_field, words_bound, calc_checksum-append}
use violet.Packet.{pseudo4, ip4_header, not16}
use violet.Packet.Checks.{
  payload_verifies, pseudo4-IsByte, HeaderVerifies, PayloadVerifies4, IsAddress4,
  ip4_header-verifies,
}
use violet.Tcp.Types.{TcpSession}
use violet.Tcp.Packet.{
  Flags, optlen, tcp_options, tcp_front, tcp_fields, tcp_checksum, tcp_packet, tcp_pseudo,
}

options-bytes :
    (cur : TcpSession) (f : Flags) → cur.recv_scale < 256 → All IsByte (tcp_options cur f)
unfolding tcp_options
options-bytes cur f h = ground arith

length-options : (cur : TcpSession) (f : Flags) → length (tcp_options cur f) ≡ optlen f
unfolding tcp_options
length-options cur f = ground arith

front-bytes : (cur : TcpSession) (f : Flags) → All IsByte (tcp_front cur f)
front-bytes cur f = ground arith

module _ (ps hs os bs : List ℕ) (hp : All IsByte ps) (hh : All IsByte hs) (ho : All IsByte os)
    (hb : All IsByte bs) (fit : length ps + length hs + length os + length bs ≤ 65535)
    (ep : length ps % 2 ≡ 0) (eh : length hs % 2 ≡ 0) (eo : length os % 2 ≡ 0) where
  -- Four calls in a chain are one call on the four pieces joined.
  chain_lem :
      calc_checksum (calc_checksum (calc_checksum (calc_checksum 0 ps) hs) os) bs
      ≡ calc_checksum 0 (((ps ++ hs) ++ os) ++ bs)
  chain_lem =
      let l1 = length-append ps hs in
      let l2 = length-append (ps ++ hs) os in
      let b1 = All-append IsByte ps hs hp hh in
      let b2 = All-append IsByte (ps ++ hs) os b1 ho in
      rw (calc_checksum-append 0 ps hs (omega arith) hp hh (omega arith) ep) (
        rw (calc_checksum-append 0 (ps ++ hs) os (omega arith) b1 ho (omega arith) (omega arith)) (
          calc_checksum-append 0 ((ps ++ hs) ++ os) bs (omega arith) b2 hb (omega arith)
            (omega arith)))

optlen_cases : (f : Flags) → (optlen f ≡ 0) ⊎ (optlen f ≡ 8)
optlen_cases f = ground arith

-- The pieces of the sum, with the check field of 0 pulled out.
regroup :
    (ps front os bs : List ℕ)
    → ((ps ++ (front ++ (0 ∷ 0 ∷ 0 ∷ 0 ∷ []))) ++ os) ++ bs
      ≡ (ps ++ front) ++ (0 ∷ 0 ∷ 0 ∷ 0 ∷ (os ++ bs))
regroup ps front os bs = simp append_assoc

regroup_filled :
    (ps front check os bs : List ℕ)
    → ps ++ ((front ++ (check ++ (0 ∷ 0 ∷ []))) ++ (os ++ bs))
      ≡ (ps ++ front) ++ (check ++ (0 ∷ 0 ∷ (os ++ bs)))
regroup_filled ps front check os bs = simp append_assoc

-- The segment behind any pseudo header of even size verifies.
module _ (cur : TcpSession) (bytes : List ℕ) (f : Flags) (ps : List ℕ)
    (scale : cur.recv_scale < 256) (hb : All IsByte bytes) (hp : All IsByte ps)
    (ep : length ps % 2 ≡ 0) (fit : length ps + length bytes ≤ 65500) where
  abbrev tail : List ℕ
  tail = 0 ∷ 0 ∷ (tcp_options cur f ++ bytes)

  fits : 0 + words (ps ++ tcp_front cur f) + words tail < 4294901760
  fits =
      let o = options-bytes cur f scale in
      let l = length-append (tcp_options cur f) bytes in
      let lp = length-append ps (tcp_front cur f) in
      let wf =
        words_bound (ps ++ tcp_front cur f)
          (All-append IsByte ps (tcp_front cur f) hp (front-bytes cur f)) in
      let wt =
        words_bound (tcp_options cur f ++ bytes)
          (All-append IsByte (tcp_options cur f) bytes o hb) in
      omega (arith, length-options cur f, optlen_cases f)

  even : length (ps ++ tcp_front cur f) % 2 ≡ 0
  even = omega (arith, length-append ps (tcp_front cur f))

  abbrev chain : ℕ
  chain =
      calc_checksum
        (calc_checksum (calc_checksum (calc_checksum 0 ps) (tcp_fields cur f 0))
          (tcp_options cur f))
        bytes

  chain-joined : chain ≡ calc_checksum 0 ((ps ++ tcp_front cur f) ++ (0 ∷ 0 ∷ tail))
  chain-joined =
      chain_lem ps (tcp_fields cur f 0) (tcp_options cur f) bytes hp
        (omega (arith, front-bytes cur f)) (options-bytes cur f scale) hb
        (omega (arith, length-options cur f, optlen_cases f)) ep refl
        (omega (arith, length-options cur f, optlen_cases f))
      ∙ ap (calc_checksum 0) (regroup ps (tcp_front cur f) (tcp_options cur f) bytes)

  pub segment_verifies :
      calc_checksum 0 (ps ++ (tcp_fields cur f (not16 chain) ++ (tcp_options cur f ++ bytes)))
      ≡ 65535
  segment_verifies =
      ap (calc_checksum 0)
        (regroup_filled ps (tcp_front cur f) (le16 (not16 chain)) (tcp_options cur f) bytes)
      ∙ rw chain-joined (checksum_field 0 (ps ++ tcp_front cur f) tail fits even)

abbrev tcp_bytes : TcpSession → List ℕ → Flags → List ℕ
tcp_bytes cur bytes f =
    tcp_fields cur f (not16 (tcp_checksum cur bytes f)) ++ (tcp_options cur f ++ bytes)

length-tcp_bytes :
    (cur : TcpSession) (bytes : List ℕ) (f : Flags)
    → length (tcp_bytes cur bytes f) ≡ 20 + optlen f + length bytes
length-tcp_bytes cur bytes f =
    omega (arith, length-append (tcp_options cur f) bytes, length-options cur f)

tcp_packet4 :
    (cur : TcpSession) (bytes : List ℕ) (f : Flags)
    → cur.version ≡ 4
    → tcp_packet cur bytes f
      ≡ ip4_header (20 + (20 + optlen f + length bytes)) 6 cur.daddr cur.saddr
        ++ tcp_bytes cur bytes f
unfolding tcp_packet
tcp_packet4 cur bytes f v = simp v

tcp_pseudo4 :
    (cur : TcpSession) (size : ℕ)
    → cur.version ≡ 4
    → tcp_pseudo cur size ≡ pseudo4 cur.daddr cur.saddr 6 size
unfolding tcp_pseudo
tcp_pseudo4 cur size v = simp v

tcp_checksum4 :
    (cur : TcpSession) (bytes : List ℕ) (f : Flags)
    → cur.recv_scale < 256
    → All IsByte bytes
    → cur.version ≡ 4
    → IsAddress4 cur.saddr
    → IsAddress4 cur.daddr
    → length bytes ≤ 65400
    → calc_checksum 0
        (pseudo4 cur.daddr cur.saddr 6 (20 + optlen f + length bytes) ++ tcp_bytes cur bytes f)
      ≡ 65535
unfolding tcp_checksum
tcp_checksum4 cur bytes f scale hb v hs hd fit =
    let size = 20 + optlen f + length bytes in
    let e = tcp_pseudo4 cur size v in
    let (by, l) = pseudo4-IsByte cur.daddr cur.saddr 6 size hd hs (omega arith) in
    rw (← e) (
      segment_verifies cur bytes f (tcp_pseudo cur size) scale hb (rw e by)
        (omega (arith, ap length e)) (omega (arith, ap length e)))

-- Every segment that write_tcp builds for an IPv4 session passes its receiver's checks: the IP
-- header's checksum comes out as 0xFFFF, and so does that of the TCP segment with the pseudo header
-- that the packet's own fields give. The addresses have 4 bytes, the window scale and the data are
-- bytes, and the data fits the packet.
pub tcp_packet-verifies :
    (cur : TcpSession) (bytes : List ℕ) (f : Flags)
    → cur.version ≡ 4
    → cur.recv_scale < 256
    → IsAddress4 cur.saddr
    → IsAddress4 cur.daddr
    → All IsByte bytes
    → length bytes ≤ 65400
    → HeaderVerifies (tcp_packet cur bytes f) × PayloadVerifies4 (tcp_packet cur bytes f)
tcp_packet-verifies cur bytes f v scale hs hd hb fit = rw (tcp_packet4 cur bytes f v) (
  ip4_header-verifies _ 6 cur.daddr cur.saddr (tcp_bytes cur bytes f) (omega arith) hd hs,
  payload_verifies (20 + (20 + optlen f + length bytes)) 6 (20 + optlen f + length bytes) cur.daddr
      cur.saddr (tcp_bytes cur bytes f) hd hs (length-tcp_bytes cur bytes f)
      (tcp_checksum4 cur bytes f scale hb v hs hd fit),
)
