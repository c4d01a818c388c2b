-- ===== src/Packet/Checks.antt =====
-- What a receiver checks of a packet, and the IPv4 header against it.
use violet.Base.{
  ℕ, ◌-◌, ◌<◌, ◌≡◌, refl, subst, List, [], ◌∷◌, ◌++◌, arith, be16, length, length-append, take,
  drop, All, All-append, IsByte,
}
use violet.Util.Checksum.{calc_checksum}
use violet.Util.Checksum.Laws.{checksum_field}
use violet.Packet.{pseudo4, ip4_header}

-- RFC 1071: the words of an IPv4 header sum to 0xFFFF.
abbrev pub HeaderVerifies : List ℕ → Type 0
HeaderVerifies packet = calc_checksum 0 (take 20 packet) ≡ 65535

-- RFC 793: so do those of the payload behind a pseudo header made from the addresses, the protocol
-- and the length that the packet itself shows.
abbrev pub PayloadVerifies4 : List ℕ → Type 0
PayloadVerifies4 packet =
    calc_checksum 0 (
      take 8 (drop 12 packet)
      ++ (0 ∷ take 1 (drop 9 packet) ++ (be16 (length packet - 20) ++ drop 20 packet)))
    ≡ 65535

pub record IsAddress4 (xs : List ℕ) : Type 0 where
  pub size : length xs ≡ 4
  pub bytes : All IsByte xs

-- The four bytes of an address.
pub four : (xs : List ℕ) → length xs ≡ 4 → (a b c d : ℕ) × (xs ≡ a ∷ b ∷ c ∷ d ∷ [])
four [] h = absurd (omega arith)
four (a ∷ []) h = absurd (omega arith)
four (a ∷ b ∷ []) h = absurd (omega arith)
four (a ∷ b ∷ c ∷ []) h = absurd (omega arith)
four (a ∷ b ∷ c ∷ d ∷ []) h = (a, b, c, d, refl)
four (a ∷ b ∷ c ∷ d ∷ e ∷ xs) h = absurd (omega arith)

ip4_header_quad :
    (len protocol a b c d e f g h : ℕ) (rest : List ℕ)
    → protocol < 256
    → All IsByte (a ∷ b ∷ c ∷ d ∷ e ∷ f ∷ g ∷ h ∷ [])
    → HeaderVerifies (ip4_header len protocol (a ∷ b ∷ c ∷ d ∷ []) (e ∷ f ∷ g ∷ h ∷ []) ++ rest)
unfolding ip4_header
ip4_header_quad len protocol a b c d e f g h rest hp hb =
    checksum_field 0 (0x45 ∷ 0 ∷ be16 len ++ (0 ∷ 0 ∷ 0 ∷ 0 ∷ 64 ∷ protocol ∷ []))
      (a ∷ b ∷ c ∷ d ∷ e ∷ f ∷ g ∷ h ∷ []) (omega arith) refl

-- The IPv4 header in front of a packet verifies at the receiver, for any 4-byte addresses.
pub ip4_header-verifies :
    (len protocol : ℕ) (saddr daddr rest : List ℕ)
    → protocol < 256
    → IsAddress4 saddr
    → IsAddress4 daddr
    → HeaderVerifies (ip4_header len protocol saddr daddr ++ rest)
ip4_header-verifies len protocol saddr daddr rest hp hs hd =
    let (a, b, c, d, es) = four saddr hs.size in
    let (e, f, g, h, ed) = four daddr hd.size in
    rw (es, ed)
      (let bs : All IsByte (a ∷ b ∷ c ∷ d ∷ []) = rw es at hs.bytes in
        let bd : All IsByte (e ∷ f ∷ g ∷ h ∷ []) = rw ed at hd.bytes in
        ip4_header_quad len protocol a b c d e f g h rest hp (omega arith))

pub pseudo4-IsByte :
    (src dst : List ℕ) (protocol size : ℕ)
    → IsAddress4 src
    → IsAddress4 dst
    → protocol < 256
    → All IsByte (pseudo4 src dst protocol size) × (length (pseudo4 src dst protocol size) ≡ 12)
unfolding pseudo4
pseudo4-IsByte src dst protocol size hs hd hp =
    let rest = dst ++ (0 ∷ protocol ∷ be16 size) in
    (
      All-append IsByte src rest hs.bytes
          (All-append IsByte dst (0 ∷ protocol ∷ be16 size) hd.bytes (omega arith)),
      omega (
        arith,
        length-append src rest,
        length-append dst (0 ∷ protocol ∷ be16 size),
        hs.size,
        hd.size,
      ),
    )

-- The payload behind a header with the addresses written out.
payload_quad :
    (len protocol a b c d e g h i size : ℕ) (payload : List ℕ)
    → length payload ≡ size
    → calc_checksum 0 (pseudo4 (a ∷ b ∷ c ∷ d ∷ []) (e ∷ g ∷ h ∷ i ∷ []) protocol size ++ payload)
      ≡ 65535
    → PayloadVerifies4
        (ip4_header len protocol (a ∷ b ∷ c ∷ d ∷ []) (e ∷ g ∷ h ∷ i ∷ []) ++ payload)
unfolding ip4_header pseudo4
payload_quad len protocol a b c d e g h i size payload l ok =
    let quad : List ℕ → List ℕ =
      λ xs. ip4_header len protocol (a ∷ b ∷ c ∷ d ∷ []) (e ∷ g ∷ h ∷ i ∷ []) ++ xs in
    let eq : size ≡ length (quad payload) - 20 = omega arith in
    subst
      (λ (n : ℕ).
        calc_checksum 0 (a ∷ b ∷ c ∷ d ∷ e ∷ g ∷ h ∷ i ∷ 0 ∷ protocol ∷ be16 n ++ payload) ≡ 65535)
      eq ok

pub payload_verifies :
    (len protocol size : ℕ) (src dst payload : List ℕ)
    → IsAddress4 src
    → IsAddress4 dst
    → length payload ≡ size
    → calc_checksum 0 (pseudo4 src dst protocol size ++ payload) ≡ 65535
    → PayloadVerifies4 (ip4_header len protocol src dst ++ payload)
payload_verifies len protocol size src dst payload hs hd l ok =
    let (a, b, c, d, es) = four src hs.size in
    let (e, g, h, i, ed) = four dst hd.size in
    rw (es, ed) (payload_quad len protocol a b c d e g h i size payload l (rw (es, ed) at ok))

-- What the addresses and the payload of an IPv4 packet are.
pub header_parts :
    (len protocol : ℕ) (saddr daddr rest : List ℕ)
    → length saddr ≡ 4
    → length daddr ≡ 4
    → let packet = ip4_header len protocol saddr daddr ++ rest in
      (take 4 (drop 12 packet) ≡ saddr)
      × (take 4 (drop 16 packet) ≡ daddr)
      × (drop 20 packet ≡ rest)
unfolding ip4_header
header_parts len protocol saddr daddr rest hs hd =
    let (a, b, c, d, es) = four saddr hs in
    let (e, f, g, h, ed) = four daddr hd in rw (es, ed) (refl, refl, refl)
