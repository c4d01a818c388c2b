-- ===== src/Ip/Parse/Bounds.antt =====
-- What the parsing of handle_ip accepts.
use violet.Base.{
  ℕ, zero, suc, ◌+◌, ◌<◌, ◌≡◌, refl, sym, ap, inl, inr, Bool, true, false, ◌||◌, Option, none, some,
  eq_of_some, ◌==◌, if◌then◌else◌, arith, ltb, leb, Memory, Bool-cases, u16,
}
use violet.Ip.Parse.{
  is_lower_layer, is_upper_layer, is_icmp, Located, no_packet, endless, located, locate6,
  skip_extensions, after_extensions, Ports, read_ports,
}

-- The extension headers are none of the protocols that are handled.
lower-upper : (n : ℕ) → is_lower_layer n ≡ true → is_upper_layer n ≡ false
unfolding is_lower_layer is_upper_layer
lower-upper n h = ground arith

skip-upper :
    (rounds : ℕ) (p : Memory) (protocol off protocol' off' : ℕ)
    → is_upper_layer protocol ≡ false
    → skip_extensions rounds p protocol off ≡ some (protocol', off')
    → is_upper_layer protocol' ≡ false
unfolding skip_extensions
skip-upper zero p protocol off protocol' off' u e = cc
skip-upper (suc rounds) p protocol off protocol' off' u e =
    elim (Bool-cases (is_lower_layer (p off))) [
      | inl l ↦
          skip-upper rounds p (p off) (u16 (off + (8 + p (off + 1)))) protocol' off'
            (lower-upper (p off) l) (rw (l, u) at e)
      | inr l ↦ (let e' = eq_of_some (rw l at e) in rw (sym (ap (λ x. x.0) e')) u)
    ]

-- Where the first header says the payload is: right behind the fixed header, with its protocol.
abbrev pub Unskipped : Memory → Located → Type 0
Unskipped p no_packet = Unit
Unskipped p endless = Unit
Unskipped p (located protocol payload) = (protocol ≡ p 6) × (payload ≡ 40)

after-Unskipped :
    (rounds : ℕ) (p : Memory) (protocol off : ℕ) (r : Option (ℕ × ℕ))
    → is_upper_layer protocol ≡ false
    → skip_extensions rounds p protocol off ≡ r
    → Unskipped p (after_extensions p r)
after-Unskipped rounds p protocol off none u e = tt
after-Unskipped rounds p protocol off (some (protocol', off')) u e =
    rw (skip-upper rounds p protocol off protocol' off' u e) (refl, refl)

-- handle_ip never gets behind an extension header of IPv6: whatever the headers are, if its loop
-- returns, the payload is taken at byte 40 and the protocol from the fixed header.
pub locate6-Unskipped :
    (rounds : ℕ) (p : Memory) (length_ : ℕ) → Unskipped p (locate6 rounds p length_)
unfolding locate6
locate6-Unskipped rounds p length_ = elim (Bool-cases (ltb length_ 40)) [
  | inl s ↦ rw s tt
  | inr s ↦ (elim (Bool-cases (is_upper_layer (p 6))) [
    | inl u ↦ rw (s, u) (refl, refl)
    | inr u ↦ rw (s, u) (after-Unskipped rounds p (p 6) 40 _ u refl)
  ])
]

-- The bytes that a protocol's header takes; struct icmp has 28.
abbrev pub header_size : ℕ → ℕ
header_size protocol =
    if is_icmp protocol
    then 28
    else (if protocol == 17 then 8 else (if protocol == 6 then 20 else 0))

-- Whether the test of the length lets a packet pass.
abbrev pub is_some : Option Ports → Bool
is_some none = false
is_some (some ports) = true

-- The test of the length compares in size_t: of the packets below 2 ^ 32 bytes whose payload stands at
-- an offset below 2 ^ 32, those pass whose header is within the packet, and also all those whose
-- payload begins behind the packet's end.
pub read_ports-passes :
    (p : Memory) (length_ protocol payload : ℕ)
    → length_ < 4294967296
    → payload < 4294967296
    → is_some (read_ports p length_ protocol payload) ≡ (
        leb (payload + header_size protocol) length_
        || (ltb length_ payload || header_size protocol == 0))
unfolding read_ports
read_ports-passes p length_ protocol payload l o = ground arith
