-- ===== src/Tcp/Options/Written.antt =====
-- The options of the program's own SYN, as its own loop decodes them.
use violet.Base.{ℕ, ◌+◌, ◌*◌, ◌/◌, ◌%◌, ◌≡◌, refl, some, get_or, true, Bool-cases, inl, inr, ◌==◌}
use violet.Packet.{get_default_mss}
use violet.Tcp.Types.{TcpSession}
use violet.Tcp.Packet.{Flags, tcp_options, optlen}
use violet.Tcp.Options.{Decoded, decode_options}

-- A 16-bit number with its two bytes exchanged.
abbrev pub swapped : ℕ → ℕ
swapped n = n % 256 * 256 + n / 256 % 256

-- A receiver that decodes options as handle_tcp does reads, from the options of a SYN that write_tcp
-- builds, the window scale of the session, and for the segment size the default one with its bytes
-- exchanged.
pub decode_options-tcp_options :
    (cur : TcpSession) (f : Flags) (d : Decoded)
    → f.syn ≡ true
    → decode_options 8 (λ i. get_or (tcp_options cur f) i 0) 0 (optlen f) d
      ≡ some (record { mss = swapped (get_default_mss cur.version); ws = cur.recv_scale })
unfolding decode_options tcp_options get_default_mss
decode_options-tcp_options cur f d h = elim (Bool-cases (cur.version == 4)) [
  | inl e ↦ rw (h, e) refl
  | inr e ↦ rw (h, e) refl
]
