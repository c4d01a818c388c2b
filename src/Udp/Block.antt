-- ===== src/Udp/Block.antt =====
-- A flow that is blocked counts as known.
use violet.Base.{ℕ, ◌≡◌, refl, Bool, true, ◌&&◌, not, List, ==-refl, Bool-cases, inl, inr, ◌==◌}
use violet.Session.Types.{UdpSession, NgSession, search_session}
use violet.Udp.{has_udp_session, block_udp}
use violet.Session.Search.{same_bytes_refl}

-- After block_udp has_udp_session answers 1 for the flow's packets, whatever sessions there are, so
-- that handle_ip asks no more for it.
pub block_udp-has_udp_session :
    (node : NgSession) (junk : UdpSession) (now uid version source dest : ℕ) (saddr daddr : List ℕ)
    (sessions : List NgSession) (fwd53 : Bool)
    → has_udp_session fwd53 version source dest saddr daddr
        (block_udp node junk now uid version source dest saddr daddr sessions)
      ≡ true
unfolding has_udp_session block_udp search_session
block_udp-has_udp_session node junk now uid version source dest saddr daddr sessions fwd53 =
    rw (==-refl version, ==-refl source, same_bytes_refl saddr, same_bytes_refl daddr)
      (elim (Bool-cases (dest == 53 && not fwd53)) [
        | inl e ↦ rw e refl
        | inr e ↦ rw (e, ==-refl dest) refl
      ])
