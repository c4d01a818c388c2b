-- ===== src/Icmp.antt =====
-- icmp.c: the timeout of an ICMP session, and the rounds over it.
pub mod Message
pub mod Handle
pub mod Socket
pub mod Echo
pub mod Reply
pub mod RoundTrip
use violet.Base.{ℕ, Bool, true, false, ◌||◌, Option, none, if◌then◌else◌}
use violet.Base.Int.{ℤ, pos, ltb_ℤ, ◌+ℤ◌}
use violet.Session.Types.{IcmpSession}
use violet.Tcp.Windows.{scaled}

unfoldable pub get_icmp_timeout : ℕ → ℕ → ℤ
get_icmp_timeout sessions maxsessions = scaled 15 sessions maxsessions

-- The result: whether the session is to be removed, and its socket. An error of close is only logged.
unfoldable pub check_icmp_session : ℕ → ℕ → ℕ → IcmpSession → Option ℕ → Bool × Option ℕ
check_icmp_session now sessions maxsessions s socket =
    if s.stop || ltb_ℤ (pos s.time +ℤ get_icmp_timeout sessions maxsessions) (pos now)
    then (true, none)
    else (false, socket)
