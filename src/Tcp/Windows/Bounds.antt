-- ===== src/Tcp/Windows/Bounds.antt =====
-- Bounds on the windows and timeouts.
use native.Mathlib.Nat.{pow-suc}
use violet.Base.{ℕ, zero, suc, ◌+◌, ◌-◌, ◌*◌, ◌/◌, ◌^◌, ◌≤◌, ◌<◌, ◌≡◌, ◌⊎◌, arith, Option, le→leb}
use violet.Base.Int.{pos, ◌≤ℤ◌}
use violet.Tcp.Types.{TcpSession, TcpState}
use violet.Tcp.Windows.{
  Buffers, behind, get_send_window, get_receive_window, get_receive_buffer, get_tcp_timeout,
  base_timeout,
}

-- The window left to send is at most the window that the peer announced, and is 0 or what is left
-- of that window behind the bytes that the peer has not acknowledged.
pub get_send_window_bounds :
    (cur : TcpSession)
    → (get_send_window cur ≤ cur.send_window)
      × ((get_send_window cur ≡ 0) ⊎ (get_send_window cur + behind cur ≡ cur.send_window))
unfolding get_send_window
get_send_window_bounds cur = ground arith

pow_pos : (n : ℕ) → 0 < 2 ^ n
pow_pos zero = omega arith
pow_pos (suc n) = let e = pow-suc 2 n in omega (arith, e, pow_pos n)

div_bound : (w k d : ℕ) → 0 < d → w ≤ k * d → w / d ≤ k
div_bound w k d h l = grind arith

get_receive_window-le :
    (cur : TcpSession) (socket : Option ℕ) (k : Buffers)
    → get_receive_window cur socket k ≤ 65535 * 2 ^ cur.recv_scale
unfolding get_receive_window
get_receive_window-le cur socket k = ground arith

-- The receive window fits the room in the socket's buffer, and what goes into a header's 16-bit
-- window field, the window shifted down by its scale, fits that field and is above 0 unless the
-- window is 0.
pub get_receive_window_bounds :
    (cur : TcpSession) (socket : Option ℕ) (k : Buffers)
    → (get_receive_window cur socket k ≤ get_receive_buffer socket k)
      × (get_receive_window cur socket k / 2 ^ cur.recv_scale ≤ 65535)
      × ((get_receive_window cur socket k ≡ 0)
          ⊎ (0 < get_receive_window cur socket k / 2 ^ cur.recv_scale))
unfolding get_receive_window
get_receive_window_bounds cur socket k = (
  ground arith,
  div_bound _ 65535 (2 ^ cur.recv_scale) (pow_pos cur.recv_scale)
      (get_receive_window-le cur socket k),
  ground arith,
)

share_bound : (full k : ℕ) → k ≤ 100 → full * k / 100 ≤ full
share_bound full k h = div_bound (full * k) full 100 (omega arith) (grind arith)

load_bound :
    (sessions maxsessions : ℕ)
    → 0 < maxsessions
    → sessions ≤ maxsessions
    → sessions * 100 / maxsessions ≤ 100
load_bound s m h k = div_bound (s * 100) 100 m h (grind arith)

-- With no more sessions than the limit, a TCP timeout is between 0 and the base timeout of the
-- session's state, which is one of 30 and 3600 seconds.
pub get_tcp_timeout_bounds :
    (state : TcpState) (sessions maxsessions : ℕ)
    → 0 < maxsessions
    → sessions ≤ maxsessions
    → (pos 0 ≤ℤ get_tcp_timeout state sessions maxsessions)
      × (get_tcp_timeout state sessions maxsessions ≤ℤ pos (base_timeout state))
unfolding get_tcp_timeout
get_tcp_timeout_bounds state sessions maxsessions h k =
    let full = base_timeout state in
    let load = sessions * 100 / maxsessions in
    rw (le→leb _ _ (load_bound sessions maxsessions h k))
      (omega arith, omega (arith, share_bound full (100 - load) (omega arith)))
