-- ===== src/Tcp/Windows.antt =====
-- get_send_window, get_receive_buffer, get_receive_window and get_tcp_timeout of tcp.c.
pub mod Bounds
use violet.Base.{
  ℕ, ◌+◌, ◌-◌, ◌*◌, ◌/◌, ◌%◌, ◌^◌, Bool, Option, none, some, List, [], ◌∷◌, u32, sub32, ltb, leb,
  ◌==◌, ◌||◌, if◌then◌else◌,
}
use violet.Base.Int.{ℤ, pos, negsuc}
use violet.Util.Serial.{Cmp, less, same, greater, compare_u32}
use violet.Tcp.Types.{TcpState, Segment, TcpSession, is_listen, is_syn_recv, is_established}

abbrev pub is_greater : Cmp → Bool
is_greater greater = Bool.true
is_greater _ = Bool.false

abbrev pub behind : TcpSession → ℕ
behind cur =
    if is_greater (compare_u32 cur.acked cur.local_seq)
    then cur.acked
    else sub32 cur.local_seq cur.acked

unfoldable pub get_send_window : TcpSession → ℕ
get_send_window cur = if ltb (behind cur) cur.send_window then cur.send_window - behind cur else 0

-- What the kernel says of a socket: SO_SNDBUF, and SIOCOUTQ for the bytes not yet sent. A call that
-- fails leaves the 0 that the variable holds.
pub record Buffers : Type 0 where
  pub sendbuf : ℕ
  pub unsent : ℕ

unfoldable pub get_receive_buffer : Option ℕ → Buffers → ℕ
get_receive_buffer none k = 0
get_receive_buffer (some socket) k =
    let sendbuf = if k.sendbuf == 0 then 16384 else k.sendbuf in
    if ltb k.unsent (sendbuf / 2) then sendbuf / 2 - k.unsent else 0

-- The uint32_t total of the loop over the forward queue.
unfoldable pub to_forward : ℕ → List Segment → ℕ
to_forward total [] = total
to_forward total (q ∷ rest) = to_forward (u32 (total + sub32 q.len q.sent)) rest

-- The shifts are those of uint32_t, by a `recv_scale` below 32; C gives no meaning to a longer one.
unfoldable pub get_receive_window : TcpSession → Option ℕ → Buffers → ℕ
unfolding get_receive_buffer to_forward
get_receive_window cur socket k =
    let toforward = to_forward 0 cur.forward in
    let room = get_receive_buffer socket k in
    let most = u32 (65535 * 2 ^ cur.recv_scale) in
    let capped = if ltb most room then most else room in
    let window = if ltb toforward capped then capped - toforward else 0 in
    if window / 2 ^ cur.recv_scale == 0 then 0 else window

-- int division truncates toward 0.
abbrev pub quot_int : ℤ → ℕ → ℤ
quot_int (pos n) d = pos (n / d)
quot_int (negsuc n) d = if (n + 1) / d == 0 then pos 0 else negsuc ((n + 1) / d - 1)

abbrev pub base_timeout : TcpState → ℕ
base_timeout state =
    if is_listen state || is_syn_recv state then 30 else (if is_established state then 3600 else 30)

-- timeout * (100 - sessions * 100 / maxsessions) / 100, in int; `maxsessions` is not 0.
abbrev pub scaled : ℕ → ℕ → ℕ → ℤ
scaled timeout sessions maxsessions =
    let load = sessions * 100 / maxsessions in
    if leb load 100
    then pos (timeout * (100 - load) / 100)
    else quot_int (negsuc (timeout * (load - 100) - 1)) 100

unfoldable pub get_tcp_timeout : TcpState → ℕ → ℕ → ℤ
get_tcp_timeout state sessions maxsessions = scaled (base_timeout state) sessions maxsessions
