-- ===== src/Tcp/Write.antt =====
-- write_syn_ack, write_ack, write_data, write_fin_ack and write_rst of tcp.c. A result of `true` is
-- a return value that is not negative. The session and the log of the tun device are passed on.
use violet.Base.{ℕ, ◌+◌, Bool, true, false, Option, none, some, List, [], u32, if◌then◌else◌}
use violet.Packet.{Tun, TunWrite}
use violet.Tcp.Types.{TcpSession, closing, is_listen, is_close}
use violet.Tcp.Packet.{Flags, write_tcp}

abbrev pub Wrote : Type 0
Wrote = Bool × TcpSession × Tun

abbrev pub flags : Bool → Bool → Bool → Bool → Flags
flags syn ack fin rst = record { syn = syn; ack = ack; fin = fin; rst = rst }

-- `if (write_tcp(…) < 0) { cur->state = TCP_CLOSING; return -1; } return 0;`
abbrev pub or_closing : Option ℕ × Tun → TcpSession → Wrote
or_closing (none, log) cur = (false, record cur { state = closing }, log)
or_closing (some n, log) cur = (true, cur, log)

unfoldable pub write_syn_ack : TunWrite → TcpSession → Tun → Wrote
write_syn_ack dev cur log = or_closing (write_tcp dev cur [] (flags true true false false) log) cur

unfoldable pub write_ack : TunWrite → TcpSession → Tun → Wrote
write_ack dev cur log = or_closing (write_tcp dev cur [] (flags false true false false) log) cur

unfoldable pub write_data : TunWrite → TcpSession → List ℕ → Tun → Wrote
write_data dev cur buffer log =
    or_closing (write_tcp dev cur buffer (flags false true false false) log) cur

unfoldable pub write_fin_ack : TunWrite → TcpSession → Tun → Wrote
write_fin_ack dev cur log = or_closing (write_tcp dev cur [] (flags false true true false) log) cur

abbrev pub count_syn : TcpSession → TcpSession
count_syn cur =
    if is_listen cur.state then record cur { remote_seq = u32 (cur.remote_seq + 1) } else cur

-- The result of write_tcp is not looked at.
unfoldable pub write_rst : TunWrite → TcpSession → Tun → TcpSession × Tun
write_rst dev cur log =
    let sent =
      write_tcp dev (count_syn cur) [] (flags false (is_listen cur.state) false true) log in
    (
      if is_close cur.state
          then count_syn cur
          else record cur { remote_seq = (count_syn cur).remote_seq; state = closing },
      sent.1,
    )
