-- ===== src/Ip.antt =====
-- check_tun and handle_ip of ip.c: a packet is read from the device and goes to the handler of its
-- protocol.
pub mod Uid
pub mod Parse
pub mod Limit
pub mod Returns
use violet.Base.{
  ℕ, ◌/◌, Bool, true, false, ◌&&◌, ◌||◌, not, Option, none, some, List, [], ◌∷◌, Memory, leb, ◌==◌,
  if◌then◌else◌, length,
}
use violet.Packet.{Tun, get_mtu}
use violet.Tcp.Socket.{RecvResult, received_bytes, recv_failed}
use violet.Tcp.Register.{Kernel, source_address, dest_address}
use violet.Tcp.Incoming.{handle_tcp}
use violet.Session.Types.{NgSession}
use violet.Session.World.{Calls, World}
use violet.Icmp.Handle.{handle_icmp}
use violet.Udp.{has_udp_session}
use violet.Udp.Handle.{handle_udp}
use violet.Udp.Socket.{received_into}
use violet.Ip.Uid.{Proc, get_uid}
use violet.Ip.Parse.{Located, no_packet, endless, located, locate, Ports, read_ports, is_icmp}

-- The system: the calls of the handlers, the files of /proc/net, `args->fwd53`, whether the log is
-- verbose, and the rounds that the loops without a bound of their own get.
pub record Engine : Type 0 where
  pub calls : Calls
  pub tcp : Kernel
  pub proc : Proc
  pub fwd53 : Bool
  pub verbose : Bool
  pub rounds : ℕ

-- The condition under `Limit number of sessions`, and that under `Get uid`.
unfoldable pub starts_session : Engine → Memory → ℕ → Ports → List NgSession → Bool
starts_session e p protocol ports sessions =
    let version = p 0 / 16 in
    is_icmp protocol
    || ((protocol == 17
          && not (
              has_udp_session e.fwd53 version ports.sport ports.dport (source_address p version)
                (dest_address p version) sessions))
        || (protocol == 6 && ports.syn))

abbrev pub dropped_flag : Option (Bool × World) → Option World
dropped_flag none = none
dropped_flag (some (handled, w)) = some w

abbrev pub put_tcp : World → Option (List NgSession × Tun) → Option World
put_tcp w none = none
put_tcp w (some (sessions, log)) = some (record w { sessions = sessions; tun = log })

-- The handlers' answers are not looked at.
unfoldable pub dispatch : Engine → Memory → ℕ → (protocol payload uid : ℕ) → World → Option World
dispatch e p length_ protocol payload uid w =
    if is_icmp protocol
    then some (handle_icmp e.calls p length_ payload uid w).1
    else (if protocol == 17
        then dropped_flag (handle_udp e.calls e.rounds p length_ payload uid w)
        else (if protocol == 6
            then put_tcp w (handle_tcp e.tcp p length_ payload uid w.sessions w.tun)
            else some w))

abbrev pub uid_of : Engine → Memory → ℕ → Ports → List NgSession → ℕ
uid_of e p protocol ports sessions =
    if starts_session e p protocol ports sessions
    then get_uid e.proc (p 0 / 16) protocol ports.sport (dest_address p (p 0 / 16)) ports.dport
    else 4294967295

-- The limit, the uid and the handler.
unfoldable pub admit :
    Engine
    → Memory
    → ℕ
    → (sessions maxsessions protocol payload : ℕ) → World
    → Option Ports
    → Option World
admit e p length_ sessions maxsessions protocol payload w none = some w
admit e p length_ sessions maxsessions protocol payload w (some ports) =
    if leb maxsessions sessions && starts_session e p protocol ports w.sessions
    then some w
    else dispatch e p length_ protocol payload (uid_of e p protocol ports w.sessions) w

abbrev pub handle_located :
    Engine → Memory → ℕ → (sessions maxsessions : ℕ) → World → Located → Option World
handle_located e p length_ sessions maxsessions w no_packet = some w
handle_located e p length_ sessions maxsessions w endless = none
handle_located e p length_ sessions maxsessions w (located protocol payload) =
    admit e p length_ sessions maxsessions protocol payload w
      (read_ports p length_ protocol payload)

-- `none`: a loop of the code does not end within the rounds.
unfoldable pub handle_ip : Engine → Memory → ℕ → (sessions maxsessions : ℕ) → World → Option World
handle_ip e p length_ sessions maxsessions w =
    handle_located e p length_ sessions maxsessions w (locate e.verbose e.rounds p length_)

abbrev pub unless_stuck : Option World → Option (Bool × World)
unless_stuck none = none
unless_stuck (some w) = some (true, w)

-- The buffer has room for two packets; `junk` is what malloc left in it.
abbrev pub take_packet :
    Engine → Memory → (sessions maxsessions : ℕ) → World → RecvResult → Option (Bool × World)
take_packet e junk sessions maxsessions w (recv_failed retry) = some (retry, w)
take_packet e junk sessions maxsessions w (received_bytes []) = some (false, w)
take_packet e junk sessions maxsessions w (received_bytes (b ∷ bytes)) =
    unless_stuck
      (handle_ip e (received_into junk (b ∷ bytes)) (length (b ∷ bytes)) sessions maxsessions w)

-- `error` and `input` are EPOLLERR and EPOLLIN of the event; `false` stands for the result -1.
unfoldable pub check_tun :
    Engine
    → (junk : Memory) → (error input : Bool) → (ℕ → RecvResult)
    → (sessions maxsessions : ℕ) → World
    → Option (Bool × World)
check_tun e junk error input read sessions maxsessions w =
    if error
    then some (false, w)
    else (if input
        then take_packet e junk sessions maxsessions w (read get_mtu)
        else some (true, w))
