-- ===== src/Tcp/Handle/Acks.antt =====
-- What the acknowledgements of incoming segments may do.
use violet.Base.{
  ℕ, ◌≡◌, ◌⊎◌, inl, inr, Bool, true, false, Option, none, some, List, [], ◌∷◌, arith, Bool-cases,
}
use violet.Util.Serial.{less, greater, compare_u32}
use violet.Packet.{Tun, TunWrite}
use violet.Tcp.Types.{TcpSession, is_close_wait}
use violet.Tcp.Write.{write_ack, write_rst}
use violet.Tcp.Queue.{queue_tcp}
use violet.Tcp.Handle.{
  TcpHeader, handle_fin, handle_ack, handle_other_ack, handle_flags, handle_data, touch,
  handle_session,
}

-- The fields that only the other end's acknowledgements may move.
pub record SameAcks (cur cur' : TcpSession) : Type 0 where
  pub local_seq : cur'.local_seq ≡ cur.local_seq
  pub acked : cur'.acked ≡ cur.acked

rst-SameAcks :
    (dev : TunWrite) (cur : TcpSession) (log : Tun) → SameAcks cur (write_rst dev cur log).0
unfolding write_rst
rst-SameAcks dev cur log = ground arith

fin-SameAcks :
    (dev : TunWrite) (cur : TcpSession) (log : Tun) → SameAcks cur (handle_fin dev cur log).0
unfolding handle_fin write_ack
fin-SameAcks dev cur log = ground arith

queue-SameAcks :
    (seq datalen : ℕ) (psh : Bool) (bytes : List ℕ) (cur : TcpSession)
    → SameAcks cur (queue_tcp seq datalen psh bytes cur)
unfolding queue_tcp
queue-SameAcks seq datalen psh bytes cur = ground arith

pub data-SameAcks :
    (dev : TunWrite) (h : TcpHeader) (bytes : List ℕ) (socket : Option ℕ) (cur : TcpSession)
    (log : Tun)
    → SameAcks cur (handle_data dev h bytes socket cur log).1
unfolding handle_data
data-SameAcks dev h [] socket cur log = ground arith
data-SameAcks dev h (b ∷ bytes) none cur log = rst-SameAcks dev cur log
data-SameAcks dev h (b ∷ bytes) (some fd) cur log = elim (Bool-cases (is_close_wait cur.state)) [
  | inl e ↦ rw e (rst-SameAcks dev cur log)
  | inr e ↦ rw e (queue-SameAcks h.seq _ h.psh (b ∷ bytes) cur)
]

-- `acked` stays, or becomes the number that the segment acknowledges, which is then what was sent
-- last or a number before it and after the old one, by compare_u32.
abbrev pub AckMoves : TcpHeader → TcpSession → TcpSession → Type 0
AckMoves h cur cur' =
    (cur'.local_seq ≡ cur.local_seq)
    × ((cur'.acked ≡ cur.acked)
        ⊎ ((h.rst ≡ false)
            × (h.ack ≡ true)
            × (cur'.acked ≡ h.ack_seq)
            × ((h.ack_seq ≡ cur.local_seq)
                ⊎ ((compare_u32 h.ack_seq cur.local_seq ≡ less)
                    × (compare_u32 h.ack_seq cur.acked ≡ greater)))))

other-moves :
    (dev : TunWrite) (h : TcpHeader) (cur : TcpSession) (log : Tun)
    → h.rst ≡ false
    → h.ack ≡ true
    → AckMoves h cur (handle_other_ack dev h.ack_seq cur log).0
unfolding handle_other_ack
other-moves dev h cur log r a = ground (arith, rst-SameAcks dev cur log)

flags-moves :
    (dev : TunWrite) (h : TcpHeader) (cur : TcpSession) (log : Tun)
    → AckMoves h cur (handle_flags dev h cur log).0
unfolding handle_flags handle_ack
flags-moves dev h cur log = ground (arith, fin-SameAcks dev cur log, other-moves dev h cur log)

-- A segment never moves what has been sent to the device (local_seq). It moves `acked` only when it
-- has ACK and no RST, to the number that it acknowledges, and that is either all that was sent, or
-- a number before local_seq and after the old `acked` in the order of compare_u32.
pub handle_session-moves :
    (dev : TunWrite) (now : ℕ) (h : TcpHeader) (bytes : List ℕ) (socket : Option ℕ)
    (cur : TcpSession) (log : Tun)
    → AckMoves h cur (handle_session dev now h bytes socket cur log).0
unfolding handle_session
handle_session-moves dev now h bytes socket cur log =
    let r = handle_data dev h bytes socket (touch now h cur) log in
    let kept = data-SameAcks dev h bytes socket (touch now h cur) log in
    ground (arith, rst-SameAcks dev cur log, kept, flags-moves dev h r.1 r.2)
