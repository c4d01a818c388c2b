-- ===== src/Tcp/Handle/States.antt =====
-- The states that a session passes through when segments come in.
use violet.Base.{
  ℕ, ◌≡◌, refl, ◌⊎◌, inl, inr, Bool, true, false, ◌||◌, Option, none, some, List, [], ◌∷◌, arith,
  Bool-cases, length,
}
use violet.Packet.{Tun, TunWrite}
use violet.Tcp.Types.{
  TcpState, established, syn_recv, fin_wait1, close, close_wait, last_ack, closing, TcpSession,
  is_close, is_closing, is_established, is_close_wait,
}
use violet.Tcp.Write.{write_ack, write_rst}
use violet.Tcp.Queue.{queue_tcp}
use violet.Tcp.Handle.Acks.{data-SameAcks}
use violet.Tcp.Handle.{
  TcpHeader, handle_fin, handle_ack, handle_other_ack, handle_flags, handle_data, touch,
  handle_session,
}

-- The transitions that an incoming segment may cause.
infix 40 ◌⟶◌
pub data ◌⟶◌ : TcpState → TcpState → Type 0 where
  stay : {s : TcpState} → s ⟶ s
  confirm : syn_recv ⟶ established
  remote_close : established ⟶ close_wait
  both_closed : fin_wait1 ⟶ close
  last_confirm : last_ack ⟶ closing
  abort : {s : TcpState} → is_close s ≡ false → s ⟶ closing

ruleset edges = (stay, confirm, remote_close, both_closed, last_confirm, abort)

pub rst-⟶ :
    (dev : TunWrite) (cur : TcpSession) (log : Tun) → cur.state ⟶ (write_rst dev cur log).0.state
unfolding write_rst
rst-⟶ dev cur log = grind (arith, edges)

fin-⟶ :
    (dev : TunWrite) (cur : TcpSession) (log : Tun) → cur.state ⟶ (handle_fin dev cur log).0.state
unfolding handle_fin write_ack
fin-⟶ dev cur log = grind (arith, edges)

ack-⟶ : (ack : ℕ) (cur : TcpSession) → cur.state ⟶ (handle_ack ack cur).state
unfolding handle_ack
ack-⟶ ack cur = grind (arith, edges)

other-⟶ :
    (dev : TunWrite) (ack : ℕ) (cur : TcpSession) (log : Tun)
    → cur.state ⟶ (handle_other_ack dev ack cur log).0.state
unfolding handle_other_ack
other-⟶ dev ack cur log = grind (arith, stay, rst-⟶)

flags-⟶ :
    (dev : TunWrite) (h : TcpHeader) (cur : TcpSession) (log : Tun)
    → is_close cur.state ≡ false
    → cur.state ⟶ (handle_flags dev h cur log).0.state
unfolding handle_flags
flags-⟶ dev h cur log open_ = ground (
  arith,
  stay {s = cur.state},
  abort open_,
  fin-⟶ dev cur log,
  ack-⟶ h.ack_seq cur,
  other-⟶ dev h.ack_seq cur log,
)

pub queue-state :
    (seq datalen : ℕ) (psh : Bool) (bytes : List ℕ) (cur : TcpSession)
    → (queue_tcp seq datalen psh bytes cur).state ≡ cur.state
unfolding queue_tcp
queue-state seq datalen psh bytes cur = ground arith

-- Data is queued, or the session is aborted.
data-⟶ :
    (dev : TunWrite) (h : TcpHeader) (bytes : List ℕ) (socket : Option ℕ) (cur : TcpSession)
    (log : Tun)
    → let (go_on, cur', log') = handle_data dev h bytes socket cur log in
      ((go_on ≡ true) × (cur'.state ≡ cur.state)) ⊎ ((go_on ≡ false) × (cur.state ⟶ cur'.state))
unfolding handle_data
data-⟶ dev h [] socket cur log = inl (refl, refl)
data-⟶ dev h (b ∷ bytes) none cur log = inr (refl, rst-⟶ dev cur log)
data-⟶ dev h (b ∷ bytes) (some fd) cur log = elim (Bool-cases (is_close_wait cur.state)) [
  | inl e ↦ rw e (inr (refl, rst-⟶ dev cur log))
  | inr e ↦ rw e (inl (refl, queue-state h.seq _ h.psh (b ∷ bytes) cur))
]

-- Whatever segment handle_session gets, and whatever the device answers, the state goes along an edge of
-- the transition diagram.
pub handle_session-⟶ :
    (dev : TunWrite) (now : ℕ) (h : TcpHeader) (bytes : List ℕ) (socket : Option ℕ)
    (cur : TcpSession) (log : Tun)
    → cur.state ⟶ (handle_session dev now h bytes socket cur log).0.state
unfolding handle_session
handle_session-⟶ dev now h bytes socket cur log =
    elim (Bool-cases (is_closing cur.state || is_close cur.state)) [
      | inl e ↦ rw e (rst-⟶ dev cur log)
      | inr e ↦
          let r = handle_data dev h bytes socket (touch now h cur) log in
          rw e (elim (data-⟶ dev h bytes socket (touch now h cur) log) [
            | inl (go_on, same_state) ↦
                let open_ : is_close r.1.state ≡ false = rw same_state (ground arith) in
                rw go_on (rw same_state at (flags-⟶ dev h r.1 r.2 open_))
            | inr (stop, edge) ↦ rw stop edge
          ])
    ]

rst_kept :
    (dev : TunWrite) (cur : TcpSession) (log : Tun)
    → is_established (write_rst dev cur log).0.state ≡ false
unfolding write_rst
rst_kept dev cur log = ground arith

fin_kept :
    (dev : TunWrite) (cur : TcpSession) (log : Tun)
    → is_established cur.state ≡ false
    → is_established (handle_fin dev cur log).0.state ≡ false
unfolding handle_fin write_ack
fin_kept dev cur log old = ground arith

other_kept :
    (dev : TunWrite) (ack : ℕ) (cur : TcpSession) (log : Tun)
    → is_established cur.state ≡ false
    → is_established (handle_other_ack dev ack cur log).0.state ≡ false
unfolding handle_other_ack
other_kept dev ack cur log old = ground (arith, rst_kept dev cur log)

data_kept :
    (dev : TunWrite) (h : TcpHeader) (bytes : List ℕ) (socket : Option ℕ) (cur : TcpSession)
    (log : Tun)
    → is_established cur.state ≡ false
    → is_established (handle_data dev h bytes socket cur log).1.state ≡ false
unfolding handle_data
data_kept dev h [] socket cur log old = old
data_kept dev h (b ∷ bytes) none cur log old = rst_kept dev cur log
data_kept dev h (b ∷ bytes) (some fd) cur log old =
    ground
      (arith, rst_kept dev cur log, queue-state h.seq (length (b ∷ bytes)) h.psh (b ∷ bytes) cur)

abbrev pub Confirms : TcpHeader → TcpSession → Type 0
Confirms h cur =
    (cur.state ≡ syn_recv)
    × (h.ack ≡ true)
    × (h.ack_seq ≡ cur.local_seq)
    × (h.rst ≡ false)
    × (h.syn ≡ false)
    × (h.fin ≡ false)

flags-establish :
    (dev : TunWrite) (h : TcpHeader) (cur : TcpSession) (log : Tun)
    → is_established cur.state ≡ false
    → is_established (handle_flags dev h cur log).0.state ≡ true
    → Confirms h cur
unfolding handle_flags handle_ack
flags-establish dev h cur log old new =
    ground (arith, fin_kept dev cur log old, other_kept dev h.ack_seq cur log old)

-- A session becomes established only from SYN_RECV, by a segment that acknowledges exactly what was
-- sent, with ACK set and none of RST, SYN and FIN.
pub becomes_established :
    (dev : TunWrite) (now : ℕ) (h : TcpHeader) (bytes : List ℕ) (socket : Option ℕ)
    (cur : TcpSession) (log : Tun)
    → is_established cur.state ≡ false
    → is_established (handle_session dev now h bytes socket cur log).0.state ≡ true
    → Confirms h cur
unfolding handle_session
becomes_established dev now h bytes socket cur log old new =
    let r = handle_data dev h bytes socket (touch now h cur) log in
    ground (
      arith,
      data-⟶ dev h bytes socket (touch now h cur) log,
      data-SameAcks dev h bytes socket (touch now h cur) log,
      rst_kept dev cur log,
      data_kept dev h bytes socket (touch now h cur) log old,
      flags-establish dev h r.1 r.2,
    )
