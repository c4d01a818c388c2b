-- ===== src/Tcp/Incoming/States.antt =====
-- The states that a known session passes through in handle_tcp: send_connect, and then handle_session or
-- the queue.
use violet.Base.{
  ℕ, ◌≡◌, refl, ◌∙◌, ◌⊎◌, inl, inr, true, false, ◌&&◌, Option, List, arith, Bool-cases, length,
  ◌==◌,
}
use violet.Packet.{Tun, TunWrite}
use violet.Tcp.Types.{
  TcpSession, listen, ConnectSent, not_sent, connect_sent, connect_established, is_not_sent,
  is_connect_established,
}
use violet.Tcp.Write.{write_rst}
use violet.Tcp.Queue.{queue_tcp}
use violet.Tcp.Register.{Kernel}
use violet.Tcp.Handle.{TcpHeader}
use violet.Tcp.Handle.States.{◌⟶◌, stay, queue-state, rst-⟶, handle_session-⟶}
use violet.Tcp.Incoming.{set_hostname, has_name, connect_request, send_connect, handle_known}

set_hostname-Same :
    (k : Kernel) (name : List ℕ) (cur : TcpSession)
    → let cur' = set_hostname k name cur in (cur'.state ≡ cur.state) × (cur'.connect ≡ cur.connect)
set_hostname-Same k name cur = ground arith

rst-connect :
    (dev : TunWrite) (cur : TcpSession) (log : Tun)
    → (write_rst dev cur log).0.connect ≡ cur.connect
unfolding write_rst
rst-connect dev cur log = ground arith

not_established : (c : ConnectSent) → is_not_sent c ≡ true → is_connect_established c ≡ false
not_established not_sent e = refl
not_established connect_sent e = refl
not_established connect_established e = cc

-- The state is kept, or the proxy has not answered, and the session was reset or listens.
abbrev Connects : TcpSession → TcpSession → Type 0
Connects cur cur' =
    (cur'.state ≡ cur.state)
    ⊎ ((is_connect_established cur'.connect ≡ false)
        × ((cur.state ⟶ cur'.state) ⊎ ((is_not_sent cur.connect ≡ true) × (cur'.state ≡ listen))))

send_connect-Connects :
    (k : Kernel) (name : List ℕ) (socket : Option ℕ) (cur : TcpSession) (log : Tun)
    → Connects cur (send_connect k name socket cur log).0
unfolding send_connect
send_connect-Connects k name socket cur log =
    let cur' = set_hostname k name cur in
    let (same, connect) = set_hostname-Same k name cur in
    elim (Bool-cases (is_not_sent cur.connect && has_name k name cur)) [
      | inr e ↦ rw e (inl same)
      | inl e ↦
          let new : is_not_sent cur.connect ≡ true = ground (arith, e) in
          elim (Bool-cases (k.can_send socket (connect_request cur'.hostname))) [
            | inl s ↦ rw (e, s) (inr (refl, inr (new, refl)))
            | inr s ↦
                let kept : (write_rst k.dev cur' log).0.connect ≡ cur.connect =
                  rst-connect k.dev cur' log ∙ connect in
                rw (e, s)
                  (inr (
                    rw kept (not_established cur.connect new),
                    inl (rw same at (rst-⟶ k.dev cur' log)),
                  ))
          ]
    ]

-- Whatever segment comes in for a session that is known, and whatever the device and the proxy's socket
-- answer, the state goes along an edge of the transition diagram, but for one case: for the port 443, as
-- long as no CONNECT was sent to the proxy, a session in any state, a closed one too, may go to LISTEN.
pub handle_known-⟶ :
    (k : Kernel) (h : TcpHeader) (name bytes : List ℕ) (socket : Option ℕ) (cur : TcpSession)
    (log : Tun)
    → let cur' = (handle_known k h name bytes socket cur log).0 in
      (cur.state ⟶ cur'.state)
      ⊎ ((h.dest ≡ 443) × (is_not_sent cur.connect ≡ true) × (cur'.state ≡ listen))
unfolding handle_known
handle_known-⟶ k h name bytes socket cur log =
    let r = send_connect k name socket cur log in
    let queued : (queue_tcp h.seq (length bytes) h.psh bytes r.0).state ≡ r.0.state =
      queue-state h.seq (length bytes) h.psh bytes r.0 in
    elim (Bool-cases (h.dest == 443)) [
      | inr e ↦ rw e (inl (handle_session-⟶ k.dev k.now h bytes socket cur log))
      | inl e ↦
          let port : h.dest ≡ 443 = ground (arith, e) in
          elim (send_connect-Connects k name socket cur log) [
            | inl same ↦ (elim (Bool-cases (is_connect_established r.0.connect)) [
              | inl c ↦
                  rw (e, c) (inl (rw same at (handle_session-⟶ k.dev k.now h bytes socket r.0 r.1)))
              | inr c ↦ rw (e, c, queued, same) (inl stay)
            ])
            | inr (c, inl edge) ↦ rw (e, c, queued) (inl edge)
            | inr (c, inr (new, listens)) ↦ rw (e, c, queued) (inr (port, new, listens))
          ]
    ]
