-- ===== src/Session/Loop/Limit.antt =====
-- The limit of the sessions over the events of a turn.
use violet.Base.{
  ℕ, ◌≤◌, ◌≡◌, refl, Bool, true, false, Option, none, some, List, [], ◌∷◌, length, Memory,
  Option-cases, inl, inr,
}
use violet.Packet.{Tun, get_mtu}
use violet.Session.Types.{NgSession, Proto, icmp, udp, tcp, UdpSession, Found, search_session}
use violet.Session.World.{World}
use violet.Session.Search.{length-put_back}
use violet.Tcp.Socket.{RecvResult, received_bytes, recv_failed, SocketIo, SocketEvents}
use violet.Udp.Socket.{received_into}
use violet.Ip.{Engine, handle_ip, unless_stuck, take_packet, check_tun}
use violet.Ip.Limit.{SameCount, handle_ip-SameCount}
use violet.Session.Loop.{
  Ready, pipe, tun, socket, Next, going, stopping, failed, then_read, read_tun, put_udp_session,
  check_socket, has_socket, handle_ready, then_events, handle_events,
}

-- The number of sessions after a function that answers and may not return.
abbrev pub CountAfter {ℓ} : {A : Type ℓ} → ℕ → Option (A × World) → Type 0
CountAfter n none = Unit
CountAfter n (some r) = length r.1.sessions ≡ n

unless-CountAfter : (n : ℕ) (r : Option World) → SameCount n r → CountAfter n (unless_stuck r)
unless-CountAfter n none h = tt
unless-CountAfter n (some w) h = h

module _ (e : Engine) (junk : Memory) (sessions maxsessions : ℕ) (fwd : e.fwd53 ≡ true)
    (full : maxsessions ≤ sessions) where
  take-CountAfter :
      (w : World) (r : RecvResult)
      → CountAfter (length w.sessions) (take_packet e junk sessions maxsessions w r)
  take-CountAfter w (recv_failed retry) = refl
  take-CountAfter w (received_bytes []) = refl
  take-CountAfter w (received_bytes (b ∷ bytes)) =
      unless-CountAfter (length w.sessions)
        (handle_ip e (received_into junk (b ∷ bytes)) (length (b ∷ bytes)) sessions maxsessions w)
        (handle_ip-SameCount e (received_into junk (b ∷ bytes)) (length (b ∷ bytes)) sessions
          maxsessions w fwd full)

  check_tun-CountAfter :
      (error input : Bool) (read : ℕ → RecvResult) (w : World)
      → CountAfter (length w.sessions) (check_tun e junk error input read sessions maxsessions w)
  unfolding check_tun
  check_tun-CountAfter true input read w = refl
  check_tun-CountAfter false false read w = refl
  check_tun-CountAfter false true read w = take-CountAfter w (read get_mtu)

  then_read-CountAfter :
      (n : ℕ) (r : Option (Bool × World)) (more : World → Option (Next × World))
      → CountAfter n r
      → ((w : World) → CountAfter (length w.sessions) (more w))
      → CountAfter n (then_read r more)
  then_read-CountAfter n none more h k = tt
  then_read-CountAfter n (some (true, w)) more h k = rw h at (k w)
  then_read-CountAfter n (some (false, w)) more h k = h

  read_tun-CountAfter :
      (error input : Bool) (reads : List (ℕ → RecvResult)) (w : World)
      → CountAfter (length w.sessions) (read_tun e junk error input reads sessions maxsessions w)
  unfolding read_tun
  read_tun-CountAfter error input [] w = refl
  read_tun-CountAfter error input (read ∷ reads) w =
      then_read-CountAfter (length w.sessions)
        (check_tun e junk error input read sessions maxsessions w)
        (read_tun e junk error input reads sessions maxsessions)
        (check_tun-CountAfter error input read w) (read_tun-CountAfter error input reads)

  udp-CountAfter :
      (w : World) (f : Found) (test : NgSession → Bool) (r : Option (UdpSession × Tun))
      → search_session test w.sessions ≡ some f
      → CountAfter (length w.sessions) (put_udp_session w f r)
  udp-CountAfter w f test none h = tt
  udp-CountAfter w f test (some r) h = length-put_back test w.sessions f _ h

  check_socket-CountAfter :
      (ev : SocketEvents) (recvs : List (ℕ → RecvResult)) (io : SocketIo) (w : World) (f : Found)
      (test : NgSession → Bool) (proto : Proto)
      → search_session test w.sessions ≡ some f
      → CountAfter (length w.sessions) (check_socket e junk ev recvs io w f proto)
  check_socket-CountAfter ev recvs io w f test (icmp i) h = length-put_back test w.sessions f _ h
  check_socket-CountAfter ev recvs io w f test (udp u) h = udp-CountAfter w f test _ h
  check_socket-CountAfter ev recvs io w f test (tcp t) h = length-put_back test w.sessions f _ h

  handle_ready-CountAfter :
      (w : World) (r : Ready)
      → CountAfter (length w.sessions) (handle_ready e junk sessions maxsessions w r)
  unfolding handle_ready
  handle_ready-CountAfter w pipe = refl
  handle_ready-CountAfter w (tun error input reads) = read_tun-CountAfter error input reads w
  handle_ready-CountAfter w (socket sock ev recvs io) =
      elim (Option-cases (search_session (has_socket sock) w.sessions)) [
        | inl miss ↦ rw miss refl
        | inr (f, hit) ↦
            rw hit (check_socket-CountAfter ev recvs io w f (has_socket sock) f.session.proto hit)
      ]

  then_events-CountAfter :
      (n : ℕ) (r : Option (Next × World)) (more : World → Option (Next × World))
      → CountAfter n r
      → ((w : World) → CountAfter (length w.sessions) (more w))
      → CountAfter n (then_events r more)
  then_events-CountAfter n none more h k = tt
  then_events-CountAfter n (some (going, w)) more h k = rw h at (k w)
  then_events-CountAfter n (some (stopping, w)) more h k = h
  then_events-CountAfter n (some (failed, w)) more h k = h

  -- When the turn begins with as many sessions as are allowed, its events make none more, however many
  -- packets are read and whatever the sockets bring: if the loops return, the list is as long as
  -- before. Queries to port 53 are forwarded (fwd53); without that they count as known.
  pub handle_events-CountAfter :
      (events : List Ready) (w : World)
      → CountAfter (length w.sessions) (handle_events e junk sessions maxsessions events w)
  unfolding handle_events
  handle_events-CountAfter [] w = refl
  handle_events-CountAfter (r ∷ rest) w =
      then_events-CountAfter (length w.sessions) (handle_ready e junk sessions maxsessions w r)
        (handle_events e junk sessions maxsessions rest) (handle_ready-CountAfter w r)
        (handle_events-CountAfter rest)
