-- ===== src/Scenarios/Sessions.antt =====
-- Runs of the handler of segments and of the rounds over the sessions.
use violet.Base.{ℕ, ◌≡◌, ◌⊎◌, refl, true, false, none, some, List, [], ◌∷◌, arith, Memory}
use violet.Base.Int.{◌+ℤ◌}
use violet.Packet.{get_default_mss}
use violet.Session.Types.{NgSession, search_session}
use violet.Tcp.Incoming.States.{handle_known-⟶}
use violet.Tcp.Handle.{TcpHeader}
use violet.Tcp.Types.{is_not_sent, listen, established, syn_recv, close, close_wait}
use violet.Tcp.Windows.{Buffers, get_tcp_timeout}
use violet.Tcp.Handle.{handle_data, handle_ack, handle_flags, handle_session}
use violet.Tcp.Handle.States.{◌⟶◌, Confirms, becomes_established}
use violet.Tcp.Handle.Acks.{AckMoves, handle_session-moves}
use violet.Tcp.Check.{Events, check_tcp_session}
use violet.Tcp.Check.Expire.{SocketClosed, expired_removed}
use violet.Tcp.Socket.{
  SocketIo, SocketEvents, Forwarding, send_failed, received_bytes, forward_loop, check_tcp_socket,
}
use violet.Tcp.Socket.Forward.{Took, Skipped, forward_loop-failed, forward_loop-Took}
use violet.Tcp.Socket.Edges.{◌⟹◌, check_tcp_socket-⟹}
use violet.Tcp.Options.{Decoded, decode_options}
use violet.Tcp.Open.{SocketCalls, open_tcp_socket}
use violet.Tcp.Register.{Kernel}
use violet.Tcp.Incoming.{handle_segment, handle_known}
use violet.Tcp.Incoming.Answers.{Registered, handle_segment-syn}
use violet.Scenarios.{
  client_address, server_address, take_all, session, ack_header, syn_header, queued,
}

becomes_established_example : Confirms ack_header (session syn_recv)
becomes_established_example =
    becomes_established take_all 1001 ack_header [] (some 50) (session syn_recv) [] refl
      (unfold handle_session handle_data handle_flags handle_ack in refl)

handle_session-moves_example :
    AckMoves ack_header
      (session syn_recv)
      (handle_session take_all 1001 ack_header [] (some 50) (session syn_recv) []).0
handle_session-moves_example =
    handle_session-moves take_all 1001 ack_header [] (some 50) (session syn_recv) []

-- Established, and idle from 1000 to 9000.
expired_removed_example :
    let (del, cur', socket', log') =
      check_tcp_session take_all 9000 9001 3 1000 (session established) (some 50) [] in
    (cur'.state ≡ close)
    × (socket' ≡ none)
    × (cur'.sent ≡ 0)
    × (cur'.received ≡ 0)
    × ((check_tcp_session take_all 9400 9400 3 1000 cur' socket' log').0 ≡ true)
expired_removed_example =
    expired_removed take_all 9000 9001 3 1000 (session established) (some 50) [] 9400 9400 3 1000
      (unfold ◌+ℤ◌ get_tcp_timeout in refl) refl (omega arith)

abbrev buffers : Buffers
buffers = record { sendbuf = 0; unsent = 0 }

abbrev no_events : Events
no_events = record { input = false; output = false }

abbrev calls : SocketCalls
calls = record {
  socket = λ version. some 60;
  protect = λ sock. true;
  non_blocking = λ sock. true;
  connect = λ sock target. true;
}

abbrev pub kernel : Kernel
kernel = record {
  dev = take_all;
  now = 1000;
  isn = 5000;
  calls = calls;
  buffers = buffers;
  inet_ntoa = λ bytes. [];
  can_send = λ sock bytes. true;
  redirect = record { raddr = 49 ∷ []; rport = 8080 };
}

-- To the port 443, with no CONNECT sent.
abbrev to_https : TcpHeader
to_https = record ack_header { dest = 443 }

handle_known-⟶_example :
    let cur' =
      (handle_known kernel to_https (97 ∷ []) (1 ∷ 2 ∷ []) (some 50) (session close) []).0 in
    (close ⟶ cur'.state)
    ⊎ ((to_https.dest ≡ 443) × (is_not_sent (session close).connect ≡ true) × (cur'.state ≡ listen))
handle_known-⟶_example =
    handle_known-⟶ kernel to_https (97 ∷ []) (1 ∷ 2 ∷ []) (some 50) (session close) []

abbrev blank : Memory
blank i = 0

-- No options.
abbrev decoded : Decoded
decoded = record { mss = get_default_mss 4; ws = 0 }

handle_segment-syn_example :
    (result : List NgSession) × (handle_segment kernel 10001 4 syn_header blank 20 client_address
        server_address [] [] [] []
      ≡ some (result, []))
    × Registered 4 syn_header ack_header client_address server_address [] 60 result
handle_segment-syn_example =
    handle_segment-syn kernel 10001 4 syn_header ack_header blank 20 client_address server_address
      [] [] [] [] decoded 60 refl refl refl refl (unfold search_session in refl)
      (unfold decode_options in refl) (unfold open_tcp_socket in refl)

-- A socket with room, on which every send fails with EAGAIN.
abbrev failing : SocketIo
failing = record {
  dev = take_all;
  now = 1002;
  send = λ wire bytes more. send_failed true;
  recv = λ n. received_bytes [];
  before = buffers;
  after = buffers;
  behind = λ i. 0;
}

abbrev one_queued : Forwarding
one_queued = record {
  cur = record (session established) { forward = queued ∷ [] };
  room = 8192;
  fwd = false;
  wire = [];
  log = [];
}

forward_loop-failed_example :
    let f' = forward_loop failing (queued ∷ []) one_queued in
    (f'.cur.forward ≡ []) × (f'.fwd ≡ true) × (f'.cur.remote_seq ≡ 2004) × (f'.cur.sent ≡ 3)
forward_loop-failed_example =
    forward_loop-failed failing queued one_queued true (λ wire bytes more. refl) (omega arith) refl

forward_loop-Took_example :
    (n : ℕ) × Took n one_queued.cur (forward_loop failing (queued ∷ []) one_queued).cur
    × Skipped n (queued ∷ []) (forward_loop failing (queued ∷ []) one_queued).cur.forward
forward_loop-Took_example =
    forward_loop-Took failing (queued ∷ []) one_queued refl (omega arith) (omega arith)
      (omega arith)

abbrev readable : SocketEvents
readable = record { error = false; input = true; output = false }

-- The other side has closed.
check_tcp_socket-⟹_example :
    let (cur', socket', log') =
      check_tcp_socket failing readable
        (some 50)
        (record (session close_wait) { forward = [] })
        [] in
    (close_wait ⟹ cur'.state) × SocketClosed cur' socket'
check_tcp_socket-⟹_example =
    check_tcp_socket-⟹ failing readable (some 50) (record (session close_wait) { forward = [] }) []
      refl
