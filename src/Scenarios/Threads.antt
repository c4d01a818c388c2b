-- ===== src/Scenarios/Threads.antt =====
-- A run of the engine's thread that the pipe stops.
use violet.Base.{◌≡◌, refl, true, false, some, [], ◌∷◌}
use violet.Session.Rounds.{check_allowed, check_sessions}
use violet.Session.Types.{search_session}
use violet.Session.Loop.{
  Clock, Ready, pipe, socket, begin_turn, monitor_sessions, handle_events, handle_ready,
}
use violet.Session.Thread.{Round, interrupted, ready, stopped, loop, Setup, allow, run_thread}
use violet.Session.Thread.Stops.{still_waiting, run_thread-stopped}
use violet.Scenarios.{take_all}
use violet.Scenarios.Sessions.{kernel}
use violet.Scenarios.Datagrams.{idle}
use violet.Scenarios.Engine.{engine, no_io}

abbrev setup : Setup
setup = record {
  attached = true;
  epoll_made = true;
  pipe_added = true;
  tun_added = true;
  dev = take_all;
}

abbrev clock : Clock
clock = record {
  dev = take_all;
  ms = 500;
  now = 1000;
  later = 1000;
  buffers = λ sock. kernel.buffers;
  ctl = λ sock. true;
}

-- An event of a socket whose session is gone.
abbrev gone : Ready
gone = socket 8 (record { error = false; input = true; output = false }) [] no_io

abbrev silent_round : Round
silent_round = record { engine = engine; clock = clock; wake = interrupted }

abbrev last_round : Round
last_round = record silent_round { wake = ready (gone ∷ pipe ∷ gone ∷ []) }

waits : loop (λ i. 0) 1000 0 (silent_round ∷ []) (allow setup idle) ≡ some (still_waiting 500 idle)
unfolding loop begin_turn check_sessions monitor_sessions check_allowed
waits = refl

run_thread-stopped_example :
    run_thread setup (λ i. 0) 1000 (silent_round ∷ last_round ∷ silent_round ∷ []) idle
    ≡ some (
        some (record {
          how = stopped;
          last_check = (begin_turn clock 1000 500 idle).last_check;
          world = idle;
        }))
run_thread-stopped_example =
    run_thread-stopped setup (λ i. 0) 1000 500 (silent_round ∷ []) (silent_round ∷ []) last_round
      (gone ∷ []) (gone ∷ []) idle idle idle refl refl waits refl
      (unfold handle_events begin_turn handle_ready search_session monitor_sessions in refl)
