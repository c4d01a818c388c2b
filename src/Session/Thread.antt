-- ===== src/Session/Thread.antt =====
-- handle_events of session.c as a whole: the thread of the engine, from its start to its end. What
-- epoll gives is a list of rounds. The loop is given the limit of the sessions as a natural number.
pub mod Stops
use violet.Base.{
  ℕ, ◌*◌, ◌/◌, ◌%◌, Bool, true, false, ◌&&◌, not, Option, none, some, List, [], ◌∷◌, Memory, ltb,
  if◌then◌else◌, u64, u32,
}
use violet.Base.Int.{ℤ, pos, ltb_ℤ}
use violet.Util.Serial.{to_int}
use violet.Packet.{Tun, TunWrite}
use violet.Session.World.{World}
use violet.Session.Rounds.{check_allowed}
use violet.Session.Loop.{
  Clock, Turn, begin_turn, Ready, Next, going, stopping, failed, handle_events,
}
use violet.Ip.{Engine}

-- `(int) (rlim_cur * SESSION_LIMIT / 100)`, and 1000 at most. `rlim_cur` is a number of 64 bits.
unfoldable pub max_sessions : (rlim_cur : ℕ) → ℤ
unfolding to_int
max_sessions rlim_cur =
    let limit = to_int (u32 (u64 (rlim_cur * 40) / 100)) in
    if ltb_ℤ (pos 1000) limit then pos 1000 else limit

-- epoll_wait: interrupted, failed, or with events, of which there are none when the time is over.
pub data Wake : Type 0 where
  interrupted wait_failed : Wake
  ready : List Ready → Wake

-- What a turn of the loop is given.
pub record Round : Type 0 where
  pub engine : Engine
  pub clock : Clock
  pub wake : Wake

-- How the loop has ended: it still waits, as the rounds have run out; the pipe has stopped it; or it
-- has left for an error.
pub data Ended : Type 0 where
  waiting stopped broken : Ended

-- The loop's end, with `last_check` and the world.
pub record Run : Type 0 where
  pub how : Ended
  pub last_check : ℕ
  pub world : World

-- The end of a turn, whose events have been handled. `more` is the rest of the loop.
abbrev pub after_events : ℕ → Option (Next × World) → (World → Option Run) → Option Run
after_events last_check none more = none
after_events last_check (some (going, w)) more = more w
after_events last_check (some (stopping, w)) more =
    some (record { how = stopped; last_check = last_check; world = w })
after_events last_check (some (failed, w)) more =
    some (record { how = broken; last_check = last_check; world = w })

abbrev pub after_wait : Engine → Memory → ℕ → Turn → Wake → (World → Option Run) → Option Run
after_wait e junk maxsessions t interrupted more = more t.world
after_wait e junk maxsessions t wait_failed more =
    some (record { how = broken; last_check = t.last_check; world = t.world })
after_wait e junk maxsessions t (ready events) more =
    after_events t.last_check (handle_events e junk t.sessions maxsessions events t.world) more

-- `while (!stopping)`; `none` is a loop below that does not return.
unfoldable pub loop : Memory → (maxsessions last_check : ℕ) → List Round → World → Option Run
loop junk maxsessions last_check [] w =
    some (record { how = waiting; last_check = last_check; world = w })
loop junk maxsessions last_check (r ∷ rounds) w =
    let t = begin_turn r.clock maxsessions last_check w in
    after_wait r.engine junk maxsessions t r.wake (loop junk maxsessions t.last_check rounds)

-- What the thread meets at its start: whether it is attached to the VM, and whether epoll_create and
-- the two calls of epoll_ctl succeed.
pub record Setup : Type 0 where
  pub attached : Bool
  pub epoll_made : Bool
  pub pipe_added : Bool
  pub tun_added : Bool
  pub dev : TunWrite

-- Sessions that are not allowed any more are ended first.
abbrev pub allow : Setup → World → World
allow s w =
    let (sessions, log) = check_allowed s.dev w.sessions w.tun in
    record w { sessions = sessions; tun = log }

abbrev pub in_loop : Option Run → Option (Option Run)
in_loop none = none
in_loop (some r) = some (some r)

-- The thread: the result of its loop, and the world that it leaves. `none` in the result is a thread
-- that could not be attached and has done nothing.
unfoldable pub run_thread : Setup → Memory → ℕ → List Round → World → Option (Option Run)
run_thread s junk maxsessions rounds w =
    if s.attached
    then (if s.epoll_made && (s.pipe_added && s.tun_added)
        then in_loop (loop junk maxsessions 0 rounds (allow s w))
        else some (some (record { how = stopped; last_check = 0; world = allow s w })))
    else some none
