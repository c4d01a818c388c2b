-- ===== src/Session/Thread/Stops.antt =====
-- When the thread of the engine stops.
use violet.Base.{
  ℕ, ◌+◌, ◌*◌, ◌/◌, ◌%◌, ◌≤◌, ◌≡◌, refl, Option, none, some, List, [], ◌∷◌, ◌++◌, arith, Memory,
  min, lt→ltb, ltb, true, ◌&&◌, if◌then◌else◌,
}
use violet.Base.Int.{pos}
use violet.Util.Serial.{to_int}
use violet.Session.World.{World}
use violet.Session.Loop.{
  Turn, begin_turn, Ready, pipe, Next, going, stopping, failed, handle_ready, then_events,
  handle_events,
}
use violet.Session.Thread.{
  max_sessions, Wake, interrupted, wait_failed, ready, Round, waiting, stopped, Run, after_events,
  after_wait, loop, Setup, allow, run_thread,
}
use violet.Ip.{Engine}

-- Events that are handled one after the other: the pipe's stops the turn.
module _ (e : Engine) (junk : Memory) (sessions maxsessions : ℕ) where
  then_events-pipe :
      (r : Option (Next × World)) (more more' : World → Option (Next × World)) (w' : World)
      → then_events r more ≡ some (going, w')
      → ((w : World) → more w ≡ some (going, w') → more' w ≡ some (stopping, w'))
      → then_events r more' ≡ some (stopping, w')
  then_events-pipe none more more' w' h k = cc
  then_events-pipe (some (going, w)) more more' w' h k = k w h
  then_events-pipe (some (stopping, w)) more more' w' h k = cc
  then_events-pipe (some (failed, w)) more more' w' h k = cc

  handle_events-pipe :
      (front back : List Ready) (w w' : World)
      → handle_events e junk sessions maxsessions front w ≡ some (going, w')
      → handle_events e junk sessions maxsessions (front ++ (pipe ∷ back)) w ≡ some (stopping, w')
  unfolding handle_events handle_ready
  handle_events-pipe [] back w w' h = cc
  handle_events-pipe (r ∷ front) back w w' h =
      then_events-pipe (handle_ready e junk sessions maxsessions w r)
        (handle_events e junk sessions maxsessions front)
        (handle_events e junk sessions maxsessions (front ++ (pipe ∷ back))) w' h
        (λ v k. handle_events-pipe front back v w' k)

-- A loop that still waits goes on with the rounds that follow.
abbrev pub still_waiting : ℕ → World → Run
still_waiting last_check w = record { how = waiting; last_check = last_check; world = w }

events_on :
    (last_check last : ℕ) (r : Option (Next × World)) (more more' : World → Option Run) (w' : World)
    (result : Option Run)
    → after_events last_check r more ≡ some (still_waiting last w')
    → ((w : World) → more w ≡ some (still_waiting last w') → more' w ≡ result)
    → after_events last_check r more' ≡ result
events_on last_check last none more more' w' result h k = cc
events_on last_check last (some (going, w)) more more' w' result h k = k w h
events_on last_check last (some (stopping, w)) more more' w' result h k = cc
events_on last_check last (some (failed, w)) more more' w' result h k = cc

module _ (junk : Memory) (maxsessions : ℕ) where
  wait_on :
      (e : Engine) (last : ℕ) (t : Turn) (wake : Wake) (more more' : World → Option Run)
      (w' : World) (result : Option Run)
      → after_wait e junk maxsessions t wake more ≡ some (still_waiting last w')
      → ((w : World) → more w ≡ some (still_waiting last w') → more' w ≡ result)
      → after_wait e junk maxsessions t wake more' ≡ result
  wait_on e last t interrupted more more' w' result h k = k t.world h
  wait_on e last t wait_failed more more' w' result h k = cc
  wait_on e last t (ready events) more more' w' result h k =
      events_on t.last_check last (handle_events e junk t.sessions maxsessions events t.world) more
        more' w' result h k

  loop-append :
      (last_check last : ℕ) (rounds rest : List Round) (w w' : World)
      → loop junk maxsessions last_check rounds w ≡ some (still_waiting last w')
      → loop junk maxsessions last_check (rounds ++ rest) w ≡ loop junk maxsessions last rest w'
  unfolding loop
  loop-append last_check last [] rest w w' h = ground arith
  loop-append last_check last (r ∷ rounds) rest w w' h =
      let t = begin_turn r.clock maxsessions last_check w in
      wait_on r.engine last t r.wake (loop junk maxsessions t.last_check rounds)
        (loop junk maxsessions t.last_check (rounds ++ rest)) w'
        (loop junk maxsessions last rest w') h
        (λ v k. loop-append t.last_check last rounds rest v w' k)

-- A thread that has been attached and set up, and whose loop still waits after some rounds, ends by
-- the first event of the pipe: when the events in front of it in its turn are handled, the thread is
-- stopped in the world that they leave, whatever events come behind and whatever rounds would follow.
pub run_thread-stopped :
    (s : Setup) (junk : Memory) (maxsessions last : ℕ) (rounds rest : List Round) (r : Round)
    (front back : List Ready) (w w' w'' : World)
    → s.attached ≡ true
    → (s.epoll_made && (s.pipe_added && s.tun_added)) ≡ true
    → loop junk maxsessions 0 rounds (allow s w) ≡ some (still_waiting last w')
    → r.wake ≡ ready (front ++ (pipe ∷ back))
    → (let t = begin_turn r.clock maxsessions last w' in
        handle_events r.engine junk t.sessions maxsessions front t.world ≡ some (going, w''))
    → run_thread s junk maxsessions (rounds ++ (r ∷ rest)) w
      ≡ some (
          some (record {
            how = stopped;
            last_check = (begin_turn r.clock maxsessions last w').last_check;
            world = w'';
          }))
unfolding run_thread loop
run_thread-stopped s junk maxsessions last rounds rest r front back w w' w'' on set_up before wakes
      handled =
    let t = begin_turn r.clock maxsessions last w' in
    let on_ = loop-append junk maxsessions 0 last rounds (r ∷ rest) (allow s w) w' before in
    let stops =
      handle_events-pipe r.engine junk t.sessions maxsessions front back t.world w'' handled in
    rw (on, set_up, on_, wakes, stops) refl

capped : (n : ℕ) → (if ltb (1000 + 0) (n + 0) then pos 1000 else pos n) ≡ pos (min 1000 n)
capped n = ground arith

-- The limit of the sessions is 40 percent of the descriptors that the
-- system allows, or 1000 if that is less, as long as it allows no more than 5368709119.
pub max_sessions_lem :
    (rlim_cur : ℕ)
    → rlim_cur ≤ 5368709119
    → max_sessions rlim_cur ≡ pos (min 1000 (rlim_cur * 40 / 100))
unfolding max_sessions to_int
max_sessions_lem rlim_cur h =
    let n = rlim_cur * 40 / 100 in
    let exact : rlim_cur * 40 % 18446744073709551616 / 100 % 4294967296 ≡ n = omega arith in
    let small : ltb n 2147483648 ≡ true = lt→ltb n 2147483648 (omega arith) in
    rw (exact, small) (capped n)
