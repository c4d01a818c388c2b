-- ===== src/Jni/Stopped.antt =====
-- What jni_stop leaves, and a start behind it.
use violet.Base.{
  ℕ, ◌≡◌, refl, ap, Bool, true, not, ◌&&◌, Option, none, some, List, [], ◌∷◌, ◌++◌, ◌==◌, ne→==,
  Option-cases, inl, inr,
}
use violet.Session.Types.{NgSession}
use violet.Session.Loop.{clear}
use violet.Jni.{Arguments, Thread, Native, fits, jni_start, ended, jni_stop}
use violet.Jni.Threads.{Sees, Alone, ◌⟿*◌, unloaded, without_nobody, reachable-Alone}

-- The sockets of the sessions, in order.
abbrev pub with_socket : Option ℕ → List ℕ → List ℕ
with_socket none sockets = sockets
with_socket (some socket) sockets = socket ∷ sockets

abbrev pub sockets : List NgSession → List ℕ
sockets [] = []
sockets (s ∷ rest) = with_socket s.socket (sockets rest)

clear_nothing : (ss : List NgSession) → (clear ss).0 ≡ []
unfolding clear
clear_nothing [] = refl
clear_nothing (s ∷ rest) = clear_nothing rest

clear-sockets : (ss : List NgSession) → (clear ss).1 ≡ sockets ss
unfolding clear
clear-sockets [] = refl
clear-sockets (s ∷ rest) = elim (Option-cases s.socket) [
  | inl e ↦ rw e (clear-sockets rest)
  | inr (socket, e) ↦ rw e (ap (λ ls. socket ∷ ls) (clear-sockets rest))
]

alive :
    (kill : ℕ → Bool) (id : ℕ) (t : Thread) (threads : List Thread)
    → Alone id (t ∷ threads)
    → Sees kill (t ∷ threads)
    → (not (id == 0) && kill id) ≡ true
alive kill id t [] h sees =
    let seen : kill id ≡ true = (rw (← h.0) sees.0) in rw (ne→== id 0 h.1, seen) refl
alive kill id t (u ∷ threads) h sees = absurd h

-- In every state that can be reached where a thread of the engine runs, jni_stop, when it can write to
-- the pipe and the thread is joined, leaves no thread and no session, and closes the sockets of just
-- the sessions that the thread has left, each once and in the order of the list.
pub jni_stop-Stopped :
    (n : Native) (t : Thread) (threads : List Thread) (kill : ℕ → Bool) (attached : Bool)
    (left : List NgSession)
    → unloaded ⟿* n
    → n.running ≡ t ∷ threads
    → Sees kill n.running
    → let m = jni_stop kill true (ended attached left) n in
      (m.running ≡ []) × (m.sessions ≡ []) × (m.closed ≡ sockets left ++ n.closed)
unfolding jni_stop
jni_stop-Stopped n t threads kill attached left r busy sees =
    let alone = reachable-Alone r in
    let seen = alive kill n.thread_id t threads (rw busy at alone) (rw busy at sees) in
    rw seen (
      without_nobody n.thread_id n.running alone,
      clear_nothing left,
      ap (λ closed. closed ++ n.closed) (clear-sockets left),
    )

-- Such a stop sets `thread_id` to 0 if the thread did.
thread_id-jni_stop :
    (n : Native) (t : Thread) (threads : List Thread) (kill : ℕ → Bool) (left : List NgSession)
    → unloaded ⟿* n
    → n.running ≡ t ∷ threads
    → Sees kill n.running
    → (jni_stop kill true (ended true left) n).thread_id ≡ 0
unfolding jni_stop
thread_id-jni_stop n t threads kill left r busy sees =
    let seen =
      alive kill n.thread_id t threads (rw busy at (reachable-Alone r)) (rw busy at sees) in
    rw seen refl

-- After such a stop of a thread that was attached to the VM, jni_start starts a new thread with the
-- arguments that it is given, whatever pthread_kill answers, if the address of the proxy has fewer
-- than 128 characters and pthread_create succeeds; it is then the only thread and begins without
-- sessions.
pub jni_start-jni_stop :
    (n : Native) (t : Thread) (threads : List Thread) (kill later : ℕ → Bool)
    (left : List NgSession) (id : ℕ) (a : Arguments)
    → unloaded ⟿* n
    → n.running ≡ t ∷ threads
    → Sees kill n.running
    → fits a ≡ true
    → (m : Native) × (jni_start later (some id) a (jni_stop kill true (ended true left) n) ≡ some m)
      × (m.running ≡ record { id = id; args = a } ∷ [])
      × (m.thread_id ≡ id)
      × (m.sessions ≡ [])
unfolding jni_start
jni_start-jni_stop n t threads kill later left id a r busy sees short =
    let stopped = jni_stop kill true (ended true left) n in
    let none_ = thread_id-jni_stop n t threads kill left r busy sees in
    let (nobody, empty, _) = jni_stop-Stopped n t threads kill true left r busy sees in
    let started = record stopped {
      max_tun_msg = 0;
      thread_id = id;
      running = record { id = id; args = a } ∷ stopped.running;
    } in
    (
      started,
      rw (none_, short) refl,
      ap (λ rs. record { id = id; args = a } ∷ rs) nobody,
      refl,
      empty,
    )
