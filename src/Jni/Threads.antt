-- ===== src/Jni/Threads.antt =====
-- The calls from Java as a system with the threads of the engine, and what holds in all its states.
use violet.Base.{
  ℕ, ◌≡◌, ◌≢◌, refl, sym, subst, ◌+◌, inl, inr, Bool, true, false, not, ◌&&◌, Option, none, some,
  List, [], ◌∷◌, ◌++◌, ◌==◌, ne→==, ==-refl, Bool-cases, All, eq_of_some,
}
use violet.Session.Types.{NgSession}
use violet.Jni.{
  Arguments, Thread, Native, is_alive, fits, create_thread, jni_init, jni_start, without, Join,
  join_failed, ended, join_thread, jni_stop, jni_done,
}

-- pthread_kill with signal 0 answers 0 for a thread that runs. For others it may answer anything.
abbrev pub Sees : (ℕ → Bool) → List Thread → Type 0
Sees kill threads = All (λ (t : Thread). kill t.id ≡ true) threads

-- pthread_create gives no thread the id 0.
abbrev pub IsId : Option ℕ → Type 0
IsId none = Unit {0}
IsId (some id) = id ≢ 0

-- The calls from Java, in any order, and what the threads do between them: while one runs it changes
-- the sessions, and it may end by itself, with or without setting `thread_id` to 0; a thread that has
-- set it does nothing more.
infix 40 ◌⟿◌ ◌⟿*◌
pub data ◌⟿◌ : Native → Native → Type 0 where
  init : {n : Native} (lock_made made : Bool) → n ⟿ jni_init lock_made made n
  start :
      {n m : Native} (kill : ℕ → Bool) (created : Option ℕ) (a : Arguments)
      → Sees kill n.running
      → IsId created
      → jni_start kill created a n ≡ some m
      → n ⟿ m
  stop :
      {n : Native} (kill : ℕ → Bool) (written : Bool) (joined : Join)
      → Sees kill n.running
      → n ⟿ jni_stop kill written joined n
  finish : {n : Native} (destroyed pipe_closed : Bool) → n ⟿ jni_done destroyed pipe_closed n
  work :
      {n : Native} (sessions : List NgSession)
      → n.running ≢ []
      → n ⟿ record n { sessions = sessions }
  quit :
      {n : Native} (t : Thread) (front back : List Thread)
      → n.running ≡ front ++ (t ∷ back)
      → n ⟿ record n { running = front ++ back; thread_id = 0 }
  give_up :
      {n : Native} (t : Thread) (front back : List Thread)
      → n.running ≡ front ++ (t ∷ back)
      → n ⟿ record n { running = front ++ back }

pub data ◌⟿*◌ (first : Native) : Native → Type 0 where
  here : first ⟿* first
  next : {n m : Native} → first ⟿* n → n ⟿ m → first ⟿* m

-- At most one thread runs, and then it is the one whose id the program keeps.
abbrev pub Alone : ℕ → List Thread → Type 0
Alone id [] = Unit {0}
Alone id (t ∷ []) = (t.id ≡ id) × (id ≢ 0)
Alone id (t ∷ u ∷ threads) = ⊥

without-Alone :
    (id other : ℕ) (threads : List Thread) → Alone id threads → Alone id (without other threads)
unfolding without
without-Alone id other [] h = tt
without-Alone id other (t ∷ []) h = elim (Bool-cases (t.id == other)) [
  | inl e ↦ rw e tt
  | inr e ↦ rw e h
]
without-Alone id other (t ∷ u ∷ threads) h = absurd h

pub without_nobody : (id : ℕ) (threads : List Thread) → Alone id threads → without id threads ≡ []
unfolding without
without_nobody id [] h = refl
without_nobody id (t ∷ []) h = let same : (t.id == id) ≡ true = rw h.0 (==-refl id) in rw same refl
without_nobody id (t ∷ u ∷ threads) h = absurd h

-- Where one runs alone, none is left when it has ended.
nobody_left :
    (id : ℕ) (t : Thread) (front back : List Thread)
    → Alone id (front ++ (t ∷ back))
    → front ++ back ≡ []
nobody_left id t [] [] h = refl
nobody_left id t [] (u ∷ back) h = absurd h
nobody_left id t (u ∷ []) back h = absurd h
nobody_left id t (u ∷ v ∷ front) back h = absurd h

pub is_alive-false :
    (kill : ℕ → Bool) (n : Native)
    → Alone n.thread_id n.running
    → Sees kill n.running
    → is_alive kill n ≡ false
    → n.running ≡ []
is_alive-false kill n = by_threads n.thread_id n.running
  where
    by_threads :
        (id : ℕ) (threads : List Thread)
        → Alone id threads
        → Sees kill threads
        → (not (id == 0) && kill id) ≡ false
        → threads ≡ []
    by_threads id [] h sees e = refl
    by_threads id (t ∷ []) h sees e = absurd (
        let seen : kill id ≡ true = (rw (← h.0) sees.0) in
        let e' = rw (ne→== id 0 h.1, seen) at e in cc)
    by_threads id (t ∷ u ∷ threads) h sees e = absurd h

create_thread-Alone :
    (created : Option ℕ) (a : Arguments) (n : Native)
    → Alone n.thread_id n.running
    → n.running ≡ []
    → IsId created
    → let m = create_thread created a n in Alone m.thread_id m.running
create_thread-Alone none a n h e id = h
create_thread-Alone (some i) a n h e id =
    subst (λ threads. Alone i (record { id = i; args = a } ∷ threads)) (sym e) (refl, id)

jni_start-Alone :
    (kill : ℕ → Bool) (created : Option ℕ) (a : Arguments) (n m : Native)
    → Alone n.thread_id n.running
    → Sees kill n.running
    → IsId created
    → jni_start kill created a n ≡ some m
    → Alone m.thread_id m.running
unfolding jni_start
jni_start-Alone kill created a n m h sees id e = elim (Bool-cases (is_alive kill n)) [
  | inl alive ↦
      let e' = eq_of_some (rw alive at e) in
      subst (λ (r : Native). Alone r.thread_id r.running) e' h
  | inr dead ↦ elim (Bool-cases (fits a)) [
    | inr long ↦ absurd (let e' = rw (dead, long) at e in cc)
    | inl short ↦
        let e' = eq_of_some (rw (dead, short) at e) in
        subst (λ (r : Native). Alone r.thread_id r.running) e'
          (create_thread-Alone created a (record n { max_tun_msg = 0 }) h
            (is_alive-false kill n h sees dead) id)
  ]
]

join_thread-Alone :
    (joined : Join) (n : Native)
    → Alone n.thread_id n.running
    → let m = join_thread n.thread_id joined n in Alone m.thread_id m.running
join_thread-Alone join_failed n h = h
join_thread-Alone (ended true left) n h =
    subst (λ threads. Alone 0 threads) (sym (without_nobody n.thread_id n.running h)) tt
join_thread-Alone (ended false left) n h = without-Alone n.thread_id n.thread_id n.running h

jni_stop-Alone :
    (kill : ℕ → Bool) (written : Bool) (joined : Join) (n : Native)
    → Alone n.thread_id n.running
    → let m = jni_stop kill written joined n in Alone m.thread_id m.running
unfolding jni_stop
jni_stop-Alone kill written joined n h = elim (Bool-cases (is_alive kill n)) [
  | inr dead ↦ rw dead h
  | inl alive ↦ elim (Bool-cases written) [
    | inr full ↦ rw (alive, full) h
    | inl ok ↦ rw (alive, ok) (join_thread-Alone joined (record n { signals = n.signals + 1 }) h)
  ]
]

quit-Alone :
    (id other : ℕ) (t : Thread) (threads front back : List Thread)
    → threads ≡ front ++ (t ∷ back)
    → Alone id threads
    → Alone other (front ++ back)
quit-Alone id other t threads front back e h =
    subst (λ threads. Alone other threads) (sym (nobody_left id t front back (rw e at h))) tt

⟿-Alone : {n m : Native} → n ⟿ m → Alone n.thread_id n.running → Alone m.thread_id m.running
unfolding jni_init jni_done
⟿-Alone (init lock_made made) h = h
⟿-Alone {n} {m} (start kill created a sees id e) h = jni_start-Alone kill created a n m h sees id e
⟿-Alone {n} (stop kill written joined sees) h = jni_stop-Alone kill written joined n h
⟿-Alone (finish destroyed pipe_closed) h = h
⟿-Alone (work sessions busy) h = h
⟿-Alone {n} (quit t front back e) h = quit-Alone n.thread_id 0 t n.running front back e h
⟿-Alone {n} (give_up t front back e) h =
    quit-Alone n.thread_id n.thread_id t n.running front back e h

-- Before the first call.
abbrev pub unloaded : Native
unloaded = record {
  thread_id = 0;
  running = [];
  sessions = [];
  max_tun_msg = 0;
  lock = false;
  pipe = false;
  signals = 0;
  closed = [];
}

-- Whatever the order of the calls from Java and of what the threads do, also where system calls fail,
-- as long as pthread_kill sees the threads that run and pthread_create never gives the id 0, at most
-- one thread of the engine runs, and it is the one whose id is kept.
pub reachable-Alone : {n : Native} → unloaded ⟿* n → Alone n.thread_id n.running
reachable-Alone here = tt
reachable-Alone (next r step) = ⟿-Alone step (reachable-Alone r)
