-- ===== src/Jni.antt =====
-- tun2http.c: the calls from Java that start and stop the thread of the engine, and protect_socket.
pub mod Threads
pub mod Stopped
use violet.Base.{
  ℕ, ◌+◌, Bool, true, false, ◌&&◌, not, Option, none, some, List, [], ◌∷◌, ◌++◌, ◌==◌, ltb,
  if◌then◌else◌, length,
}
use violet.Session.Types.{NgSession}
use violet.Session.Loop.{clear}

-- struct arguments, as far as it is set for a thread. The address is without its NUL.
pub record Arguments : Type 0 where
  pub tun : ℕ
  pub fwd53 : Bool
  pub rcode : ℕ
  pub proxy_ip : List ℕ
  pub proxy_port : ℕ

pub record Thread : Type 0 where
  pub id : ℕ
  pub args : Arguments

-- The globals, `thread_id` being 0 before the first thread; the threads of the engine that run; whether
-- the lock and the pipe are there; the bytes that wait in the pipe; and the sockets that clear has
-- closed, the last ones first.
pub record Native : Type 0 where
  pub thread_id : ℕ
  pub running : List Thread
  pub sessions : List NgSession
  pub max_tun_msg : ℕ
  pub lock : Bool
  pub pipe : Bool
  pub signals : ℕ
  pub closed : List ℕ

-- clear on the global list.
abbrev pub clear_sessions : Native → Native
clear_sessions n =
    let (left, closed) = clear n.sessions in
    record n { sessions = left; closed = closed ++ n.closed }

-- `made` is whether pipe succeeds.
unfoldable pub jni_init : (lock_made made : Bool) → Native → Native
jni_init lock_made made n = record n {
  sessions = [];
  lock = if lock_made then true else n.lock;
  pipe = if made then true else n.pipe;
  signals = if made then 0 else n.signals;
}

-- `thread_id && pthread_kill(thread_id, 0) == 0`.
abbrev pub is_alive : (ℕ → Bool) → Native → Bool
is_alive kill n = not (n.thread_id == 0) && kill n.thread_id

-- strcpy of the address into the 128 characters of `proxyIp`: whether it stays inside.
abbrev pub fits : Arguments → Bool
fits a = ltb (length a.proxy_ip) 128

abbrev pub create_thread : Option ℕ → Arguments → Native → Native
create_thread none a n = n
create_thread (some id) a n = record n {
  thread_id = id;
  running = record { id = id; args = a } ∷ n.running;
}

-- `created` is the id that pthread_create gives, or `none` where it fails. The result is `none` where
-- the copy of the address runs over its buffer.
unfoldable pub jni_start :
    (kill : ℕ → Bool) → (created : Option ℕ) → Arguments → Native → Option Native
jni_start kill created a n =
    let begun = record n { max_tun_msg = 0 } in
    if is_alive kill n
    then some begun
    else if fits a
    then some (create_thread created a begun)
    else none

unfoldable pub without : ℕ → List Thread → List Thread
without id [] = []
without id (t ∷ threads) = if t.id == id then without id threads else t ∷ without id threads

-- pthread_join: with an error nothing has been waited for. Else the thread has ended and has left its
-- sessions; at its end it has set `thread_id` to 0, unless it could not be attached to the VM.
pub data Join : Type 0 where
  join_failed : Join
  ended : (attached : Bool) → List NgSession → Join

abbrev pub join_thread : ℕ → Join → Native → Native
join_thread id join_failed n = n
join_thread id (ended attached left) n = record n {
  thread_id = if attached then 0 else n.thread_id;
  running = without id n.running;
  sessions = left;
}

-- `written` is whether the write to the pipe succeeds.
unfoldable pub jni_stop : (kill : ℕ → Bool) → (written : Bool) → Join → Native → Native
jni_stop kill written joined n =
    if is_alive kill n
    then clear_sessions (
        if written
        then join_thread n.thread_id joined (record n { signals = n.signals + 1 })
        else n)
    else n

-- `destroyed` and `pipe_closed` are whether the calls succeed.
unfoldable pub jni_done : (destroyed pipe_closed : Bool) → Native → Native
jni_done destroyed pipe_closed n =
    let cleared = clear_sessions n in
    record cleared {
      lock = if destroyed then false else n.lock;
      pipe = if pipe_closed then false else n.pipe;
    }

-- The cached method, and the local references to classes that are not given back.
pub record Lookups : Type 0 where
  pub mid_protect : Option ℕ
  pub class_refs : ℕ

abbrev pub cached : Option ℕ → ℕ → ℕ
cached none found = found
cached (some method) found = method

-- `found` is the method that the lookup gives, and `protect` the call of it for a socket. The result
-- is whether the function answers 0 and not -1.
unfoldable pub protect_socket :
    (found : ℕ) → (protect : ℕ → ℕ → Bool) → (socket : ℕ) → Lookups → Bool × Lookups
protect_socket found protect socket l =
    let method = cached l.mid_protect found in
    if protect method socket
    then (true, record l { mid_protect = some method })
    else (false, record l { mid_protect = some method; class_refs = l.class_refs + 1 })
