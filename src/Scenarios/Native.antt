-- ===== src/Scenarios/Native.antt =====
-- Runs of the calls from Java, and of the helpers for texts.
use violet.Base.{
  ℕ, ◌≡◌, refl, true, false, some, List, [], ◌∷◌, ◌++◌, arith, codes, ◌==◌, Bool, All,
}
use violet.Scenarios.{known}
use violet.Jni.{Arguments, Native, jni_init, jni_start, ended, jni_stop}
use violet.Jni.Threads.{◌⟿*◌, here, next, init, start, unloaded, Alone, reachable-Alone}
use violet.Jni.Stopped.{sockets, jni_stop-Stopped, jni_start-jni_stop}
use violet.Util.Text.{trim, hex}
use violet.Ip.Uid.{hex2bytes}
use violet.Util.Text.Trimmed.{IsSpace, StartsSolid, EndsSolid, trim_lem}
use violet.Util.Text.Hex.{joined, hex2bytes-hex}

abbrev args : Arguments
args = record {
  tun = 40;
  fwd53 = false;
  rcode = 3;
  proxy_ip = codes "127.0.0.1";
  proxy_port = 8080;
}

-- The thread with the id 7 runs, and pthread_kill sees just it.
abbrev sees : ℕ → Bool
sees id = id == 7

abbrev prepared : Native
prepared = record unloaded { lock = true; pipe = true }

abbrev busy : Native
busy = record prepared { thread_id = 7; running = record { id = 7; args = args } ∷ [] }

prepared_reached : unloaded ⟿* prepared
unfolding jni_init
prepared_reached = next here (init true true)

starts_thread : jni_start sees (some 7) args prepared ≡ some busy
unfolding jni_start
starts_thread = refl

busy_reached : unloaded ⟿* busy
busy_reached = next prepared_reached (start sees (some 7) args tt (omega arith) starts_thread)

reachable-Alone_example : Alone busy.thread_id busy.running
reachable-Alone_example = reachable-Alone busy_reached

jni_stop-Stopped_example :
    let m = jni_stop sees true (ended true (known ∷ [])) busy in
    (m.running ≡ []) × (m.sessions ≡ []) × (m.closed ≡ sockets (known ∷ []) ++ [])
jni_stop-Stopped_example =
    jni_stop-Stopped busy (record { id = 7; args = args }) [] sees true (known ∷ []) busy_reached
      refl (refl, tt)

jni_start-jni_stop_example :
    (m : Native) × (jni_start
        (λ id. true)
        (some 8)
        args
        (jni_stop sees true (ended true (known ∷ [])) busy)
      ≡ some m)
    × (m.running ≡ record { id = 8; args = args } ∷ [])
    × (m.thread_id ≡ 8)
    × (m.sessions ≡ [])
jni_start-jni_stop_example =
    jni_start-jni_stop busy (record { id = 7; args = args }) [] sees (λ id. true) (known ∷ []) 8
      args busy_reached refl (refl, tt) refl

trim_lem_example :
    (front behind : List ℕ) × (codes "  on " ≡ front ++ (trim (codes "  on ") ++ behind))
    × All IsSpace front
    × All IsSpace behind
    × StartsSolid (trim (codes "  on "))
    × EndsSolid (trim (codes "  on "))
trim_lem_example = trim_lem (codes "  on ")

trims : trim (codes "  on ") ≡ codes "on"
unfolding trim
trims = refl

hex2bytes-hex_example : hex2bytes (joined (hex (0 ∷ 171 ∷ []))) ≡ 0 ∷ 171 ∷ []
hex2bytes-hex_example = hex2bytes-hex (0 ∷ 171 ∷ []) (omega arith)
