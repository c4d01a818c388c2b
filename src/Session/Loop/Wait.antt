-- ===== src/Session/Loop/Wait.antt =====
-- How long a turn waits for events.
use violet.Base.{◌≢◌, ℕ, ◌≡◌, true, false, List, if◌then◌else◌}
use violet.Base.Int.{ℤ, pos, ltb_ℤ, ◌+ℤ◌}
use violet.Session.Types.{NgSession}
use violet.Session.Loop.Kept.{Kept}
use violet.Session.Rounds.{is_counted, check_proto}
use violet.Packet.{Tun, TunWrite}
use violet.Session.Loop.{stimeout, sooner}

module _ (now sessions maxsessions : ℕ) where
  -- If a session that counts is kept now, it is kept at every time before a wait of `r` seconds ends.
  abbrev pub LastsFor : ℤ → NgSession → Type 0
  LastsFor r s =
      is_counted s.proto ≡ true
      → Kept sessions maxsessions now s
      → (t : ℕ) → ltb_ℤ (pos t) (pos now +ℤ r) ≡ true
      → Kept sessions maxsessions t s

  abbrev next : ℤ → NgSession → ℤ
  next timeout s =
      if is_counted s.proto
      then sooner (stimeout now sessions maxsessions s.proto) timeout
      else timeout

  -- The session counts, and the check ends it at the end of a wait of `r` seconds.
  pub record EndsAfter (r : ℤ) (s : NgSession) : Type 0 where
    pub counted : is_counted s.proto ≡ true
    pub ended :
        (t : ℕ) (dev : TunWrite) (later : ℕ) (log : Tun)
        → pos now +ℤ r ≡ pos t
        → check_proto dev t later sessions maxsessions s log s.proto ≢ (false, s, log)
