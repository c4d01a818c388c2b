-- ===== src/Session/Types.antt =====
-- struct ng_session, icmp_session and udp_session of tun2http.h, and the search through the list
-- that the handlers have in common. The global `ng_session` heads a list; the nodes are reached
-- through it alone, but for the pointers that epoll hands back.
use violet.Base.{
  ℕ, Bool, true, false, ◌&&◌, Option, none, some, List, [], ◌∷◌, ◌++◌, ◌==◌, if◌then◌else◌,
}
use violet.Tcp.Types.{TcpSession}
use violet.Tcp.Check.{Events}

pub record IcmpSession : Type 0 where
  pub time : ℕ
  pub uid : ℕ
  pub version : ℕ
  pub saddr : List ℕ
  pub daddr : List ℕ
  pub id : ℕ
  pub stop : Bool

pub data UdpState : Type 0 where
  active finishing closed blocked : UdpState

pub record UdpSession : Type 0 where
  pub time : ℕ
  pub uid : ℕ
  pub version : ℕ
  pub mss : ℕ
  pub sent : ℕ
  pub received : ℕ
  pub saddr : List ℕ
  pub source : ℕ
  pub daddr : List ℕ
  pub dest : ℕ
  pub state : UdpState

-- The union, tagged by `protocol`.
pub data Proto : Type 0 where
  icmp : IcmpSession → Proto
  udp : UdpSession → Proto
  tcp : TcpSession → Proto

pub record NgSession : Type 0 where
  pub proto : Proto
  pub socket : Option ℕ
  pub events : Events

-- memcmp(…) == 0, and the comparison of IPv4 addresses.
unfoldable pub same_bytes : List ℕ → List ℕ → Bool
same_bytes [] [] = true
same_bytes (x ∷ xs) (y ∷ ys) = x == y && same_bytes xs ys
same_bytes _ _ = false

pub record Found : Type 0 where
  pub before : List NgSession
  pub session : NgSession
  pub behind : List NgSession

abbrev pub put_back : Found → NgSession → List NgSession
put_back f s = f.before ++ s ∷ f.behind

abbrev pub push_before : NgSession → Option Found → Option Found
push_before s none = none
push_before s (some f) = some (record f { before = s ∷ f.before })

-- `while (cur != NULL && !(…)) cur = cur->next`: the first session that passes the test.
unfoldable pub search_session : (NgSession → Bool) → List NgSession → Option Found
search_session test [] = none
search_session test (s ∷ rest) =
    if test s
    then some (record { before = []; session = s; behind = rest })
    else push_before s (search_session test rest)
