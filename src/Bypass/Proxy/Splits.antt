-- ===== src/Bypass/Proxy/Splits.antt =====
-- Which requests the proxy splits.
use violet.Base.{
  ◌≡◌, refl, inl, inr, Bool, true, false, ◌&&◌, Option, none, some, List, [], ◌∷◌, Option-cases,
  Bool-cases, All, ℕ, drop,
}
use violet.Bypass.Proxy.{
  Exchange, Action, sends, answers, closes, raises, closes_client, refused, deliver, exchange,
  https_loop,
}

-- No request among the actions is split.
abbrev pub Unsplit : Action → Type 0
Unsplit (sends split bytes) = split ≡ false
Unsplit (answers bytes) = Unit {0}
Unsplit closes = Unit {0}
Unsplit raises = Unit {0}
Unsplit closes_client = Unit {0}
Unsplit refused = Unit {0}

deliver-Unsplit :
    (ok : Bool) (r : Option (List ℕ)) (more : List Action)
    → All Unsplit more
    → All Unsplit (deliver ok r more)
deliver-Unsplit ok none more h = (tt, tt)
deliver-Unsplit true (some response) more h = (tt, h)
deliver-Unsplit false (some response) more h = (tt, (tt, tt))

exchange-Unsplit :
    (x : Exchange) (request : List ℕ) (more : List Action)
    → All Unsplit more
    → All Unsplit (exchange x false request more)
exchange-Unsplit x request more h = elim (Bool-cases x.to_server) [
  | inl e ↦ rw e (refl, deliver-Unsplit x.to_client x.response more h)
  | inr e ↦ rw e (refl, (tt, tt))
]

never-Unsplit :
    (listed is_use_split is_use_vpn hello : Bool) (rest : List Exchange)
    → (listed && (is_use_split && hello)) ≡ false
    → All Unsplit (https_loop listed is_use_split is_use_vpn hello rest)
unfolding https_loop
never-Unsplit listed is_use_split is_use_vpn hello [] e = tt
never-Unsplit listed is_use_split is_use_vpn hello (x ∷ rest) e = elim (Option-cases x.request) [
  | inl r ↦ rw r (tt, tt)
  | inr (request, r) ↦
      rw (r, e)
        (exchange-Unsplit x request (https_loop listed is_use_split is_use_vpn hello rest)
          (never-Unsplit listed is_use_split is_use_vpn hello rest e))
]

no_hello : (a b : Bool) → (a && (b && false)) ≡ false
no_hello false b = refl
no_hello true false = refl
no_hello true true = refl

first-Unsplit :
    (x : Exchange) (split : Bool) (request : List ℕ) (more : List Action)
    → All Unsplit more
    → All Unsplit (drop 1 (exchange x split request more))
first-Unsplit x split request more h = elim (Bool-cases x.to_server) [
  | inl e ↦ rw e (deliver-Unsplit x.to_client x.response more h)
  | inr e ↦ rw e (tt, tt)
]

-- Outside the VPN mode proxy_https splits nothing behind the first request, whatever the settings and
-- the sockets are.
pub https_loop-Unsplit :
    (listed is_use_split : Bool) (list : List Exchange)
    → All Unsplit (drop 1 (https_loop listed is_use_split false true list))
unfolding https_loop
https_loop-Unsplit listed is_use_split [] = tt
https_loop-Unsplit listed is_use_split (x ∷ rest) = elim (Option-cases x.request) [
  | inl r ↦ rw r tt
  | inr (request, r) ↦ (elim (Bool-cases (listed && (is_use_split && true))) [
    | inl e ↦
        rw (r, e)
          (first-Unsplit x true request (https_loop listed is_use_split false false rest)
            (never-Unsplit listed is_use_split false false rest (no_hello listed is_use_split)))
    | inr e ↦
        rw (r, e)
          (first-Unsplit x false request (https_loop listed is_use_split false true rest)
            (never-Unsplit listed is_use_split false true rest e))
  ])
]
