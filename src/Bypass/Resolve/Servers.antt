-- ===== src/Bypass/Resolve/Servers.antt =====
-- What resolve_host makes of the servers for DNS over HTTPS.
use violet.Base.{
  ℕ, ◌+◌, ◌≡◌, ◌≢◌, refl, ap, sym, ◌∙◌, true, false, Option, none, some, List, [], ◌∷◌, ◌++◌, ne→==,
  All,
}
use violet.Bypass.Resolve.{
  Settings, Resolver, lines, or_next, ask_servers, resolve_host_over_doh, uses_doh, resolve_host,
}

-- A setting with one text to a line. Behind the last of them there may be a newline or none.
pub data Written : List (List ℕ) → List ℕ → Type 0 where
  no_more : Written [] []
  not_closed : (c : ℕ) (line : List ℕ) → Written ((c ∷ line) ∷ []) (c ∷ line)
  closed :
      (line : List ℕ) {rest : List (List ℕ)} {text : List ℕ}
      → Written rest text
      → Written (line ∷ rest) (line ++ (10 ∷ text))

abbrev pub IsLine : List ℕ → Type 0
IsLine line = All (λ c. c ≢ 10) line

lines-append : (line text : List ℕ) → IsLine line → lines (line ++ (10 ∷ text)) ≡ line ∷ lines text
unfolding lines
lines-append [] text h = refl
lines-append (c ∷ line) text h = rw (ne→== c 10 h.0, lines-append line text h.1) refl

lines-line : (c : ℕ) (line : List ℕ) → IsLine (c ∷ line) → lines (c ∷ line) ≡ (c ∷ line) ∷ []
unfolding lines
lines-line c [] h = rw (ne→== c 10 h.0) refl
lines-line c (d ∷ line) h = rw (ne→== c 10 h.0, lines-line d line h.1) refl

lines-Written :
    (servers : List (List ℕ)) (text : List ℕ)
    → Written servers text
    → All IsLine servers
    → lines text ≡ servers
lines-Written [] [] no_more h = unfold lines in refl
lines-Written _ _ (not_closed c line) h = lines-line c line h.0
lines-Written _ _ (closed line {rest} {text} w) h =
    lines-append line text h.0 ∙ ap (λ r. line ∷ r) (lines-Written rest text w h.1)

module _ (ask : ℕ → List ℕ → List ℕ → List ℕ) (host : List ℕ) where
  -- The result is the response of the first server that gives one; all before it are silent. With
  -- none such, all are silent and there is no result.
  pub data Asked : ℕ → List (List ℕ) → Option (List ℕ) → Type 0 where
    exhausted : {n : ℕ} → Asked n [] none
    passed :
        {n : ℕ} {server : List ℕ} {servers : List (List ℕ)} {result : Option (List ℕ)}
        → ask n server host ≡ []
        → Asked (n + 1) servers result
        → Asked n (server ∷ servers) result
    answered :
        {n : ℕ} {server : List ℕ} {servers : List (List ℕ)} {result : Option (List ℕ)}
        → ask n server host ≢ []
        → result ≡ some (ask n server host)
        → Asked n (server ∷ servers) result

  or_next-Asked :
      (n : ℕ) (server : List ℕ) (servers : List (List ℕ)) (next : Option (List ℕ))
      (response : List ℕ)
      → ask n server host ≡ response
      → Asked (n + 1) servers next
      → Asked n (server ∷ servers) (or_next response next)
  or_next-Asked n server servers next [] e h = passed e h
  or_next-Asked n server servers next (c ∷ response) e h =
      answered (λ silent. cc) (ap (λ t. some t) (sym e))

  ask_servers-Asked :
      (n : ℕ) (servers : List (List ℕ)) → Asked n servers (ask_servers ask host n servers)
  unfolding ask_servers
  ask_servers-Asked n [] = exhausted
  ask_servers-Asked n (server ∷ servers) =
      or_next-Asked n server servers (ask_servers ask host (n + 1) servers) (ask n server host) refl
        (ask_servers-Asked (n + 1) servers)

-- For a host that is not an address, where DNS over HTTPS is chosen and Java has the method, the
-- servers of the setting, one to a line with or without a newline behind the last, are asked in order up to the first whose response is not
-- empty, and that response is the result; there is none exactly when all are silent.
pub resolve_host-Asked :
    (s : Settings) (r : Resolver) (host ip : List ℕ) (servers : List (List ℕ))
    → r.is_ip host ≡ false
    → uses_doh s r host ≡ true
    → r.doh_found ≡ true
    → All IsLine servers
    → Written servers s.dns_doh_servers
    → Asked r.make_doh_request host 0 servers (resolve_host s r host ip)
unfolding resolve_host resolve_host_over_doh
resolve_host-Asked s r host ip servers name doh found ok setting =
    rw (name, doh, found, lines-Written servers s.dns_doh_servers setting ok)
      (ask_servers-Asked r.make_doh_request host 0 servers)
