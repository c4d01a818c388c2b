-- ===== src/Bypass/Service/Children.antt =====
-- The children that a service has forked when it ends.
use mathlib.Core.List.{append_assoc, append-nil, map-append}
use violet.Base.{ℕ, ◌≡◌, sym, ap, ◌∙◌, Bool, Option, none, some, List, [], ◌∷◌, ◌++◌, map, All}
use violet.Bypass.Service.{
  Fork, fork_failed, child, Service, accept_client, Signalled, process, kill, de_init,
}

-- What accept and fork give for a call of acceptClient.
pub record Call : Type 0 where
  pub accepted : Option ℕ
  pub forked : Fork

unfoldable pub accept_all : List Call → Service → Service
accept_all [] s = s
accept_all (c ∷ calls) s = accept_all calls (accept_client c.accepted c.forked s)

-- The clients that are accepted, each with the child that is to serve it.
abbrev pub clients_of : Option ℕ → List ℕ → List ℕ
clients_of none rest = rest
clients_of (some socket) rest = socket ∷ rest

abbrev pub clients : List Call → List ℕ
clients [] = []
clients (c ∷ calls) = clients_of c.accepted (clients calls)

abbrev pub served_of : Option ℕ → Fork → List (ℕ × ℕ) → List (ℕ × ℕ)
served_of none forked rest = rest
served_of (some socket) fork_failed rest = rest
served_of (some socket) (child pid) rest = (pid, socket) ∷ rest

abbrev pub served : List Call → List (ℕ × ℕ)
served [] = []
served (c ∷ calls) = served_of c.accepted c.forked (served calls)

abbrev pub Forks : Fork → Type 0
Forks fork_failed = ⊥
Forks (child pid) = Unit {0}

abbrev pub first : ℕ × ℕ → Signalled
first (pid, socket) = process pid

-- What a service has, and what it has after more calls.
record After (calls : List Call) (s t : Service) : Type 0 where
  open_ : t.client_sockets ≡ s.client_sockets ++ clients calls
  children : t.serving ≡ s.serving ++ served calls
  signals : map kill t.child_processes ≡ map kill s.child_processes ++ map first (served calls)

call-After :
    (accepted : Option ℕ) (forked : Fork) (calls : List Call) (s t : Service)
    → Forks forked
    → After calls (accept_client accepted forked s) t
    → After (record { accepted = accepted; forked = forked } ∷ calls) s t
unfolding accept_client
call-After none forked calls s t h a = record {
  open_ = a.open_;
  children = a.children;
  signals = a.signals;
}
call-After (some socket) fork_failed calls s t h a = absurd h
call-After (some socket) (child pid) calls s t h a = record {
  open_ = a.open_ ∙ append_assoc s.client_sockets (socket ∷ []) (clients calls);
  children = a.children ∙ append_assoc s.serving ((pid, socket) ∷ []) (served calls);
  signals =
      a.signals
      ∙ ap (λ ks. ks ++ map first (served calls))
          (map-append kill s.child_processes (child pid ∷ []))
      ∙ append_assoc (map kill s.child_processes) (process pid ∷ []) (map first (served calls));
}

accept_all-After :
    (calls : List Call) (s : Service)
    → All (λ (c : Call). Forks c.forked) calls
    → After calls s (accept_all calls s)
unfolding accept_all
accept_all-After [] s h = record {
  open_ = sym (append-nil s.client_sockets);
  children = sym (append-nil s.serving);
  signals = sym (append-nil (map kill s.child_processes));
}
accept_all-After (c ∷ calls) s h =
    call-After c.accepted c.forked calls s (accept_all calls (accept_client c.accepted c.forked s))
      h.0 (accept_all-After calls (accept_client c.accepted c.forked s) h.1)

-- After a service has been initialised without a child and its calls of acceptClient have all been
-- able to fork, each accepted client is served by the child that was forked for it, deInit kills just
-- these children, in order, and the parent still holds the socket of every client.
pub de_init-accept_all :
    (closed : Bool) (calls : List Call) (s : Service)
    → s.child_processes ≡ []
    → s.serving ≡ []
    → All (λ (c : Call). Forks c.forked) calls
    → let t = accept_all calls s in
      (t.serving ≡ served calls)
      × ((de_init closed t).0 ≡ map first (served calls))
      × ((de_init closed t).1.client_sockets ≡ s.client_sockets ++ clients calls)
unfolding de_init
de_init-accept_all closed calls s none_ idle h =
    let a = accept_all-After calls s h in
    (
      a.children ∙ ap (λ xs. xs ++ served calls) idle,
      a.signals ∙ ap (λ xs. map kill xs ++ map first (served calls)) none_,
      a.open_,
    )
