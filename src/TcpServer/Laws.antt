-- ===== src/TcpServer/Laws.antt =====
-- What bind leaves, the life of a server, and which clients it serves.
use cpp_linux_server_frame.Base.{
  ℕ, ◌≡◌, ◌≢◌, refl, ap, ap₂, sym, subst, ◌∙◌, inl, inr, Bool, true, false, ◌&&◌, ◌||◌, List, [],
  ◌∷◌, ◌++◌, append_assoc, append-nil, Option, none, some, map, if◌then◌else◌, Bool-cases,
  Option-cases,
}
use mathlib.Core.List.{map-append}
use cpp_linux_server_frame.TcpServer.{
  Job, start_accept, close_all, TcpServer, new_server, Attempt, bind_loop, bound, bind, start, stop,
  run_close_all, greet, Accepted, accept_loop,
}

abbrev pub works : Attempt → Bool
works a = a.binds && a.listens

-- The sockets of the addresses that work, and the addresses that do not.
abbrev pub working : List Attempt → List ℕ
working [] = []
working (a ∷ l) = if works a then a.sock ∷ working l else working l

abbrev pub failing : List Attempt → List ℕ
failing [] = []
failing (a ∷ l) = if works a then failing l else a.addr ∷ failing l

one_fails :
    (a : ℕ) (l : List Attempt) (socks fails : List ℕ) (r : List ℕ × List ℕ)
    → r ≡ (socks ++ working l, (fails ++ a ∷ []) ++ failing l)
    → r ≡ (socks ++ working l, fails ++ a ∷ failing l)
one_fails a l socks fails r h =
    h ∙ ap (λ (t : List ℕ). (socks ++ working l, t)) (append_assoc fails (a ∷ []) (failing l))

one_works :
    (a : ℕ) (l : List Attempt) (socks fails : List ℕ) (r : List ℕ × List ℕ)
    → r ≡ ((socks ++ a ∷ []) ++ working l, fails ++ failing l)
    → r ≡ (socks ++ a ∷ working l, fails ++ failing l)
one_works a l socks fails r h =
    h ∙ ap (λ (t : List ℕ). (t, fails ++ failing l)) (append_assoc socks (a ∷ []) (working l))

bind_loop_lem :
    (l : List Attempt) (socks fails : List ℕ)
    → bind_loop l socks fails ≡ (socks ++ working l, fails ++ failing l)
unfolding bind_loop
bind_loop_lem [] socks fails =
    ap₂ (λ (x y : List ℕ). (x, y)) (sym (append-nil socks)) (sym (append-nil fails))
bind_loop_lem (a ∷ l) socks fails = elim (Bool-cases a.binds) [
  | inr e ↦
      rw (e, bind_loop)
        (one_fails a.addr l socks fails _ (bind_loop_lem l socks (fails ++ a.addr ∷ [])))
  | inl e ↦ elim (Bool-cases a.listens) [
    | inr g ↦
        rw (e, bind_loop)
          (rw g (one_fails a.addr l socks fails _ (bind_loop_lem l socks (fails ++ a.addr ∷ []))))
    | inl g ↦
        rw (e, bind_loop)
          (rw g (one_works a.sock l socks fails _ (bind_loop_lem l (socks ++ a.sock ∷ []) fails)))
  ]
]

-- What bind returns and leaves.
pub data Binds (l : List Attempt) (fails : List ℕ) (s : TcpServer) (r : Bool × List ℕ × TcpServer)
    : Type 0 where
  all_bound :
      fails ++ failing l ≡ []
      → r ≡ (true, [], record s { socks = s.socks ++ working l })
      → Binds l fails s r
  none_bound :
      fails ++ failing l ≢ []
      → r ≡ (false, fails ++ failing l, record s { socks = [] })
      → Binds l fails s r

bound-Binds :
    (l : List Attempt) (fails : List ℕ) (s : TcpServer) (x : List ℕ)
    → fails ++ failing l ≡ x
    → Binds l fails s (bound s (s.socks ++ working l, x))
bound-Binds l fails s [] e = all_bound e refl
bound-Binds l fails s (a ∷ x) e =
    none_bound (λ h. cc) (ap (λ (t : List ℕ). (false, t, record s { socks = [] })) (sym e))

-- bind of a list of addresses succeeds exactly if `fails` is empty and bind and listen succeed on
-- each of them, and then their sockets stand, in order, behind those of the server; otherwise it
-- adds the addresses that failed to `fails`, in order, and leaves the server without any socket, also
-- without those that were bound before.
pub bind-Binds :
    (l : List Attempt) (fails : List ℕ) (s : TcpServer) → Binds l fails s (bind l fails s)
unfolding bind
bind-Binds l fails s =
    subst (λ (x : List ℕ × List ℕ). Binds l fails s (bound s x))
      (sym (bind_loop_lem l s.socks fails)) (bound-Binds l fails s (fails ++ failing l) refl)

-- The clients of the rounds up to the first one in which stop is called.
abbrev pub served : List Accepted → List ℕ
served [] = []
served (a ∷ l) =
    let rest = if a.stopped then [] else served l in
    elim a.client [ none ↦ rest | some c ↦ c ∷ rest ]

abbrev pub any_stopped : List Accepted → Bool
any_stopped [] = false
any_stopped (a ∷ l) = a.stopped || any_stopped l

abbrev pub closing : Bool → List Job
closing b = if b then close_all ∷ [] else []

-- What startAccept has done after the rounds `l`.
pub record Served (l : List Accepted) (s s' : TcpServer) : Type 0 where
  pub timeouts : s'.timeouts ≡ s.timeouts ++ map (λ (c : ℕ). (c, s.recv_timeout)) (served l)
  pub clients : s'.clients ≡ s.clients ++ served l
  pub accept_jobs : s'.accept_jobs ≡ s.accept_jobs ++ closing (any_stopped l)
  pub stopped : s'.is_stop ≡ any_stopped l
  pub same_socks : s'.socks ≡ s.socks

accept_loop_stopped : (l : List Accepted) (s : TcpServer) → s.is_stop ≡ true → accept_loop l s ≡ s
unfolding accept_loop
accept_loop_stopped [] s h = refl
accept_loop_stopped (a ∷ l) s h = simp (accept_loop, h)

-- The clients of one round, and what greeting it does.
abbrev one : Option ℕ → List ℕ
one none = []
one (some c) = c ∷ []

record Greets (o : Option ℕ) (s s' : TcpServer) : Type 0 where
  timeouts : s'.timeouts ≡ s.timeouts ++ map (λ (c : ℕ). (c, s.recv_timeout)) (one o)
  clients : s'.clients ≡ s.clients ++ one o
  same_jobs : s'.accept_jobs ≡ s.accept_jobs
  same_stop : s'.is_stop ≡ s.is_stop
  same_socks : s'.socks ≡ s.socks
  same_timeout : s'.recv_timeout ≡ s.recv_timeout

greet-Greets : (o : Option ℕ) (s : TcpServer) → Greets o s (greet o s)
unfolding greet
greet-Greets none s = record {
  timeouts = sym (append-nil s.timeouts);
  clients = sym (append-nil s.clients);
  same_jobs = refl;
  same_stop = refl;
  same_socks = refl;
  same_timeout = refl;
}
greet-Greets (some c) s = record {
  timeouts = refl;
  clients = refl;
  same_jobs = refl;
  same_stop = refl;
  same_socks = refl;
  same_timeout = refl;
}

served_parts :
    (a : Accepted) (l : List Accepted)
    → served (a ∷ l) ≡ one a.client ++ (if a.stopped then [] else served l)
served_parts a l = elim (Option-cases a.client) [ inl e ↦ rw e refl | inr (c, e) ↦ rw e refl ]

module _ (a : Accepted) (l : List Accepted) (s s1 : TcpServer) (g : Greets a.client s s1) where
  abbrev with_timeout : ℕ → ℕ × ℕ
  with_timeout c = (c, s.recv_timeout)

  served_last : a.stopped ≡ true → served (a ∷ l) ≡ one a.client
  served_last e = served_parts a l ∙ rw e (append-nil (one a.client))

  served_more : a.stopped ≡ false → served (a ∷ l) ≡ one a.client ++ served l
  served_more e = served_parts a l ∙ rw e refl

  Served-stop : a.stopped ≡ true → Served (a ∷ l) s (stop s1)
  unfolding stop
  Served-stop e = record {
    timeouts =
        g.timeouts ∙ ap (λ (x : List ℕ). s.timeouts ++ map with_timeout x) (sym (served_last e));
    clients = g.clients ∙ ap (λ (x : List ℕ). s.clients ++ x) (sym (served_last e));
    accept_jobs = rw e (ap (λ (x : List Job). x ++ close_all ∷ []) g.same_jobs);
    stopped = rw e refl;
    same_socks = g.same_socks;
  }

  Served-cons : (s' : TcpServer) → a.stopped ≡ false → Served l s1 s' → Served (a ∷ l) s s'
  Served-cons s' e r = record {
    timeouts =
        r.timeouts
        ∙ ap (λ (t : ℕ). s1.timeouts ++ map (λ (c : ℕ). (c, t)) (served l)) g.same_timeout
        ∙ ap (λ (x : List (ℕ × ℕ)). x ++ map with_timeout (served l)) g.timeouts
        ∙ append_assoc s.timeouts (map with_timeout (one a.client)) (map with_timeout (served l))
        ∙ ap (λ (x : List (ℕ × ℕ)). s.timeouts ++ x)
            (sym (map-append with_timeout (one a.client) (served l)))
        ∙ ap (λ (x : List ℕ). s.timeouts ++ map with_timeout x) (sym (served_more e));
    clients =
        r.clients
        ∙ ap (λ (x : List ℕ). x ++ served l) g.clients
        ∙ append_assoc s.clients (one a.client) (served l)
        ∙ ap (λ (x : List ℕ). s.clients ++ x) (sym (served_more e));
    accept_jobs =
        rw e (r.accept_jobs ∙ ap (λ (x : List Job). x ++ closing (any_stopped l)) g.same_jobs);
    stopped = rw e r.stopped;
    same_socks = r.same_socks ∙ g.same_socks;
  }

accept_loop_next :
    (a : Accepted) (l : List Accepted) (s : TcpServer) (b : Bool)
    → s.is_stop ≡ false
    → a.stopped ≡ b
    → accept_loop (a ∷ l) s
      ≡ accept_loop l (if b then stop (greet a.client s) else greet a.client s)
unfolding accept_loop
accept_loop_next a l s b h e = simp (accept_loop, h, e)

stop_sets : (s : TcpServer) → (stop s).is_stop ≡ true
unfolding stop
stop_sets s = refl

-- On a server that is not stopped, startAccept gives every client that accept returns the receive
-- timeout of the server and schedules its handleClient, in order, up to and with the round in which
-- stop is called, and no client of a later round; the rounds schedule the closing of the sockets once
-- if stop is called in one of them, and else nothing, and leave the server's sockets.
pub accept_loop-Served :
    (l : List Accepted) (s : TcpServer) → s.is_stop ≡ false → Served l s (accept_loop l s)
unfolding accept_loop
accept_loop-Served [] s h = record {
  timeouts = sym (append-nil s.timeouts);
  clients = sym (append-nil s.clients);
  accept_jobs = sym (append-nil s.accept_jobs);
  stopped = h;
  same_socks = refl;
}
accept_loop-Served (a ∷ l) s h =
    let g = greet-Greets a.client s in
    elim (Bool-cases a.stopped) [
      | inl e ↦
          subst (Served (a ∷ l) s)
            (sym (
              accept_loop_next a l s true h e
              ∙ accept_loop_stopped l (stop (greet a.client s)) (stop_sets (greet a.client s))))
            (Served-stop a l s (greet a.client s) g e)
      | inr e ↦ subst (Served (a ∷ l) s) (sym (accept_loop_next a l s false h e)) (
          Served-cons a l s (greet a.client s) g (accept_loop l (greet a.client s)) e
            (accept_loop-Served l (greet a.client s) (g.same_stop ∙ h)))
    ]

-- A new server whose addresses all work, once it has been bound, started and stopped, and the job of
-- stop has run: accepting was scheduled for each of its sockets, in order, and then the closing,
-- which has closed exactly these sockets, and the server has no socket left.
life-Closes :
    (l : List Attempt) (recv_timeout : ℕ)
    → failing l ≡ []
    → (s : TcpServer) × (bind l [] (new_server recv_timeout) ≡ (true, [], s))
      × ((run_close_all (stop (start s))).accept_jobs
          ≡ map start_accept (working l) ++ close_all ∷ [])
      × ((run_close_all (stop (start s))).closed ≡ working l)
      × ((run_close_all (stop (start s))).socks ≡ [])
unfolding bind start stop run_close_all
life-Closes l recv_timeout e = (
  record (new_server recv_timeout) { socks = working l },
  ap (bound (new_server recv_timeout))
      (bind_loop_lem l [] [] ∙ ap (λ (x : List ℕ). (working l, x)) e),
  refl,
  refl,
  refl,
)
