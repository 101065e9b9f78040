-- ===== src/Http/Server/Laws.antt =====
-- How a connection goes on, and that handleClient ends.
use cpp_linux_server_frame.Base.{
  ℕ, sym, ap, if◌then◌else◌, Option, none, some, ◌≢◌, subst, take, zero, suc, ◌<◌, ◌≤◌, ◌≡◌, inl,
  inr, refl, Bool, ◌||◌, not, true, false, List, [], ◌∷◌, drop, length, branch, option_branch,
  arith,
}
use cpp_linux_server_frame.Stream.{
  ReadOps, WriteOps, Ended, stopped, wrote, write_fails, write_rounds, write_fix_size,
}
use cpp_linux_server_frame.Http.Receive.{
  Parser, Message, Received, received, Failure, failed, closed, thrown, overflowed, out_of_fuel,
}
use cpp_linux_server_frame.Http.Receive.Ends.{Excused, Returns, recv-Returns}
use cpp_linux_server_frame.Http.Servlet.{handle, get_matched_servlet}
use cpp_linux_server_frame.Http.Server.{
  HttpServer, answer, send_response, Handled, Outcome, session_closed, raised, int_size,
  after_request, request, handle_client,
}

same_failure : {A : Type 0} {c d : Failure} → ◌≡◌ {A = Received A} (failed c) (failed d) → d ≡ c
same_failure h = cc

module _ {S P C R : Type 0} (ops : ReadOps S) (writes : WriteOps S) (parser : Parser P)
    (buff_size : ℕ) (server : HttpServer S P C R) where
  abbrev to_come : S → ℕ
  to_come s = length (ops.content s)

  abbrev ask : S → Received (Message P) × S
  ask = request ops writes parser buff_size server

  abbrev first_response : Message P → R
  first_response m =
      server.new_response m (if server.is_keep_alive then not m.keeps_alive else true)

  -- What the servlet for the path of a request makes of it; without one it stays as it is.
  abbrev reply : Message P → S → Message P × R × S
  reply m s = elim (get_matched_servlet server.fnmatch server.dispatch (server.path m)) [
    | none ↦ (m, first_response m, s)
    | some c ↦ server.run c (m, first_response m, s)
  ]

  closes_lem : (c k : Bool) → (c || not k) ≡ (if k then c else true)
  closes_lem true true = refl
  closes_lem true false = refl
  closes_lem false true = refl
  closes_lem false false = refl

  with_closes :
      (o : Option C) (m : Message P) (s : S) (b b' : Bool)
      → b ≡ b'
      → (elim o as (λ _. (Message P × R × S) × ℕ) [
        | none ↦ ((m, server.new_response m b, s), 0)
        | some c ↦ (server.run c (m, server.new_response m b, s), 0)
      ]).0
        ≡ (elim o as (λ _. Message P × R × S) [
          | none ↦ (m, server.new_response m b', s)
          | some c ↦ server.run c (m, server.new_response m b', s)
        ])
  with_closes none m s b b' h = ap (λ (x : Bool). (m, server.new_response m x, s)) h
  with_closes (some c) m s b b' h =
      ap (λ (x : Bool). server.run c (m, server.new_response m x, s)) h

  answer-reply : (m : Message P) (s : S) → answer ops writes parser buff_size server m s ≡ reply m s
  unfolding handle
  answer-reply m s =
      with_closes (get_matched_servlet server.fnmatch server.dispatch (server.path m)) m s _ _
        (closes_lem (not m.keeps_alive) server.is_keep_alive)

  abbrev ends : Message P → Bool
  ends m = not server.is_keep_alive || not m.keeps_alive

  -- What the response's text, as far as its size is an int, makes of the stream.
  abbrev send : R → S → S
  send r s =
      (write_fix_size writes s (
        take (int_size ops writes parser buff_size server (length (server.to_string r)))
          (server.to_string r))).1

  -- A connection from a state of the stream to its end: what is answered, in order, and how it ends.
  -- It ends where recvRequest returns null or fails otherwise, or behind the answer to the first
  -- request that, as its servlet has left it, ends it.
  pub data Talk
      : S → List (Message P × R) → Outcome ops writes parser buff_size server → S → Type 0 where
    no_request : {s s' : S} → ask s ≡ (failed closed, s') → Talk s [] session_closed s'
    failure :
        {s s' : S} {c : Failure}
        → ask s ≡ (failed c, s')
        → c ≢ closed
        → Excused ops parser buff_size c
        → Talk s [] (raised c) s'
    last :
        {s s' s'' : S} {m m' : Message P} {r : R}
        → ask s ≡ (received m, s')
        → reply m s' ≡ (m', r, s'')
        → ends m' ≡ true
        → Talk s ((m', r) ∷ []) session_closed (send r s'')
    next :
        {s s' s'' t : S} {m m' : Message P} {r : R} {l : List (Message P × R)}
        {o : Outcome ops writes parser buff_size server}
        → ask s ≡ (received m, s')
        → reply m s' ≡ (m', r, s'')
        → ends m' ≡ false
        → Talk (send r s'') l o t
        → Talk s ((m', r) ∷ l) o t

  abbrev pub Talks : S → Handled ops writes parser buff_size server → Type 0
  Talks s h = Talk s h.answered h.outcome h.stream

  module _ (write_law : (s : S) (buffer : List ℕ) → to_come (writes.write s buffer).1 ≤ to_come s)
      (run_law : (m : Message P) (c : C) (r : R) (s : S)
        → to_come (server.run c (m, r, s)).2 ≤ to_come s) where
    write_rounds-le :
        (fuel : ℕ) (s : S) (buffer : List ℕ)
        → to_come (write_rounds writes fuel s buffer).1 ≤ to_come s
    unfolding write_rounds
    write_rounds-le fuel s [] = omega arith
    write_rounds-le zero s (x ∷ buffer) = omega arith
    write_rounds-le (suc fuel) s (x ∷ buffer) =
        let s' = (writes.write s (x ∷ buffer)).1 in
        let less = write_law s (x ∷ buffer) in
        elim (writes.write s (x ∷ buffer)).0
          as (λ p.
            to_come
              (elim p as (λ _. Ended (Unit {0}) × S) [
                | write_fails e ↦ (stopped e, s')
                | wrote k ↦ write_rounds writes fuel s' (drop k buffer)
              ]).1
            ≤ to_come s) [
              | write_fails e ↦ less
              | wrote k ↦ omega (arith, less, write_rounds-le fuel s' (drop k buffer))
            ]

    send-le : (r : R) (s : S) → to_come (send r s) ≤ to_come s
    unfolding write_fix_size
    send-le r s =
        let text = server.to_string r in
        let sent = take (int_size ops writes parser buff_size server (length text)) text in
        write_rounds-le (length sent) s sent

    reply-le : (m : Message P) (s : S) → to_come (reply m s).2 ≤ to_come s
    reply-le m s =
        option_branch (λ (y : Message P × R × S). to_come y.2 ≤ to_come s)
          (get_matched_servlet server.fnmatch server.dispatch (server.path m)) _ _ (omega arith)
          (λ c. run_law m c _ s)

    after_request-Talks :
        (s : S) (next_round : S → Handled ops writes parser buff_size server)
        (x : Received (Message P) × S)
        → ask s ≡ x
        → Returns ops parser buff_size (to_come s) x
        → ((t : S) → to_come t < to_come s → Talks t (next_round t))
        → Talks s (after_request ops writes parser buff_size server next_round x)
    unfolding send_response
    after_request-Talks s n (failed closed, s') e h k = no_request e
    after_request-Talks s n (failed thrown, s') e (inl (c, g, why)) k =
        failure e (λ g. cc) (subst (Excused ops parser buff_size) (same_failure g) why)
    after_request-Talks s n (failed thrown, s') e (inr (a, g, less)) k = cc
    after_request-Talks s n (failed overflowed, s') e (inl (c, g, why)) k =
        failure e (λ g. cc) (subst (Excused ops parser buff_size) (same_failure g) why)
    after_request-Talks s n (failed overflowed, s') e (inr (a, g, less)) k = cc
    after_request-Talks s n (out_of_fuel, s') e (inl (c, g, why)) k = cc
    after_request-Talks s n (out_of_fuel, s') e (inr (a, g, less)) k = cc
    after_request-Talks s n (received m, s') e (inl (c, g, why)) k = cc
    after_request-Talks s n (received m, s') e (inr (a, g, less)) k =
        let r = answer ops writes parser buff_size server m s' in
        let same = sym (answer-reply m s') in
        let kept =
          subst (λ (x : Message P × R × S). to_come x.2 ≤ to_come s') same (reply-le m s') in
        branch (Talks s) (ends r.0) _ _ (λ g. last e same g)
          (λ g. next e same g (k (send r.1 r.2) (omega (arith, less, kept, send-le r.1 r.2))))

    handle_client_lem :
        (fuel : ℕ) (s : S)
        → to_come s < fuel
        → Talks s (handle_client ops writes parser buff_size server fuel s)
    unfolding handle_client
    handle_client_lem zero s h = absurd (omega (arith, h))
    handle_client_lem (suc fuel) s h =
        after_request-Talks s (handle_client ops writes parser buff_size server fuel) (ask s) refl
          (recv-Returns ops parser buff_size s).1
          (λ t less. handle_client_lem fuel t (omega (arith, less, h)))

    -- On a stream of finitely many bytes to come, which neither writing nor a servlet adds to,
    -- handleClient ends, with one more round than bytes are to come: it has answered every request
    -- that recvRequest returned, in order, each by its servlet and before the next was received; and
    -- the session is closed, because recvRequest returned null, or the server does not keep
    -- connections alive, or the request, as its servlet has left it, asks to close; or recvRequest
    -- has thrown or overflowed, for one of the reasons that recvRequest and recvResponse can have.
    pub handle_client-Talks :
        (s : S) → Talks s (handle_client ops writes parser buff_size server (suc (to_come s)) s)
    handle_client-Talks s = handle_client_lem (suc (to_come s)) s (omega arith)
