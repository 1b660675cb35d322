-- ===== src/Launcher/Setup/Socket.antt =====
-- The server's socket, on every way through `setup_server_socket`, and the end of the children's
-- signal handler.
use p4_ubpf_scripts.Common.{
  ℕ, zero, suc, ℤ, pos, ltb_ℤ, ==ℤ_refl, ◌+◌, ◌<◌, ◌≡◌, sym, ap, subst, inl, inr, refl, true, false,
  Bool-cases, [], ◌∷◌, length, some, arith,
}
use p4_ubpf_scripts.Posix.{Call, Answer, Done, Log, Result, returned, exited, failure}
use p4_ubpf_scripts.Posix.Effects.{Endpoint, endpoint, advance}
use p4_ubpf_scripts.Launcher.Setup.{setup_server_socket, safe_close, socket_path, sigchld_handler}

-- The socket that is returned has been created, bound, put to listening and polled, in this order;
-- an exit leaves none open.
abbrev pub Serves : Result ℤ × Log → Type 0
Serves (returned sock, log) = endpoint log ≡ some (Endpoint.polled sock)
Serves (exited status, log) = (status ≡ failure) × (endpoint log ≡ some Endpoint.closed)

module _ (answer : ℕ → Answer) where
  abbrev sock : ℤ
  sock = (answer 1).result

  abbrev done : Call → ℕ → Done
  done call k = record { call = call; answer = answer k }

  abbrev bind_log : Log
  bind_log = done (Call.bind sock) 2 ∷ done Call.socket 1 ∷ done (Call.unlink socket_path) 0 ∷ []

  abbrev listen_log : Log
  listen_log = done (Call.listen sock) 3 ∷ bind_log

  no_socket :
      ltb_ℤ sock (pos 0) ≡ true
      → setup_server_socket answer []
        ≡ (exited failure, done Call.socket 1 ∷ done (Call.unlink socket_path) 0 ∷ [])
  unfolding setup_server_socket
  no_socket fails = rw fails refl

  abbrev exits_with : Log → Result ℤ × Log
  exits_with log = (exited failure, log)

  module _ (open_socket : ltb_ℤ sock (pos 0) ≡ false) where
    closes :
        (log : Log) → (safe_close answer sock log).1 ≡ done (Call.close sock) (length log) ∷ log
    unfolding safe_close
    closes log = rw open_socket refl

    bind_fails :
        ltb_ℤ (answer 2).result (pos 0) ≡ true
        → setup_server_socket answer [] ≡ (exited failure, done (Call.close sock) 3 ∷ bind_log)
    unfolding setup_server_socket
    bind_fails fails = rw (open_socket, fails) (ap exits_with (closes bind_log))

    listen_fails :
        ltb_ℤ (answer 2).result (pos 0) ≡ false
        → ltb_ℤ (answer 3).result (pos 0) ≡ true
        → setup_server_socket answer [] ≡ (exited failure, done (Call.close sock) 4 ∷ listen_log)
    unfolding setup_server_socket
    listen_fails named fails = rw (open_socket, named, fails) (ap exits_with (closes listen_log))

    serves :
        ltb_ℤ (answer 2).result (pos 0) ≡ false
        → ltb_ℤ (answer 3).result (pos 0) ≡ false
        → setup_server_socket answer []
          ≡ (returned sock, done (Call.set_nonblocking sock) 4 ∷ listen_log)
    unfolding setup_server_socket
    serves named queued = rw (open_socket, named, queued) refl

-- Whatever its system calls return, `setup_server_socket` either comes back with a socket that it
-- has created, bound, put to listening and set to polling, in this order, or it exits with failure
-- and has closed the socket where it had one.
pub setup_server_socket-Serves : (answer : ℕ → Answer) → Serves (setup_server_socket answer [])
unfolding endpoint advance
setup_server_socket-Serves answer =
    let same = ==ℤ_refl (answer 1).result in
    elim (Bool-cases (ltb_ℤ (answer 1).result (pos 0))) [
      | inl fails ↦ subst Serves (sym (no_socket answer fails)) (refl, rw fails refl)
      | inr open_socket ↦ elim (Bool-cases (ltb_ℤ (answer 2).result (pos 0))) [
        | inl fails ↦
            subst Serves (sym (bind_fails answer open_socket fails))
              (refl, rw (open_socket, same, fails) (rw same refl))
        | inr named ↦ elim (Bool-cases (ltb_ℤ (answer 3).result (pos 0))) [
          | inl fails ↦
              subst Serves (sym (listen_fails answer open_socket named fails))
                (refl, rw (open_socket, same, named) (rw (same, fails) (rw same refl)))
          | inr queued ↦
              subst Serves (sym (serves answer open_socket named queued))
                (rw (open_socket, same, named) (rw (same, queued) (rw same refl)))
        ]
      ]
    ]

-- The handler calls waitpid until it tells of no child, and comes back.
pub sigchld_handler-returns :
    (answer : ℕ → Answer) (n : ℕ) (log : Log)
    → ((k : ℕ) → k < n → ltb_ℤ (pos 0) (answer (length log + k)).result ≡ true)
    → ltb_ℤ (pos 0) (answer (length log + n)).result ≡ false
    → (log' : Log) × (sigchld_handler answer (suc n) log ≡ some log')
      × (length log' ≡ length log + suc n)
unfolding sigchld_handler
sigchld_handler-returns answer zero log more stop =
    let stop_here : ltb_ℤ (pos 0) (answer (length log)).result ≡ false =
      subst (λ i. ltb_ℤ (pos 0) (answer i).result ≡ false) (omega arith) stop in
    (
      record { call = Call.waitpid_any; answer = answer (length log) } ∷ log,
      rw stop_here refl,
      omega arith,
    )
sigchld_handler-returns answer (suc n) log more stop =
    let next = record { call = Call.waitpid_any; answer = answer (length log) } ∷ log in
    let (log', e, size) =
      sigchld_handler-returns answer n next
        (λ k h.
          subst (λ i. ltb_ℤ (pos 0) (answer i).result ≡ true) (omega arith)
            (more (suc k) (omega arith)))
        (subst (λ i. ltb_ℤ (pos 0) (answer i).result ≡ false) (omega arith) stop) in
    let first : ltb_ℤ (pos 0) (answer (length log)).result ≡ true =
      subst (λ i. ltb_ℤ (pos 0) (answer i).result ≡ true) (omega arith) (more 0 (omega arith)) in
    (log', rw first e, omega (arith, size))
