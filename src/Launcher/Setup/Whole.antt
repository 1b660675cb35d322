-- ===== src/Launcher/Setup/Whole.antt =====
-- What process serves once the calls of `main` before its loop are done.
use p4_ubpf_scripts.Common.{
  ℕ, suc, ℤ, pos, ltb_ℤ, ◌==ℤ◌, ==ℤ_refl, ◌≡◌, ◌∙◌, refl, sym, ap, subst, inl, inr, true, false,
  if◌then◌else◌, Bool-cases, [], length, some,
}
use p4_ubpf_scripts.CString.{codes}
use p4_ubpf_scripts.Posix.{
  Answer, Log, Result, Program, returned, exited, pure, success, failure, ◌>>=◌, ◌>>◌,
}
use p4_ubpf_scripts.Posix.Laws.{ends, >>=-returned, >>=-exited}
use p4_ubpf_scripts.Posix.Effects.{Process, Target, file, socket_end, process, effect, redirect}
use p4_ubpf_scripts.Launcher.Setup.{
  shm_name, map_failed, Mapping, Ready, safe_close, daemonize_process, setup_signal_handlers,
  shm_open_and_map, setup_server_socket, set_up,
}
use p4_ubpf_scripts.Launcher.Setup.Daemon.{
  IsDaemon, Daemonizes, copied, after_fork, daemonize_process-Daemonizes,
}

-- What the descriptor `n` stands for that stood for `target` in the daemon: the socket was opened
-- last, and the shared memory before it.
abbrev pub in_use : Ready → ℤ → Target → Target
in_use r n target =
    if n ==ℤ r.server_sock then socket_end else if n ==ℤ r.shm_fd then file shm_name else target

-- A daemon with a socket and the shared memory.
pub record IsReady (one two : Answer) (r : Ready) (p : Process) : Type 0 where
  pub grandchild : p.generation ≡ 2
  pub left : p.left_session ≡ true
  pub no_leader : p.leads_session ≡ false
  pub at_root : p.directory ≡ some (codes "/")
  pub served : p.descriptor r.server_sock ≡ socket_end
  pub shared :
      p.descriptor r.shm_fd ≡ (if r.shm_fd ==ℤ r.server_sock then socket_end else file shm_name)
  pub input : p.descriptor (pos 0) ≡ in_use r (pos 0) (file (codes "/dev/null"))
  pub output : p.descriptor (pos 1) ≡ in_use r (pos 1) (copied one)
  pub errors : p.descriptor (pos 2) ≡ in_use r (pos 2) (copied two)

abbrev pub SetsUp : (ℕ → Answer) → Result Ready × Log → Type 0
SetsUp answer (returned r, log) = IsReady (answer 9) (answer 10) r (process log)
SetsUp answer (exited status, log) = status ≡ (if after_fork log then success else failure)

-- A part of the program that does not fork: it fails, or leaves a process that `P` holds of.
abbrev Leaves : {A : Type 0} → (A → Process → Type 0) → Result A × Log → Type 0
Leaves P (returned a, log) = P a (process log)
Leaves P (exited status, log) = (status ≡ failure) × (after_fork log ≡ false)

ready :
    (one two : Answer) (p q : Process) (r : Ready)
    → IsDaemon one two p
    → q ≡ redirect (redirect p r.shm_fd (file shm_name)) r.server_sock socket_end
    → IsReady one two r q
ready one two p q r d e = rw e (record {
  grandchild = d.grandchild;
  left = d.left;
  no_leader = d.no_leader;
  at_root = d.at_root;
  served = rw (==ℤ_refl r.server_sock) refl;
  shared = rw (==ℤ_refl r.shm_fd) refl;
  input = ap (in_use r (pos 0)) d.input;
  output = ap (in_use r (pos 1)) d.output;
  errors = ap (in_use r (pos 2)) d.errors;
})

module _ (answer : ℕ → Answer) (log : Log) where
  abbrev Opened : ℤ × Mapping → Process → Type 0
  Opened (fd, mapping) p = p ≡ redirect (process log) fd (file shm_name)

  shm_open_and_map-Leaves : Leaves Opened (shm_open_and_map answer log)
  unfolding shm_open_and_map process effect
  shm_open_and_map-Leaves = elim (Bool-cases (ltb_ℤ (answer (length log)).result (pos 0))) [
    | inl fails ↦ rw fails (refl, refl)
    | inr opens ↦ elim (Bool-cases ((answer (suc (length log))).result ==ℤ map_failed)) [
      | inl fails ↦ rw (opens, fails) (refl, refl)
      | inr maps ↦ rw (opens, maps) (rw opens refl)
    ]
  ]

  abbrev Serving : ℤ → Process → Type 0
  Serving sock p = p ≡ redirect (process log) sock socket_end

  setup_server_socket-Leaves : Leaves Serving (setup_server_socket answer log)
  unfolding setup_server_socket safe_close process effect
  setup_server_socket-Leaves =
      elim (Bool-cases (ltb_ℤ (answer (suc (length log))).result (pos 0))) [
        | inl fails ↦ rw fails (refl, refl)
        | inr opens ↦ elim (Bool-cases (ltb_ℤ (answer (suc (suc (length log)))).result (pos 0))) [
          | inl fails ↦ rw (opens, fails) (refl, rw opens refl)
          | inr named ↦
              elim (Bool-cases (ltb_ℤ (answer (suc (suc (suc (length log))))).result (pos 0))) [
                | inl fails ↦ rw (opens, named, fails) (refl, rw opens refl)
                | inr queued ↦ rw (opens, named, queued) (rw opens refl)
              ]
        ]
      ]

after_part :
    (answer : ℕ → Answer) {A : Type 0} (P : A → Process → Type 0) (m : Program A)
    (f : A → Program Ready) (log : Log)
    → Leaves P (m log)
    → ((a : A) (later : Log) → P a (process later) → SetsUp answer (f a later))
    → SetsUp answer ((m >>= f) log)
after_part answer P m f log leaves goes_on = elim (ends (m log)) [
  | inl (a, e) ↦
      subst (SetsUp answer) (sym (>>=-returned m f log _ a e))
        (goes_on a _ (subst (Leaves P) e leaves))
  | inr (n, e) ↦
      let (fails, no_fork) = subst (Leaves P) e leaves in
      subst (SetsUp answer) (sym (>>=-exited m f log _ n e)) (rw no_fork fails)
]

module _ (answer : ℕ → Answer) where
  abbrev with_socket : ℤ × Mapping → Program Ready
  with_socket (fd, mapping) = setup_server_socket answer >>= λ sock.
      pure (record { shm_fd = fd; mapping = mapping; server_sock = sock })

  abbrev after_daemon : Program Ready
  after_daemon = setup_signal_handlers answer >> (shm_open_and_map answer >>= with_socket)

  handlers-process : (log : Log) → process (setup_signal_handlers answer log).1 ≡ process log
  unfolding process effect
  handlers-process log = refl

  after_daemon-SetsUp :
      (log : Log) → IsDaemon (answer 9) (answer 10) (process log) → SetsUp answer (after_daemon log)
  after_daemon-SetsUp log daemon =
      let handled = (setup_signal_handlers answer log).1 in
      after_part answer (Opened answer handled) (shm_open_and_map answer) with_socket handled
        (shm_open_and_map-Leaves answer handled)
        (λ (fd, mapping) later e.
          after_part answer (Serving answer later) (setup_server_socket answer)
            (λ sock. pure (record { shm_fd = fd; mapping = mapping; server_sock = sock })) later
            (setup_server_socket-Leaves answer later)
            (λ sock last same.
              ready (answer 9) (answer 10) (process log) (process last)
                (record { shm_fd = fd; mapping = mapping; server_sock = sock }) daemon
                (same
                  ∙ ap (λ p. redirect p sock socket_end)
                      (e ∙ ap (λ p. redirect p fd (file shm_name)) (handlers-process log)))))

  -- Whatever its system calls return, the set-up of `main`, from `daemonize_process` to
  -- `setup_server_socket`, either comes back in the child of a child of the launcher, in a session
  -- of its own that it does not lead, at the root directory, with the server's socket on its
  -- descriptor and the shared memory on its own (unless the two numbers are the same), and on the
  -- standard descriptors, where they are neither of these, /dev/null on 0, and on 1 and 2 /dev/null
  -- where their dup2 succeeded and nothing where it failed; or it exits, with success exactly where
  -- its last call was a fork that gave it a child.
  pub set_up-SetsUp : SetsUp answer (set_up answer [])
  unfolding set_up
  set_up-SetsUp = elim (ends (daemonize_process answer [])) [
    | inl (u, e) ↦
        subst (SetsUp answer)
          (sym (>>=-returned (daemonize_process answer) (λ _. after_daemon) [] _ u e))
          (after_daemon-SetsUp _
            (subst (Daemonizes answer) e (daemonize_process-Daemonizes answer)))
    | inr (n, e) ↦
        subst (SetsUp answer)
          (sym (>>=-exited (daemonize_process answer) (λ _. after_daemon) [] _ n e))
          (subst (Daemonizes answer) e (daemonize_process-Daemonizes answer))
  ]
