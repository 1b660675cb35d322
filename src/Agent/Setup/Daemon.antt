-- ===== src/Agent/Setup/Daemon.antt =====
-- What process the agent runs in.
use p4_ubpf_scripts.Common.{
  ℕ, ℤ, pos, minus_one, ltb_ℤ, ◌==ℤ◌, ==ℤ_refl, sym, ◌∙◌, subst, ◌≡◌, ◌&&◌, sign, below, at_zero,
  above, inl, inr, refl, Bool, true, false, if◌then◌else◌, Bool-cases, [], ◌∷◌, arith,
}
use p4_ubpf_scripts.CString.{Text}
use p4_ubpf_scripts.Posix.{Call, Answer, Done, Log, Result, returned, exited, success, failure}
use p4_ubpf_scripts.Posix.Laws.{>>-returned, >>-exited}
use p4_ubpf_scripts.Posix.Effects.{
  Target, file, nothing, logger, without_logger, succeeded, Process, process, effect,
}
use p4_ubpf_scripts.Launcher.Setup.{shm_name}
use p4_ubpf_scripts.Launcher.Setup.Daemon.{after_fork, below_lem, at_zero_lem}
use p4_ubpf_scripts.Agent.Setup.{daemonize, shm_start, start_up}

-- What the standard descriptor `n` stands for: the connection to the logger where syslog, answered
-- `logged`, has it, and the shared memory where this was opened on it.
abbrev pub in_use : Answer → ℤ → ℤ → Target
in_use logged fd n =
    if succeeded logged && (n ==ℤ logged.result)
    then logger
    else if n ==ℤ fd
    then file shm_name
    else nothing

-- A child that leads a session of its own, with the shared memory on the descriptor `fd`.
pub record IsAgent (logged : Answer) (fd : ℤ) (p : Process) : Type 0 where
  pub child : p.generation ≡ 1
  pub left : p.left_session ≡ true
  pub leads : p.leads_session ≡ true
  pub shared : p.descriptor fd ≡ file shm_name
  pub input : p.descriptor (pos 0) ≡ in_use logged fd (pos 0)
  pub output : p.descriptor (pos 1) ≡ in_use logged fd (pos 1)
  pub errors : p.descriptor (pos 2) ≡ in_use logged fd (pos 2)

-- The last call of syslog is the ninth.
abbrev pub StartsUp : (ℕ → Answer) → Result ℤ × Log → Type 0
StartsUp answer (returned fd, log) = IsAgent (answer 8) fd (process log)
StartsUp answer (exited status, log) = status ≡ (if after_fork log then success else failure)

module _ (answer : ℕ → Answer) where
  abbrev done : Call → ℕ → Done
  done call k = record { call = call; answer = answer k }

  abbrev fork_log : Log
  fork_log = done Call.fork 0 ∷ []

  abbrev setsid_log : Log
  setsid_log = done Call.setsid 1 ∷ fork_log

  abbrev daemon_log : Log
  daemon_log =
      done (Call.close (pos 2)) 4
      ∷ done (Call.close (pos 1)) 3
      ∷ done (Call.close (pos 0)) 2
      ∷ setsid_log

  abbrev fd : ℤ
  fd = (answer 5).result

  abbrev open_log : Log
  open_log = done (Call.open_path shm_name) 5 ∷ daemon_log

  abbrev map_log : Log
  map_log = done (Call.mmap fd) 7 ∷ done Call.syslog 6 ∷ open_log

  -- The ends of the two parts, by the answers to their calls.
  fork_fails :
      ltb_ℤ (answer 0).result (pos 0) ≡ true → daemonize answer [] ≡ (exited failure, fork_log)
  unfolding daemonize
  fork_fails a = rw a refl

  parent_exits :
      ltb_ℤ (answer 0).result (pos 0) ≡ false
      → ltb_ℤ (pos 0) (answer 0).result ≡ true
      → daemonize answer [] ≡ (exited success, fork_log)
  unfolding daemonize
  parent_exits a c = rw (a, c) refl

  module _ (a : ltb_ℤ (answer 0).result (pos 0) ≡ false)
      (b : ltb_ℤ (pos 0) (answer 0).result ≡ false) where
    setsid_fails :
        ltb_ℤ (answer 1).result (pos 0) ≡ true → daemonize answer [] ≡ (exited failure, setsid_log)
    unfolding daemonize
    setsid_fails fails = rw (a, b, fails) refl

    becomes_daemon :
        ltb_ℤ (answer 1).result (pos 0) ≡ false → daemonize answer [] ≡ (returned tt, daemon_log)
    unfolding daemonize
    becomes_daemon leads = rw (a, b, leads) refl

  open_fails : ltb_ℤ fd (pos 0) ≡ true → shm_start answer daemon_log ≡ (exited failure, open_log)
  unfolding shm_start
  open_fails fails = rw fails refl

  map_fails :
      ltb_ℤ fd (pos 0) ≡ false
      → ((answer 7).result ==ℤ minus_one) ≡ true
      → shm_start answer daemon_log ≡ (exited failure, map_log)
  unfolding shm_start
  map_fails opens fails = rw (opens, fails) refl

  maps :
      ltb_ℤ fd (pos 0) ≡ false
      → ((answer 7).result ==ℤ minus_one) ≡ false
      → shm_start answer daemon_log ≡ (returned fd, done Call.syslog 8 ∷ map_log)
  unfolding shm_start
  maps opens mapped = rw (opens, mapped) refl

  -- The two calls of syslog on a descriptor that they do not take, and on one with nothing on it.
  not_taken :
      (first second : Bool) (path : Text)
      → (if second && false
          then logger
          else without_logger (if first && false then logger else file path))
        ≡ file path
  not_taken false false path = refl
  not_taken false true path = refl
  not_taken true false path = refl
  not_taken true true path = refl

  -- The two calls of syslog after a descriptor that was closed: `opened` where the shared memory
  -- was opened on it, `first` and `second` where they have taken it.
  logged_last :
      (opened first second : Bool) (path : Text)
      → (opened && first) ≡ false
      → (if second
          then logger
          else without_logger
              (if first then logger else without_logger (if opened then file path else nothing)))
        ≡ (if second then logger else if opened then file path else nothing)
  logged_last opened first true path e = refl
  logged_last false true false path e = refl
  logged_last false false false path e = refl
  logged_last true false false path e = refl
  logged_last true true false path e = cc e

  not_both :
      (n opened logged : ℤ) (success : Bool)
      → (opened ==ℤ logged) ≡ false
      → ((n ==ℤ opened) && (success && (n ==ℤ logged))) ≡ false
  not_both n opened logged success apart = ground (arith, apart)

  maps-IsAgent :
      ((answer 0).result ==ℤ pos 0) ≡ true
      → ltb_ℤ (answer 1).result (pos 0) ≡ false
      → ltb_ℤ fd (pos 0) ≡ false
      → (fd ==ℤ (answer 6).result) ≡ false
      → (fd ==ℤ (answer 8).result) ≡ false
      → IsAgent (answer 8) fd (process (done Call.syslog 8 ∷ map_log))
  unfolding process effect
  maps-IsAgent child leads opens apart apart' =
      let logged : (n : ℤ) → _ = λ n.
        logged_last (n ==ℤ fd) (succeeded (answer 6) && (n ==ℤ (answer 6).result))
          (succeeded (answer 8) && (n ==ℤ (answer 8).result)) shm_name
          (not_both n fd (answer 6).result (succeeded (answer 6)) apart) in
      rw (child, leads, opens)
        (record {
          child = refl;
          left = refl;
          leads = refl;
          shared =
              rw (apart, apart', ==ℤ_refl fd)
                (not_taken (succeeded (answer 6)) (succeeded (answer 8)) shm_name);
          input = logged (pos 0);
          output = logged (pos 1);
          errors = logged (pos 2);
        })

module _ (answer : ℕ → Answer) where
  exits :
      {status : ℤ} {log : Log}
      → daemonize answer [] ≡ (exited status, log)
      → StartsUp answer (exited status, log)
      → StartsUp answer (start_up answer [])
  exits {status} {log} e h =
      subst (StartsUp answer)
        (sym (>>-exited (daemonize answer) (shm_start answer) [] log status e)) h

  continues :
      {log : Log} {out : Result ℤ × Log}
      → daemonize answer [] ≡ (returned tt, log)
      → shm_start answer log ≡ out
      → StartsUp answer out
      → StartsUp answer (start_up answer [])
  continues {log} e same h =
      subst (StartsUp answer)
        (sym (>>-returned (daemonize answer) (shm_start answer) [] log tt e ∙ same)) h

-- When no call of syslog takes the shared memory's descriptor for its connection to the logger,
-- then whatever else the system calls return, `daemonize` and `shm_start` together either come back
-- in a child that leads a session of its own, with the shared memory on its descriptor, and on each
-- standard descriptor the connection to the logger where the last syslog has left it there, the
-- shared memory where it was opened there, and nothing otherwise, or exit, with success exactly
-- where the last call was a fork that gave a child.
pub start_up-StartsUp :
    (answer : ℕ → Answer)
    → ((answer 5).result ==ℤ (answer 6).result) ≡ false
    → ((answer 5).result ==ℤ (answer 8).result) ≡ false
    → StartsUp answer (start_up answer [])
start_up-StartsUp answer apart apart' = elim (sign (answer 0).result) [
  | below a ↦ exits answer (fork_fails answer a) (rw (below_lem _ a) refl)
  | above a b c ↦ exits answer (parent_exits answer a c) (rw c refl)
  | at_zero a b ↦
      let zero_lem = at_zero_lem (answer 0).result b in
      elim (Bool-cases (ltb_ℤ (answer 1).result (pos 0))) [
        | inl fails ↦ exits answer (setsid_fails answer a zero_lem fails) refl
        | inr leads ↦ elim (Bool-cases (ltb_ℤ (answer 5).result (pos 0))) [
          | inl fails ↦
              continues answer (becomes_daemon answer a zero_lem leads) (open_fails answer fails)
                refl
          | inr opens ↦ elim (Bool-cases ((answer 7).result ==ℤ minus_one)) [
            | inl fails ↦
                continues answer (becomes_daemon answer a zero_lem leads)
                  (map_fails answer opens fails) refl
            | inr mapped ↦
                continues answer (becomes_daemon answer a zero_lem leads) (maps answer opens mapped)
                  (maps-IsAgent answer b leads opens apart apart')
          ]
        ]
      ]
]
