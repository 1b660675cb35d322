-- ===== src/Launcher/Setup.antt =====
-- How p4l_server.c becomes a daemon with a mapping and a socket, before it looks at any session.
-- `log_and_exit` is an exit with EXIT_FAILURE: its log line goes to the connection that `main` has
-- opened with openlog before, and is left out.
pub mod Daemon
pub mod Socket
pub mod Whole
pub mod Close
mod Examples
use p4_ubpf_scripts.Common.{
  ℕ, zero, suc, ℤ, pos, minus_one, ltb_ℤ, ◌==ℤ◌, ◌+◌, Bool, true, false, not, ◌||◌, if◌then◌else◌,
  length, ◌∷◌, Option, none, some,
}
use p4_ubpf_scripts.CString.{Text, codes}
use p4_ubpf_scripts.Launcher.Layout.{meta_area, meta_session_table, meta_table_is_locked}
use p4_ubpf_scripts.Posix.{
  Call, Answer, Done, Log, Program, returned, exited, pure, exit_if, success, failure, perform,
  ◌>>=◌, ◌>>◌,
}

abbrev pub shm_name : Text
shm_name = codes "/dev/uio0"

abbrev pub socket_path : Text
socket_path = codes "/tmp/p4l.sock"

-- Offsets from the mapping: what the statics point to.
pub record Mapping : Type 0 where
  pub shm_meta : ℕ
  pub session_table : ℕ
  pub table_locked : ℕ

-- What `shm_meta`, `session_table` and `table_locked` point to.
abbrev pub pointers : Mapping
pointers = record {
  shm_meta = meta_area;
  session_table = meta_area + meta_session_table;
  table_locked = meta_area + meta_table_is_locked;
}

-- What `main` has before its loop.
pub record Ready : Type 0 where
  pub shm_fd : ℤ
  pub mapping : Mapping
  pub server_sock : ℤ

-- `mapped` is MAP_FAILED.
abbrev pub map_failed : ℤ
map_failed = minus_one

module _ (answer : ℕ → Answer) where
  unfoldable pub safe_close : ℤ → Program (Unit {0})
  safe_close fd log =
      (returned tt, if ltb_ℤ fd (pos 0) then log else (perform answer (Call.close fd) log).1)

  unfoldable pub daemonize_process : Program (Unit {0})
  daemonize_process = do
    pid ← perform answer Call.fork
    exit_if (ltb_ℤ pid.result (pos 0)) failure
    exit_if (ltb_ℤ (pos 0) pid.result) success
    leader ← perform answer Call.setsid
    exit_if (ltb_ℤ leader.result (pos 0)) failure
    second ← perform answer Call.fork
    exit_if (ltb_ℤ second.result (pos 0)) failure
    exit_if (ltb_ℤ (pos 0) second.result) success
    moved ← perform answer (Call.chdir (codes "/"))
    exit_if (ltb_ℤ moved.result (pos 0)) failure
    perform answer (Call.umask 0)
    perform answer (Call.close (pos 0))
    perform answer (Call.close (pos 1))
    perform answer (Call.close (pos 2))
    fd ← perform answer (Call.open_path (codes "/dev/null"))
    exit_if (not (fd.result ==ℤ pos 0)) failure
    perform answer (Call.dup2 fd.result (pos 1))
    perform answer (Call.dup2 fd.result (pos 2))
    pure tt

  -- The result is what the statics `shm_fd` and `shm_meta`, `session_table`, `table_locked` hold.
  unfoldable pub shm_open_and_map : Program (ℤ × Mapping)
  shm_open_and_map = do
    fd ← perform answer (Call.open_path shm_name)
    exit_if (ltb_ℤ fd.result (pos 0)) failure
    base ← perform answer (Call.mmap fd.result)
    exit_if (base.result ==ℤ map_failed) failure
    pure (fd.result, pointers)

  abbrev pub setup_signal_handlers : Program (Unit {0})
  setup_signal_handlers = perform answer Call.sigaction >> pure tt

  -- `if (failed) { safe_close(server_sock); log_and_exit(...); }`
  abbrev pub close_and_exit_if : Bool → ℤ → Program (Unit {0})
  close_and_exit_if failed fd log = (
    if failed then exited failure else returned tt,
    if failed then (safe_close fd log).1 else log,
  )

  -- The result is what the static `server_sock` holds.
  unfoldable pub setup_server_socket : Program ℤ
  setup_server_socket = do
    perform answer (Call.unlink socket_path)
    sock ← perform answer Call.socket
    exit_if (ltb_ℤ sock.result (pos 0)) failure
    named ← perform answer (Call.bind sock.result)
    close_and_exit_if (ltb_ℤ named.result (pos 0)) sock.result
    queued ← perform answer (Call.listen sock.result)
    close_and_exit_if (ltb_ℤ queued.result (pos 0)) sock.result
    perform answer (Call.set_nonblocking sock.result)
    pure sock.result

  -- The result is what the statics `shm_base` and `shm_fd` hold; 0 is NULL. `main` never comes here.
  unfoldable pub shm_unmap_and_close : ℤ → ℤ → Program (ℤ × ℤ)
  shm_unmap_and_close base fd = do
    left ←
        if (base ==ℤ pos 0) || (base ==ℤ map_failed)
        then pure base
        else (perform answer (Call.munmap base) >> pure (pos 0))
    safe_close fd
    pure (left, minus_one)

  -- The calls of `main` before its loop, but for the forks of start_children. What initialises the
  -- tables in between makes none.
  unfoldable pub set_up : Program Ready
  set_up = do
    daemonize_process
    setup_signal_handlers
    (fd, mapping) ← shm_open_and_map
    sock ← setup_server_socket
    pure (record { shm_fd = fd; mapping = mapping; server_sock = sock })

  -- `while (waitpid(-1, NULL, WNOHANG) > 0) {}`, in at most `fuel` rounds; `none` where they do not
  -- suffice.
  unfoldable pub sigchld_handler : ℕ → Log → Option Log
  sigchld_handler zero log = none
  sigchld_handler (suc fuel) log =
      let a = answer (length log) in
      let log' = record { call = Call.waitpid_any; answer = a } ∷ log in
      let rest = sigchld_handler fuel log' in if ltb_ℤ (pos 0) a.result then rest else some log'
