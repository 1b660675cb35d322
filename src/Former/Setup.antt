-- ===== src/Former/Setup.antt =====
-- How the former launcher becomes a daemon with a mapping and a socket.
pub mod Agrees
use p4_ubpf_scripts.Common.{
  ℕ, ℤ, pos, ltb_ℤ, ◌==ℤ◌, ◌+◌, ◌*◌, Bool, true, false, not, if◌then◌else◌, [], ◌∷◌,
}
use p4_ubpf_scripts.CString.{codes}
use p4_ubpf_scripts.Shm.{Member, align_up, end_from}
use p4_ubpf_scripts.Posix.{
  Call, Answer, Program, returned, exited, pure, exit_if, success, failure, perform, ◌>>=◌, ◌>>◌,
}
use p4_ubpf_scripts.Launcher.State.{max_connections}
use p4_ubpf_scripts.Launcher.Setup.{shm_name, socket_path, map_failed, Mapping, Ready}

-- sizeof(Connection): long long ovs_thread_id, int p4runtime_id
abbrev pub row_size : ℕ
row_size =
    align_up (end_from 0 (record { size = 8; align = 8 } ∷ record { size = 4; align = 4 } ∷ [])) 8

-- `VM_AREA`, `META_AREA`, `SHM_SESSION_TABLE` and `SHM_TABLE_IS_LOCKED`
abbrev pub vm_area : ℕ
vm_area = 0

abbrev pub meta_area : ℕ
meta_area = vm_area + 2 * 1024 * 1024

abbrev pub meta_session_table : ℕ
meta_session_table = 0

abbrev pub lock_at : ℕ
lock_at = meta_session_table + row_size * max_connections

-- What `shm_ptr`, `session` and `is_locked` point to after `shm_init`.
abbrev pub pointers : Mapping
pointers = record {
  shm_meta = meta_area;
  session_table = meta_area + meta_session_table;
  table_locked = meta_area + lock_at;
}

module _ (answer : ℕ → Answer) where
  unfoldable pub daemonize : Program (Unit {0})
  daemonize = do
    pid ← perform answer Call.fork
    exit_if (ltb_ℤ pid.result (pos 0)) failure
    exit_if (ltb_ℤ (pos 0) pid.result) success
    leader ← perform answer Call.setsid
    exit_if (ltb_ℤ leader.result (pos 0)) failure
    second ← perform answer Call.fork
    exit_if (ltb_ℤ second.result (pos 0)) failure
    exit_if (ltb_ℤ (pos 0) second.result) success
    moved ← perform answer (Call.chdir (codes "/"))
    exit_if (ltb_ℤ moved.result (pos 0)) failure
    perform answer (Call.umask 0)
    perform answer (Call.close (pos 0))
    perform answer (Call.close (pos 1))
    perform answer (Call.close (pos 2))
    fd ← perform answer (Call.open_path (codes "/dev/null"))
    exit_if (not (fd.result ==ℤ pos 0)) failure
    perform answer (Call.dup2 fd.result (pos 1))
    perform answer (Call.dup2 fd.result (pos 2))
    pure tt

  abbrev pub setup_signal_handlers : Program (Unit {0})
  setup_signal_handlers = perform answer Call.sigaction >> pure tt

  -- The result is what the global `fd` holds.
  unfoldable pub shm_start : Program ℤ
  shm_start = do
    fd ← perform answer (Call.open_path shm_name)
    exit_if (ltb_ℤ fd.result (pos 0)) failure
    base ← perform answer (Call.mmap fd.result)
    exit_if (base.result ==ℤ map_failed) failure
    pure fd.result

  -- `if (failed) { close(server_sock); exit(EXIT_FAILURE); }`
  abbrev pub close_and_exit_if : Bool → ℤ → Program (Unit {0})
  close_and_exit_if failed fd log = (
    if failed then exited failure else returned tt,
    if failed then (perform answer (Call.close fd) log).1 else log,
  )

  -- The result is what the global `server_sock` holds.
  unfoldable pub setup_server_socket : Program ℤ
  setup_server_socket = do
    perform answer (Call.unlink socket_path)
    sock ← perform answer Call.socket
    exit_if (ltb_ℤ sock.result (pos 0)) failure
    named ← perform answer (Call.bind sock.result)
    close_and_exit_if (ltb_ℤ named.result (pos 0)) sock.result
    queued ← perform answer (Call.listen sock.result)
    close_and_exit_if (ltb_ℤ queued.result (pos 0)) sock.result
    perform answer (Call.set_nonblocking sock.result)
    pure sock.result

  -- `main` never comes here.
  abbrev pub shm_end : ℤ → ℤ → Program (Unit {0})
  shm_end base fd = perform answer (Call.munmap base) >> (perform answer (Call.close fd) >> pure tt)

  -- The calls of `main` before its loop, but for the forks of start_children; `shm_init` makes none.
  unfoldable pub set_up : Program Ready
  set_up = do
    daemonize
    setup_signal_handlers
    fd ← shm_start
    sock ← setup_server_socket
    pure (record { shm_fd = fd; mapping = pointers; server_sock = sock })
