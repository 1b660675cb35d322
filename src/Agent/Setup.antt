-- ===== src/Agent/Setup.antt =====
-- How p4agent.c becomes a daemon with a mapping. Its calls of syslog count here, since the first
-- opens a descriptor.
pub mod Daemon
mod Examples
use p4_ubpf_scripts.Common.{ℕ, ℤ, pos, ltb_ℤ, ◌==ℤ◌, ◌∷◌}
use p4_ubpf_scripts.Posix.{
  Call, Answer, Program, pure, exit_if, success, failure, perform, ◌>>=◌, ◌>>◌,
}
use p4_ubpf_scripts.Launcher.Setup.{shm_name, map_failed}

module _ (answer : ℕ → Answer) where
  -- fclose closes the descriptor of the stream.
  unfoldable pub daemonize : Program (Unit {0})
  daemonize = do
    pid ← perform answer Call.fork
    exit_if (ltb_ℤ pid.result (pos 0)) failure
    exit_if (ltb_ℤ (pos 0) pid.result) success
    leader ← perform answer Call.setsid
    exit_if (ltb_ℤ leader.result (pos 0)) failure
    perform answer (Call.close (pos 0))
    perform answer (Call.close (pos 1))
    perform answer (Call.close (pos 2))
    pure tt

  -- The result is what the global `fd` holds.
  unfoldable pub shm_start : Program ℤ
  shm_start = do
    fd ← perform answer (Call.open_path shm_name)
    exit_if (ltb_ℤ fd.result (pos 0)) failure
    perform answer Call.syslog
    shm_ptr ← perform answer (Call.mmap fd.result)
    exit_if (shm_ptr.result ==ℤ map_failed) failure
    perform answer Call.syslog
    pure fd.result

  -- `daemonize(); shm_start();`, as both versions of `main` begin.
  abbrev pub start_up : Program ℤ
  start_up = daemonize >> shm_start

  -- Neither version of `main` comes here.
  abbrev pub shm_end : ℤ → ℤ → Program (Unit {0})
  shm_end shm_ptr fd =
      perform answer (Call.munmap shm_ptr) >> (perform answer (Call.close fd) >> pure tt)
