-- ===== src/Former/Setup/Agrees.antt =====
-- The former launcher sets itself up as the present one does, with its lock at another place.
use p4_ubpf_scripts.Common.{ℕ, ℤ, length}
use p4_ubpf_scripts.Posix.{Call, Answer, Program, Log, pure, perform, ◌>>=◌}
use p4_ubpf_scripts.Launcher.Setup.{Ready, Mapping}
use p4_ubpf_scripts.Launcher.Setup
use p4_ubpf_scripts.Former.Setup.{setup_server_socket, pointers}

-- What is ready, with the former version's pointers.
abbrev pub with_pointers : Ready → Ready
with_pointers r = record r { mapping = pointers }

module _ (answer : ℕ → Answer) where
  abbrev former_end : ℤ → Program Ready
  former_end fd = setup_server_socket answer >>= λ sock.
      pure (record { shm_fd = fd; mapping = pointers; server_sock = sock })

  abbrev present_end : ℤ × Mapping → Program Ready
  present_end (fd, mapping) = Setup.setup_server_socket answer >>= λ sock.
      pure (record { shm_fd = fd; mapping = mapping; server_sock = sock })

  abbrev relocate : Ready → Program Ready
  relocate r = pure (with_pointers r)

  module _ (log : Log) where
    abbrev fd : ℤ
    fd = (answer (length log)).result

    abbrev open_log : Log
    open_log = (perform answer (Call.open_path Setup.shm_name) log).1

    abbrev mmap_log : Log
    mmap_log = (perform answer (Call.mmap fd) open_log).1
