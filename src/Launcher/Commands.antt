-- ===== src/Launcher/Commands.antt =====
-- The commands that p4l_server.c takes over its socket, and the life of the daemon.
pub mod Replies
pub mod Dialogue
pub mod Boot
pub mod Reach
use p4_ubpf_scripts.Common.{
  ℕ, ℤ, pos, ltb_ℤ, increment, Bool, true, false, if◌then◌else◌, List, [], ◌∷◌, Option, none, some,
  ◌>>=◌,
}
use p4_ubpf_scripts.CString.{Text, codes, starts_with, skip, atoi}
use p4_ubpf_scripts.Launcher.State.{
  P4runtime, Event, ran_pkill, Server, shm_initialize_table, init_runtimes_table,
}
use p4_ubpf_scripts.Launcher.Runtimes.{is_live, start_children, adjust_children, stop_all_children}

-- What dprintf sends to the client, one for each call.
pub data Reply : Type 0 where
  already_running : Reply
  adjusted_to : ℤ → Reply
  all_stopped : Reply
  children : ℤ → Reply
  child_pid : ℤ → Reply
  shutting_down : Reply
  pkill_returned : ℤ → Reply
  unknown_command : Reply

abbrev pub Answer : Type 0
Answer = Option (Server × List Reply)

unfoldable pub handle_start_command : Server → Answer
handle_start_command s = some (s, already_running ∷ [])

unfoldable pub handle_stop_command : Server → Answer
handle_stop_command s = some (stop_all_children s, all_stopped ∷ [])

-- The loop of `handle_status_command`: it ends with the table, or once `runtimes` rows are reported.
unfoldable pub report_rows : ℤ → ℤ → List P4runtime → List Reply
report_rows reported runtimes [] = []
report_rows reported runtimes (e ∷ es) = elim (ltb_ℤ reported runtimes) [
  | false ↦ []
  | true ↦
      let rest = report_rows (if is_live e then increment reported else reported) runtimes es in
      if is_live e then child_pid e.pid ∷ rest else rest
]

unfoldable pub handle_status_command : Server → Answer
handle_status_command s =
    some (s, children s.runtimes ∷ report_rows (pos 0) s.runtimes s.runtimes_table)

-- `pkill` is what system() returns for "pkill ubpf_test"; the tables are not touched.
unfoldable pub handle_shutdown_command : ℤ → Server → Answer
handle_shutdown_command pkill s =
    some (record s { events = ran_pkill ∷ s.events }, shutting_down ∷ pkill_returned pkill ∷ [])

module _ (fork : ℕ → ℤ) (fuel : ℕ) where
  unfoldable pub handle_update_command : Text → Server → Answer
  handle_update_command arg s =
      let num = atoi arg in adjust_children fork fuel num s >>= λ t. some (t, adjusted_to num ∷ [])

  -- `command` is what read returned; nothing at all, or an error, is an empty one.
  unfoldable pub handle_client : ℤ → Text → Server → Answer
  handle_client pkill [] s = some (s, [])
  handle_client pkill (c ∷ cs) s =
      let command = c ∷ cs in
      if starts_with (codes "start ") command
      then handle_start_command s
      else if starts_with (codes "update ") command
      then handle_update_command (skip 7 command) s
      else if starts_with (codes "stop") command
      then handle_stop_command s
      else if starts_with (codes "status") command
      then handle_status_command s
      else if starts_with (codes "shutdown") command
      then handle_shutdown_command pkill s
      else some (s, unknown_command ∷ [])

  -- What `main` does before its loop, with `INIT_CLIENTS` at 1.
  unfoldable pub boot : Server → Option Server
  boot s = start_children fork fuel (pos 1) (init_runtimes_table (shm_initialize_table s))
