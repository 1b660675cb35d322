-- ===== src/Former.antt =====
-- The former launcher, which p4/p4launcher/p4l_server.c keeps under #ifdef OLD. Its state is read
-- as the present one's: `p4runtime` is the pool, whose rows have their pid in `p4runtime_id`,
-- `session` is the session table, whose rows have no packet count there, and `is_locked` the lock.
pub mod Adjust
pub mod Same
pub mod Stop
pub mod Status
pub mod Setup
pub mod Reach
mod Examples
use p4_ubpf_scripts.Common.{
  ℕ, zero, suc, ℤ, pos, minus_one, ltb_ℤ, ◌==ℤ◌, increment, decrement, pos_part, ◌+◌, Bool, true,
  false, not, ◌&&◌, if◌then◌else◌, List, [], ◌∷◌, Option, none, some, ◌>>=◌, map, get_or, count,
}
use p4_ubpf_scripts.CString.{Text, codes, starts_with, skip, atoi}
use p4_ubpf_scripts.Launcher.State.{
  P4runtime, vacant, Event, sigterm, waited, ran_pkill, max_connections, Server,
  shm_initialize_table,
}
use p4_ubpf_scripts.Launcher.Runtimes.{is_live, is_idle, at_most_max, fork_failed, child_started}
use p4_ubpf_scripts.Launcher.Sessions.{session, link_to, unlink, is_new, is_lost, when}
use p4_ubpf_scripts.Launcher.Commands.{
  Reply, already_running, adjusted_to, all_stopped, children, child_pid, shutting_down,
  pkill_returned, unknown_command, Answer,
}

-- The loop of `adjust_children` that ends the idle children: kill and waitpid for each.
unfoldable pub end_idle : List P4runtime → List Event → List P4runtime × List Event
end_idle [] log = ([], log)
end_idle (e ∷ es) log =
    let ends = is_idle e in
    let (rows, log') = end_idle es (if ends then waited e.pid ∷ sigterm e.pid ∷ log else log) in
    ((if ends then record e { pid = minus_one } else e) ∷ rows, log')

-- `count` of `adjust_children`
abbrev pub count_in_use : List P4runtime → ℕ
count_in_use = count (λ e. e.in_use)

unfoldable pub shrink : Server → Server
shrink s =
    let (rows, log) = end_idle s.runtimes_table s.events in
    record s { runtimes_table = rows; events = log; runtimes = pos (count_in_use rows) }

-- The two loops of `stop_all_children` that signal the children and wait for them.
unfoldable pub signal_rows : List P4runtime → List Event → List Event
signal_rows [] log = log
signal_rows (e ∷ es) log = signal_rows es (if is_live e then sigterm e.pid ∷ log else log)

unfoldable pub wait_rows : List P4runtime → List Event → List Event
wait_rows [] log = log
wait_rows (e ∷ es) log = wait_rows es (if is_live e then waited e.pid ∷ log else log)

unfoldable pub stop_all_children : Server → Server
stop_all_children s = record s {
  events = wait_rows s.runtimes_table (signal_rows s.runtimes_table s.events);
  runtimes = pos 0;
  runtimes_table = map (λ _. vacant) s.runtimes_table;
}

-- The first row that `link_add` takes: its id is not -1 and it is not in use.
unfoldable pub find_unused : List P4runtime → Option ℕ
find_unused [] = none
find_unused (e ∷ es) =
    let rest = find_unused es in
    if not (e.pid ==ℤ minus_one) && not e.in_use
    then some 0
    else elim rest [ none ↦ none | some i ↦ some (suc i) ]

-- The loop of `status`: the rows from `i` on, `n` of them, whatever they hold.
unfoldable pub report_from : ℕ → ℕ → List P4runtime → List Reply
report_from i zero rows = []
report_from i (suc n) rows = child_pid (get_or rows i vacant).pid ∷ report_from (i + 1) n rows

unfoldable pub report_status : Server → List Reply
report_status s = children s.runtimes ∷ report_from 0 (pos_part s.runtimes) s.runtimes_table

module _ (fork : ℕ → ℤ) where
  -- `for (; runtimes < num; runtimes++)`, in at most `fuel` rounds; a failing fork ends the loop.
  unfoldable pub start_from : ℕ → ℤ → Server → Option Server
  start_from zero num s = if ltb_ℤ s.runtimes num then none else some s
  start_from (suc fuel) num s = elim (ltb_ℤ s.runtimes num) [
    | false ↦ some s
    | true ↦
        let pid = fork s.forks in
        if ltb_ℤ pid (pos 0)
        then some (fork_failed s)
        else if pid ==ℤ pos 0
        then none
        else start_from fuel num (child_started pid s)
  ]

  unfoldable pub start_children : ℕ → ℤ → Server → Option Server
  start_children fuel num s = start_from fuel (at_most_max num) s

  -- The part below the first test and the cap.
  abbrev pub adjust_to : ℕ → ℤ → Server → Option Server
  adjust_to fuel target s =
      if ltb_ℤ s.runtimes target
      then start_children fuel target s
      else if ltb_ℤ target s.runtimes
      then some (shrink s)
      else some s

  unfoldable pub adjust_children : ℕ → ℤ → Server → Option Server
  adjust_children fuel target s =
      if target ==ℤ s.runtimes then some s else adjust_to fuel (at_most_max target) s

  unfoldable pub link_add : ℕ → ℕ → Server → Option Server
  link_add fuel i s = adjust_children fuel (increment s.runtimes) s >>= λ t.
      some (link_to i (find_unused t.runtimes_table) t)

  unfoldable pub link_del : ℕ → ℕ → Server → Option Server
  link_del fuel i s = let t = unlink i s in adjust_children fuel (decrement t.runtimes) t

  unfoldable pub check_session : ℕ → ℕ → Server → Option Server
  check_session fuel i s = when (is_new (session s i)) (link_add fuel i) s >>= λ t.
      when (is_lost (session t i)) (link_del fuel i) t

  -- The rows from `i` on, `n` of them.
  unfoldable pub check_from : ℕ → ℕ → ℕ → Server → Option Server
  check_from fuel i zero s = some s
  check_from fuel i (suc n) s = check_session fuel i s >>= λ t. check_from fuel (i + 1) n t

  unfoldable pub check_ovs : ℕ → Server → Option Server
  check_ovs fuel s = check_from fuel 0 max_connections s

  -- `pkill` is what system() returns; `command` is what read returned.
  unfoldable pub handle_client : ℕ → ℤ → Text → Server → Answer
  handle_client fuel pkill [] s = some (s, [])
  handle_client fuel pkill (c ∷ cs) s =
      let command = c ∷ cs in
      let num = atoi (skip 7 command) in
      if starts_with (codes "start ") command
      then some (s, already_running ∷ [])
      else if starts_with (codes "update ") command
      then adjust_children fuel num s >>= (λ t. some (t, adjusted_to num ∷ []))
      else if starts_with (codes "stop") command
      then some (stop_all_children s, all_stopped ∷ [])
      else if starts_with (codes "status") command
      then some (s, report_status s)
      else if starts_with (codes "shutdown") command
      then some
          (record s { events = ran_pkill ∷ s.events }, shutting_down ∷ pkill_returned pkill ∷ [])
      else some (s, unknown_command ∷ [])

  -- What `main` does before its loop.
  unfoldable pub boot : ℕ → Server → Option Server
  boot fuel s =
      start_children fuel (pos 1)
        (record (shm_initialize_table s) { runtimes_table = map (λ _. vacant) s.runtimes_table })
