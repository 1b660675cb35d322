-- ===== src/Launcher/Runtimes.antt =====
-- The pool of runtimes of p4l_server.c: spawning, adjusting and stopping the children.
pub mod Rows
pub mod Start
pub mod Adjust
pub mod Stop
use p4_ubpf_scripts.Common.{
  ℕ, zero, suc, ℤ, pos, minus_one, ltb_ℤ, ◌==ℤ◌, increment, decrement, ◌+◌, Bool, true, false, not,
  ◌&&◌, if◌then◌else◌, List, [], ◌∷◌, Option, none, some, ◌>>=◌,
}
use p4_ubpf_scripts.Launcher.State.{
  P4runtime, vacant, max_connections, Event, started, sigterm, waited, Server,
}

-- `pid > 0`
abbrev pub is_live : P4runtime → Bool
is_live e = ltb_ℤ (pos 0) e.pid

-- `pid > 0 && !in_use`
abbrev pub is_idle : P4runtime → Bool
is_idle e = is_live e && not e.in_use

-- The loop stops at the first row whose pid is -1; a full table stays as it is.
unfoldable pub add_runtime_entry : ℤ → List P4runtime → List P4runtime
add_runtime_entry pid [] = []
add_runtime_entry pid (e ∷ es) =
    if e.pid ==ℤ minus_one
    then record { pid = pid; in_use = false } ∷ es
    else e ∷ add_runtime_entry pid es

-- kill, then waitpid
unfoldable pub terminate_child : ℤ → List Event → List Event
terminate_child pid log = if ltb_ℤ (pos 0) pid then waited pid ∷ sigterm pid ∷ log else log

-- The loop of `stop_all_children`: the table that it leaves, and the events.
unfoldable pub stop_rows : List P4runtime → List Event → List P4runtime × List Event
unfolding terminate_child
stop_rows [] log = ([], log)
stop_rows (e ∷ es) log =
    let stops = is_live e in
    let (es', log') = stop_rows es (if stops then terminate_child e.pid log else log) in
    ((if stops then vacant else e) ∷ es', log')

unfoldable pub stop_all_children : Server → Server
stop_all_children s =
    let (rows, log) = stop_rows s.runtimes_table s.events in
    record s { runtimes_table = rows; events = log; runtimes = pos 0 }

pub record Shrunk : Type 0 where
  pub rows : List P4runtime
  pub left : ℤ
  pub log : List Event

-- The loop of `adjust_children` over the rows, which stops once `left` is down to the target.
unfoldable pub shrink_rows : ℤ → ℤ → List P4runtime → List Event → Shrunk
unfolding terminate_child
shrink_rows target left [] log = record { rows = []; left = left; log = log }
shrink_rows target left (e ∷ es) log = elim (ltb_ℤ target left) [
  | false ↦ record { rows = e ∷ es; left = left; log = log }
  | true ↦
      let stops = is_idle e in
      let rest =
        shrink_rows target (if stops then decrement left else left) es
          (if stops then terminate_child e.pid log else log) in
      record { rows = (if stops then vacant else e) ∷ rest.rows; left = rest.left; log = rest.log }
]

-- The index of the first idle row; `none` is the -1 of the source.
unfoldable pub find_free_runtime_index : List P4runtime → Option ℕ
find_free_runtime_index [] = none
find_free_runtime_index (e ∷ es) =
    let rest = find_free_runtime_index es in
    if is_idle e then some 0 else elim rest [ none ↦ none | some i ↦ some (suc i) ]

-- `if (num > MAX_CONNECTIONS) num = MAX_CONNECTIONS;`
abbrev pub at_most_max : ℤ → ℤ
at_most_max n = if ltb_ℤ (pos max_connections) n then pos max_connections else n

-- the state after a call of fork that failed, and after one that returned a child's pid
abbrev pub fork_failed : Server → Server
fork_failed s = record s { forks = s.forks + 1 }

abbrev pub child_started : ℤ → Server → Server
child_started pid s = record s {
  forks = s.forks + 1;
  runtimes_table = add_runtime_entry pid s.runtimes_table;
  runtimes = increment s.runtimes;
  events = started pid ∷ s.events;
}

-- `fork k` is what the call number `k` of fork returns to the process that makes it.
module _ (fork : ℕ → ℤ) where
  -- `none` in the child: execl puts another program in its place or it exits, so it does not
  -- come back to the launcher's loop.
  unfoldable pub spawn_runtime_process : Server → Option Server
  spawn_runtime_process s =
      let pid = fork s.forks in
      if ltb_ℤ pid (pos 0)
      then some (fork_failed s)
      else if pid ==ℤ pos 0
      then none
      else some (child_started pid s)

  -- `while (runtimes < num) spawn_runtime_process();`, in at most `fuel` rounds
  unfoldable pub spawn_until : ℕ → ℤ → Server → Option Server
  spawn_until zero num s = if ltb_ℤ s.runtimes num then none else some s
  spawn_until (suc fuel) num s = elim (ltb_ℤ s.runtimes num) [
    | false ↦ some s
    | true ↦ spawn_runtime_process s >>= λ s'. spawn_until fuel num s'
  ]

  unfoldable pub start_children : ℕ → ℤ → Server → Option Server
  start_children fuel num s = spawn_until fuel (at_most_max num) s

  -- The part of `adjust_children` below its first test and the cap.
  unfoldable pub adjust_to : ℕ → ℤ → Server → Option Server
  adjust_to fuel target s =
      if ltb_ℤ s.runtimes target
      then start_children fuel target s
      else (let shrunk = shrink_rows target s.runtimes s.runtimes_table s.events in
          some (record s {
            runtimes_table = shrunk.rows;
            runtimes = shrunk.left;
            events = shrunk.log;
          }))

  unfoldable pub adjust_children : ℕ → ℤ → Server → Option Server
  adjust_children fuel target s =
      if target ==ℤ s.runtimes then some s else adjust_to fuel (at_most_max target) s
