-- ===== src/Launcher/Promise/Examples.antt =====
-- The promise at a state in which a session has just been given a child.
use p4_ubpf_scripts.Common.{ℕ, pos, ◌+◌, ◌≡◌, refl, List, ◌++◌, some, arith}
use p4_ubpf_scripts.Launcher.State.{Event}
use p4_ubpf_scripts.Launcher.Runtimes.{
  adjust_children, adjust_to, start_children, spawn_until, spawn_runtime_process, add_runtime_entry,
  find_free_runtime_index,
}
use p4_ubpf_scripts.Launcher.Sessions.{check_session, link_add, link_to, use_runtime}
use p4_ubpf_scripts.Launcher.Commands.Reach.{Reach, later, checks}
use p4_ubpf_scripts.Launcher.Tests.{
  forks_well, forks_well-NoReuse, opened, opened_reached, not_stop, not_stop_refuses, linked_state,
}
use p4_ubpf_scripts.Launcher.Promise.Life.{Promised, Reach-Promised}
use p4_ubpf_scripts.Launcher.Promise.Pids.{Kept, Reach-Kept}

check_session_runs : check_session forks_well 2 3 opened ≡ some linked_state
unfolding check_session link_add link_to use_runtime adjust_children adjust_to start_children
    spawn_until spawn_runtime_process add_runtime_entry find_free_runtime_index
check_session_runs = refl

linked-Reach : Reach forks_well 2 not_stop linked_state
linked-Reach = later (opened_reached not_stop) (checks 3 (omega arith) check_session_runs)

Reach-Promised_example : Promised linked_state
Reach-Promised_example =
    Reach-Promised forks_well 2 not_stop forks_well-NoReuse not_stop_refuses linked-Reach

Reach-Kept_example :
    (log earlier : List Event) × (linked_state.events ≡ log ++ earlier)
    × ((k : ℕ) → Kept (pos (k + 1)) log linked_state)
Reach-Kept_example =
    Reach-Kept forks_well 2 not_stop forks_well-NoReuse not_stop_refuses linked-Reach
