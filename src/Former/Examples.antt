-- ===== src/Former/Examples.antt =====
-- The theorems on the former launcher at the states of the present one's tests.
use p4_ubpf_scripts.Common.{pos, negsuc, ◌≤◌, ◌≡◌, refl, inl, some, get_or, arith}
use p4_ubpf_scripts.Launcher.State.{Server, max_connections, shm_initialize_table}
use p4_ubpf_scripts.Launcher.Invariant.{IsValid}
use p4_ubpf_scripts.Launcher.Runtimes.{add_runtime_entry}
use p4_ubpf_scripts.Launcher.Runtimes
use p4_ubpf_scripts.Launcher.Runtimes.Rows.{live, busy}
use p4_ubpf_scripts.Launcher.Sessions.{link_to, use_runtime}
use p4_ubpf_scripts.Launcher.Sessions.Unlink.{link_del-Unlinks}
use p4_ubpf_scripts.Launcher.Commands.{child_pid, unknown_command}
use p4_ubpf_scripts.Launcher.Tests.{
  forks_well, forks_well-NoReuse, forks_well-InParent, raw, booted_state, opened, opened-IsSound,
  session_7, linked_state, linked_state-IsSound, closed_state, closed_state-IsSound, unlinked_state,
  link_del_runs,
}
use p4_ubpf_scripts.Former.{
  boot, start_children, start_from, adjust_children, link_add, find_unused, check_session,
  check_ovs, report_status,
}
use p4_ubpf_scripts.Launcher.Setup
use p4_ubpf_scripts.Former.Adjust.{adjust_children-ends_idle}
use p4_ubpf_scripts.Former.Same.{adjust_children-agrees}
use p4_ubpf_scripts.Former.Status.{report_status-vacant}
use p4_ubpf_scripts.Former.Reach.{
  Survives, check_ovs-Survives, Life, born, next, ovs_opens, sees, Life-IsValid,
}

boot_runs : boot forks_well 2 raw ≡ some booted_state
unfolding boot start_children start_from add_runtime_entry shm_initialize_table
boot_runs = refl

-- The open session gets the idle child, as in the present version.
check_session_runs : check_session forks_well 2 3 opened ≡ some linked_state
unfolding check_session link_add link_to use_runtime adjust_children start_children start_from
    add_runtime_entry find_unused
check_session_runs = refl

linked-Life : Life forks_well 2 linked_state
linked-Life =
    next (next (born raw refl refl refl boot_runs) (ovs_opens 3 session_7 (omega arith)))
      (sees 3 (omega arith) check_session_runs)

Life-IsValid_example : IsValid linked_state × (live linked_state.runtimes_table ≤ max_connections)
Life-IsValid_example = Life-IsValid forks_well 2 linked-Life

check_ovs-Survives_example : Survives (check_ovs forks_well 32 opened)
check_ovs-Survives_example =
    check_ovs-Survives forks_well 32 forks_well-InParent (omega arith) opened opened-IsSound.valid

adjust_children-ends_idle_example :
    (t : Server) × (adjust_children forks_well 0 (pos 1) linked_state ≡ some t)
    × IsValid t
    × (live t.runtimes_table ≡ busy linked_state.runtimes_table)
adjust_children-ends_idle_example =
    adjust_children-ends_idle forks_well 0 (pos 1) linked_state linked_state-IsSound.valid refl

adjust_children-agrees_example :
    adjust_children forks_well 4 (pos 5) linked_state
    ≡ Runtimes.adjust_children forks_well 4 (pos 5) linked_state
adjust_children-agrees_example =
    adjust_children-agrees forks_well 4 (pos 5) linked_state linked_state-IsSound.valid
      (λ k. ground arith) (inl (omega arith))

unlinked_state-IsValid : IsValid unlinked_state
unlinked_state-IsValid =
    (link_del-Unlinks forks_well forks_well-NoReuse 2 3 closed_state unlinked_state
      closed_state-IsSound (omega arith) refl link_del_runs).sound.valid

-- The second row holds the only child, and the first is listed.
report_status-vacant_example :
    get_or (report_status unlinked_state) 1 unknown_command ≡ child_pid (negsuc 0)
report_status-vacant_example =
    report_status-vacant unlinked_state 0 unlinked_state-IsValid (omega arith) refl
