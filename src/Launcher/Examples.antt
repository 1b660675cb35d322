-- ===== src/Launcher/Examples.antt =====
-- The theorems of the launcher at concrete states.
use p4_ubpf_scripts.Common.{pos, ◌++◌, ◌≤◌, ◌≡◌, refl, true, [], ◌∷◌, none, some, map, arith, All}
use p4_ubpf_scripts.Launcher.State.{Server, max_connections}
use p4_ubpf_scripts.Launcher.Layout.Agrees.{SameLayout, SameRow, layouts_agree}
use p4_ubpf_scripts.Launcher.Invariant.{IsValid}
use p4_ubpf_scripts.Launcher.Runtimes.{adjust_children, stop_all_children}
use p4_ubpf_scripts.Launcher.Runtimes.Rows.{live}
use p4_ubpf_scripts.Launcher.Runtimes.Adjust.{
  Adjusted, adjust_children-Adjusted, adjust_children-returns, adjust_children-spins,
}
use p4_ubpf_scripts.Launcher.Runtimes.Stop.{Stopped, stop_all_children-Stopped}
use p4_ubpf_scripts.Launcher.Sessions.{session, check_ovs_sessions}
use p4_ubpf_scripts.Launcher.Sessions.Linked.{is_linked}
use p4_ubpf_scripts.Launcher.Sessions.Link.{IsSound, Links, link_add-Links}
use p4_ubpf_scripts.Launcher.Sessions.Unlink.{Unlinks, link_del-Unlinks}
use p4_ubpf_scripts.Launcher.Sessions.Check.{IsSettled}
use p4_ubpf_scripts.Launcher.Sessions.Total.{ovs_id, check_ovs_sessions_settles}
use p4_ubpf_scripts.Launcher.Sessions.Idle.{stop_all_children_strands}
use p4_ubpf_scripts.CString.{codes}
use p4_ubpf_scripts.CString.Laws.{print_digits}
use p4_ubpf_scripts.Launcher.Commands.{adjusted_to, handle_client}
use p4_ubpf_scripts.Launcher.Commands.Dialogue.{Tells, handle_client-update-status}
use p4_ubpf_scripts.Launcher.Commands.Reach.{Reach-IsSound, Reach-IsValid}
use p4_ubpf_scripts.Launcher.Tests.{
  forks_well, forks_badly, forks_well-NoReuse, forks_well-InParent, forks_well-Recovers, opened,
  opened-IsSound, opened_reached, any_command, not_stop, not_stop_refuses, linked_state,
  linked_state-IsSound, link_add_runs, closed_state, closed_state-IsSound, unlinked_state,
  link_del_runs, linked_state-settled, adjust_runs, updated_state, forks_badly_fails,
}

check_ovs_sessions_settles_example :
    (t : Server) × (check_ovs_sessions forks_well 2 opened ≡ some t)
    × IsSound forks_well t
    × All IsSettled t.session_table
    × (map ovs_id t.session_table ≡ map ovs_id opened.session_table)
check_ovs_sessions_settles_example =
    check_ovs_sessions_settles forks_well forks_well-NoReuse 2 forks_well-InParent
      forks_well-Recovers opened opened-IsSound

Reach-IsSound_example : IsSound forks_well opened
Reach-IsSound_example =
    Reach-IsSound forks_well 2 not_stop forks_well-NoReuse not_stop_refuses
      (opened_reached not_stop)

Reach-IsValid_example : IsValid opened × (live opened.runtimes_table ≤ max_connections)
Reach-IsValid_example = Reach-IsValid forks_well 2 any_command (opened_reached any_command)

link_add-Links_example : Links forks_well 3 opened linked_state
link_add-Links_example =
    link_add-Links forks_well forks_well-NoReuse 2 3 opened linked_state opened-IsSound
      (omega arith) refl link_add_runs

link_del-Unlinks_example : Unlinks forks_well 3 closed_state unlinked_state
link_del-Unlinks_example =
    link_del-Unlinks forks_well forks_well-NoReuse 2 3 closed_state unlinked_state
      closed_state-IsSound (omega arith) refl link_del_runs

adjust_children-Adjusted_example : Adjusted (pos 1) linked_state updated_state
adjust_children-Adjusted_example =
    adjust_children-Adjusted forks_well 2 (pos 1) linked_state linked_state-IsSound.valid
      updated_state adjust_runs

adjust_children-returns_example :
    (t : Server) × (adjust_children forks_well 4 (pos 5) linked_state ≡ some t)
adjust_children-returns_example =
    adjust_children-returns forks_well 4 (pos 5) linked_state linked_state-IsSound.valid
      forks_well-InParent (omega arith)

-- fork fails from the third call on, and the pool is to have three children.
adjust_children-spins_example : adjust_children forks_badly 1000 (pos 3) linked_state ≡ none
adjust_children-spins_example =
    adjust_children-spins forks_badly 1000 (pos 3) linked_state linked_state-IsSound.valid refl
      forks_badly_fails

stop_all_children-Stopped_example : Stopped linked_state (stop_all_children linked_state)
stop_all_children-Stopped_example =
    stop_all_children-Stopped linked_state linked_state-IsSound.valid

stop_all_children_strands_example :
    let t = stop_all_children linked_state in
    (live t.runtimes_table ≡ 0)
    × (is_linked (session t 3) ≡ true)
    × (check_ovs_sessions forks_well 2 t ≡ some t)
stop_all_children_strands_example =
    stop_all_children_strands forks_well 2 linked_state 3 linked_state-IsSound.valid
      linked_state-settled (omega arith) refl

-- Two children, and three are asked for.
handle_client-update-status_example :
    (t : Server) × (handle_client forks_well 2
        (pos 0)
        (codes "update " ++ print_digits 1 3 [])
        linked_state
      ≡ some (t, adjusted_to (pos 3) ∷ []))
    × Tells forks_well 2 3 t
handle_client-update-status_example =
    handle_client-update-status forks_well 2 0 3 (pos 0) linked_state linked_state-IsSound.valid
      forks_well-InParent (omega arith) (omega arith) (omega arith)

layouts_agree_example : SameLayout × SameRow 31
layouts_agree_example = layouts_agree 31 (omega arith)
