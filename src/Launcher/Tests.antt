-- ===== src/Launcher/Tests.antt =====
-- Runs of the launcher on small inputs, and its theorems at concrete states.
use p4_ubpf_scripts.Common.{
  ℕ, zero, suc, ℤ, pos, negsuc, minus_one, ltb_ℤ, ◌+◌, ◌≤◌, ◌≡◌, refl, Bool, true, false, not, List,
  [], ◌∷◌, Option, none, some, replicate, set, map, arith, All, if◌then◌else◌, ltb,
}
use p4_ubpf_scripts.CString.{
  Text, codes, starts_with, atoi, skip_spaces, signed_digits, digits_from,
}
use p4_ubpf_scripts.Launcher.State.{
  Connection, P4runtime, Server, Event, vacant, shm_initialize_table, init_runtimes_table,
}
use p4_ubpf_scripts.Launcher.Runtimes.{
  adjust_children, adjust_to, start_children, spawn_until, spawn_runtime_process, add_runtime_entry,
  shrink_rows, find_free_runtime_index, terminate_child,
}
use p4_ubpf_scripts.Launcher.Sessions.{
  no_session, session, check_ovs_sessions, check_from, check_session, link_add, link_del, link_to,
  unlink, free_runtime, use_runtime,
}
use p4_ubpf_scripts.Launcher.Sessions.Linked.{NoReuse}
use p4_ubpf_scripts.Launcher.Sessions.Link.{IsSound, link_add-Links}
use p4_ubpf_scripts.Launcher.Sessions.Check.{IsSettled, serving, closed}
use p4_ubpf_scripts.Launcher.Sessions.Total.{InParent, Recovers}
use p4_ubpf_scripts.Launcher.Commands.Boot.{boot-IsSound}
use p4_ubpf_scripts.Launcher.Commands.Reach.{
  Reach, booted, later, ovs_writes, Reach-IsSound, ovs_writes-IsSound,
}
use p4_ubpf_scripts.Launcher.Commands.{
  boot, handle_client, handle_status_command, report_rows, Reply,
}

-- fork returns 1001, 1002, ...
abbrev pub forks_well : ℕ → ℤ
forks_well k = pos (1001 + k)

abbrev pub raw : Server
raw = record {
  session_table = replicate 32 no_session;
  table_locked = true;
  runtimes = pos 0;
  runtimes_table = replicate 32 vacant;
  forks = 0;
  events = [];
}

abbrev pub child : ℕ → P4runtime
child k = record { pid = pos k; in_use = false }

abbrev pub booted_state : Server
booted_state = record raw {
  table_locked = false;
  runtimes = pos 1;
  runtimes_table = child 1001 ∷ replicate 31 vacant;
  forks = 1;
  events = Event.started (pos 1001) ∷ [];
}

pub boot_runs : boot forks_well 2 raw ≡ some booted_state
unfolding boot start_children spawn_until spawn_runtime_process add_runtime_entry
    shm_initialize_table init_runtimes_table
boot_runs = refl

-- OVS opens session 3.
abbrev pub opened : Server
opened = record booted_state {
  session_table = set booted_state.session_table 3 (record no_session { ovs_thread_id = pos 7 });
}

abbrev checked : Option Server → Option (ℤ × ℤ)
checked none = none
checked (some s) = some (s.runtimes, (session s 3).p4runtime_id)

-- The open session gets the idle child, and a new idle one takes its place.
check_runs : checked (check_ovs_sessions forks_well 2 opened) ≡ some (pos 2, pos 1001)
unfolding check_ovs_sessions check_from check_session link_add link_to use_runtime adjust_children
    adjust_to start_children spawn_until spawn_runtime_process add_runtime_entry
    find_free_runtime_index
check_runs = refl

abbrev told : Option (Server × List Reply) → List Reply
told none = []
told (some (s, replies)) = replies

status_runs :
    told (handle_client forks_well 2 (pos 0) (codes "status") booted_state)
    ≡ Reply.children (pos 1) ∷ Reply.child_pid (pos 1001) ∷ []
unfolding handle_client handle_status_command report_rows starts_with
status_runs = refl

unknown_runs :
    told (handle_client forks_well 2 (pos 0) (codes "start") booted_state)
    ≡ Reply.unknown_command ∷ []
unfolding handle_client starts_with
unknown_runs = refl

atoi_runs :
    map atoi (codes " 12x" ∷ codes "-7" ∷ codes "x" ∷ codes "4294967295" ∷ [])
    ≡ pos 12 ∷ negsuc 6 ∷ pos 0 ∷ negsuc 0 ∷ []
unfolding atoi skip_spaces signed_digits digits_from
atoi_runs = refl

pub forks_well-NoReuse : NoReuse forks_well
forks_well-NoReuse j k h e = ground arith

pub forks_well-InParent : InParent forks_well
forks_well-InParent k e = ground arith

pub forks_well-Recovers : Recovers forks_well 2
forks_well-Recovers k = ground arith

pub booted_state-IsSound : IsSound forks_well booted_state
booted_state-IsSound =
    (boot-IsSound forks_well raw refl refl forks_well-NoReuse 2 booted_state boot_runs).0

abbrev pub any_command : Text → Bool
any_command command = true

abbrev pub not_stop : Text → Bool
not_stop command = not (starts_with (codes "stop") command)

abbrev pub session_7 : Connection
session_7 = record no_session { ovs_thread_id = pos 7 }

pub opened_reached : (allowed : Text → Bool) → Reach forks_well 2 allowed opened
opened_reached allowed =
    later (booted raw refl refl boot_runs) (ovs_writes 3 session_7 (omega arith) refl)

pub not_stop_refuses :
    (command : Text) → not_stop command ≡ true → starts_with (codes "stop") command ≡ false
not_stop_refuses command h = ground arith

pub opened-IsSound : IsSound forks_well opened
opened-IsSound =
    Reach-IsSound forks_well 2 not_stop forks_well-NoReuse not_stop_refuses
      (opened_reached not_stop)

-- Session 3 has the first child, and a second one is idle.
abbrev pub linked_state : Server
linked_state = record opened {
  session_table = set opened.session_table 3 (record session_7 { p4runtime_id = pos 1001 });
  runtimes = pos 2;
  runtimes_table = record { pid = pos 1001; in_use = true } ∷ child 1002 ∷ replicate 30 vacant;
  forks = 2;
  events = Event.started (pos 1002) ∷ Event.started (pos 1001) ∷ [];
}

pub link_add_runs : link_add forks_well 2 3 opened ≡ some linked_state
unfolding link_add link_to use_runtime adjust_children adjust_to start_children spawn_until
    spawn_runtime_process add_runtime_entry find_free_runtime_index
link_add_runs = refl

-- OVS has closed session 3.
abbrev pub closed_state : Server
closed_state = record linked_state {
  session_table = set linked_state.session_table 3 (record no_session { p4runtime_id = pos 1001 });
}

abbrev pub unlinked_state : Server
unlinked_state = record closed_state {
  session_table = set closed_state.session_table 3 no_session;
  runtimes = pos 1;
  runtimes_table = vacant ∷ child 1002 ∷ replicate 30 vacant;
  events = Event.waited (pos 1001) ∷ Event.sigterm (pos 1001) ∷ linked_state.events;
}

pub link_del_runs : link_del forks_well 2 3 closed_state ≡ some unlinked_state
unfolding link_del unlink free_runtime adjust_children adjust_to shrink_rows terminate_child
link_del_runs = refl

pub linked_state-IsSound : IsSound forks_well linked_state
linked_state-IsSound =
    (link_add-Links forks_well forks_well-NoReuse 2 3 opened linked_state opened-IsSound
      (omega arith) refl link_add_runs).sound

pub closed_state-IsSound : IsSound forks_well closed_state
closed_state-IsSound =
    ovs_writes-IsSound forks_well 2 not_stop linked_state 3
      (record no_session { p4runtime_id = pos 1001 }) (omega arith) refl linked_state-IsSound

-- A system in which fork fails from the third call on.
abbrev pub forks_badly : ℕ → ℤ
forks_badly k = if ltb k 2 then pos (1001 + k) else minus_one

pub forks_badly_fails : (k : ℕ) → 2 ≤ k → ltb_ℤ (forks_badly k) (pos 0) ≡ true
forks_badly_fails k h = ground arith

unused_rows : (n : ℕ) → All IsSettled (replicate n no_session)
unused_rows zero = tt
unused_rows (suc n) = (closed refl refl, unused_rows n)

pub linked_state-settled : All IsSettled linked_state.session_table
linked_state-settled =
    (closed refl refl, (closed refl refl, (closed refl refl, (serving refl refl, unused_rows 28))))

-- The state after `update 1`: the idle child is ended, the one in use stays.
abbrev pub updated_state : Server
updated_state = record linked_state {
  runtimes = pos 1;
  runtimes_table = record { pid = pos 1001; in_use = true } ∷ replicate 31 vacant;
  events = Event.waited (pos 1002) ∷ Event.sigterm (pos 1002) ∷ linked_state.events;
}

pub adjust_runs : adjust_children forks_well 2 (pos 1) linked_state ≡ some updated_state
unfolding adjust_children adjust_to shrink_rows terminate_child
adjust_runs = refl
