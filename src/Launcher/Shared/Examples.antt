-- ===== src/Launcher/Shared/Examples.antt =====
-- The bytes of a table in which OVS has opened session 3, through a pass of the launcher.
use p4_ubpf_scripts.Common.{
  map, List, true, ℕ, pos, sum, ◌%◌, ◌^◌, ◌≡◌, refl, sym, subst, [], ◌∷◌, some, set, replicate,
  get_or-replicate, arith,
}
use p4_ubpf_scripts.Shm.{Memory, memcpy_out}
use p4_ubpf_scripts.Agent.Frame.{Agent, le_bytes, encrypt_message, executions}
use p4_ubpf_scripts.Agent.Examples.{plain, readings, state, snmp_file, first_file}
use p4_ubpf_scripts.Agent.Detector.{Verdict}
use p4_ubpf_scripts.Agent.Detector.Refine.{warns}
use p4_ubpf_scripts.Agent.Detector.Runs.{watch_rounds, no_rounds}
use p4_ubpf_scripts.Agent.Rounds.{State}
use p4_ubpf_scripts.Agent.Main.{main_encrypt}
use p4_ubpf_scripts.Launcher.Shared.Watch.{Moment, IsMet, told, main_encrypt-Shared}
use p4_ubpf_scripts.Launcher.State.{
  PacketCount, Connection, Server, Event, vacant, shm_initialize_table, init_runtimes_table,
}
use p4_ubpf_scripts.Launcher.Runtimes.{
  adjust_children, adjust_to, start_children, spawn_until, spawn_runtime_process, add_runtime_entry,
  find_free_runtime_index,
}
use p4_ubpf_scripts.Launcher.Sessions.{no_session, link_to, use_runtime}
use p4_ubpf_scripts.Launcher.Commands.{boot}
use p4_ubpf_scripts.Launcher.Tests.{
  forks_well, forks_well-NoReuse, not_stop, not_stop_refuses, raw, booted_state, child,
}
use p4_ubpf_scripts.Launcher.Shared.{
  store_p4runtime_id, store_ovs_thread_id, store_packet_count, clear_table, IsStored, Stores,
}
use p4_ubpf_scripts.Launcher.Shared.Looks.{check_both, link_add_both, link_to_both}
use p4_ubpf_scripts.Launcher.Shared.Counts.{counts}
use p4_ubpf_scripts.Launcher.Shared.Runs.{
  set_packet_count, Shared, starts, opens_or_closes, counts_packets, looks, reports,
  Shared-executions,
}

-- A table of bytes that are all ones: every identifier in it is -1.
abbrev ones : Memory
ones at = 255

abbrev full_row : Connection
full_row = record no_session {
  packet_count = record {
    iv = replicate 16 255;
    cipher_text = replicate 8 255;
    auth_tag = replicate 16 255;
  };
}

abbrev raw_full : Server
raw_full = record raw { session_table = replicate 32 full_row }

abbrev booted_full : Server
booted_full = record booted_state { session_table = replicate 32 full_row }

boot_full : boot forks_well 2 raw_full ≡ some booted_full
unfolding boot start_children spawn_until spawn_runtime_process add_runtime_entry
    shm_initialize_table init_runtimes_table
boot_full = refl

abbrev row_7 : Connection
row_7 = record full_row { ovs_thread_id = pos 7 }

abbrev opened_full : Server
opened_full = record booted_full { session_table = set (replicate 32 full_row) 3 row_7 }

ones-IsStored : (i : ℕ) → IsStored ones i full_row
unfolding memcpy_out
ones-IsStored i = record {
  ovs_thread_id = refl;
  p4runtime_id = refl;
  iv = refl;
  cipher_text = refl;
  auth_tag = refl;
}

raw_full-Stores : Stores ones raw_full
raw_full-Stores i below =
    subst (IsStored ones i) (sym (get_or-replicate 32 full_row i no_session below))
      (ones-IsStored i)

abbrev linked_full : Server
linked_full = record opened_full {
  session_table = set (replicate 32 full_row) 3 (record row_7 { p4runtime_id = pos 1001 });
  runtimes = pos 2;
  runtimes_table = record { pid = pos 1001; in_use = true } ∷ child 1002 ∷ replicate 30 vacant;
  forks = 2;
  events = Event.started (pos 1002) ∷ Event.started (pos 1001) ∷ [];
}

-- Five hundred packets.
abbrev count_500 : PacketCount
count_500 = record { iv = replicate 16 9; cipher_text = le_bytes 8 500; auth_tag = replicate 16 0 }

abbrev cleared_memory : Memory
cleared_memory = clear_table ones

abbrev opened_memory : Memory
opened_memory = store_ovs_thread_id 3 (pos 7) cleared_memory

abbrev linked_memory : Memory
linked_memory = store_p4runtime_id 3 (pos 1001) opened_memory

look_runs :
    check_both forks_well 2 3 (opened_full, opened_memory) ≡ some (linked_full, linked_memory)
unfolding check_both link_add_both link_to_both link_to use_runtime adjust_children adjust_to
    start_children spawn_until spawn_runtime_process add_runtime_entry find_free_runtime_index
look_runs = refl

abbrev reader : Agent
reader = record {
  shm = store_packet_count 3 count_500 linked_memory;
  iv = replicate 12 0;
  ciphertext = replicate 256 0;
  auth_tag = replicate 16 0;
}

abbrev pub reported : Memory
reported = (encrypt_message plain (replicate 12 1) (replicate 8 0) reader).1.shm

abbrev pub counted_full : Server
counted_full = set_packet_count linked_full 3 count_500

-- The launcher starts, OVS opens session 3, the launcher gives it a child, OVS counts, the agent
-- reports.
pub reported-Shared : Shared plain forks_well 2 not_stop reported counted_full
reported-Shared = reports (replicate 12 1) (replicate 8 0) reader refl refl (
    counts_packets 3 count_500 (omega arith) refl refl refl (
      looks 3 (omega arith) look_runs (
        opens_or_closes 3 (pos 7) (omega arith)
          (starts ones raw_full refl refl raw_full-Stores boot_full))))

Shared-executions_example :
    Stores reported counted_full
    × (executions plain reported ≡ sum (counts plain counted_full) % 2 ^ 64)
Shared-executions_example =
    Shared-executions plain forks_well 2 not_stop forks_well-NoReuse not_stop_refuses
      reported-Shared

abbrev pub moment : Moment
moment = record { turn = record { shm = reported; readings = readings }; server = counted_full }

pub moment-IsMet : IsMet plain forks_well 2 not_stop moment
moment-IsMet = record { readable = (refl, snmp_file, refl); shared = reported-Shared }

main_encrypt-Shared_example :
    (t : State) × (verdicts : List Verdict) × (main_encrypt plain
        (some first_file)
        4096
        (some (1, 100000, 3))
        (moment.turn ∷ moment.turn ∷ [])
        state
      ≡ some (t, verdicts))
    × (map warns verdicts
        ≡ watch_rounds no_rounds (told plain first_file moment ∷ told plain first_file moment ∷ []))
main_encrypt-Shared_example =
    main_encrypt-Shared plain forks_well 2 not_stop forks_well-NoReuse not_stop_refuses 4096 1
      100000 3 first_file (moment ∷ moment ∷ []) state refl refl (moment-IsMet, (moment-IsMet, tt))
