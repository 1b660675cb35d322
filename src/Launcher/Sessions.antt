-- ===== src/Launcher/Sessions.antt =====
-- The session links of p4l_server.c: what the launcher does when OVS opens or closes a session.
pub mod Rows
pub mod Linked
pub mod Valid
pub mod Link
pub mod Unlink
pub mod Check
pub mod Total
pub mod Idle
use p4_ubpf_scripts.Common.{
  ℕ, zero, suc, ℤ, pos, minus_one, ltb_ℤ, ◌==ℤ◌, increment, decrement, ◌+◌, ◌-◌, Bool, true, false,
  ◌&&◌, if◌then◌else◌, List, [], ◌∷◌, Option, none, some, ◌>>=◌, get_or, set,
}
use p4_ubpf_scripts.Launcher.State.{
  P4runtime, Connection, PacketCount, vacant, max_connections, Server,
}
use p4_ubpf_scripts.Launcher.Runtimes.{adjust_children, find_free_runtime_index}

-- a row outside the session table, which no loop of the launcher reads
abbrev pub no_session : Connection
no_session = record {
  ovs_thread_id = minus_one;
  p4runtime_id = minus_one;
  packet_count = record { iv = []; cipher_text = []; auth_tag = [] };
}

abbrev pub session : Server → ℕ → Connection
session s idx = get_or s.session_table idx no_session

abbrev pub runtime : Server → ℕ → P4runtime
runtime s i = get_or s.runtimes_table i vacant

abbrev pub set_p4runtime_id : Server → ℕ → ℤ → Server
set_p4runtime_id s idx id = record s {
  session_table = set s.session_table idx (record (session s idx) { p4runtime_id = id });
}

-- `runtimes_table[free_idx].in_use = true; session_table[idx].p4runtime_id = ...pid;`
unfoldable pub use_runtime : ℕ → ℕ → Server → Server
use_runtime idx i s =
    let taken = record (runtime s i) { in_use = true } in
    record (set_p4runtime_id s idx (runtime s i).pid) {
      runtimes_table = set s.runtimes_table i taken;
    }

-- What follows the search: with no idle runtime the launcher only writes a log line.
unfoldable pub link_to : ℕ → Option ℕ → Server → Server
unfolding use_runtime
link_to idx none s = s
link_to idx (some i) s = use_runtime idx i s

-- The first row with this pid is not in use any more.
unfoldable pub free_runtime : ℤ → List P4runtime → List P4runtime
free_runtime pid [] = []
free_runtime pid (e ∷ es) =
    if e.pid ==ℤ pid then record e { in_use = false } ∷ es else e ∷ free_runtime pid es

unfoldable pub unlink : ℕ → Server → Server
unlink idx s = record (set_p4runtime_id s idx minus_one) {
  runtimes_table = free_runtime (session s idx).p4runtime_id s.runtimes_table;
}

-- `ovs_thread_id > 0 && p4runtime_id < 0`
abbrev pub is_new : Connection → Bool
is_new c = ltb_ℤ (pos 0) c.ovs_thread_id && ltb_ℤ c.p4runtime_id (pos 0)

-- `ovs_thread_id < 0 && p4runtime_id > 0`
abbrev pub is_lost : Connection → Bool
is_lost c = ltb_ℤ c.ovs_thread_id (pos 0) && ltb_ℤ (pos 0) c.p4runtime_id

-- `if (test) act();`
abbrev pub when : Bool → (Server → Option Server) → Server → Option Server
when true act s = act s
when false act s = some s

module _ (fork : ℕ → ℤ) (fuel : ℕ) where
  unfoldable pub link_add : ℕ → Server → Option Server
  link_add idx s = adjust_children fork fuel (increment s.runtimes) s >>= λ t.
      some (link_to idx (find_free_runtime_index t.runtimes_table) t)

  unfoldable pub link_del : ℕ → Server → Option Server
  link_del idx s = let t = unlink idx s in adjust_children fork fuel (decrement t.runtimes) t

  -- The body of the loop of `check_ovs_sessions`: the second test reads what the first may change.
  unfoldable pub check_session : ℕ → Server → Option Server
  check_session i s = when (is_new (session s i)) (link_add i) s >>= λ t.
      when (is_lost (session t i)) (link_del i) t

  -- The rows from `i` on, `n` of them.
  unfoldable pub check_from : ℕ → ℕ → Server → Option Server
  check_from i zero s = some s
  check_from i (suc n) s = check_session i s >>= λ t. check_from (i + 1) n t

  unfoldable pub check_ovs_sessions : Server → Option Server
  check_ovs_sessions s = check_from 0 max_connections s
