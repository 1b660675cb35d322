-- ===== src/Launcher/State.antt =====
-- The state of p4l_server.c: its tables, its counter, and what it has asked of the system.
use p4_ubpf_scripts.Common.{ℕ, ℤ, minus_one, Bool, false, List, map}

-- `Packet_count`: three byte arrays of 16, 8 and 16 bytes. The launcher never reads them.
pub record PacketCount : Type 0 where
  pub iv : List ℕ
  pub cipher_text : List ℕ
  pub auth_tag : List ℕ

-- `Connection`, a row of the session table in shared memory
pub record Connection : Type 0 where
  pub ovs_thread_id : ℤ
  pub p4runtime_id : ℤ
  pub packet_count : PacketCount

pub record P4runtime : Type 0 where
  pub pid : ℤ
  pub in_use : Bool

abbrev pub max_connections : ℕ
max_connections = 32

-- What the launcher asks of the system, one entry for each call that another process can see.
pub data Event : Type 0 where
  started : ℤ → Event
  sigterm : ℤ → Event
  waited : ℤ → Event
  ran_pkill : Event

-- The statics of the file. `forks` counts the calls of fork, and `events` holds the newest first.
pub record Server : Type 0 where
  pub session_table : List Connection
  pub table_locked : Bool
  pub runtimes : ℤ
  pub runtimes_table : List P4runtime
  pub forks : ℕ
  pub events : List Event

-- a row with no runtime in it
abbrev pub vacant : P4runtime
vacant = record { pid = minus_one; in_use = false }

abbrev pub cleared : Connection → Connection
cleared c = record c { ovs_thread_id = minus_one; p4runtime_id = minus_one }

unfoldable pub shm_initialize_table : Server → Server
shm_initialize_table s = record s {
  session_table = map cleared s.session_table;
  table_locked = false;
}

unfoldable pub init_runtimes_table : Server → Server
init_runtimes_table s = record s {
  runtimes_table = map (λ _. vacant) s.runtimes_table;
  runtimes = ℤ.pos 0;
}
