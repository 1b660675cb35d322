-- ===== src/Launcher/Shared.antt =====
-- The session table as bytes: how the stores of p4l_server.c reach the memory that OVS and the agent
-- share with it.
pub mod Stores
pub mod Clear
pub mod Steps
pub mod Looks
pub mod Copies
pub mod Counts
pub mod Runs
pub mod Watch
pub mod Alarm
pub mod Examples
pub mod AlarmExamples
use p4_ubpf_scripts.Common.{
  ℕ, zero, suc, ℤ, pos, negsuc, minus_one, ltb_ℤ, ◌+◌, ◌-◌, ◌*◌, ◌^◌, ◌<◌, ◌≤◌, ◌≡◌, Bool, true,
  false, if◌then◌else◌, List, [], ◌∷◌, get_or,
}
use p4_ubpf_scripts.Shm.{Memory, memcpy_in, memcpy_out}
use p4_ubpf_scripts.Launcher.Layout.{
  ovs_thread_id_at, p4runtime_id_at, packet_count_at, table_is_locked,
}
use p4_ubpf_scripts.Agent.Frame.{le_bytes}
use p4_ubpf_scripts.Launcher.State.{PacketCount, Connection, Server, max_connections}
use p4_ubpf_scripts.Launcher.Sessions.{session}

-- An `n`-byte integer in two's complement.
abbrev pub int_bytes : ℕ → ℤ → List ℕ
int_bytes n (pos k) = le_bytes n k
int_bytes n (negsuc k) = le_bytes n (2 ^ (8 * n) - (k + 1))

-- `session_table[i].ovs_thread_id = id;` and `session_table[i].p4runtime_id = id;`
unfoldable pub store_ovs_thread_id : ℕ → ℤ → Memory → Memory
store_ovs_thread_id i id = memcpy_in (ovs_thread_id_at i) (int_bytes 8 id)

unfoldable pub store_p4runtime_id : ℕ → ℤ → Memory → Memory
store_p4runtime_id i id = memcpy_in (p4runtime_id_at i) (int_bytes 4 id)

-- What OVS writes when it has counted a packet.
unfoldable pub store_packet_count : ℕ → PacketCount → Memory → Memory
store_packet_count i count m = memcpy_in (packet_count_at i + 16 + 8) count.auth_tag (
    memcpy_in (packet_count_at i + 16) count.cipher_text (memcpy_in (packet_count_at i) count.iv m))

-- `*table_locked = locked;`
unfoldable pub store_table_locked : Bool → Memory → Memory
store_table_locked locked = memcpy_in table_is_locked ((if locked then 1 else 0) ∷ [])

-- The loop of `shm_initialize_table` over the rows from `i` on, `n` of them.
unfoldable pub clear_from : ℕ → ℕ → Memory → Memory
clear_from i zero m = m
clear_from i (suc n) m =
    clear_from (i + 1) n (store_p4runtime_id i minus_one (store_ovs_thread_id i minus_one m))

unfoldable pub clear_table : Memory → Memory
clear_table m = store_table_locked false (clear_from 0 max_connections m)

-- The bytes of row `i` are those of `c`.
pub record IsStored (m : Memory) (i : ℕ) (c : Connection) : Type 0 where
  pub ovs_thread_id : memcpy_out 8 (ovs_thread_id_at i) m ≡ int_bytes 8 c.ovs_thread_id
  pub p4runtime_id : memcpy_out 4 (p4runtime_id_at i) m ≡ int_bytes 4 c.p4runtime_id
  pub iv : memcpy_out 16 (packet_count_at i) m ≡ c.packet_count.iv
  pub cipher_text : memcpy_out 8 (packet_count_at i + 16) m ≡ c.packet_count.cipher_text
  pub auth_tag : memcpy_out 16 (packet_count_at i + 16 + 8) m ≡ c.packet_count.auth_tag

-- The memory holds the state's session table.
abbrev pub Stores : Memory → Server → Type 0
Stores m s = (i : ℕ) → i < max_connections → IsStored m i (session s i)
