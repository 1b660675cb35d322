-- ===== src/Launcher/Layout/Agrees.antt =====
-- The launcher's layout next to the agent's.
use p4_ubpf_scripts.Common.{ℕ, ◌+◌, ◌<◌, ◌≤◌, ◌≡◌, refl, arith}
use p4_ubpf_scripts.Shm
use p4_ubpf_scripts.Shm.{offsets_from}
use p4_ubpf_scripts.Agent.Frame.{message_end}
use p4_ubpf_scripts.Launcher.State.{max_connections}
use p4_ubpf_scripts.Launcher.Layout
use p4_ubpf_scripts.Launcher.Setup.{pointers}

-- Row `i` and its packet count are at one place for both programs, in the table of each.
pub record SameRow (i : ℕ) : Type 0 where
  pub row : Layout.session_at i ≡ Shm.session_at i
  pub count : Layout.packet_count_at i ≡ Shm.packet_count_at i
  pub row_in_table : Layout.session_at i + Layout.sizeof_connection ≤ Shm.table_is_locked
  pub count_in_row : Layout.packet_count_at i + Layout.sizeof_packet_count ≤ Shm.session_at (i + 1)
  pub behind_message : message_end ≤ Layout.session_at i

pub record SameLayout : Type 0 where
  pub rows : max_connections ≡ Shm.max_connections
  pub row_size : Layout.sizeof_connection ≡ Shm.sizeof_connection
  pub members : offsets_from 0 Layout.connection_members ≡ offsets_from 0 Shm.connection_members
  pub count_members :
      offsets_from 0 Layout.packet_count_members ≡ offsets_from 0 Shm.packet_count_members
  pub table : pointers.session_table ≡ Shm.session_at 0
  pub table_lock : pointers.table_locked ≡ Shm.table_is_locked
  pub lock : Layout.table_is_locked ≡ Shm.table_is_locked
  pub mapping : Layout.shm_size ≡ Shm.shm_size
  pub packets : Layout.packets_area ≡ Shm.packets_area
  pub before_packets : Layout.table_is_locked < Shm.packets_area
  pub packets_in_mapping : Layout.packets_area < Shm.shm_size

-- For each of the 32 rows, the launcher's own structs and macros and the agent's own put the row
-- and its packet count at the same place of the mapping, and both have the same number of rows, row
-- size, offsets of the members, start and lock of the table (the launcher's are those its set-up
-- points to), start of the packets and size of the mapping; the row lies behind the agent's message
-- and before the lock, its packet count within it, the lock before the packets, and these start
-- within the mapping.
pub layouts_agree : (i : ℕ) → i < max_connections → SameLayout × SameRow i
layouts_agree i below = (
  record {
    rows = refl;
    row_size = refl;
    members = refl;
    count_members = refl;
    table = refl;
    table_lock = refl;
    lock = refl;
    mapping = refl;
    packets = refl;
    before_packets = omega arith;
    packets_in_mapping = omega arith;
  },
  record {
    row = omega arith;
    count = omega arith;
    row_in_table = omega arith;
    count_in_row = omega arith;
    behind_message = omega arith;
  },
)
