-- ===== src/Launcher/Layout.antt =====
-- Where p4l_server.c finds the session table in the shared memory, from its own structs and macros.
pub mod Agrees
use p4_ubpf_scripts.Common.{ℕ, ◌+◌, ◌*◌, List, [], ◌∷◌, get_or}
use p4_ubpf_scripts.Shm.{Member, align_up, offsets_from, end_from}
use p4_ubpf_scripts.Launcher.State.{max_connections}

-- `SHM_SIZE`, `VM_AREA`, `META_AREA`, `PACKETS_AREA`
abbrev pub shm_size : ℕ
shm_size = 8 * 1024 * 1024

abbrev pub vm_area : ℕ
vm_area = 0

abbrev pub meta_area : ℕ
meta_area = vm_area + 2 * 1024 * 1024

abbrev pub packets_area : ℕ
packets_area = meta_area + 2 * 1024 * 1024

-- `Packet_count`: unsigned char iv[16], cipher_text[8], auth_tag[16]
abbrev pub packet_count_members : List Member
packet_count_members =
    record { size = 16; align = 1 }
    ∷ record { size = 8; align = 1 }
    ∷ record { size = 16; align = 1 }
    ∷ []

abbrev pub sizeof_packet_count : ℕ
sizeof_packet_count = end_from 0 packet_count_members

-- `Connection`: long long ovs_thread_id, int p4runtime_id, Packet_count packet_count
abbrev pub connection_members : List Member
connection_members =
    record { size = 8; align = 8 }
    ∷ record { size = 4; align = 4 }
    ∷ record { size = sizeof_packet_count; align = 1 }
    ∷ []

abbrev pub sizeof_connection : ℕ
sizeof_connection = align_up (end_from 0 connection_members) 8

-- `SHM_SESSION_TABLE` and `SHM_TABLE_IS_LOCKED`, which count from META_AREA on
abbrev pub meta_session_table : ℕ
meta_session_table = 0

abbrev pub meta_table_is_locked : ℕ
meta_table_is_locked = meta_session_table + sizeof_connection * max_connections

-- `&session_table[i]` and `table_locked`, from the mapping on
abbrev pub session_at : ℕ → ℕ
session_at i = meta_area + meta_session_table + i * sizeof_connection

abbrev pub table_is_locked : ℕ
table_is_locked = meta_area + meta_table_is_locked

-- `&session_table[i].ovs_thread_id`, `.p4runtime_id` and `.packet_count`
abbrev pub ovs_thread_id_at : ℕ → ℕ
ovs_thread_id_at i = session_at i + get_or (offsets_from 0 connection_members) 0 0

abbrev pub p4runtime_id_at : ℕ → ℕ
p4runtime_id_at i = session_at i + get_or (offsets_from 0 connection_members) 1 0

abbrev pub packet_count_at : ℕ → ℕ
packet_count_at i = session_at i + get_or (offsets_from 0 connection_members) 2 0
