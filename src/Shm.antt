-- ===== src/Shm.antt =====
-- The shared memory of the VM, OVS and the P4 launcher, byte by byte, how C lays out a struct, and the
-- layout that user/p4agent/p4agent.c lays over the memory.
pub mod Laws
use p4_ubpf_scripts.Common.{
  ℕ, zero, suc, ◌+◌, ◌-◌, ◌*◌, ◌/◌, ◌%◌, Bool, true, false, ◌&&◌, if◌then◌else◌, ltb, leb, ◌==◌,
  List, [], ◌∷◌, get_or, length,
}

-- the byte at each offset of the mapping
abbrev pub Memory : Type 0
Memory = ℕ → ℕ

-- `memcpy(base + at, bytes, n)`
unfoldable pub memcpy_in : ℕ → List ℕ → Memory → Memory
memcpy_in at bytes m a =
    if leb at a && ltb a (at + length bytes) then get_or bytes (a - at) 0 else m a

-- `memcpy(buffer, base + at, n)`
unfoldable pub memcpy_out : ℕ → ℕ → Memory → List ℕ
memcpy_out zero at m = []
memcpy_out (suc n) at m = m at ∷ memcpy_out n (at + 1) m

-- `SHM_SIZE`, `VM_AREA`, `META_AREA`, `PACKETS_AREA`
abbrev pub shm_size : ℕ
shm_size = 8 * 1024 * 1024

abbrev pub vm_area : ℕ
vm_area = 0

abbrev pub meta_area : ℕ
meta_area = vm_area + 2 * 1024 * 1024

abbrev pub packets_area : ℕ
packets_area = meta_area + 2 * 1024 * 1024

-- A struct member: its size and its alignment.
pub record Member : Type 0 where
  pub size : ℕ
  pub align : ℕ

-- the next multiple of `align`
abbrev pub align_up : ℕ → ℕ → ℕ
align_up n align = (n + align - 1) / align * align

-- Offsets of the members, the first at `n`, by the rules of the x86-64 ABI.
abbrev pub offsets_from : ℕ → List Member → List ℕ
offsets_from n [] = []
offsets_from n (f ∷ fs) = let at = align_up n f.align in at ∷ offsets_from (at + f.size) fs

abbrev pub end_from : ℕ → List Member → ℕ
end_from n [] = n
end_from n (f ∷ fs) = end_from (align_up n f.align + f.size) fs

-- `Packet_count`: unsigned char iv[16], cipher_text[8], auth_tag[16]
abbrev pub packet_count_members : List Member
packet_count_members =
    record { size = 16; align = 1 }
    ∷ record { size = 8; align = 1 }
    ∷ record { size = 16; align = 1 }
    ∷ []

abbrev pub sizeof_packet_count : ℕ
sizeof_packet_count = end_from 0 packet_count_members

-- `Connection`: long long ovs_thread_id, int p4runtime_id, Packet_count packet_count
abbrev pub connection_members : List Member
connection_members =
    record { size = 8; align = 8 }
    ∷ record { size = 4; align = 4 }
    ∷ record { size = sizeof_packet_count; align = 1 }
    ∷ []

abbrev pub sizeof_connection : ℕ
sizeof_connection = align_up (end_from 0 connection_members) 8

abbrev pub max_connections : ℕ
max_connections = 32

-- `SHM_SESSION_TABLE` and `SHM_TABLE_IS_LOCKED`, which count from the mapping on
abbrev pub session_table : ℕ
session_table = meta_area

abbrev pub table_is_locked : ℕ
table_is_locked = session_table + sizeof_connection * max_connections

-- `&session[i]` and `&session[i].packet_count`
abbrev pub session_at : ℕ → ℕ
session_at i = session_table + i * sizeof_connection

abbrev pub packet_count_at : ℕ → ℕ
packet_count_at i = session_at i + get_or (offsets_from 0 connection_members) 2 0
