-- ===== src/Agent/Main.antt =====
-- The two versions of `main` in user/p4agent/p4agent.c: with ENCRYPT the report is sealed in each
-- round and the detector runs; without it the two numbers are written as they are.
pub mod Runs
pub mod Plain
mod Examples
use p4_ubpf_scripts.Common.{ℕ, false, List, [], ◌∷◌, Option, none, some, ◌>>=◌}
use p4_ubpf_scripts.CString.{Text}
use p4_ubpf_scripts.Shm.{Memory, memcpy_in}
use p4_ubpf_scripts.Agent.Report.{bytes_of_pages}
use p4_ubpf_scripts.Agent.Frame.{Gcm, le_bytes}
use p4_ubpf_scripts.Agent.Detector.{Verdict}
use p4_ubpf_scripts.Agent.Nic.{init_nic_stat}
use p4_ubpf_scripts.Agent.Rounds.{get_threshold, get_pages, State, Readings, round}

-- What a round meets: the shared memory as OVS and the launcher have left it, and the readings.
pub record Turn : Type 0 where
  pub shm : Memory
  pub readings : Readings

module _ (gcm : Gcm) where
  abbrev pub meet : Memory → State → State
  meet shm s = record s { agent = record s.agent { shm = shm } }

  -- The rounds of `while(1)`, one for each turn, and what the detector says in each.
  unfoldable pub rounds :
      (threshold pagesize : ℕ) → List Turn → State → Option (State × List Verdict)
  rounds threshold pagesize [] s = some (s, [])
  rounds threshold pagesize (turn ∷ turns) s = do
    (t, verdict) ← round gcm threshold pagesize turn.readings (meet turn.shm s)
    (u, verdicts) ← rounds threshold pagesize turns t
    some (u, verdict ∷ verdicts)

  -- `main` with ENCRYPT, once it is a daemon and has the shared memory and the key.
  unfoldable pub main_encrypt :
      (snmp : Option (List Text))
      → (pagesize : ℕ) → (tcp_mem : Option (ℕ × ℕ × ℕ)) → List Turn
      → State
      → Option (State × List Verdict)
  main_encrypt snmp pagesize tcp_mem turns s = do
    nic ← init_nic_stat snmp s.nic
    threshold ← get_threshold tcp_mem
    rounds threshold pagesize turns (record s { nic = nic })

-- `memcpy(shm_ptr, &threshold, sizeof(threshold))`
unfoldable pub write_threshold : ℕ → Memory → Memory
write_threshold threshold = memcpy_in 0 (le_bytes 8 threshold)

-- `memcpy(shm_ptr + sizeof(threshold), &used_bytes, sizeof(used_bytes))`
unfoldable pub write_used_bytes : ℕ → Memory → Memory
write_used_bytes used_bytes = memcpy_in 8 (le_bytes 8 used_bytes)

-- The rounds of `while(1)` without ENCRYPT, each with what `used_pages` held and what is read of
-- sockstat.
unfoldable pub plain_rounds : ℕ → List (ℕ × List (Option ℕ)) → Memory → Memory
plain_rounds pagesize [] m = m
plain_rounds pagesize ((unset, lines) ∷ rest) m =
    plain_rounds pagesize rest
      (write_used_bytes (bytes_of_pages (get_pages unset lines) pagesize) m)

-- `main` without ENCRYPT, once it is a daemon and has the shared memory.
unfoldable pub main_plain :
    ℕ → Option (ℕ × ℕ × ℕ) → List (ℕ × List (Option ℕ)) → Memory → Option Memory
main_plain pagesize tcp_mem turns m = do
  threshold ← get_threshold tcp_mem
  some (plain_rounds pagesize turns (write_threshold threshold m))
