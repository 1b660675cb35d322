-- ===== src/Launcher/Shared/Clear.antt =====
-- `shm_initialize_table` on the bytes of the table.
use native.Mathlib.Decide.{ℕ_discrete}
use p4_ubpf_scripts.Common.{
  ℕ, zero, suc, minus_one, ◌+◌, ◌≤◌, ◌<◌, ◌≡◌, ◌≢◌, refl, sym, subst, inr, [], ◌∷◌, length,
  get_or-map, arith,
}
use p4_ubpf_scripts.Shm.{Memory, memcpy_in}
use p4_ubpf_scripts.Launcher.Layout.{table_is_locked}
use p4_ubpf_scripts.Launcher.State.{
  Connection, cleared, shm_initialize_table, Server, max_connections,
}
use p4_ubpf_scripts.Launcher.Sessions.{no_session, session}
use p4_ubpf_scripts.Launcher.Shared.Stores.{
  store_p4runtime_id-here, store_p4runtime_id-there, store_ovs_thread_id-here,
  store_ovs_thread_id-there, IsStored-outside,
}
use p4_ubpf_scripts.Launcher.Shared.{
  store_ovs_thread_id, store_p4runtime_id, store_table_locked, clear_from, clear_table, IsStored,
  Stores,
}

-- The two stores in one row.
module _ (m : Memory) (i : ℕ) where
  abbrev row_cleared : Memory
  row_cleared = store_p4runtime_id i minus_one (store_ovs_thread_id i minus_one m)

  row_cleared-here : (c : Connection) → IsStored m i c → IsStored row_cleared i (cleared c)
  row_cleared-here c s =
      store_p4runtime_id-here (store_ovs_thread_id i minus_one m) i minus_one
        (record c { ovs_thread_id = minus_one }) (store_ovs_thread_id-here m i minus_one c s)

  row_cleared-there : (j : ℕ) (c : Connection) → i ≢ j → IsStored m j c → IsStored row_cleared j c
  row_cleared-there j c apart s =
      store_p4runtime_id-there (store_ovs_thread_id i minus_one m) i minus_one j c apart
        (store_ovs_thread_id-there m i minus_one j c apart s)

clear_from-before :
    (n i j : ℕ) (m : Memory) (c : Connection)
    → j < i
    → IsStored m j c
    → IsStored (clear_from i n m) j c
unfolding clear_from
clear_from-before zero i j m c before s = s
clear_from-before (suc n) i j m c before s =
    clear_from-before n (i + 1) j (row_cleared m i) c (omega arith)
      (row_cleared-there m i j c (omega arith) s)

clear_from-within :
    (n i j : ℕ) (m : Memory) (c : Connection)
    → i ≤ j
    → j < i + n
    → IsStored m j c
    → IsStored (clear_from i n m) j (cleared c)
unfolding clear_from
clear_from-within zero i j m c above below s = absurd (omega arith)
clear_from-within (suc n) i j m c above below s = elim (ℕ_discrete i j) [
  | yes here ↦
      subst (λ k. IsStored (clear_from (i + 1) n (row_cleared m i)) k (cleared c)) here
        (clear_from-before n (i + 1) i (row_cleared m i) (cleared c) (omega arith)
          (row_cleared-here m i c (subst (λ k. IsStored m k c) (sym here) s)))
  | no there ↦
      clear_from-within n (i + 1) j (row_cleared m i) c (omega arith) (omega arith)
        (row_cleared-there m i j c there s)
]

-- `shm_initialize_table` on the bytes of the table is what it is on the rows, and unlocks the table.
pub clear_table-Stores :
    (m : Memory) (s : Server)
    → length s.session_table ≡ max_connections
    → Stores m s
    → Stores (clear_table m) (shm_initialize_table s) × (clear_table m table_is_locked ≡ 0)
unfolding clear_table shm_initialize_table store_table_locked memcpy_in
clear_table-Stores m s full stored = (
  λ i below. rw (get_or-map cleared s.session_table i no_session no_session (omega arith)) (
      IsStored-outside (clear_from 0 max_connections m) i table_is_locked (0 ∷ [])
        (cleared (session s i)) (inr (omega arith))
        (clear_from-within max_connections 0 i m (session s i) (omega arith) (omega arith)
          (stored i below))),
  refl,
)
