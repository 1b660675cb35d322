-- ===== src/Launcher/Shared/Steps.antt =====
-- A store in one row next to the rows of the state, and the message of the agent.
use native.Mathlib.Decide.{ℕ_discrete}
use p4_ubpf_scripts.Common.{
  get_or, set, get_or-set_self, get_or-set_ne, ℕ, ℤ, ◌<◌, ◌≡◌, ◌≢◌, sym, subst, List, length, arith,
}
use p4_ubpf_scripts.Shm.{Memory}
use p4_ubpf_scripts.Agent.Frame.{Gcm, Agent, iv_size, ciphertext_size, encrypt_message}
use p4_ubpf_scripts.Agent.Frame.Laws.{memcpy_out-SameTables, encrypt_message-outside}
use p4_ubpf_scripts.Launcher.State.{Connection, Server, max_connections}
use p4_ubpf_scripts.Launcher.Sessions.{no_session, session, set_p4runtime_id}
use p4_ubpf_scripts.Launcher.Shared.{store_p4runtime_id, IsStored, Stores}
use p4_ubpf_scripts.Launcher.Shared.Stores.{
  IsStored-same, store_p4runtime_id-here, store_p4runtime_id-there,
}

-- A store in one row that makes it the row `c`, and leaves the others.
pub Stores-set :
    (m m' : Memory) (s : Server) (idx : ℕ) (c : Connection)
    → length s.session_table ≡ max_connections
    → idx < max_connections
    → IsStored m' idx c
    → ((j : ℕ) → idx ≢ j → IsStored m j (session s j) → IsStored m' j (session s j))
    → Stores m s
    → (i : ℕ) → i < max_connections
    → IsStored m' i (get_or (set s.session_table idx c) i no_session)
Stores-set m m' s idx c full in_table here others stored i below = elim (ℕ_discrete idx i) [
  | yes same ↦
      subst (λ k. IsStored m' k (get_or (set s.session_table idx c) k no_session)) same
        (subst (IsStored m' idx)
          (sym (get_or-set_self s.session_table idx c no_session (omega (arith, full)))) here)
  | no apart ↦
      subst (IsStored m' i) (sym (get_or-set_ne s.session_table idx i c no_session apart))
        (others i apart (stored i below))
]

-- The launcher's store of an identifier.
pub set_p4runtime_id-Stores :
    (m : Memory) (s : Server) (idx : ℕ) (id : ℤ)
    → length s.session_table ≡ max_connections
    → idx < max_connections
    → Stores m s
    → Stores (store_p4runtime_id idx id m) (set_p4runtime_id s idx id)
set_p4runtime_id-Stores m s idx id full below stored =
    Stores-set m (store_p4runtime_id idx id m) s idx (record (session s idx) { p4runtime_id = id })
      full below (store_p4runtime_id-here m idx id (session s idx) (stored idx below))
      (λ j apart. store_p4runtime_id-there m idx id j (session s j) apart) stored

pub encrypt_message-Stores :
    (gcm : Gcm) (random plaintext : List ℕ) (a : Agent) (s : Server)
    → length random ≡ iv_size
    → length a.ciphertext ≡ ciphertext_size
    → Stores a.shm s
    → Stores (encrypt_message gcm random plaintext a).1.shm s
encrypt_message-Stores gcm random plaintext a s iv_full buffer_full stored i below =
    let after = (encrypt_message gcm random plaintext a).1.shm in
    IsStored-same a.shm after i (session s i)
      (λ n at above end.
        memcpy_out-SameTables n at a.shm after
          (encrypt_message-outside gcm random plaintext a iv_full buffer_full)
          (omega (arith, above)))
      (stored i below)
