-- ===== src/Launcher/Shared/Runs.antt =====
-- The launcher, OVS and the agent on one shared memory: their stores in any order.
use p4_ubpf_scripts.Common.{
  ℕ, ℤ, ◌%◌, ◌^◌, ◌<◌, ◌≡◌, refl, sym, subst, inr, Bool, true, false, if◌then◌else◌, List, [], ◌∷◌,
  length, sum, set, get_or, some, arith,
}
use p4_ubpf_scripts.CString.{Text, codes, starts_with}
use p4_ubpf_scripts.Shm.{Memory}
use p4_ubpf_scripts.Launcher.Layout.{table_is_locked}
use p4_ubpf_scripts.Agent.Frame.{Gcm, Agent, iv_size, ciphertext_size, encrypt_message, executions}
use p4_ubpf_scripts.Launcher.State.{PacketCount, Server, max_connections, shm_initialize_table}
use p4_ubpf_scripts.Launcher.Runtimes.Adjust.{adjust_children-Adjusted}
use p4_ubpf_scripts.Launcher.Runtimes.Stop.{stop_all_children-Stopped}
use p4_ubpf_scripts.Launcher.Sessions.{no_session, session}
use p4_ubpf_scripts.Launcher.Sessions.Linked.{NoReuse}
use p4_ubpf_scripts.Launcher.Sessions.Link.{IsSound}
use p4_ubpf_scripts.Launcher.Commands.{Reply, handle_client, boot}
use p4_ubpf_scripts.Launcher.Commands.Boot.{handle_client_cases, boot-IsSound}
use p4_ubpf_scripts.Launcher.Commands.Reach.{
  Reach, booted, later, ovs_writes, ovs_locks, checks, answers, Reach-IsSound,
}
use p4_ubpf_scripts.Launcher.Shared.{
  store_ovs_thread_id, store_packet_count, store_table_locked, clear_table, IsStored, Stores,
}
use p4_ubpf_scripts.Launcher.Shared.Stores.{
  store_ovs_thread_id-here, store_ovs_thread_id-there, store_packet_count-here,
  store_packet_count-there, IsStored-outside,
}
use p4_ubpf_scripts.Launcher.Shared.Clear.{clear_table-Stores}
use p4_ubpf_scripts.Launcher.Shared.Steps.{Stores-set, encrypt_message-Stores}
use p4_ubpf_scripts.Launcher.Shared.Looks.{check_both, check_both-check_session}
use p4_ubpf_scripts.Launcher.Shared.Copies.{check_both-Copied}
use p4_ubpf_scripts.Launcher.Shared.Counts.{counts, executions-Stores}

abbrev pub set_ovs_thread_id : Server → ℕ → ℤ → Server
set_ovs_thread_id s idx id = record s {
  session_table = set s.session_table idx (record (session s idx) { ovs_thread_id = id });
}

abbrev pub set_packet_count : Server → ℕ → PacketCount → Server
set_packet_count s idx count = record s {
  session_table = set s.session_table idx (record (session s idx) { packet_count = count });
}

module _ (gcm : Gcm) (fork : ℕ → ℤ) (fuel : ℕ) (allowed : Text → Bool) where
  -- The shared memory next to the launcher's state, after any sequence of the three programs' stores.
  pub data Shared : Memory → Server → Type 0 where
    starts :
        (m : Memory) (s : Server) {t : Server}
        → length s.runtimes_table ≡ max_connections
        → length s.session_table ≡ max_connections
        → Stores m s
        → boot fork fuel s ≡ some t
        → Shared (clear_table m) t
    opens_or_closes :
        {m : Memory} {s : Server} (idx : ℕ) (id : ℤ)
        → idx < max_connections
        → Shared m s
        → Shared (store_ovs_thread_id idx id m) (set_ovs_thread_id s idx id)
    counts_packets :
        {m : Memory} {s : Server} (idx : ℕ) (count : PacketCount)
        → idx < max_connections
        → length count.iv ≡ 16
        → length count.cipher_text ≡ 8
        → length count.auth_tag ≡ 16
        → Shared m s
        → Shared (store_packet_count idx count m) (set_packet_count s idx count)
    locks :
        {m : Memory} {s : Server} (b : Bool)
        → Shared m s
        → Shared (store_table_locked b m) (record s { table_locked = b })
    looks :
        {m m' : Memory} {s t : Server} (i : ℕ)
        → i < max_connections
        → check_both fork fuel i (s, m) ≡ some (t, m')
        → Shared m s
        → Shared m' t
    answers_client :
        {m : Memory} {s t : Server} (pkill : ℤ) (command : Text) (replies : List Reply)
        → allowed command ≡ true
        → handle_client fork fuel pkill command s ≡ some (t, replies)
        → Shared m s
        → Shared m t
    reports :
        {s : Server} (random plaintext : List ℕ) (a : Agent)
        → length random ≡ iv_size
        → length a.ciphertext ≡ ciphertext_size
        → Shared a.shm s
        → Shared (encrypt_message gcm random plaintext a).1.shm s

  Shared-Reach : {m : Memory} {s : Server} → Shared m s → Reach fork fuel allowed s
  Shared-Reach (starts m s pool sessions stored e) = booted s pool sessions e
  Shared-Reach (opens_or_closes {m} {s} idx id below h) =
      later (Shared-Reach h)
        (ovs_writes idx (record (session s idx) { ovs_thread_id = id }) below refl)
  Shared-Reach (counts_packets {m} {s} idx count below iv text tag h) =
      later (Shared-Reach h)
        (ovs_writes idx (record (session s idx) { packet_count = count }) below refl)
  Shared-Reach (locks b h) = later (Shared-Reach h) (ovs_locks b)
  Shared-Reach (looks {m} {m'} {s} {t} i below e h) =
      later (Shared-Reach h)
        (checks i below (check_both-check_session fork fuel i (s, m) (t, m') e))
  Shared-Reach (answers_client pkill command replies ok e h) =
      later (Shared-Reach h) (answers pkill command replies ok e)
  Shared-Reach (reports random plaintext a iv text h) = Shared-Reach h

module _ (gcm : Gcm) (fork : ℕ → ℤ) (fuel : ℕ) (allowed : Text → Bool) (no_reuse : NoReuse fork)
    (no_stop : (command : Text)
      → allowed command ≡ true
      → starts_with (codes "stop") command ≡ false) where
  Shared-IsSound : {m : Memory} {s : Server} → Shared gcm fork fuel allowed m s → IsSound fork s
  Shared-IsSound h =
      Reach-IsSound fork fuel allowed no_reuse no_stop (Shared-Reach gcm fork fuel allowed h)

  Shared-full :
      {m : Memory} {s : Server}
      → Shared gcm fork fuel allowed m s
      → length s.session_table ≡ max_connections
  Shared-full h = (Shared-IsSound h).valid.sessions_size

  Shared-Stores : {m : Memory} {s : Server} → Shared gcm fork fuel allowed m s → Stores m s
  unfolding shm_initialize_table store_table_locked
  Shared-Stores (starts m s {t} pool sessions stored e) =
      let (_, _, _, same, _) = boot-IsSound fork s pool sessions no_reuse fuel t e in
      λ i below.
        subst (λ table. IsStored (clear_table m) i (get_or table i no_session)) (sym same)
          ((clear_table-Stores m s sessions stored).0 i below)
  Shared-Stores (opens_or_closes {m} {s} idx id below h) =
      let stored = Shared-Stores h in
      Stores-set m (store_ovs_thread_id idx id m) s idx
        (record (session s idx) { ovs_thread_id = id }) (Shared-full h) below
        (store_ovs_thread_id-here m idx id (session s idx) (stored idx below))
        (λ j apart. store_ovs_thread_id-there m idx id j (session s j) apart) stored
  Shared-Stores (counts_packets {m} {s} idx count below iv text tag h) =
      let stored = Shared-Stores h in
      Stores-set m (store_packet_count idx count m) s idx
        (record (session s idx) { packet_count = count }) (Shared-full h) below
        (store_packet_count-here m idx count iv text tag (session s idx) (stored idx below))
        (λ j apart. store_packet_count-there m idx count iv text tag j (session s j) apart) stored
  Shared-Stores (locks {m} {s} b h) =
      let stored = Shared-Stores h in
      λ i below.
        IsStored-outside m i table_is_locked ((if b then 1 else 0) ∷ []) (session s i)
          (inr (omega arith)) (stored i below)
  Shared-Stores (looks {m} {m'} {s} {t} i below e h) =
      (check_both-Copied fork fuel i below (s, m) (t, m')
        (record { valid = (Shared-IsSound h).valid; stored = Shared-Stores h }) e).stored
  Shared-Stores (answers_client {m} {s} {t} pkill command replies ok e h) =
      let valid = (Shared-IsSound h).valid in
      let same : t.session_table ≡ s.session_table =
        handle_client_cases fork fuel (λ u. u.session_table ≡ s.session_table) pkill command s t
          replies refl refl (λ u e'. (adjust_children-Adjusted fork fuel _ s valid u e').sessions)
          (λ _. (stop_all_children-Stopped s valid).sessions) e in
      let stored = Shared-Stores h in
      λ i below.
        subst (λ table. IsStored m i (get_or table i no_session)) (sym same) (stored i below)
  Shared-Stores (reports {s} random plaintext a iv text h) =
      encrypt_message-Stores gcm random plaintext a s iv text (Shared-Stores h)

  -- If fork gives out no pid twice and no client's text is one that ends the children (`stop`),
  -- then after the launcher's start, which clears a table of 32 rows that the memory holds, in
  -- whatever order the launcher looks at its sessions and answers clients, OVS opens and closes
  -- sessions, writes packet counts of their sizes and locks the table, and the agent writes
  -- messages of their sizes, the bytes of the shared memory hold the session table of the
  -- launcher's state, and what the agent sums up is the sum of the counts in its rows, those that
  -- do not open left out, modulo 2 ^ 64.
  pub Shared-executions :
      {m : Memory} {s : Server}
      → Shared gcm fork fuel allowed m s
      → Stores m s × (executions gcm m ≡ sum (counts gcm s) % 2 ^ 64)
  Shared-executions {m} {s} h =
      let stored = Shared-Stores h in (stored, executions-Stores gcm m s (Shared-full h) stored)
