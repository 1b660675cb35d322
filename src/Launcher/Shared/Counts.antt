-- ===== src/Launcher/Shared/Counts.antt =====
-- What the agent adds up, told by the rows of the launcher's table.
use p4_ubpf_scripts.Common.{
  ℕ, pos, ◌==ℤ◌, ◌+◌, ◌%◌, ◌^◌, ◌<◌, ◌≡◌, refl, sym, ap, ◌∙◌, inl, inr, Bool-cases, if◌then◌else◌,
  List, length, get_or-map, map, length-map, sum, arith,
}
use p4_ubpf_scripts.Shm.{Memory, max_connections, packet_count_at}
use p4_ubpf_scripts.Agent.Frame.{Gcm, le_number, add_counter, executions}
use p4_ubpf_scripts.Agent.Frame.Counters.{decrypt_counter-parts, executions-Adds}
use p4_ubpf_scripts.Launcher.State.{PacketCount, Connection, Server}
use p4_ubpf_scripts.Launcher.Sessions.{no_session, session}
use p4_ubpf_scripts.Launcher.Shared.{IsStored, Stores}

module _ (gcm : Gcm) where
  -- The number in a packet count, 0 if it does not open.
  abbrev pub count_in : PacketCount → ℕ
  count_in c =
      let (ret, plaintext) = gcm.decrypt c.cipher_text c.iv c.auth_tag in
      if ret ==ℤ pos 0 then le_number plaintext else 0

  abbrev pub counts : Server → List ℕ
  counts s = map (λ c. count_in c.packet_count) s.session_table

  add_counter-IsStored :
      (m : Memory) (i e : ℕ) (c : Connection)
      → IsStored m i c
      → e < 2 ^ 64
      → add_counter gcm i m e ≡ (e + count_in c.packet_count) % 2 ^ 64
  unfolding add_counter
  add_counter-IsStored m i e c s fits =
      let read = decrypt_counter-parts gcm (packet_count_at i) m s.iv s.cipher_text s.auth_tag in
      let count = c.packet_count in
      elim (Bool-cases ((gcm.decrypt count.cipher_text count.iv count.auth_tag).0 ==ℤ pos 0)) [
        | inl opens ↦ rw (read, opens) refl
        | inr fails ↦ rw (read, fails) (omega (arith, fits))
      ]

  -- A memory that holds the table holds the counts.
  pub executions-Stores :
      (m : Memory) (s : Server)
      → length s.session_table ≡ max_connections
      → Stores m s
      → executions gcm m ≡ sum (counts s) % 2 ^ 64
  executions-Stores m s full stored =
      executions-Adds gcm (counts s) m (length-map s.session_table _ ∙ full) (λ i below e fits.
        add_counter-IsStored m i e (session s i) (stored i below) fits
        ∙ ap (λ n. (e + n) % 2 ^ 64)
            (sym (
              get_or-map (λ c. count_in c.packet_count) s.session_table i no_session 0
                (omega (arith, below, full)))))
