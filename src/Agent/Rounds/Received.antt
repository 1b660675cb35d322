-- ===== src/Agent/Rounds/Received.antt =====
-- What a reader of the shared memory gets of a round's report.
use p4_ubpf_scripts.Common.{
  ℕ, zero, suc, ℤ, pos, ◌+◌, ◌^◌, ◌≤◌, ◌<◌, ◌≡◌, refl, false, sym, ap, ◌∙◌, List, [], ◌∷◌, some,
  length, take, arith,
}
use p4_ubpf_scripts.Shm.{Memory, memcpy_out}
use p4_ubpf_scripts.Agent.Report.{bytes_of_pages, report, fill_from}
use p4_ubpf_scripts.Agent.Report.Laws.{high_half, low_half, report_halves}
use p4_ubpf_scripts.Agent.Frame.{
  Gcm, le_bytes, le_number, len_size, iv_size, iv_at, ciphertext_at, ciphertext_size, tag_at,
  tag_bytes,
}
use p4_ubpf_scripts.Agent.Frame.Laws.{Message}
use p4_ubpf_scripts.Agent.Nic.{Nic, get_nic_stat}
use p4_ubpf_scripts.Agent.Rounds.{get_pages, State, Readings, round}
use p4_ubpf_scripts.Agent.Detector.{Verdict}
use p4_ubpf_scripts.Agent.Rounds.Laws.{round-Round, sealed_report}

-- Opening the message with the key: its length, then as many bytes of the ciphertext.
abbrev pub received : Gcm → Memory → ℤ × List ℕ
received gcm m =
    gcm.decrypt (memcpy_out (le_number (memcpy_out len_size 0 m)) ciphertext_at m)
      (memcpy_out iv_size iv_at m) (memcpy_out tag_bytes tag_at m)

memcpy_out-take : (n k at : ℕ) (m : Memory) → n ≤ k → memcpy_out n at m ≡ take n (memcpy_out k at m)
unfolding memcpy_out
memcpy_out-take zero k at m h = refl
memcpy_out-take (suc n) zero at m h = absurd (omega arith)
memcpy_out-take (suc n) (suc k) at m h =
    ap (◌∷◌ (m at)) (memcpy_out-take n k (at + 1) m (omega arith))

length-report :
    (threshold used_bytes : ℕ) (stack : List ℕ)
    → length stack ≡ 8
    → length (report threshold used_bytes stack) ≡ 8
unfolding report fill_from
length-report threshold used_bytes (a ∷ b ∷ c ∷ d ∷ e ∷ f ∷ g ∷ h ∷ []) eight = refl
length-report threshold used_bytes _ eight = absurd (omega arith)

Message-opens :
    (gcm : Gcm) (m : Memory) (buffer plaintext random : List ℕ)
    → length plaintext ≡ 8
    → (gcm.encrypt buffer plaintext random).0 ≡ pos 0
    → Message m plaintext random
        (gcm.encrypt buffer plaintext random).1
        (gcm.encrypt buffer plaintext random).2
    → received gcm m ≡ (pos 0, plaintext)
Message-opens gcm m buffer plaintext random eight done read =
    let sealed = gcm.encrypt buffer plaintext random in
    let size : le_number (memcpy_out len_size 0 m) ≡ length plaintext =
      ap le_number (read.len_read ∙ ap (le_bytes len_size) eight) ∙ sym eight in
    let front : memcpy_out (length plaintext) ciphertext_at m ≡ take (length plaintext) sealed.1 =
      memcpy_out-take (length plaintext) ciphertext_size ciphertext_at m (omega arith)
      ∙ ap (take (length plaintext)) read.ciphertext_read in
    let same_text : memcpy_out (le_number (memcpy_out len_size 0 m)) ciphertext_at m
        ≡ take (length plaintext) sealed.1 =
      ap (λ n. memcpy_out n ciphertext_at m) size ∙ front in
    (λ i. gcm.decrypt (same_text i) (read.iv_read i) (read.tag_read i))
    ∙ gcm.opens buffer plaintext random done

-- When /proc/net/snmp can be read, the buffers have their sizes, the encryption succeeds, and the
-- threshold and the bytes in use both fit in 32 bits, the round comes to its end, and opening the
-- message in the shared memory with the key gives bytes whose halves are the threshold and the
-- bytes in use.
pub round-received :
    (gcm : Gcm) (threshold pagesize : ℕ) (r : Readings) (s : State) (nic : Nic)
    → length r.random ≡ iv_size
    → length s.agent.ciphertext ≡ ciphertext_size
    → length s.report_bytes ≡ 8
    → get_nic_stat false r.snmp s.nic ≡ some nic
    → (sealed_report gcm threshold pagesize r s).0 ≡ pos 0
    → threshold < 2 ^ 32
    → bytes_of_pages (get_pages r.unset r.sockstat) pagesize < 2 ^ 32
    → (t : State) × (verdict : Verdict) × (bytes : List ℕ) × (round gcm threshold pagesize r s
        ≡ some (t, verdict))
      × (received gcm t.agent.shm ≡ (pos 0, bytes))
      × (high_half bytes ≡ threshold)
      × (low_half bytes ≡ bytes_of_pages (get_pages r.unset r.sockstat) pagesize)
round-received gcm threshold pagesize r s nic iv_full buffer_full eight stat done fits small =
    let used_bytes = bytes_of_pages (get_pages r.unset r.sockstat) pagesize in
    let bytes = report threshold used_bytes s.report_bytes in
    let (t, verdict, runs, ended) =
      round-Round gcm threshold pagesize r s nic iv_full buffer_full stat in
    let (high, low) = report_halves threshold used_bytes s.report_bytes fits small eight in
    let opened =
      Message-opens gcm t.agent.shm s.agent.ciphertext bytes r.random
        (length-report threshold used_bytes s.report_bytes eight) done (ended.message done) in
    (t, verdict, bytes, runs, opened, high, low)
