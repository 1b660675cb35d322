-- ===== src/Agent/Rounds/Laws.antt =====
-- What a round of the agent comes to.
use p4_ubpf_scripts.Common.{ℕ, ℤ, pos, ◌≡◌, refl, ap, false, List, some, length}
use p4_ubpf_scripts.Agent.Word.{add64}
use p4_ubpf_scripts.Agent.Report.{bytes_of_pages, report}
use p4_ubpf_scripts.Agent.Frame.{Gcm, encrypt_message, executions, iv_size, ciphertext_size}
use p4_ubpf_scripts.Agent.Frame.Laws.{Message, encrypt_message-Message, executions-encrypt_message}
use p4_ubpf_scripts.Agent.Detector.{Detector, Verdict}
use p4_ubpf_scripts.Agent.Detector
use p4_ubpf_scripts.Agent.Nic.{Nic, get_nic_stat}
use p4_ubpf_scripts.Agent.Rounds.{get_pages, State, Readings, check_p4_execution, round}

-- The report of a round.
abbrev pub reported : ℕ → ℕ → Readings → State → List ℕ
reported threshold pagesize r s =
    report threshold (bytes_of_pages (get_pages r.unset r.sockstat) pagesize) s.report_bytes

-- What wc_AesGcmEncrypt makes of the report.
abbrev pub sealed_report : Gcm → ℕ → ℕ → Readings → State → ℤ × List ℕ × List ℕ
sealed_report gcm threshold pagesize r s =
    gcm.encrypt s.agent.ciphertext (reported threshold pagesize r s) r.random

-- How a round ends, from what OVS had left in the shared memory before it.
pub record Round (gcm : Gcm) (threshold pagesize : ℕ) (r : Readings) (nic : Nic) (s t : State)
    (verdict : Verdict) : Type 0 where
  pub message :
      (sealed_report gcm threshold pagesize r s).0 ≡ pos 0
      → Message t.agent.shm
          (reported threshold pagesize r s)
          r.random
          (sealed_report gcm threshold pagesize r s).1
          (sealed_report gcm threshold pagesize r s).2
  pub judged :
      (t.detector, verdict)
      ≡ Detector.check_p4_execution s.detector (executions gcm s.agent.shm) nic.passed_packets
  pub counters_kept : executions gcm t.agent.shm ≡ executions gcm s.agent.shm
  pub one_more : t.count_from_wakeup ≡ add64 s.count_from_wakeup 1

-- When /proc/net/snmp can be read and the buffers have their sizes, a round of the agent's loop
-- comes to its end; if the encryption has succeeded, the whole message stands in the shared memory;
-- the verdict is that of the counters that OVS had left there before the round, which the message
-- does not disturb; and the round is counted.
pub round-Round :
    (gcm : Gcm) (threshold pagesize : ℕ) (r : Readings) (s : State) (nic : Nic)
    → length r.random ≡ iv_size
    → length s.agent.ciphertext ≡ ciphertext_size
    → get_nic_stat false r.snmp s.nic ≡ some nic
    → (t : State) × (verdict : Verdict) × (round gcm threshold pagesize r s ≡ some (t, verdict))
      × Round gcm threshold pagesize r nic s t verdict
unfolding round check_p4_execution
round-Round gcm threshold pagesize r s nic iv_full buffer_full stat =
    let report_bytes = reported threshold pagesize r s in
    let agent = (encrypt_message gcm r.random report_bytes s.agent).1 in
    let kept = executions-encrypt_message gcm r.random report_bytes s.agent iv_full buffer_full in
    let out =
      Detector.check_p4_execution s.detector (executions gcm agent.shm) nic.passed_packets in
    let t : State = record {
      agent = agent;
      detector = out.0;
      nic = nic;
      report_bytes = report_bytes;
      count_from_wakeup = add64 s.count_from_wakeup 1;
    } in
    (
      t,
      out.1,
      rw stat refl,
      record {
        message = encrypt_message-Message gcm r.random report_bytes s.agent iv_full buffer_full;
        judged = ap (λ e. Detector.check_p4_execution s.detector e nic.passed_packets) kept;
        counters_kept = kept;
        one_more = refl;
      },
    )
