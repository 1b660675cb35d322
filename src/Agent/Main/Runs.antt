-- ===== src/Agent/Main/Runs.antt =====
-- Whole runs of the agent: its rounds warn as the detector does on what OVS has counted.
use p4_ubpf_scripts.Common.{
  ℕ, ◌≡◌, refl, sym, ap, ap₂, ◌∙◌, inl, inr, List, [], ◌∷◌, Option, none, some, Option-cases,
  length, map, map_ext, All,
}
use p4_ubpf_scripts.CString.{Text}
use p4_ubpf_scripts.Agent.Word.{add64, sub64}
use p4_ubpf_scripts.Agent.Frame.{Gcm, encrypt_message, executions, iv_size, ciphertext_size}
use p4_ubpf_scripts.Agent.Frame.Laws.{executions-encrypt_message}
use p4_ubpf_scripts.Agent.Detector.{Detector, Verdict, start}
use p4_ubpf_scripts.Agent.Detector
use p4_ubpf_scripts.Agent.Detector.Refine.{warns}
use p4_ubpf_scripts.Agent.Detector.Runs.{watch, watch_rounds, no_rounds, watch_refines}
use p4_ubpf_scripts.Agent.Nic.{Nic, read_snmp, get_nic_stat}
use p4_ubpf_scripts.Agent.Rounds.{State, Readings, check_p4_execution, round}
use p4_ubpf_scripts.Agent.Rounds.Laws.{reported}
use p4_ubpf_scripts.Agent.Main.{Turn, meet, rounds, main_encrypt}

-- The initialisation vector has its size, and /proc/net/snmp can be read.
abbrev pub IsReadable : Turn → Type 0
IsReadable turn =
    (length turn.readings.random ≡ iv_size)
    × (lines : List Text) × (turn.readings.snmp ≡ some lines)

-- The packets that have passed when the file reads so, from the offsets of `init_nic_stat`.
abbrev pub passed : Nic → Option (List Text) → ℕ
passed nic none = 0
passed nic (some lines) =
    add64 (sub64 (read_snmp lines).in_receives nic.passed_packets_rx_offset)
      (sub64 (read_snmp lines).out_requests nic.passed_packets_tx_offset)

-- The packets that have passed since the file read `first`.
abbrev pub since : List Text → Turn → ℕ
since first turn = elim turn.readings.snmp [
  | none ↦ 0
  | some lines ↦
      add64 (sub64 (read_snmp lines).in_receives (read_snmp first).in_receives)
        (sub64 (read_snmp lines).out_requests (read_snmp first).out_requests)
]

-- What the detector gets to see in a turn.
abbrev pub seen : Gcm → Nic → Turn → ℕ × ℕ
seen gcm nic turn = (executions gcm turn.shm, passed nic turn.readings.snmp)

module _ (gcm : Gcm) (threshold pagesize : ℕ) where
  -- Only the offsets count.
  seen_ext :
      (nic nic' : Nic)
      → nic.passed_packets_rx_offset ≡ nic'.passed_packets_rx_offset
      → nic.passed_packets_tx_offset ≡ nic'.passed_packets_tx_offset
      → (turn : Turn) → seen gcm nic turn ≡ seen gcm nic' turn
  seen_ext nic nic' rx tx turn = elim (Option-cases turn.readings.snmp) [
    | inl missing ↦ rw missing refl
    | inr (lines, e) ↦ rw (e, rx, tx) refl
  ]

  abbrev sealed : Readings → State → State
  sealed r s =
      let report_bytes = reported threshold pagesize r s in
      record s {
        agent = (encrypt_message gcm r.random report_bytes s.agent).1;
        report_bytes = report_bytes;
      }

  buffer_kept :
      (r : Readings) (s : State)
      → length s.agent.ciphertext ≡ ciphertext_size
      → length (sealed r s).agent.ciphertext ≡ ciphertext_size
  unfolding encrypt_message
  buffer_kept r s full =
      gcm.buffer_kept s.agent.ciphertext (reported threshold pagesize r s) r.random ∙ full

  -- A turn comes to its end, in the state of the detector after what was seen, with its verdict.
  record Turned (turn : Turn) (s t : State) (verdict : Verdict) : Type 0 where
    runs : round gcm threshold pagesize turn.readings (meet gcm turn.shm s) ≡ some (t, verdict)
    buffer : length t.agent.ciphertext ≡ ciphertext_size
    judged :
        (t.detector, verdict)
        ≡ Detector.check_p4_execution s.detector (seen gcm s.nic turn).0 (seen gcm s.nic turn).1
    offsets : (later : Turn) → seen gcm t.nic later ≡ seen gcm s.nic later

  round-Turned :
      (turn : Turn) (s : State)
      → length s.agent.ciphertext ≡ ciphertext_size
      → IsReadable turn
      → (t : State) × (verdict : Verdict) × Turned turn s t verdict
  unfolding round check_p4_execution get_nic_stat
  round-Turned turn s full (iv_full, lines, snmp) =
      let r = turn.readings in
      let m = meet gcm turn.shm s in
      let z = sealed r m in
      let now = read_snmp lines in
      let rx = sub64 now.in_receives s.nic.passed_packets_rx_offset in
      let tx = sub64 now.out_requests s.nic.passed_packets_tx_offset in
      let nic : Nic = record s.nic {
        passed_packets_rx = rx;
        passed_packets_tx = tx;
        passed_packets = add64 rx tx;
      } in
      let kept =
        executions-encrypt_message gcm r.random (reported threshold pagesize r m) m.agent iv_full
          full in
      let out = Detector.check_p4_execution s.detector (executions gcm z.agent.shm) (add64 rx tx) in
      let t : State = record z {
        nic = nic;
        detector = out.0;
        count_from_wakeup = add64 s.count_from_wakeup 1;
      } in
      (
        t,
        out.1,
        record {
          runs = rw snmp refl;
          buffer = buffer_kept r m full;
          judged = ap₂ (Detector.check_p4_execution s.detector) kept (ap (passed s.nic) (sym snmp));
          offsets = λ later. seen_ext nic s.nic refl refl later;
        },
      )

  pub rounds-watch :
      (turns : List Turn) (s : State)
      → length s.agent.ciphertext ≡ ciphertext_size
      → All IsReadable turns
      → (t : State) × (verdicts : List Verdict) × (rounds gcm threshold pagesize turns s
          ≡ some (t, verdicts))
        × (map warns verdicts ≡ watch s.detector (map (seen gcm s.nic) turns))
  unfolding rounds watch
  rounds-watch [] s full readable = (s, [], refl, refl)
  rounds-watch (turn ∷ turns) s full (here, later) =
      let (t, verdict, turned) = round-Turned turn s full here in
      let (u, verdicts, runs, warned) = rounds-watch turns t turned.buffer later in
      (
        u,
        verdict ∷ verdicts,
        rw (turned.runs, runs) refl,
        ap₂ ◌∷◌ (ap (λ (o : Detector × Verdict). warns o.1) turned.judged) (
            warned
            ∙ ap₂ watch (ap (λ (o : Detector × Verdict). o.0) turned.judged)
                (map_ext turned.offsets turns)),
      )

-- For the agent with ENCRYPT, from the start of its detector: when /proc/net/snmp can be read at
-- the start and in each round, the thresholds can be read and the buffers have their sizes, then
-- for every sequence of rounds, with any shared memory in each, `main` goes through all of them,
-- and it warns in the same rounds as a plain list of the judged rounds does on what OVS had counted
-- in the shared memory of each round and on the packets that have passed the network stack since
-- the start.
pub main_encrypt-watch :
    (gcm : Gcm) (pagesize low pressure high : ℕ) (first : List Text) (turns : List Turn) (s : State)
    → s.detector ≡ start
    → length s.agent.ciphertext ≡ ciphertext_size
    → All IsReadable turns
    → (t : State) × (verdicts : List Verdict) × (main_encrypt gcm
          (some first)
          pagesize
          (some (low, pressure, high))
          turns
          s
        ≡ some (t, verdicts))
      × (map warns verdicts
          ≡ watch_rounds no_rounds
              (map (λ turn. (executions gcm turn.shm, since first turn)) turns))
unfolding main_encrypt get_nic_stat
main_encrypt-watch gcm pagesize low pressure high first turns s fresh full readable =
    let now = read_snmp first in
    let nic : Nic = record s.nic {
      passed_packets_rx_offset = now.in_receives;
      passed_packets_tx_offset = now.out_requests;
    } in
    let (t, verdicts, runs, warned) =
      rounds-watch gcm pressure pagesize turns (record s { nic = nic }) full readable in
    (
      t,
      verdicts,
      runs,
      warned
          ∙ ap (λ d. watch d (map (seen gcm nic) turns)) fresh
          ∙ watch_refines (map (seen gcm nic) turns),
    )
