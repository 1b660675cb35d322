-- ===== src/Agent/Rounds.antt =====
-- `main` of user/p4agent/p4agent.c: what it reads of /proc, and one round of its loop.
pub mod Laws
pub mod Received
use p4_ubpf_scripts.Common.{ℕ, ℤ, ◌+◌, Bool, true, false, List, [], ◌∷◌, Option, none, some, ◌>>=◌}
use p4_ubpf_scripts.CString.{Text}
use p4_ubpf_scripts.Agent.Word.{add64}
use p4_ubpf_scripts.Agent.Report.{bytes_of_pages, report}
use p4_ubpf_scripts.Agent.Frame.{Gcm, Agent, encrypt_message, executions}
use p4_ubpf_scripts.Agent.Detector.{Detector, Verdict}
use p4_ubpf_scripts.Agent.Detector
use p4_ubpf_scripts.Agent.Nic.{Nic, get_nic_stat}

-- `fields` is what fscanf reads of tcp_mem, `none` where it does not return 3; the result is `none`
-- where the program exits.
abbrev pub get_threshold : Option (ℕ × ℕ × ℕ) → Option ℕ
get_threshold none = none
get_threshold (some (low, pressure, high)) = some pressure

-- `lines` has what sscanf reads of each line of sockstat, `none` where it does not return 1;
-- `unset` is what the variable holds before.
abbrev pub get_pages : ℕ → List (Option ℕ) → ℕ
get_pages unset [] = unset
get_pages unset (none ∷ lines) = get_pages unset lines
get_pages unset (some used_pages ∷ lines) = used_pages

-- The globals and the statics, and the array of `main`.
pub record State : Type 0 where
  pub agent : Agent
  pub detector : Detector
  pub nic : Nic
  pub report_bytes : List ℕ
  pub count_from_wakeup : ℕ

-- What a round reads from outside.
pub record Readings : Type 0 where
  pub unset : ℕ
  pub sockstat : List (Option ℕ)
  pub random : List ℕ
  pub snmp : Option (List Text)

-- The whole of `check_p4_execution`.
unfoldable pub check_p4_execution : Gcm → Option (List Text) → State → Option (State × Verdict)
check_p4_execution gcm snmp s =
    let executions = executions gcm s.agent.shm in
    do
      nic ← get_nic_stat false snmp s.nic
      let (detector, verdict) = Detector.check_p4_execution s.detector executions nic.passed_packets
      some (record s { nic = nic; detector = detector }, verdict)

-- One round of `while(1)`; an encryption that fails is only logged.
unfoldable pub round : Gcm → (threshold pagesize : ℕ) → Readings → State → Option (State × Verdict)
round gcm threshold pagesize r s =
    let used_bytes = bytes_of_pages (get_pages r.unset r.sockstat) pagesize in
    let report_bytes = report threshold used_bytes s.report_bytes in
    let (ret, agent) = encrypt_message gcm r.random report_bytes s.agent in
    do
      (t, verdict) ←
          check_p4_execution gcm r.snmp (record s { agent = agent; report_bytes = report_bytes })
      some (record t { count_from_wakeup = add64 t.count_from_wakeup 1 }, verdict)
