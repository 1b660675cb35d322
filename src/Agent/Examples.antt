-- ===== src/Agent/Examples.antt =====
-- The theorems on the agent's message, its counters and its rounds, at concrete inputs.
use p4_ubpf_scripts.Common.{
  ℕ, suc, ℤ, pos, minus_one, ◌+◌, ◌^◌, ◌≤◌, ◌≡◌, ◌≢◌, refl, sym, ap, ◌∙◌, false, Bool-cases, inl,
  inr, if◌then◌else◌, leb, List, All, [], ◌∷◌, ◌++◌, none, some, length, take, replicate, arith,
}
use p4_ubpf_scripts.CString.{
  Text, codes, starts_with, same_text, strtoull, skip_spaces, signed_digits, digits_from,
}
use p4_ubpf_scripts.Shm.{Memory}
use p4_ubpf_scripts.Agent.Report.{report, fill_from}
use p4_ubpf_scripts.Agent.Report.Laws.{high_half, low_half, report_lem}
use p4_ubpf_scripts.Agent.Frame.{Gcm, Agent}
use p4_ubpf_scripts.Agent.Detector.{Verdict, start}
use p4_ubpf_scripts.Agent.Nic.{read_snmp, split, scan, Nic, get_nic_stat}
use p4_ubpf_scripts.Agent.Nic.Laws.{
  line, IsWord, read_snmp-columns, counted, get_nic_stat-counts, column,
}
use p4_ubpf_scripts.Agent.Rounds.{State, Readings, round}
use p4_ubpf_scripts.Agent.Rounds.Received.{received, round-received}

-- A cipher that leaves the text as it is, and refuses one that does not fit in the buffer.
abbrev pub overlay : List ℕ → List ℕ → List ℕ
overlay [] buffer = buffer
overlay (c ∷ cs) [] = []
overlay (c ∷ cs) (b ∷ buffer) = c ∷ overlay cs buffer

length-overlay : (cs buffer : List ℕ) → length (overlay cs buffer) ≡ length buffer
length-overlay [] buffer = refl
length-overlay (c ∷ cs) [] = refl
length-overlay (c ∷ cs) (b ∷ buffer) = ap suc (length-overlay cs buffer)

take-overlay :
    (cs buffer : List ℕ) → length cs ≤ length buffer → take (length cs) (overlay cs buffer) ≡ cs
take-overlay [] buffer h = refl
take-overlay (c ∷ cs) [] h = absurd (omega arith)
take-overlay (c ∷ cs) (b ∷ buffer) h = ap (◌∷◌ c) (take-overlay cs buffer (omega arith))

abbrev pub seal : List ℕ → List ℕ → List ℕ → ℤ × List ℕ × List ℕ
seal buffer plaintext iv =
    if leb (length plaintext) (length buffer)
    then (pos 0, overlay plaintext buffer, replicate 16 0)
    else (minus_one, buffer, replicate 16 0)

pub seal-buffer_kept :
    (buffer plaintext iv : List ℕ) → length (seal buffer plaintext iv).1 ≡ length buffer
seal-buffer_kept buffer plaintext iv = elim (Bool-cases (leb (length plaintext) (length buffer))) [
  | inl fits ↦ rw fits (length-overlay plaintext buffer)
  | inr long ↦ rw long refl
]

pub seal-tag_size : (buffer plaintext iv : List ℕ) → length (seal buffer plaintext iv).2 ≡ 16
seal-tag_size buffer plaintext iv = elim (Bool-cases (leb (length plaintext) (length buffer))) [
  | inl fits ↦ rw fits refl
  | inr long ↦ rw long refl
]

minus_one-zero : minus_one ≢ pos 0
minus_one-zero e = ground (arith, e)

abbrev pub opened : List ℕ → ℤ × List ℕ
opened text = (pos 0, text)

pub seal-opens :
    (buffer plaintext iv : List ℕ)
    → (seal buffer plaintext iv).0 ≡ pos 0
    → opened (take (length plaintext) (seal buffer plaintext iv).1) ≡ opened plaintext
seal-opens buffer plaintext iv done = elim (Bool-cases (leb (length plaintext) (length buffer))) [
  | inl fits ↦
      let small : length plaintext ≤ length buffer = ground arith in
      rw fits (ap opened (take-overlay plaintext buffer small))
  | inr long ↦
      let refused : (seal buffer plaintext iv).0 ≡ minus_one = rw long refl in
      absurd (minus_one-zero (sym refused ∙ done))
]

abbrev pub plain : Gcm
plain = record {
  encrypt = seal;
  decrypt = λ cipher_text iv tag. opened cipher_text;
  buffer_kept = seal-buffer_kept;
  tag_size = seal-tag_size;
  opens = seal-opens;
}

-- The values of a line of /proc/net/snmp, with 5 and 6 columns of other names around.
abbrev pub names : List Text
names =
    codes "Ip:"
    ∷ codes "Forwarding"
    ∷ codes "InReceives"
    ∷ codes "InDiscards"
    ∷ codes "OutRequests"
    ∷ []

abbrev values : List Text
values = codes "Ip:" ∷ codes "1" ∷ codes "250" ∷ codes "0" ∷ codes "120" ∷ []

abbrev pub snmp_file : List Text
snmp_file = codes "# first" ∷ line names ∷ line values ∷ codes "Icmp: 1" ∷ []

abbrev pub first_file : List Text
first_file =
    line names ∷ line (codes "Ip:" ∷ codes "1" ∷ codes "200" ∷ codes "0" ∷ codes "100" ∷ []) ∷ []

abbrev no_nic : Nic
no_nic = record {
  passed_packets_rx = 0;
  passed_packets_tx = 0;
  passed_packets = 0;
  passed_packets_rx_offset = 0;
  passed_packets_tx_offset = 0;
}

abbrev pub zeros : Memory
zeros at = 0

abbrev agent : Agent
agent = record {
  shm = zeros;
  iv = replicate 12 0;
  ciphertext = replicate 256 0;
  auth_tag = replicate 16 0;
}

abbrev pub state : State
state = record {
  agent = agent;
  detector = start;
  nic = no_nic;
  report_bytes = replicate 8 0;
  count_from_wakeup = 0;
}

-- 3 pages of 4096 bytes
abbrev pub readings : Readings
readings = record {
  unset = 99;
  sockstat = none ∷ some 3 ∷ some 7 ∷ [];
  random = replicate 12 5;
  snmp = some snmp_file;
}

abbrev counted_nic : Nic
counted_nic = record no_nic {
  passed_packets_rx = 250;
  passed_packets_tx = 120;
  passed_packets = 370;
}

snmp_runs : get_nic_stat false (some snmp_file) no_nic ≡ some counted_nic
unfolding get_nic_stat read_snmp split scan starts_with same_text strtoull skip_spaces signed_digits
    digits_from
snmp_runs = refl

names-IsWord : All IsWord names
names-IsWord = ground arith

values-IsWord : All IsWord values
values-IsWord = ground arith

read_snmp-columns_example :
    read_snmp ((codes "# first" ∷ []) ++ (line names ∷ line values ∷ (codes "Icmp: 1" ∷ [])))
    ≡ record {
      in_receives = column (codes "InReceives") names values 0;
      out_requests = column (codes "OutRequests") names values 0;
    }
unfolding starts_with
read_snmp-columns_example =
    read_snmp-columns (codes "# first" ∷ []) names values (codes "Icmp: 1" ∷ []) (refl, tt) refl
      names-IsWord values-IsWord (omega arith) (omega arith)

-- 50 packets more received and 20 more sent.
get_nic_stat-counts_example : counted first_file snmp_file no_nic ≡ some 70
unfolding read_snmp split scan starts_with same_text strtoull skip_spaces signed_digits digits_from
get_nic_stat-counts_example =
    get_nic_stat-counts first_file snmp_file no_nic 50 20 (omega arith) (omega arith) refl refl

-- 4 GiB and 3 pages: the excess ends up in the threshold.
report_lem_example :
    (high_half (report 4 (2 ^ 32 + 12288) (replicate 8 0)) ≡ 5)
    × (low_half (report 4 (2 ^ 32 + 12288) (replicate 8 0)) ≡ 12288)
report_lem_example = report_lem 4 (2 ^ 32 + 12288) (replicate 8 0) (omega arith) (omega arith) refl

round-received_example :
    (t : State) × (verdict : Verdict) × (bytes : List ℕ) × (round plain 100000 4096 readings state
      ≡ some (t, verdict))
    × (received plain t.agent.shm ≡ (pos 0, bytes))
    × (high_half bytes ≡ 100000)
    × (low_half bytes ≡ 12288)
unfolding report fill_from
round-received_example =
    round-received plain 100000 4096 readings state counted_nic refl refl refl snmp_runs refl
      (omega arith) (omega arith)
