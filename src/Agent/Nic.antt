-- ===== src/Agent/Nic.antt =====
-- `get_nic_stat` of user/p4agent/p4agent.c: the packet counts of /proc/net/snmp.
pub mod Laws
use p4_ubpf_scripts.Common.{
  ℕ, zero, suc, ◌+◌, Bool, true, false, ◌||◌, if◌then◌else◌, ◌==◌, List, [], ◌∷◌, Option, none,
  some, take,
}
use p4_ubpf_scripts.CString.{Text, codes, starts_with, same_text, strtoull}
use p4_ubpf_scripts.Agent.Word.{add64, sub64}

-- " \n"
abbrev pub is_delimiter : ℕ → Bool
is_delimiter c = c == 32 || c == 10

abbrev pub close : Text → List Text → List Text
close [] ws = ws
close (c ∷ cs) ws = (c ∷ cs) ∷ ws

-- The token at the very front, which may be empty, and the tokens behind it.
unfoldable pub split : Text → Text × List Text
split [] = ([], [])
split (c ∷ cs) = let (w, ws) = split cs in if is_delimiter c then ([], close w ws) else (c ∷ w, ws)

-- What strtok delivers, call after call.
abbrev pub tokens : Text → List Text
tokens text = close (split text).0 (split text).1

abbrev pub max_tokens : ℕ
max_tokens = 64

pub record Totals : Type 0 where
  pub in_receives : ℕ
  pub out_requests : ℕ

-- The loop over the columns.
unfoldable pub scan : List Text → List Text → Totals → Totals
scan [] vs t = t
scan (h ∷ hs) [] t = t
scan (h ∷ hs) (v ∷ vs) t = scan hs vs (
    if same_text h (codes "InReceives")
    then record t { in_receives = strtoull v }
    else if same_text h (codes "OutRequests")
    then record t { out_requests = strtoull v }
    else t)

abbrev pub no_totals : Totals
no_totals = record { in_receives = 0; out_requests = 0 }

-- The columns of a header line and of the line behind it.
abbrev pub read_values : Text → List Text → Totals
read_values header [] = no_totals
read_values header (values ∷ rest) =
    scan (take max_tokens (tokens header)) (take max_tokens (tokens values)) no_totals

-- `lines` is what fgets delivers of the file, call after call.
unfoldable pub read_snmp : List Text → Totals
read_snmp [] = no_totals
read_snmp (header ∷ rest) =
    let later = read_snmp rest in
    if starts_with (codes "Ip:") header then read_values header rest else later

-- The globals that the function writes.
pub record Nic : Type 0 where
  pub passed_packets_rx : ℕ
  pub passed_packets_tx : ℕ
  pub passed_packets : ℕ
  pub passed_packets_rx_offset : ℕ
  pub passed_packets_tx_offset : ℕ

-- `file` is `none` where fopen fails; the result is `none` where the program exits.
unfoldable pub get_nic_stat : Bool → Option (List Text) → Nic → Option Nic
get_nic_stat is_init none nic = none
get_nic_stat is_init (some lines) nic =
    let t = read_snmp lines in
    let rx = sub64 t.in_receives nic.passed_packets_rx_offset in
    let tx = sub64 t.out_requests nic.passed_packets_tx_offset in
    some (
      if is_init
      then record nic {
        passed_packets_rx_offset = t.in_receives;
        passed_packets_tx_offset = t.out_requests;
      }
      else record nic {
        passed_packets_rx = rx;
        passed_packets_tx = tx;
        passed_packets = add64 rx tx;
      })

abbrev pub init_nic_stat : Option (List Text) → Nic → Option Nic
init_nic_stat = get_nic_stat true
