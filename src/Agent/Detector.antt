-- ===== src/Agent/Detector.antt =====
-- `check_p4_execution` of p4agent.c from its sums on: the sliding window over the last rounds.
pub mod Window
pub mod Refine
pub mod Runs
pub mod Advance
use p4_ubpf_scripts.Common.{
  ℕ, zero, suc, ◌+◌, ◌%◌, ◌^◌, Bool, true, false, ◌&&◌, if◌then◌else◌, ltb, leb, ◌==◌, List, [],
  ◌∷◌, set, replicate,
}
use p4_ubpf_scripts.Agent.Word.{sub64}

abbrev pub window : ℕ
window = 5

abbrev pub threshold : ℕ
threshold = 3

-- The static variables of the function.
pub record Detector : Type 0 where
  pub prev_exec : ℕ
  pub prev_pass : ℕ
  pub history : List ℕ
  pub idx : ℕ
  pub filled : ℕ

-- C sets statics to zero before `main`.
abbrev pub start : Detector
start = record { prev_exec = 0; prev_pass = 0; history = replicate window 0; idx = 0; filled = 0 }

-- How a round ends: a first reading, counters that went back, or a judged round with the two
-- numbers of the log line and whether the users are warned.
pub data Verdict : Type 0 where
  first_reading : Verdict
  went_back : Verdict
  judged : (detected count : ℕ) → (warned : Bool) → Verdict

-- `for (i = 0; i < n; i++) count += history[i];`
unfoldable pub sum_first : ℕ → List ℕ → ℕ
sum_first zero xs = 0
sum_first (suc n) [] = 0
sum_first (suc n) (x ∷ xs) = x + sum_first n xs

abbrev pub reread : Detector → ℕ → ℕ → Detector
reread d executions passed = record d { prev_exec = executions; prev_pass = passed }

-- `p4_delta < vm_delta`
abbrev pub bypassed : Detector → ℕ → ℕ → ℕ
bypassed d executions passed =
    if ltb (sub64 executions d.prev_exec) (sub64 passed d.prev_pass) then 1 else 0

-- The part below the early returns, for one new entry of the history.
unfoldable pub record_round : Detector → ℕ → ℕ → ℕ → Detector × Verdict
record_round d detected executions passed =
    let history = set d.history d.idx detected in
    let idx = (d.idx + 1) % window in
    let filled = if ltb d.filled window then d.filled + 1 else d.filled in
    let count = sum_first filled history in
    let warned = filled == window && leb threshold count in
    (
      record {
        prev_exec = executions;
        prev_pass = passed;
        history = if warned then replicate window 0 else history;
        idx = idx;
        filled = if warned then 0 else filled;
      },
      judged detected count warned,
    )

-- `executions` is the sum over the sessions, and `passed` is `passed_packets`.
unfoldable pub check_p4_execution : Detector → ℕ → ℕ → Detector × Verdict
check_p4_execution d executions passed =
    if d.prev_exec == 0 && d.prev_pass == 0
    then (reread d executions passed, first_reading)
    else if ltb executions d.prev_exec
    then (reread d executions passed, went_back)
    else record_round d (bypassed d executions passed) executions passed
