-- ===== src/Agent/Detector/Refine.antt =====
-- The detector of p4agent.c warns as a plain list of the last five rounds would.
use p4_ubpf_scripts.Common.{
  ℕ, zero, suc, ◌+◌, ◌%◌, ◌≤◌, ◌<◌, ◌≡◌, refl, ap, sym, ◌∙◌, inl, inr, Bool, true, false, ◌&&◌,
  if◌then◌else◌, ltb, leb, ◌==◌, List, [], set, length, replicate, length-set, arith, Bool-cases,
}
use p4_ubpf_scripts.Agent.Word.{sub64}
use p4_ubpf_scripts.Agent.Detector.{
  Detector, window, threshold, Verdict, first_reading, went_back, judged, sum_first, reread,
  bypassed, record_round, check_p4_execution,
}
use p4_ubpf_scripts.Agent.Detector.Window.{
  take, sum, newest_first, push_round, grown, ring_push, ring_sum, take_push,
}

-- The abstract state: the last readings, and the rounds judged since the last warning, newest
-- first and five at most.
pub record Rounds : Type 0 where
  pub prev_exec : ℕ
  pub prev_pass : ℕ
  pub last_rounds : List ℕ

-- Five rounds are on record, and three of them were bypassed.
abbrev pub alarms : List ℕ → Bool
alarms w = length w == window && leb threshold (sum w)

abbrev pub judge_round : Rounds → ℕ → ℕ → ℕ → Rounds × Bool
judge_round r detected executions passed =
    let w = push_round r.last_rounds detected in
    (
      record {
        prev_exec = executions;
        prev_pass = passed;
        last_rounds = if alarms w then [] else w;
      },
      alarms w,
    )

-- The specification of one round: the new abstract state, and whether the users are warned.
unfoldable pub judge : Rounds → ℕ → ℕ → Rounds × Bool
judge r executions passed =
    let again : Rounds = record r { prev_exec = executions; prev_pass = passed } in
    if r.prev_exec == 0 && r.prev_pass == 0
    then (again, false)
    else if ltb executions r.prev_exec
    then (again, false)
    else judge_round r
        (if ltb (sub64 executions r.prev_exec) (sub64 passed r.prev_pass) then 1 else 0) executions
        passed

abbrev pub warns : Verdict → Bool
warns first_reading = false
warns went_back = false
warns (judged detected count warned) = warned

pub record Represents (d : Detector) (r : Rounds) : Type 0 where
  pub full : length d.history ≡ window
  pub idx_in : d.idx < window
  pub filled_in : d.filled ≤ window
  pub same_exec : r.prev_exec ≡ d.prev_exec
  pub same_pass : r.prev_pass ≡ d.prev_pass
  pub entries : r.last_rounds ≡ take d.filled (newest_first d.history d.idx window)

-- The test of the code is the test on the list, also while the window is not full.
warned-alarms :
    (f : ℕ) (h : List ℕ) (i : ℕ) (w : List ℕ)
    → f ≤ window
    → length h ≡ window
    → i < window
    → w ≡ take f (newest_first h i window)
    → (f == window && leb threshold (sum_first f h)) ≡ alarms w
warned-alarms zero h i w le full lt e = rw e
warned-alarms (suc zero) h i w le full lt e = rw e
warned-alarms (suc (suc zero)) h i w le full lt e = rw e
warned-alarms (suc (suc (suc zero))) h i w le full lt e = rw e
warned-alarms (suc (suc (suc (suc zero)))) h i w le full lt e = rw e
warned-alarms (suc (suc (suc (suc (suc zero))))) h i w le full lt e =
    rw e (ap (leb threshold) (ring_sum h i full lt))
warned-alarms (suc (suc (suc (suc (suc (suc f)))))) h i w le full lt e = absurd (omega arith)

module _ (d : Detector) (r : Rounds) (rep : Represents d r) (detected executions passed : ℕ) where
  abbrev history : List ℕ
  history = set d.history d.idx detected

  abbrev idx : ℕ
  idx = (d.idx + 1) % window

  abbrev rounds : List ℕ
  rounds = push_round r.last_rounds detected

  still_full : length history ≡ window
  still_full = length-set d.history d.idx detected ∙ rep.full

  still_in : idx < window
  still_in = omega arith

  -- The ring after the write stands for the list with one more round.
  pushed : rounds ≡ take (grown d.filled) (newest_first history idx window)
  pushed =
      let ring = newest_first d.history d.idx window in
      ap (λ w. push_round w detected) rep.entries
      ∙ sym (take_push d.filled detected ring rep.filled_in refl)
      ∙ sym (ap (take (grown d.filled)) (ring_push d.history d.idx detected rep.full rep.idx_in))

  same_warning :
      (grown d.filled == window && leb threshold (sum_first (grown d.filled) history))
      ≡ alarms rounds
  same_warning =
      warned-alarms (grown d.filled) history idx rounds (ground (arith, rep.filled_in)) still_full
        still_in pushed

  -- Whether or not the window is emptied, ring and list agree.
  emptied :
      (b : Bool)
      → Represents
          (record {
            prev_exec = executions;
            prev_pass = passed;
            history = if b then replicate window 0 else history;
            idx = idx;
            filled = if b then 0 else grown d.filled;
          })
          (record {
            prev_exec = executions;
            prev_pass = passed;
            last_rounds = if b then [] else rounds;
          })
  emptied true = record {
    full = refl;
    idx_in = still_in;
    filled_in = omega arith;
    same_exec = refl;
    same_pass = refl;
    entries = refl;
  }
  emptied false = record {
    full = still_full;
    idx_in = still_in;
    filled_in = ground (arith, rep.filled_in);
    same_exec = refl;
    same_pass = refl;
    entries = pushed;
  }

  pub record_round-Represents :
      (let (d', v) = record_round d detected executions passed in
        let (r', warned) = judge_round r detected executions passed in
        Represents d' r' × (warns v ≡ warned))
  unfolding record_round
  record_round-Represents = rw same_warning (emptied (alarms rounds), refl)

reread-Represents :
    (d : Detector) (r : Rounds) (executions passed : ℕ)
    → Represents d r
    → Represents
        (reread d executions passed)
        (record r { prev_exec = executions; prev_pass = passed })
reread-Represents d r executions passed rep = record {
  full = rep.full;
  idx_in = rep.idx_in;
  filled_in = rep.filled_in;
  same_exec = refl;
  same_pass = refl;
  entries = rep.entries;
}

-- One round of the code is one round of the specification.
pub check_p4_execution-Represents :
    (d : Detector) (r : Rounds) (executions passed : ℕ)
    → Represents d r
    → (let (d', v) = check_p4_execution d executions passed in
        let (r', warned) = judge r executions passed in Represents d' r' × (warns v ≡ warned))
unfolding check_p4_execution judge
check_p4_execution-Represents d r executions passed rep =
    rw (rep.same_exec, rep.same_pass)
      (elim (Bool-cases (d.prev_exec == 0 && d.prev_pass == 0)) [
        | inl first ↦ rw first (reread-Represents d r executions passed rep, refl)
        | inr next ↦ elim (Bool-cases (ltb executions d.prev_exec)) [
          | inl back ↦ rw (next, back) (reread-Represents d r executions passed rep, refl)
          | inr on ↦
              rw (next, on)
                (record_round-Represents d r rep (bypassed d executions passed) executions passed)
        ]
      ])
