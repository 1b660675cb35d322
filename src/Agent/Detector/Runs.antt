-- ===== src/Agent/Detector/Runs.antt =====
-- Whole runs of the detector of p4agent.c: when the users are warned, and when they never are.
use native.Mathlib.Decide.{dec_lt}
use native.Mathlib.Numerals.{add-one}
use p4_ubpf_scripts.Common.{
  ℕ, zero, suc, ◌+◌, ◌≤◌, ◌≡◌, ◌⊎◌, refl, ap, sym, ◌∙◌, subst, inl, inr, Bool, true, false, ◌&&◌,
  ◌||◌, if◌then◌else◌, ltb, ◌==◌, List, [], ◌∷◌, length, replicate, arith, Bool-cases,
}
use p4_ubpf_scripts.Agent.Word.{sub64}
use p4_ubpf_scripts.Agent.Detector.{
  Detector, start, window, bypassed, record_round, check_p4_execution,
}
use p4_ubpf_scripts.Agent.Detector.Window.{take, sum, push_round}
use p4_ubpf_scripts.Agent.Detector.Refine.{
  Rounds, alarms, judge, warns, Represents, record_round-Represents, check_p4_execution-Represents,
}

-- One sum over the sessions and one packet count for each round of `main`.
abbrev pub Readings : Type 0
Readings = List (ℕ × ℕ)

-- Which rounds warn the users.
unfoldable pub watch : Detector → Readings → List Bool
watch d [] = []
watch d ((executions, passed) ∷ rs) =
    let (d', v) = check_p4_execution d executions passed in warns v ∷ watch d' rs

unfoldable pub watch_rounds : Rounds → Readings → List Bool
watch_rounds r [] = []
watch_rounds r ((executions, passed) ∷ rs) =
    let (r', warned) = judge r executions passed in warned ∷ watch_rounds r' rs

abbrev pub no_rounds : Rounds
no_rounds = record { prev_exec = 0; prev_pass = 0; last_rounds = [] }

pub start-Represents : Represents start no_rounds
start-Represents = record {
  full = refl;
  idx_in = omega arith;
  filled_in = omega arith;
  same_exec = refl;
  same_pass = refl;
  entries = refl;
}

watch_refines_from :
    (rs : Readings) (d : Detector) (r : Rounds) → Represents d r → watch d rs ≡ watch_rounds r rs
unfolding watch watch_rounds
watch_refines_from [] d r rep = refl
watch_refines_from ((executions, passed) ∷ rs) d r rep =
    let (rep', same) = check_p4_execution-Represents d r executions passed rep in
    rw (same, watch_refines_from rs _ _ rep')

-- For every sequence of readings from the start of the agent, the ring of five entries with its
-- index and its fill count warns in the same rounds as a plain list of the rounds judged since the
-- last warning, of which the newest five are looked at.
pub watch_refines : (rs : Readings) → watch start rs ≡ watch_rounds no_rounds rs
watch_refines rs = watch_refines_from rs start no_rounds start-Represents

-- The round is judged, and more packets passed the VM than the P4 runtimes counted.
abbrev pub IsBypass : Detector → ℕ → ℕ → Type 0
IsBypass d executions passed =
    ((d.prev_exec == 0 && d.prev_pass == 0) ≡ false)
    × (ltb executions d.prev_exec ≡ false)
    × (bypassed d executions passed ≡ 1)

abbrev pub AllBypass : Detector → Readings → Type 0
AllBypass d [] = Unit {0}
AllBypass d ((executions, passed) ∷ rs) =
    IsBypass d executions passed × AllBypass (check_p4_execution d executions passed).0 rs

abbrev pub any : List Bool → Bool
any [] = false
any (b ∷ bs) = b || any bs

judged_round :
    (d : Detector) (executions passed : ℕ)
    → IsBypass d executions passed
    → check_p4_execution d executions passed ≡ record_round d 1 executions passed
unfolding check_p4_execution
judged_round d executions passed bypass =
    rw (bypass.0, bypass.1) (ap (λ n. record_round d n executions passed) bypass.2)

take-take_le : (m n : ℕ) (xs : List ℕ) → m ≤ n → take m (take n xs) ≡ take m xs
take-take_le zero n xs le = refl
take-take_le (suc m) zero xs le = absurd (omega arith)
take-take_le (suc m) (suc n) [] le = refl
take-take_le (suc m) (suc n) (x ∷ xs) le = ap (◌∷◌ x) (take-take_le m n xs (omega arith))

-- The newest `m` rounds were bypassed.
abbrev Ones : ℕ → List ℕ → Type 0
Ones m w = take m w ≡ replicate m 1

Ones-push_round : (m : ℕ) (w : List ℕ) → m ≤ 4 → Ones m w → Ones (suc m) (push_round w 1)
Ones-push_round m w small ones = ap (◌∷◌ 1) (take-take_le m 4 w small ∙ ones)

five_alarm : (w : List ℕ) → Ones window (push_round w 1) → alarms (push_round w 1) ≡ true
five_alarm w ones =
    let whole : push_round w 1 ≡ replicate window 1 =
      sym (take-take_le window window (1 ∷ w) (omega arith)) ∙ ones in
    subst (λ v. alarms v ≡ true) (sym whole) refl

-- Five bypassed rounds in a row warn the users in one of them, whatever came before.
bypass_warns_from :
    (rs : Readings) (m : ℕ) (d : Detector) (r : Rounds)
    → Represents d r
    → m ≤ 4
    → m + length rs ≡ window
    → Ones m r.last_rounds
    → AllBypass d rs
    → any (watch d rs) ≡ true
unfolding watch
bypass_warns_from [] m d r rep small five ones all = absurd (omega arith)
bypass_warns_from ((executions, passed) ∷ rs) m d r rep small five ones all =
    let (rep', same) = record_round-Represents d r rep 1 executions passed in
    let rest = rw (judged_round d executions passed all.0) at all.1 in
    rw (judged_round d executions passed all.0, same)
      (elim (Bool-cases (alarms (push_round r.last_rounds 1))) [
        | inl warned ↦ rw warned
        | inr quiet ↦ rw quiet (elim (dec_lt m 4) [
          | yes few ↦
              bypass_warns_from rs (m + 1) _ _ rep' (omega arith) (omega arith)
                (rw (quiet, add-one) (Ones-push_round m r.last_rounds small ones)) rest
          | no most ↦
              let four : m ≡ 4 = omega arith in
              let five_ones : Ones window (push_round r.last_rounds 1) =
                subst (λ k. Ones (suc k) (push_round r.last_rounds 1)) four
                  (Ones-push_round m r.last_rounds small ones) in
              cc (five_alarm r.last_rounds five_ones)
        ])
      ])

-- From every state of the detector that stands for a list of judged rounds, five rounds in each of
-- which the counters have not gone back and the runtimes have counted less than has passed bring a
-- warning.
pub bypass_warns :
    (rs : Readings) (d : Detector) (r : Rounds)
    → Represents d r
    → length rs ≡ window
    → AllBypass d rs
    → any (watch d rs) ≡ true
bypass_warns rs d r rep five all =
    bypass_warns_from rs 0 d r rep (omega arith) (omega arith) refl all

-- The round is not judged, or the P4 runtimes counted no fewer packets than passed the VM.
abbrev pub IsCalm : Detector → ℕ → ℕ → Type 0
IsCalm d executions passed =
    ((d.prev_exec == 0 && d.prev_pass == 0) ≡ true)
    ⊎ (ltb executions d.prev_exec ≡ true)
    ⊎ (bypassed d executions passed ≡ 0)

abbrev pub NoBypass : Detector → Readings → Type 0
NoBypass d [] = Unit {0}
NoBypass d ((executions, passed) ∷ rs) =
    IsCalm d executions passed × NoBypass (check_p4_execution d executions passed).0 rs

sum-take-le : (n : ℕ) (w : List ℕ) → sum (take n w) ≤ sum w
sum-take-le zero w = omega arith
sum-take-le (suc n) [] = omega arith
sum-take-le (suc n) (x ∷ w) = omega (arith, sum-take-le n w)

quiet_alarm : (w : List ℕ) → sum w ≡ 0 → alarms w ≡ false
quiet_alarm w none = ground arith

emptied-quiet : (b : Bool) (w : List ℕ) → sum w ≡ 0 → sum (if b then [] else w) ≡ 0
emptied-quiet true w none = refl
emptied-quiet false w none = none

-- A round that is not a bypass neither warns nor counts.
judge-quiet :
    (r : Rounds) (executions passed : ℕ)
    → ((r.prev_exec == 0 && r.prev_pass == 0) ≡ true)
      ⊎ (ltb executions r.prev_exec ≡ true)
      ⊎ (◌≡◌ {A = ℕ}
          (if ltb (sub64 executions r.prev_exec) (sub64 passed r.prev_pass) then 1 else 0)
          0)
    → sum r.last_rounds ≡ 0
    → (sum (judge r executions passed).0.last_rounds ≡ 0) × ((judge r executions passed).1 ≡ false)
unfolding judge
judge-quiet r executions passed calm none =
    let after : sum (push_round r.last_rounds 0) ≡ 0 = omega (arith, sum-take-le 4 r.last_rounds) in
    elim (Bool-cases (r.prev_exec == 0 && r.prev_pass == 0)) [
      | inl first ↦ rw first (none, refl)
      | inr next ↦ elim (Bool-cases (ltb executions r.prev_exec)) [
        | inl back ↦ rw (next, back) (none, refl)
        | inr on ↦
            let counted : ◌≡◌ {A = ℕ}
                (if ltb (sub64 executions r.prev_exec) (sub64 passed r.prev_pass) then 1 else 0) 0 =
              elim calm [
                | inl first ↦ cc (first, next)
                | inr later ↦ elim later [ inl back ↦ cc (back, on) | inr few ↦ few ]
              ] in
            rw (next, on, counted)
              (
                emptied-quiet (alarms (push_round r.last_rounds 0)) (push_round r.last_rounds 0)
                    after,
                quiet_alarm (push_round r.last_rounds 0) after,
              )
      ]
    ]

NoBypass-quiet_from :
    (rs : Readings) (d : Detector) (r : Rounds)
    → Represents d r
    → sum r.last_rounds ≡ 0
    → NoBypass d rs
    → any (watch d rs) ≡ false
unfolding watch
NoBypass-quiet_from [] d r rep none all = refl
NoBypass-quiet_from ((executions, passed) ∷ rs) d r rep none all =
    let (rep', same) = check_p4_execution-Represents d r executions passed rep in
    let (still, calm) =
      judge-quiet r executions passed (rw (rep.same_exec, rep.same_pass) all.0) none in
    rw (same, calm) (NoBypass-quiet_from rs _ _ rep' still all.1)

-- From the start of the agent, if no round that is judged (not the first reading, and the counters
-- have not gone back) finds that the runtimes have counted less than has passed, there is no
-- warning.
pub NoBypass-quiet : (rs : Readings) → NoBypass start rs → any (watch start rs) ≡ false
NoBypass-quiet rs all = NoBypass-quiet_from rs start no_rounds start-Represents refl all
