-- ===== src/Agent/Detector/Advance.antt =====
-- The detector on counters told by how far they advance from one round to the next.
use p4_ubpf_scripts.Common.{
  ℕ, suc, ◌+◌, ◌^◌, ◌≤◌, ◌<◌, ◌≡◌, refl, inl, inr, true, false, ◌&&◌, ◌==◌, ltb, [], ◌∷◌, ◌++◌,
  length, drop, arith, Bool-cases,
}
use p4_ubpf_scripts.Agent.Detector.{Detector, start, window, record_round, check_p4_execution}
use p4_ubpf_scripts.Agent.Detector.Refine.{Rounds, Represents, check_p4_execution-Represents, judge}
use p4_ubpf_scripts.Agent.Detector.Runs.{
  Readings, watch, no_rounds, start-Represents, AllBypass, NoBypass, IsBypass, IsCalm, any,
  bypass_warns, NoBypass-quiet,
}

-- In each round the runtimes have counted some packets fewer than have passed since the round before.
abbrev pub Lags : ℕ → ℕ → Readings → Type 0
Lags e p [] = Unit {0}
Lags e p ((executions, passed) ∷ rs) =
    (e ≤ executions)
    × (executions < 2 ^ 64)
    × (passed < 2 ^ 64)
    × (executions + p < passed + e)
    × Lags executions passed rs

-- In each round they have counted no fewer.
abbrev pub KeepsUp : ℕ → ℕ → Readings → Type 0
KeepsUp e p [] = Unit {0}
KeepsUp e p ((executions, passed) ∷ rs) =
    (p ≤ passed)
    × (executions < 2 ^ 64)
    × (passed < 2 ^ 64)
    × (passed + e ≤ executions + p)
    × KeepsUp executions passed rs

-- Whatever a round comes to, its readings are the ones that the next is compared with.
remembers :
    (d : Detector) (executions passed : ℕ)
    → let d' = (check_p4_execution d executions passed).0 in
      (d'.prev_exec ≡ executions) × (d'.prev_pass ≡ passed)
unfolding check_p4_execution record_round
remembers d executions passed = elim (Bool-cases (d.prev_exec == 0 && d.prev_pass == 0)) [
  | inl first ↦ rw first (refl, refl)
  | inr later ↦ elim (Bool-cases (ltb executions d.prev_exec)) [
    | inl back ↦ rw (later, back) (refl, refl)
    | inr on ↦ rw (later, on) (refl, refl)
  ]
]

module _ (d : Detector) (executions passed : ℕ) where
  lag-IsBypass :
      0 < d.prev_exec + d.prev_pass
      → d.prev_exec ≤ executions
      → executions < 2 ^ 64
      → passed < 2 ^ 64
      → executions + d.prev_pass < passed + d.prev_exec
      → IsBypass d executions passed
  lag-IsBypass some_read on e_fits p_fits few = (ground arith, ground arith, ground arith)

  keep_up-IsCalm :
      d.prev_pass ≤ passed
      → executions < 2 ^ 64
      → passed < 2 ^ 64
      → passed + d.prev_exec ≤ executions + d.prev_pass
      → IsCalm d executions passed
  keep_up-IsCalm on e_fits p_fits enough = inr (inr (ground arith))

Lags-AllBypass :
    (rs : Readings) (d : Detector) (e p : ℕ)
    → d.prev_exec ≡ e
    → d.prev_pass ≡ p
    → 0 < e + p
    → Lags e p rs
    → AllBypass d rs
Lags-AllBypass [] d e p same_e same_p some_read lags = tt
Lags-AllBypass ((executions, passed) ∷ rs) d e p same_e same_p some_read
      (on, e_fits, p_fits, few, rest) =
    let (exec, pass) = remembers d executions passed in
    (
      lag-IsBypass d executions passed (omega arith) (omega arith) e_fits p_fits (omega arith),
      Lags-AllBypass rs (check_p4_execution d executions passed).0 executions passed exec pass
          (omega arith) rest,
    )

KeepsUp-NoBypass :
    (rs : Readings) (d : Detector) (e p : ℕ)
    → d.prev_exec ≡ e
    → d.prev_pass ≡ p
    → KeepsUp e p rs
    → NoBypass d rs
KeepsUp-NoBypass [] d e p same_e same_p keeps = tt
KeepsUp-NoBypass ((executions, passed) ∷ rs) d e p same_e same_p
      (on, e_fits, p_fits, enough, rest) =
    let (exec, pass) = remembers d executions passed in
    (
      keep_up-IsCalm d executions passed (omega arith) e_fits p_fits (omega arith),
      KeepsUp-NoBypass rs (check_p4_execution d executions passed).0 executions passed exec pass
          rest,
    )

module _ (five : Readings) (e p : ℕ) (size : length five ≡ window) (some_read : 0 < e + p)
    (lags : Lags e p five) where
  Lags-warns_from :
      (before : Readings) (d : Detector) (r : Rounds)
      → Represents d r
      → any (drop (suc (length before)) (watch d (before ++ ((e, p) ∷ five)))) ≡ true
  unfolding watch
  Lags-warns_from [] d r rep =
      let (rep', _) = check_p4_execution-Represents d r e p rep in
      let (exec, pass) = remembers d e p in
      let d' = (check_p4_execution d e p).0 in
      bypass_warns five d' (judge r e p).0 rep' size
        (Lags-AllBypass five d' e p exec pass some_read lags)
  Lags-warns_from ((executions, passed) ∷ before) d r rep =
      let (rep', _) = check_p4_execution-Represents d r executions passed rep in
      Lags-warns_from before (check_p4_execution d executions passed).0
        (judge r executions passed).0 rep'

  -- After any rounds and one more, five rounds in which the runtimes lag behind bring a warning.
  pub Lags-warns :
      (before : Readings)
      → any (drop (suc (length before)) (watch start (before ++ ((e, p) ∷ five)))) ≡ true
  Lags-warns before = Lags-warns_from before start no_rounds start-Represents

-- From a first reading on, runtimes that keep up bring none.
pub KeepsUp-quiet :
    (e p : ℕ) (rs : Readings) → KeepsUp e p rs → any (watch start ((e, p) ∷ rs)) ≡ false
KeepsUp-quiet e p rs keeps =
    let (exec, pass) = remembers start e p in
    NoBypass-quiet ((e, p) ∷ rs)
      (inl refl, KeepsUp-NoBypass rs (check_p4_execution start e p).0 e p exec pass keeps)
