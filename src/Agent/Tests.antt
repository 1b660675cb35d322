-- ===== src/Agent/Tests.antt =====
-- Runs of the agent's detector, and its theorems on concrete readings.
use p4_ubpf_scripts.Common.{inl, inr, ◌≡◌, refl, true, false, [], ◌∷◌, arith}
use p4_ubpf_scripts.Agent.Detector.{start, reread, record_round, check_p4_execution, sum_first}
use p4_ubpf_scripts.Agent.Detector.Runs.{
  Readings, watch, watch_rounds, no_rounds, watch_refines, AllBypass, any, bypass_warns, NoBypass,
  NoBypass-quiet,
}

-- The P4 runtimes stop counting at 100 while packets keep passing.
abbrev bypass_run : Readings
bypass_run = (100, 210) ∷ (100, 220) ∷ (100, 230) ∷ (100, 240) ∷ (100, 250) ∷ []

abbrev honest_run : Readings
honest_run = (100, 110) ∷ (160, 150) ∷ (160, 150) ∷ (170, 160) ∷ []

abbrev mixed_run : Readings
mixed_run = (100, 200) ∷ (150, 240) ∷ (150, 260) ∷ (200, 300) ∷ (200, 320) ∷ (210, 350) ∷ []

bypass_run_warns :
    watch start ((100, 200) ∷ bypass_run) ≡ false ∷ false ∷ false ∷ false ∷ false ∷ true ∷ []
unfolding watch check_p4_execution record_round sum_first
bypass_run_warns = refl

mixed_run_warns : watch start mixed_run ≡ false ∷ false ∷ false ∷ false ∷ false ∷ true ∷ []
unfolding watch check_p4_execution record_round sum_first
mixed_run_warns = refl

watch_refines_example : watch start mixed_run ≡ watch_rounds no_rounds mixed_run
watch_refines_example = watch_refines mixed_run

bypass_run-AllBypass : AllBypass (reread start 100 200) bypass_run
unfolding check_p4_execution record_round sum_first
bypass_run-AllBypass = (
  (refl, refl, refl),
  ((refl, refl, refl), ((refl, refl, refl), ((refl, refl, refl), ((refl, refl, refl), tt)))),
)

bypass_warns_example : any (watch (reread start 100 200) bypass_run) ≡ true
bypass_warns_example =
    bypass_warns bypass_run (reread start 100 200)
      (record { prev_exec = 100; prev_pass = 200; last_rounds = [] })
      (record {
        full = refl;
        idx_in = omega arith;
        filled_in = omega arith;
        same_exec = refl;
        same_pass = refl;
        entries = refl;
      })
      refl bypass_run-AllBypass

honest_run-NoBypass : NoBypass start honest_run
unfolding check_p4_execution record_round sum_first
honest_run-NoBypass = (inl refl, (inr (inr refl), (inr (inr refl), (inr (inr refl), tt))))

NoBypass-quiet_example : any (watch start honest_run) ≡ false
NoBypass-quiet_example = NoBypass-quiet honest_run honest_run-NoBypass
