-- ===== src/Launcher/Shared/AlarmExamples.antt =====
-- Two runs of the agent on the memory of Examples: packets pass that no runtime counts, and none pass.
use p4_ubpf_scripts.Common.{
  ℕ, ◌+◌, ◌<◌, ◌≡◌, refl, true, false, List, [], ◌∷◌, some, map, drop, arith,
}
use p4_ubpf_scripts.CString.{
  Text, codes, starts_with, same_text, strtoull, skip_spaces, signed_digits, digits_from,
}
use p4_ubpf_scripts.Agent.Detector.{Verdict}
use p4_ubpf_scripts.Agent.Detector.Refine.{warns}
use p4_ubpf_scripts.Agent.Detector.Runs.{any}
use p4_ubpf_scripts.Agent.Detector.Advance.{Lags, KeepsUp}
use p4_ubpf_scripts.Agent.Nic.{read_snmp, split, scan}
use p4_ubpf_scripts.Agent.Nic.Laws.{line}
use p4_ubpf_scripts.Agent.Rounds.{State}
use p4_ubpf_scripts.Agent.Main.{main_encrypt}
use p4_ubpf_scripts.Agent.Examples.{plain, names, readings, first_file, state}
use p4_ubpf_scripts.Launcher.Tests.{forks_well, forks_well-NoReuse, not_stop, not_stop_refuses}
use p4_ubpf_scripts.Launcher.Shared.Watch.{Moment, IsMet, told}
use p4_ubpf_scripts.Launcher.Shared.Alarm.{main_encrypt-warns, main_encrypt-quiet}
use p4_ubpf_scripts.Launcher.Shared.Examples.{
  counted_full, reported, reported-Shared, moment, moment-IsMet,
}

-- The packets received stand in the file as `received`.
abbrev file_at : Text → List Text
file_at received =
    line names ∷ line (codes "Ip:" ∷ codes "1" ∷ received ∷ codes "0" ∷ codes "100" ∷ []) ∷ []

abbrev at : Text → Moment
at received = record {
  turn = record { shm = reported; readings = record readings { snmp = some (file_at received) } };
  server = counted_full;
}

at-IsMet : (received : Text) → IsMet plain forks_well 2 not_stop (at received)
at-IsMet received = record { readable = (refl, file_at received, refl); shared = reported-Shared }

abbrev five : List Moment
five =
    at (codes "220")
    ∷ at (codes "230")
    ∷ at (codes "240")
    ∷ at (codes "250")
    ∷ at (codes "260")
    ∷ []

abbrev told_by : List Moment → List (ℕ × ℕ)
told_by = map (told plain first_file)

lagging : Lags 469 10 ((469, 20) ∷ (469, 30) ∷ (469, 40) ∷ (469, 50) ∷ (469, 60) ∷ [])
lagging = ground arith

abbrev earliest : ℕ × ℕ
earliest = told plain first_file (at (codes "210"))

five-Lags : Lags earliest.0 earliest.1 (told_by five)
unfolding read_snmp split scan starts_with same_text strtoull skip_spaces signed_digits digits_from
five-Lags = lagging

earliest-read : 0 < earliest.0 + earliest.1
unfolding read_snmp split scan starts_with same_text strtoull skip_spaces signed_digits digits_from
earliest-read = omega arith

main_encrypt-warns_example :
    (t : State) × (verdicts : List Verdict) × (main_encrypt plain
        (some first_file)
        4096
        (some (1, 100000, 3))
        (map (λ (m : Moment). m.turn) (at (codes "210") ∷ five))
        state
      ≡ some (t, verdicts))
    × (any (drop 1 (map warns verdicts)) ≡ true)
main_encrypt-warns_example =
    main_encrypt-warns plain forks_well 2 not_stop forks_well-NoReuse not_stop_refuses 4096 1 100000
      3 first_file state refl refl [] (at (codes "210")) five refl earliest-read five-Lags
      (
        at-IsMet (codes "210"),
        (
          at-IsMet (codes "220"),
          (
            at-IsMet (codes "230"),
            (at-IsMet (codes "240"), (at-IsMet (codes "250"), (at-IsMet (codes "260"), tt))),
          ),
        ),
      )

still : KeepsUp 469 70 ((469, 70) ∷ (469, 70) ∷ [])
still = ground arith

moment-KeepsUp :
    let (executions, passed) = told plain first_file moment in
    KeepsUp executions passed (told_by (moment ∷ moment ∷ []))
unfolding read_snmp split scan starts_with same_text strtoull skip_spaces signed_digits digits_from
moment-KeepsUp = still

main_encrypt-quiet_example :
    (t : State) × (verdicts : List Verdict) × (main_encrypt plain
        (some first_file)
        4096
        (some (1, 100000, 3))
        (map (λ (m : Moment). m.turn) (moment ∷ moment ∷ moment ∷ []))
        state
      ≡ some (t, verdicts))
    × (any (map warns verdicts) ≡ false)
main_encrypt-quiet_example =
    main_encrypt-quiet plain forks_well 2 not_stop forks_well-NoReuse not_stop_refuses 4096 1 100000
      3 first_file state refl refl moment (moment ∷ moment ∷ []) moment-KeepsUp
      (moment-IsMet, (moment-IsMet, (moment-IsMet, tt)))
