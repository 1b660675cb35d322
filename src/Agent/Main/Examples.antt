-- ===== src/Agent/Main/Examples.antt =====
-- The theorems on whole runs of the agent at concrete inputs.
use p4_ubpf_scripts.Common.{ℕ, ◌≤◌, ◌≡◌, refl, List, [], ◌∷◌, none, some, map, arith}
use p4_ubpf_scripts.Shm.{Memory}
use p4_ubpf_scripts.Agent.Frame.{executions}
use p4_ubpf_scripts.Agent.Detector.{Verdict}
use p4_ubpf_scripts.Agent.Detector.Refine.{warns}
use p4_ubpf_scripts.Agent.Detector.Runs.{watch_rounds, no_rounds}
use p4_ubpf_scripts.Agent.Rounds.{State, get_pages}
use p4_ubpf_scripts.Agent.Report.{bytes_of_pages}
use p4_ubpf_scripts.Agent.Main.{Turn, main_encrypt, main_plain}
use p4_ubpf_scripts.Agent.Main.Runs.{since, main_encrypt-watch}
use p4_ubpf_scripts.Agent.Main.Plain.{word_at, main_plain-words}
use p4_ubpf_scripts.Agent.Examples.{plain, state, readings, first_file, snmp_file, zeros}

-- OVS counts nothing while packets pass.
abbrev turn : Turn
turn = record { shm = zeros; readings = readings }

abbrev turns : List Turn
turns = turn ∷ turn ∷ []

main_encrypt-watch_example :
    (t : State) × (verdicts : List Verdict) × (main_encrypt plain
        (some first_file)
        4096
        (some (1, 100000, 3))
        turns
        state
      ≡ some (t, verdicts))
    × (map warns verdicts
        ≡ watch_rounds no_rounds
            (map (λ turn. (executions plain turn.shm, since first_file turn)) turns))
main_encrypt-watch_example =
    main_encrypt-watch plain 4096 1 100000 3 first_file turns state refl refl
      ((refl, snmp_file, refl), ((refl, snmp_file, refl), tt))

main_plain-words_example :
    (m : Memory) × (main_plain 4096
        (some (1, 100000, 3))
        ((99, some 3 ∷ some 7 ∷ []) ∷ (7, none ∷ some 9 ∷ []) ∷ [])
        zeros
      ≡ some m)
    × (word_at 0 m ≡ 100000)
    × (word_at 8 m ≡ bytes_of_pages (get_pages 7 (none ∷ some 9 ∷ [])) 4096)
    × ((at : ℕ) → 16 ≤ at → m at ≡ zeros at)
main_plain-words_example =
    main_plain-words 4096 1 100000 3 ((99, some 3 ∷ some 7 ∷ []) ∷ []) 7 (none ∷ some 9 ∷ []) zeros
      (omega arith)
