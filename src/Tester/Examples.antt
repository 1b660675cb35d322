-- ===== src/Tester/Examples.antt =====
-- Three attempts of the tester on a system in which no call fails.
use p4_ubpf_scripts.Common.{◌≡◌, refl, [], ◌∷◌}
use p4_ubpf_scripts.Posix.{returned}
use p4_ubpf_scripts.Posix.Examples.{calm}
use p4_ubpf_scripts.Posix.Effects.{nothing_held, held}
use p4_ubpf_scripts.Tester.{rounds, round, open_socket, connect_to, wait_for, timed_out}
use p4_ubpf_scripts.Tester.Laws.{EndsWith, rounds-EndsWith}

-- select returns 0 there.
rounds_runs : (rounds calm 3 []).0 ≡ returned (timed_out ∷ timed_out ∷ timed_out ∷ [])
unfolding rounds round open_socket connect_to wait_for
rounds_runs = refl

rounds-EndsWith_example : EndsWith nothing_held (rounds calm 3 [])
unfolding held
rounds-EndsWith_example = rounds-EndsWith calm 3 [] nothing_held refl
