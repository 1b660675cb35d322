-- ===== src/Client/Examples.antt =====
-- The client's theorems at concrete commands.
use p4_ubpf_scripts.Common.{
  ℕ, ℤ, pos, ◌+◌, ◌<◌, ◌≡◌, refl, false, [], ◌∷◌, some, length, replicate, ◌>>=◌, arith,
}
use p4_ubpf_scripts.CString.{Text, codes}
use p4_ubpf_scripts.CString.Laws.{print_digits}
use p4_ubpf_scripts.Launcher.State.{Server, vacant}
use p4_ubpf_scripts.Launcher.Sessions.{no_session}
use p4_ubpf_scripts.Launcher.Runtimes.{adjust_children}
use p4_ubpf_scripts.Launcher.Commands.{handle_client, adjusted_to}
use p4_ubpf_scripts.Client.{main, sent}
use p4_ubpf_scripts.Client.Laws.{main-joined}
use p4_ubpf_scripts.Client.Delivery.{main-handle_client}

-- `write` takes all the bytes.
abbrev pos_length : Text → ℤ
pos_length text = pos (length text)

main-joined_example :
    main (pos 3) (pos 0) pos_length (codes "update" ∷ codes "4" ∷ []) ≡ sent (codes "update 4")
main-joined_example =
    main-joined (pos 3) (pos 0) pos_length (codes "update") (codes "4" ∷ []) refl refl

-- fork returns 1001, 1002, ...
abbrev next_pid : ℕ → ℤ
next_pid k = pos (1001 + k)

abbrev empty_pool : Server
empty_pool = record {
  session_table = replicate 32 no_session;
  table_locked = false;
  runtimes = pos 0;
  runtimes_table = replicate 32 vacant;
  forks = 0;
  events = [];
}

main-handle_client_example :
    (text : Text) × (main (pos 3) (pos 0) pos_length (codes "update" ∷ print_digits 10 5 [] ∷ [])
      ≡ sent text)
    × (length text < 255)
    × (handle_client next_pid 5 (pos 0) text empty_pool ≡ (
        adjust_children next_pid 5 (pos 5) empty_pool >>= λ t. some (t, adjusted_to (pos 5) ∷ [])))
main-handle_client_example =
    main-handle_client (pos 3) (pos 0) pos_length 5 next_pid 5 (pos 0) empty_pool refl refl
      (λ text. ground arith) (omega arith)
