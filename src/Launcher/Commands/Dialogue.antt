-- ===== src/Launcher/Commands/Dialogue.antt =====
-- What a client that sets the size of the pool is told when it then asks for the status.
use p4_ubpf_scripts.Common.{
  ℕ, suc, ℤ, pos, ◌+◌, ◌^◌, ◌<◌, ◌≤◌, ◌≡◌, ◌≢◌, refl, ap, ◌∙◌, subst, List, [], ◌∷◌, ◌++◌, some,
  arith, map, length, min, max, pos_part,
}
use p4_ubpf_scripts.CString.{codes, starts_with}
use p4_ubpf_scripts.CString.Laws.{print_digits}
use p4_ubpf_scripts.Launcher.State.{P4runtime, Server, max_connections}
use p4_ubpf_scripts.Launcher.Invariant.{IsValid}
use p4_ubpf_scripts.Launcher.Runtimes.{at_most_max}
use p4_ubpf_scripts.Launcher.Runtimes.Rows.{live, busy}
use p4_ubpf_scripts.Launcher.Runtimes.Start.{successes}
use p4_ubpf_scripts.Launcher.Runtimes.Adjust.{adjust_children-Adjusted, adjust_children-returns}
use p4_ubpf_scripts.Launcher.Commands.{
  children, child_pid, adjusted_to, handle_client, handle_status_command,
}
use p4_ubpf_scripts.Launcher.Commands.Replies.{
  live_pids, handle_status_command-live_pids, handle_client-update,
}

length-live_pids : (es : List P4runtime) → length (live_pids es) ≡ live es
unfolding live_pids
length-live_pids [] = refl
length-live_pids (e ∷ es) = ground (arith, length-live_pids es)

pos_part-at_most_max : (n : ℕ) → pos_part (at_most_max (pos n)) ≡ min n max_connections
pos_part-at_most_max n = ground arith

handle_client-status :
    (fork : ℕ → ℤ) (fuel : ℕ) (pkill : ℤ) (s : Server)
    → handle_client fork fuel pkill (codes "status") s ≡ handle_status_command s
unfolding handle_client starts_with
handle_client-status fork fuel pkill s = refl

-- The pool of `s` has `k` children, and `status` says so and lists them.
pub record Tells (fork : ℕ → ℤ) (fuel : ℕ) (k : ℕ) (s : Server) : Type 0 where
  pub pids : List ℤ
  pub as_many : length pids ≡ k
  pub listed : pids ≡ live_pids s.runtimes_table
  pub told :
      (pkill : ℤ)
      → handle_client fork fuel pkill (codes "status") s
        ≡ some (s, children (pos k) ∷ map child_pid pids)

Tells-live :
    (fork : ℕ → ℤ) (fuel : ℕ) (s : Server) → IsValid s → Tells fork fuel (live s.runtimes_table) s
Tells-live fork fuel s v = record {
  pids = live_pids s.runtimes_table;
  as_many = length-live_pids s.runtimes_table;
  listed = refl;
  told = λ pkill. handle_client-status fork fuel pkill s ∙ handle_status_command-live_pids s v;
}

-- From a well-formed state, if fork never returns 0 to the launcher and the children in the pool
-- with the successes among the next `fuel` calls of fork are as many as are asked for (32 at most),
-- then for a number below 2 ^ 31 the text "update " with the number in decimal is answered by it,
-- and in the state that it leaves the text "status" changes nothing and is answered by the number
-- asked for, but at most 32 and no fewer than were in use, and by as many pids: those of the
-- children in the pool, in the order of the table.
pub handle_client-update-status :
    (fork : ℕ → ℤ) (fuel d n : ℕ) (pkill : ℤ) (s : Server)
    → IsValid s
    → ((k : ℕ) → fork k ≢ pos 0)
    → n < 10 ^ suc d
    → n < 2 ^ 31
    → min n max_connections ≤ live s.runtimes_table + successes fork s.forks fuel
    → (t : Server) × (handle_client fork fuel pkill (codes "update " ++ print_digits (suc d) n []) s
        ≡ some (t, adjusted_to (pos n) ∷ []))
      × Tells fork fuel (max (busy s.runtimes_table) (min n max_connections)) t
handle_client-update-status fork fuel d n pkill s v launcher digits small need =
    let limit = pos_part-at_most_max n in
    let (t, e) =
      adjust_children-returns fork fuel (pos n) s v launcher (omega (arith, limit, need)) in
    let adjusted = adjust_children-Adjusted fork fuel (pos n) s v t e in
    (
      t,
      handle_client-update fork fuel d n pkill s digits small ∙ rw e refl,
      subst (λ k. Tells fork fuel k t) (adjusted.size ∙ ap (max (busy s.runtimes_table)) limit)
          (Tells-live fork fuel t adjusted.valid),
    )
