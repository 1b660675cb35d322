-- ===== src/Launcher/Commands/Replies.antt =====
-- What a client of p4l_server.c is told.
use p4_ubpf_scripts.Common.{
  ℕ, suc, ℤ, pos, ltb_ℤ, ◌+◌, ◌^◌, ◌<◌, ◌≡◌, refl, ap, ◌∙◌, if◌then◌else◌, List, [], ◌∷◌, ◌++◌,
  some, inl, inr, Bool-cases, arith, map, ◌>>=◌,
}
use p4_ubpf_scripts.CString.{codes, starts_with, skip}
use p4_ubpf_scripts.CString.Laws.{print_digits, atoi-print_digits}
use p4_ubpf_scripts.Launcher.State.{P4runtime, Server}
use p4_ubpf_scripts.Launcher.Invariant.{IsValid}
use p4_ubpf_scripts.Launcher.Runtimes.{is_live, adjust_children}
use p4_ubpf_scripts.Launcher.Runtimes.Rows.{live}
use p4_ubpf_scripts.Launcher.Commands.{
  children, child_pid, adjusted_to, report_rows, handle_status_command, handle_update_command,
  handle_client,
}

-- The pids of the running children, in the order of the table.
unfoldable pub live_pids : List P4runtime → List ℤ
live_pids [] = []
live_pids (e ∷ es) = if is_live e then e.pid ∷ live_pids es else live_pids es

live_pids-none : (es : List P4runtime) → live es ≡ 0 → live_pids es ≡ []
unfolding live_pids
live_pids-none [] e = refl
live_pids-none (x ∷ es) e = ground (arith, live_pids-none es)

-- `reported < runtimes` cuts no child off, where `runtimes` counts them.
report_rows-live_pids :
    (es : List P4runtime) (r n : ℕ)
    → n ≡ r + live es
    → report_rows (pos r) (pos n) es ≡ map child_pid (live_pids es)
unfolding report_rows live_pids
report_rows-live_pids [] r n e = refl
report_rows-live_pids (x ∷ es) r n e = elim (Bool-cases (ltb_ℤ (pos r) (pos n))) [
  | inr done ↦ rw (done, report_rows, live_pids-none (x ∷ es) (ground arith))
  | inl more ↦
      rw (more, report_rows)
        (elim (Bool-cases (is_live x)) [
          | inl running ↦
              rw running
                (ap (◌∷◌ (child_pid x.pid)) (report_rows-live_pids es (r + 1) n (ground arith)))
          | inr gone ↦ rw gone (report_rows-live_pids es r n (ground arith))
        ])
]

-- In a well-formed state `status` changes nothing, tells the number of children in the pool, and
-- lists the pid of each, in the order of the table.
pub handle_status_command-live_pids :
    (s : Server)
    → IsValid s
    → handle_status_command s
      ≡ some
          (s, children (pos (live s.runtimes_table)) ∷ map child_pid (live_pids s.runtimes_table))
unfolding handle_status_command
handle_status_command-live_pids s v =
    ap (λ l. some (s, l))
      (ap (λ r. children r ∷ report_rows (pos 0) r s.runtimes_table) v.counted
        ∙ ap (◌∷◌ (children (pos (live s.runtimes_table))))
            (report_rows-live_pids s.runtimes_table 0 (live s.runtimes_table) (omega arith)))

-- For a number below 2 ^ 31, the text "update " with the number in decimal adjusts the pool to that
-- number and reports it.
pub handle_client-update :
    (fork : ℕ → ℤ) (fuel d n : ℕ) (pkill : ℤ) (s : Server)
    → n < 10 ^ suc d
    → n < 2 ^ 31
    → handle_client fork fuel pkill (codes "update " ++ print_digits (suc d) n []) s
      ≡ (adjust_children fork fuel (pos n) s >>= λ t. some (t, adjusted_to (pos n) ∷ []))
unfolding handle_client handle_update_command starts_with skip
handle_client-update fork fuel d n pkill s h small = rw (atoi-print_digits d n h small)
