-- ===== src/Former/Status.antt =====
-- The former launcher's `status`: it lists rows, whether they hold a child or not.
use p4_ubpf_scripts.Common.{ℕ, zero, suc, minus_one, ◌+◌, ◌<◌, ◌≡◌, ◌∙◌, ap, List, get_or, arith}
use p4_ubpf_scripts.Launcher.State.{P4runtime, vacant, Server}
use p4_ubpf_scripts.Launcher.Invariant.{IsValid}
use p4_ubpf_scripts.Launcher.Runtimes.Rows.{live}
use p4_ubpf_scripts.Launcher.Commands.{child_pid, unknown_command}
use p4_ubpf_scripts.Former.{report_from, report_status}

get_or-report_from :
    (n i j : ℕ) (rows : List P4runtime)
    → j < n
    → get_or (report_from i n rows) j unknown_command ≡ child_pid (get_or rows (i + j) vacant).pid
unfolding report_from
get_or-report_from zero i j rows h = absurd (omega arith)
get_or-report_from (suc n) i zero rows h =
    ap (λ k. child_pid (get_or rows k vacant).pid) (omega arith)
get_or-report_from (suc n) i (suc j) rows h =
    get_or-report_from n (i + 1) j rows (omega arith)
    ∙ ap (λ k. child_pid (get_or rows k vacant).pid) (omega arith)

-- In a well-formed state of the former launcher, a vacant row among the first `runtimes` of the
-- pool is listed by `status` as the pid -1.
pub report_status-vacant :
    (s : Server) (i : ℕ)
    → IsValid s
    → i < live s.runtimes_table
    → get_or s.runtimes_table i vacant ≡ vacant
    → get_or (report_status s) (suc i) unknown_command ≡ child_pid minus_one
unfolding report_status
report_status-vacant s i v inside hole = rw v.counted (
    get_or-report_from (live s.runtimes_table) 0 i s.runtimes_table inside
    ∙ ap (λ (e : P4runtime). child_pid e.pid)
        (ap (λ k. get_or s.runtimes_table k vacant) (omega arith) ∙ hole))
