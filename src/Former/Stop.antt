-- ===== src/Former/Stop.antt =====
-- How the former launcher ends all its children: it signals them all, and then waits for each.
use p4_ubpf_scripts.Common.{
  ℤ, pos, ltb_ℤ, ◌+◌, ◌≡◌, ◌∙◌, refl, ap₂, true, if◌then◌else◌, List, [], ◌∷◌, count, All, map,
  arith,
}
use p4_ubpf_scripts.Launcher.State.{P4runtime, vacant, Event, sigterm, waited, Server}
use p4_ubpf_scripts.Launcher.Invariant.{IsValid}
use p4_ubpf_scripts.Launcher.Runtimes.{is_live, stop_rows}
use p4_ubpf_scripts.Launcher.Runtimes
use p4_ubpf_scripts.Launcher.Runtimes.Rows.{IsRow}
use p4_ubpf_scripts.Launcher.Runtimes.Stop.{is_sigterm, has_pid, Stopped, stop_all_children-Stopped}
use p4_ubpf_scripts.Former.{signal_rows, wait_rows, stop_all_children}

stop_rows-empties :
    (es : List P4runtime) (log : List Event)
    → All IsRow es
    → map (λ _. vacant) es ≡ (stop_rows es log).0
unfolding stop_rows
stop_rows-empties [] log rows = refl
stop_rows-empties (e ∷ es) log rows = ap₂ ◌∷◌ (ground arith) (stop_rows-empties es _ rows.1)

sigterm-wait_rows :
    (p : ℤ) (es : List P4runtime) (log : List Event)
    → count (is_sigterm p) (wait_rows es log) ≡ count (is_sigterm p) log
unfolding wait_rows
sigterm-wait_rows p [] log = refl
sigterm-wait_rows p (e ∷ es) log =
    sigterm-wait_rows p es (if is_live e then waited e.pid ∷ log else log) ∙ ground arith

sigterm-signal_rows :
    (p : ℤ) (es : List P4runtime) (log : List Event)
    → ltb_ℤ (pos 0) p ≡ true
    → count (is_sigterm p) (signal_rows es log) ≡ count (is_sigterm p) log + count (has_pid p) es
unfolding signal_rows
sigterm-signal_rows p [] log h = omega arith
sigterm-signal_rows p (e ∷ es) log h =
    let rest = sigterm-signal_rows p es (if is_live e then sigterm e.pid ∷ log else log) h in
    rest ∙ ground arith

-- From a well-formed state, the former `stop_all_children`, which signals all children before it
-- waits for them, keeps what the present one promises (a well-formed state with an empty pool, as
-- many SIGTERMs to each pid as children of that pid were in the pool, and the session table as it
-- was), and both leave the same pool.
pub stop_all_children-agrees :
    (s : Server)
    → IsValid s
    → Stopped s (stop_all_children s)
      × ((stop_all_children s).runtimes_table ≡ (Runtimes.stop_all_children s).runtimes_table)
unfolding stop_all_children Runtimes.stop_all_children
stop_all_children-agrees s v =
    let present = stop_all_children-Stopped s v in
    let same = stop_rows-empties s.runtimes_table s.events v.rows in
    (
      record {
        valid = record {
          pool_size = rw same present.valid.pool_size;
          sessions_size = v.sessions_size;
          rows = rw same present.valid.rows;
          counted = rw same present.valid.counted;
        };
        empty = rw same present.empty;
        sessions = refl;
        signalled = λ p h.
            sigterm-wait_rows p s.runtimes_table (signal_rows s.runtimes_table s.events)
            ∙ sigterm-signal_rows p s.runtimes_table s.events h;
      },
      same,
    )
